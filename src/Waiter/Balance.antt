-- ===== src/Waiter/Balance.antt =====
-- A wait as a whole, from AsyncWait to its end.
use mtl.Base.{
  ℕ, suc, ◌≡◌, refl, ◌∙◌, Option, ◌==◌, false, find, Outcome, ◌>>=◌, Ensures, Ensures-bind,
  Ensures-mono, Option-cases, inl, inr, arith,
}
use mtl.Magenta.{Signals}
use mtl.Tasks.HandlerLoop.{HandlerLoop, IsRegistry}
use mtl.Waiter.{HandleWatcher, CallbackCall, World, Platform, async_wait}
use mtl.Waiter.Waits.{Inv, IsAllocator}
use mtl.Waiter.Starts.{Started, async_wait-Started}
use mtl.Waiter.Ends.{Ended, Ending, end_wait, expected, end_wait-Ended, is_ready, fails, cancelled}

-- The callback's call does not depend on the key.
expected_call :
    (e : Ending) (key handle callback context : ℕ)
    → expected e (record { key = key; handle = handle; callback = callback; context = context })
      ≡ expected e (record { key = 0; handle = handle; callback = callback; context = context })
expected_call (is_ready pending count) key handle callback context = refl
expected_call (fails status) key handle callback context = refl
expected_call cancelled key handle callback context = refl

module _ {L TimeDelta : Type 0} (loop : HandlerLoop L TimeDelta)
    (platform : Platform L TimeDelta) where
  -- AsyncWait, and then the end of the wait by its id.
  abbrev pub one_wait :
      Ending → ℕ → Signals → ℕ → ℕ → ℕ → World L → Outcome (Option CallbackCall × World L)
  one_wait e handle signals timeout callback context s =
      async_wait loop platform handle signals timeout callback context s >>= λ r.
      end_wait loop platform e r.0 handle r.1

module _ {L TimeDelta : Type 0} (loop : HandlerLoop L TimeDelta) (platform : Platform L TimeDelta)
    (Ready : ℕ → L → Type 0) (registry : IsRegistry loop Ready)
    (allocator : IsAllocator loop platform Ready) where
  -- The watchers and the entries are those of before.
  pub record Balanced (n : ℕ) (s t : World L) : Type 0 where
    pub inv : Inv loop platform Ready n t
    pub watchers_same : (q : ℕ) → find q t.watchers ≡ find q s.watchers
    pub entries_same : (k : ℕ) → loop.handler_of t.loop k ≡ loop.handler_of s.loop k

  balanced :
      (n handle callback context id : ℕ) (s u t : World L)
      → Inv loop platform Ready (suc n) s
      → (st : Started loop platform Ready registry allocator n handle callback context s id u)
      → Ended loop platform Ready registry n id
          (record { key = st.key; handle = handle; callback = callback; context = context })
          u
          t
      → Balanced n s t
  balanced n handle callback context id s u t inv st e = record {
    inv = e.inv;
    watchers_same = λ q. ground (arith, e.watchers_left q, st.watchers_left q, st.free);
    entries_same = λ k. elim (Option-cases (loop.handler_of s.loop k)) [
      | inl none_there ↦ ground (arith, e.entries_left k, st.registered.entries k, none_there)
      | inr (q, there) ↦
          let below = registry.key_range (suc n) k q s.loop inv.ready there in
          ground (arith, e.entries_left k, st.registered.entries k, below, st.registered.new)
    ];
  }

  -- A wait on a handle that is not null, from AsyncWait to its end, fails no check, calls its callback
  -- once if it becomes ready or fails, and not if it is cancelled, and leaves the watchers and the
  -- entries of the loop as they were before.
  pub one_wait-Balanced :
      (e : Ending) (n handle : ℕ) (signals : Signals) (timeout callback context : ℕ) (s : World L)
      → (handle == 0) ≡ false
      → Inv loop platform Ready (suc n) s
      → Ensures
          (λ r.
            (r.0
              ≡ expected e
                  (record { key = 0; handle = handle; callback = callback; context = context }))
            × Balanced n s r.1)
          (one_wait loop platform e handle signals timeout callback context s)
  one_wait-Balanced e n handle signals timeout callback context s valid inv =
      Ensures-bind
        (λ r. Started loop platform Ready registry allocator n handle callback context s r.0 r.1) _
        (async_wait loop platform handle signals timeout callback context s) _
        (async_wait-Started loop platform Ready registry allocator n handle signals timeout callback
          context s valid inv)
        (λ (id, u) st.
          let w : HandleWatcher = record {
            key = st.key;
            handle = handle;
            callback = callback;
            context = context;
          } in
          Ensures-mono _ _ (end_wait loop platform e id handle u)
            (end_wait-Ended loop platform Ready registry e n id w u st.inv
              (ground (arith, st.watchers_left id)))
            (λ (called, t) (same, ended). (
              same ∙ expected_call e st.key handle callback context,
              balanced n handle callback context id s u t inv st ended,
            )))
