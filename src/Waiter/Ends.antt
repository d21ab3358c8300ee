-- ===== src/Waiter/Ends.antt =====
-- Each way in which a wait ends.
use mtl.Base.{
  returns, ◌>>=◌, Outcome, ℕ, ◌≡◌, refl, ap, true, Option, none, some, ◌==◌, if◌then◌else◌, find,
  erase, find-erase, Ensures, Ensures-bind, arith,
}
use mtl.Magenta.{Status, Signals, ok, signal_none}
use mtl.Tasks.HandlerLoop.{HandlerLoop, IsRegistry}
use mtl.Tasks.HandlerLoop.Owners.{remove-Owners}
use mtl.Waiter.{
  HandleWatcher, CallbackCall, World, Platform, delete_watcher, cancel_wait, call_callback,
  on_handle_ready, on_handle_error,
}
use mtl.Waiter.Waits.{Inv}

-- How a wait ends.
pub data Ending : Type 0 where
  is_ready : Signals → ℕ → Ending
  fails : Status → Ending
  cancelled : Ending

abbrev pub expected : Ending → HandleWatcher → Option CallbackCall
expected (is_ready pending count) w = some (record {
  callback = w.callback;
  status = ok;
  pending = pending;
  count = count;
  context = w.context;
})
expected (fails status) w = some (record {
  callback = w.callback;
  status = status;
  pending = signal_none;
  count = 0;
  context = w.context;
})
expected cancelled w = none

module _ {L TimeDelta : Type 0} (loop : HandlerLoop L TimeDelta)
    (platform : Platform L TimeDelta) where
  -- What the loop or the owner of the wait calls, and the call of the callback that it makes.
  abbrev pub end_wait : Ending → ℕ → ℕ → World L → Outcome (Option CallbackCall × World L)
  end_wait (is_ready pending count) p handle s =
      on_handle_ready loop platform p handle pending count s >>= λ r. returns (some r.0, r.1)
  end_wait (fails status) p handle s =
      on_handle_error loop platform p handle status s >>= λ r. returns (some r.0, r.1)
  end_wait cancelled p handle s = cancel_wait loop platform p s >>= λ t. returns (none, t)

module _ {L TimeDelta : Type 0} (loop : HandlerLoop L TimeDelta) (platform : Platform L TimeDelta)
    (Ready : ℕ → L → Type 0) where
  module _ (registry : IsRegistry loop Ready) where
    -- The watcher at `p`, with its entry, is gone, and all others are as before.
    pub record Ended (n p : ℕ) (w : HandleWatcher) (s t : World L) : Type 0 where
      pub inv : Inv loop platform Ready n t
      pub watchers_left : (q : ℕ) → find q t.watchers ≡ (if p == q then none else find q s.watchers)
      pub entries_left :
          (k : ℕ)
          → loop.handler_of t.loop k ≡ (if w.key == k then none else loop.handler_of s.loop k)

    module _ (n p : ℕ) (w : HandleWatcher) (s : World L) (inv : Inv loop platform Ready n s)
        (live : find p s.watchers ≡ some w) where
      delete_watcher-Ended : Ensures (Ended n p w s) (delete_watcher loop platform p s)
      unfolding delete_watcher
      delete_watcher-Ended =
          rw (live, inv.key_set p w live)
            (Ensures-bind _ (Ended n p w s) (loop.remove_handler w.key s.loop) _
              (registry.remove_handler_lem n w.key s.loop inv.ready)
              λ l (ready, u). record {
                inv =
                    remove-Owners loop Ready (λ w. w.key) registry n p w s.watchers
                      (erase p s.watchers) s.loop l inv ready u (λ q. find-erase p q s.watchers);
                watchers_left = λ q. find-erase p q s.watchers;
                entries_left = u.entries;
              })

      -- The call of the callback, with what it was started with.
      abbrev calls : Status → Signals → ℕ → CallbackCall
      calls status pending count = record {
        callback = w.callback;
        status = status;
        pending = pending;
        count = count;
        context = w.context;
      }

      call_callback-Ended :
          (status : Status) (pending : Signals) (count : ℕ)
          → Ensures
              (λ r. (r.0 ≡ calls status pending count) × Ended n p w s r.1)
              (call_callback loop platform p status pending count s)
      unfolding call_callback
      call_callback-Ended status pending count = rw live (
          Ensures-bind (Ended n p w s) (λ r. (r.0 ≡ calls status pending count) × Ended n p w s r.1)
            (delete_watcher loop platform p s) _ delete_watcher-Ended (λ t e. (refl, e)))

    -- A wait that becomes ready or fails calls its callback once, with its context and what the loop
    -- reports, and one that is cancelled does not; in each case no check fails, its watcher is deleted
    -- and its entry in the loop removed, and no other watcher or entry changes.
    pub end_wait-Ended :
        (e : Ending) (n p : ℕ) (w : HandleWatcher) (s : World L)
        → Inv loop platform Ready n s
        → find p s.watchers ≡ some w
        → Ensures
            (λ r. (r.0 ≡ expected e w) × Ended n p w s r.1)
            (end_wait loop platform e p w.handle s)
    unfolding on_handle_ready on_handle_error cancel_wait
    end_wait-Ended (is_ready pending count) n p w s inv live =
        let same : (w.handle == w.handle) ≡ true = ground arith in
        rw (live, same)
          (Ensures-bind _ _ (call_callback loop platform p ok pending count s) _
            (call_callback-Ended n p w s inv live ok pending count) (λ r (c, e). (ap some c, e)))
    end_wait-Ended (fails status) n p w s inv live =
        let same : (w.handle == w.handle) ≡ true = ground arith in
        rw (live, same)
          (Ensures-bind _ _ (call_callback loop platform p status signal_none 0 s) _
            (call_callback-Ended n p w s inv live status signal_none 0)
            (λ r (c, e). (ap some c, e)))
    end_wait-Ended cancelled n p w s inv live =
        Ensures-bind _ _ (delete_watcher loop platform p s) _
          (delete_watcher-Ended n p w s inv live) (λ t e. (refl, e))
