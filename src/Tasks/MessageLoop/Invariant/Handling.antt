-- ===== src/Tasks/MessageLoop/Invariant/Handling.antt =====
-- Each call that the async::Loop makes keeps the invariant and fails no check.
use mtl.Base.{
  ℕ, ◌+◌, ◌<◌, ◌≤◌, ◌^◌, ◌≡◌, ◌∙◌, inl, inr, Bool, true, Option, none, some, if◌then◌else◌, find,
  Outcome, ◌>>=◌, ◌>>◌, check, is_null, Ensures, Ensures-bind, Ensures-mono, Option-cases, arith,
}
use mtl.Magenta.{Status, Signals, ok, is_ok}
use mtl.Tasks.Platform.{HandlerRecord, Platform, IsLawful}
use mtl.Tasks.MessageLoop.{Thread, deref}
use mtl.Tasks.MessageLoop.Dispatch.{Client, Code, run_code, handle_wait, drop_current, finish}
use mtl.Tasks.MessageLoop.Invariant.{Inv}
use mtl.Tasks.MessageLoop.Invariant.Reentry.{IsAllowed, run_code-Inv}
use mtl.Tasks.MessageLoop.Invariant.Waits.{taken, taken-Inv, drop_current-Inv, finish-Inv}

entered :
    {R B : Type 0} (current : Option ℕ) (found : Option R) {r : R} (f : R → Outcome B)
    → current ≡ none
    → found ≡ some r
    → (check (is_null current) >> (deref found >>= f)) ≡ f r
entered current found f h e = rw (h, e)

-- Each virtual method and each closure of the client adds at most `n` handlers when it runs.
pub record IsAllowedClient {C TimeDelta Deadline W : Type 0} (n : ℕ)
    (c : Client C TimeDelta Deadline W) : Type 0 where
  pub ready :
      (handler object : ℕ) (observed : Signals) (count : ℕ)
      → IsAllowed n (c.on_handle_ready handler object observed count)
  pub error :
      (handler object : ℕ) (status : Status) → IsAllowed n (c.on_handle_error handler object status)
  pub closure : (closure : C) → IsAllowed n (c.call closure)

module _ {A C TimeDelta Deadline W : Type 0} (platform : Platform A C TimeDelta Deadline)
    (client_code : Client C TimeDelta Deadline W) (lawful : IsLawful platform) (n : ℕ)
    (allowed : IsAllowedClient n client_code) where
  -- Between two calls: the invariant holds, no handler is current, and at most `m` keys were used.
  pub record Idle (m : ℕ) (s t : Thread A C Deadline W) : Type 0 where
    pub inv : Inv platform none t
    pub idle : t.current_handler ≡ none
    pub this_kept : t.this ≡ s.this
    pub running_kept : t.is_running ≡ s.is_running
    pub keys : t.next_handler_key ≤ s.next_handler_key + m

  -- The end of handle_wait, from the state that the client's code leaves.
  abbrev pub waited : ℕ → Bool × Thread A C Deadline W → Thread A C Deadline W
  waited p r = if r.0 then record r.1 { loop = platform.wait_again p r.1.loop } else r.1

  handle_wait_lem :
      (p : ℕ) (status : Status) (observed : Signals) (count : ℕ) (s : Thread A C Deadline W)
      (r : HandlerRecord Deadline)
      → s.current_handler ≡ none
      → find p s.handler_records ≡ some r
      → handle_wait platform client_code p status observed count
          (record s { loop = platform.take_wait p s.loop })
        ≡ ((if is_ok status
              then run_code platform client_code
                  (client_code.on_handle_ready r.handler r.object observed count)
                  (taken platform lawful client_code p s)
              else (run_code platform client_code
                    (client_code.on_handle_error r.handler r.object status)
                    (taken platform lawful client_code p s)
                  >>= drop_current platform client_code p))
            >>= finish platform client_code p)
  unfolding handle_wait
  handle_wait_lem p status observed count s r idle e =
      entered s.current_handler (find p s.handler_records) _ idle e

  -- While the client's code for the wait at `p` runs, and after it.
  record Ran (p : ℕ) (s t : Thread A C Deadline W) : Type 0 where
    inv : Inv platform none t
    current : t.current_handler ≡ some p
    this_kept : t.this ≡ s.this
    running_kept : t.is_running ≡ s.is_running
    keys : t.next_handler_key ≤ s.next_handler_key + n

  module _ (p : ℕ) (s : Thread A C Deadline W) (room : s.next_handler_key + n < 2 ^ 64)
      (inv : Inv platform none s) (idle : s.current_handler ≡ none)
      (waits : platform.waiting s.loop p ≡ true) where
    abbrev entry : Thread A C Deadline W
    entry = taken platform lawful client_code p s

    run-Ran :
        (c : Code C TimeDelta Deadline W)
        → IsAllowed n c
        → Ensures (Ran p s) (run_code platform client_code c entry)
    run-Ran c fits =
        Ensures-mono _ (Ran p s) (run_code platform client_code c entry)
          (run_code-Inv platform client_code lawful none n c entry fits room
            (taken-Inv platform lawful client_code p s inv idle waits))
          λ t q. record {
            inv = q.inv;
            current = q.kept.current_kept;
            this_kept = q.kept.this_kept;
            running_kept = q.kept.running_kept;
            keys = q.keys;
          }

    drop-Ran :
        (t : Thread A C Deadline W)
        → Ran p s t
        → Ensures (Ran p s) (drop_current platform client_code p t)
    drop-Ran t q =
        Ensures-mono _ (Ran p s) (drop_current platform client_code p t)
          (drop_current-Inv platform lawful client_code p t q.inv q.current)
          λ u (i, c, _, a). record {
            inv = i;
            current = c;
            this_kept = a.this_kept ∙ q.this_kept;
            running_kept = a.running_kept ∙ q.running_kept;
            keys = omega (arith, q.keys, a.keys_kept);
          }

    finish-Idle :
        (t : Thread A C Deadline W)
        → Ran p s t
        → Ensures (λ r. Idle n s (waited p r)) (finish platform client_code p t)
    finish-Idle t q =
        Ensures-mono _ _ (finish platform client_code p t)
          (finish-Inv platform lawful client_code p t q.inv q.current)
          λ r (i, c, a). record {
            inv = i;
            idle = ground (arith, c);
            this_kept = ground (arith, a.this_kept, q.this_kept);
            running_kept = ground (arith, a.running_kept, q.running_kept);
            keys = ground (arith, q.keys, a.keys_kept);
          }

    -- Handle, called for a wait that is outstanding while no handler runs.
    pub handle_wait-Idle :
        (status : Status) (observed : Signals) (count : ℕ)
        → Ensures
            (λ r. Idle n s (waited p r))
            (handle_wait platform client_code p status observed count
              (record s { loop = platform.take_wait p s.loop }))
    handle_wait-Idle status observed count = elim (Option-cases (find p s.handler_records)) [
      | inl e ↦ absurd ((inv.wait_live p waits).0 (ground arith))
      | inr (r, e) ↦ rw (handle_wait_lem p status observed count s r idle e) (
          Ensures-bind (Ran p s) _ _ (finish platform client_code p)
            (ran status r.handler r.object observed count) finish-Idle)
    ]
      where
        ran :
            (status : Status) (handler object : ℕ) (observed : Signals) (count : ℕ)
            → Ensures (Ran p s) (
                if is_ok status
                then run_code platform client_code
                    (client_code.on_handle_ready handler object observed count)
                    entry
                else (run_code platform client_code
                      (client_code.on_handle_error handler object status)
                      entry
                    >>= drop_current platform client_code p))
        ran ok handler object observed count =
            run-Ran _ (allowed.ready handler object observed count)
        ran status handler object observed count =
            Ensures-bind (Ran p s) (Ran p s) _ _ (run-Ran _ (allowed.error handler object status))
              drop-Ran
