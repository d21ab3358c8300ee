-- ===== src/Tasks/MessageLoop/Invariant/Dispatches.antt =====
-- The calls that the async::Loop makes, each with the epilogue after it: every sequence of calls that
-- are due keeps the invariant and fails no check.
use mtl.Base.{
  ℕ, ◌+◌, ◌*◌, ◌<◌, ◌^◌, ◌≡◌, refl, ◌∙◌, inl, inr, true, none, some, List, [], ◌∷◌, length, returns,
  Ensures, Ensures-bind, Ensures-bind_eq, Ensures-mono, Option-cases, arith,
}
use mtl.Tasks.Platform.{Platform, IsLawful}
use mtl.Tasks.MessageLoop.{Thread}
use mtl.Tasks.MessageLoop.Dispatch.{
  Client, Call, wait, task, run_code, handle_wait, handle_task, epilogue, dispatch, dispatch_all,
}
use mtl.Tasks.MessageLoop.Invariant.{Inv}
use mtl.Tasks.MessageLoop.Invariant.Reentry.{run_code-Inv}
use mtl.Tasks.MessageLoop.Invariant.Handling.{IsAllowedClient, handle_wait-Idle}
use mtl.Tasks.MessageLoop.Invariant.Posted.{IdleFrom, begun, handle_task-Idle}

module _ {A C TimeDelta Deadline W : Type 0} (platform : Platform A C TimeDelta Deadline)
    (client_code : Client C TimeDelta Deadline W) where
  -- The async::Loop still has to make the call.
  abbrev pub IsDue : Call → Thread A C Deadline W → Type 0
  IsDue (wait p status observed count) s = platform.waiting s.loop p ≡ true
  IsDue (task p status) s = platform.posted s.loop p ≡ true

  -- Each call is due when it is made.
  abbrev pub AreDue : List Call → Thread A C Deadline W → Type 0
  AreDue [] s = Unit
  AreDue (c ∷ cs) s =
      IsDue c s
      × ((t : Thread A C Deadline W) → dispatch platform client_code c s ≡ returns t → AreDue cs t)

  module _ (lawful : IsLawful platform) (n : ℕ) (allowed : IsAllowedClient n client_code) where
    abbrev pub After : ℕ → Thread A C Deadline W → Thread A C Deadline W → Type 0
    After m s t = IdleFrom platform client_code lawful n allowed m s t

    later :
        {m k : ℕ} {s t u : Thread A C Deadline W} → After m s t → After k t u → After (m + k) s u
    later p q = record {
      inv = q.inv;
      idle = q.idle;
      this_kept = q.this_kept ∙ p.this_kept;
      running_kept = q.running_kept ∙ p.running_kept;
      keys = omega (arith, p.keys, q.keys);
    }

    epilogue-none :
        (t : Thread A C Deadline W)
        → t.after_task_callback ≡ none
        → epilogue platform client_code t ≡ returns t
    unfolding epilogue
    epilogue-none t e = ground arith

    epilogue-some :
        (t : Thread A C Deadline W) (c : C)
        → t.after_task_callback ≡ some c
        → epilogue platform client_code t ≡ run_code platform client_code (client_code.call c) t
    unfolding epilogue
    epilogue-some t c e = ground arith

    epilogue-Idle :
        (t : Thread A C Deadline W)
        → t.next_handler_key + n < 2 ^ 64
        → Inv platform none t
        → t.current_handler ≡ none
        → Ensures (After n t) (epilogue platform client_code t)
    epilogue-Idle t room inv idle = elim (Option-cases t.after_task_callback) [
      | inl e ↦ rw (epilogue-none t e) (record {
        inv = inv;
        idle = idle;
        this_kept = refl;
        running_kept = refl;
        keys = omega arith;
      })
      | inr (c, e) ↦ rw (epilogue-some t c e) (
          Ensures-mono _ (After n t) (run_code platform client_code (client_code.call c) t)
            (run_code-Inv platform client_code lawful none n (client_code.call c) t
              (allowed.closure c) room inv)
            λ u q. record {
              inv = q.inv;
              idle = q.kept.current_kept ∙ idle;
              this_kept = q.kept.this_kept;
              running_kept = q.kept.running_kept;
              keys = q.keys;
            })
    ]

    with_epilogue :
        (s t : Thread A C Deadline W)
        → s.next_handler_key + 2 * n < 2 ^ 64
        → After n s t
        → Ensures (After (2 * n) s) (epilogue platform client_code t)
    with_epilogue s t room q =
        Ensures-mono (After n t) (After (2 * n) s) (epilogue platform client_code t)
          (epilogue-Idle t (omega (arith, q.keys)) q.inv q.idle)
          λ u v. record {
            inv = v.inv;
            idle = v.idle;
            this_kept = v.this_kept ∙ q.this_kept;
            running_kept = v.running_kept ∙ q.running_kept;
            keys = omega (arith, q.keys, v.keys);
          }

    -- One call of the async::Loop, with its epilogue.
    pub dispatch-Idle :
        (c : Call) (s : Thread A C Deadline W)
        → s.next_handler_key + 2 * n < 2 ^ 64
        → Inv platform none s
        → s.current_handler ≡ none
        → IsDue c s
        → Ensures (After (2 * n) s) (dispatch platform client_code c s)
    unfolding dispatch
    dispatch-Idle (wait p status observed count) s room inv idle due =
        Ensures-bind _ (After (2 * n) s)
          (handle_wait platform client_code p status observed count
            (record s { loop = platform.take_wait p s.loop }))
          _
          (handle_wait-Idle platform client_code lawful n allowed p s (omega arith) inv idle due
            status observed count)
          λ r q. with_epilogue s _ room q
    dispatch-Idle (task p status) s room inv idle due =
        Ensures-bind _ (After (2 * n) s)
          (handle_task platform client_code p status
            (begun platform client_code lawful n allowed p s))
          _
          (handle_task-Idle platform client_code lawful n allowed p s (omega arith) inv idle due
            status)
          λ t q. with_epilogue s t room q

    pub dispatch_all-Idle :
        (cs : List Call) (s : Thread A C Deadline W)
        → s.next_handler_key + length cs * (2 * n) < 2 ^ 64
        → Inv platform none s
        → s.current_handler ≡ none
        → AreDue cs s
        → Ensures (After (length cs * (2 * n)) s) (dispatch_all platform client_code cs s)
    unfolding dispatch_all
    dispatch_all-Idle [] s room inv idle due = record {
      inv = inv;
      idle = idle;
      this_kept = refl;
      running_kept = refl;
      keys = omega arith;
    }
    dispatch_all-Idle (c ∷ cs) s room inv idle due =
        Ensures-bind_eq (After (2 * n) s) (After (length (c ∷ cs) * (2 * n)) s)
          (dispatch platform client_code c s) (dispatch_all platform client_code cs)
          (dispatch-Idle c s (omega arith) inv idle due.0)
          λ t e q.
            Ensures-mono _ _ (dispatch_all platform client_code cs t)
              (dispatch_all-Idle cs t (omega (arith, q.keys)) q.inv q.idle (due.1 t e))
              λ u v. record {
                inv = v.inv;
                idle = v.idle;
                this_kept = v.this_kept ∙ q.this_kept;
                running_kept = v.running_kept ∙ q.running_kept;
                keys = omega (arith, q.keys, v.keys);
              }
