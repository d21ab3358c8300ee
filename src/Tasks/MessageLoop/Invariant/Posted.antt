-- ===== src/Tasks/MessageLoop/Invariant/Posted.antt =====
-- TaskRecord::Handle keeps the invariant and fails no check.
use mtl.Base.{
  ℕ, ◌+◌, ◌<◌, ◌^◌, ◌≡◌, refl, ◌∙◌, inl, inr, Bool, true, false, none, some, if◌then◌else◌, find,
  erase, find-erase, is_some, returns, ◌>>◌, check, Ensures, Ensures-bind, Option-cases, arith,
}
use mtl.Magenta.{Status, is_ok}
use mtl.Tasks.Platform.{Platform, IsLawful, Closure, client, quits}
use mtl.Tasks.MessageLoop.{Thread}
use mtl.Tasks.MessageLoop.Dispatch.{Client, run_code, closure_code, handle_task}
use mtl.Tasks.MessageLoop.Invariant.{Inv}
use mtl.Tasks.MessageLoop.Invariant.Reentry.{IsAllowed, Continues, run_code-Inv}
use mtl.Tasks.MessageLoop.Invariant.Handling.{IsAllowedClient, Idle}

module _ {A C TimeDelta Deadline W : Type 0} (platform : Platform A C TimeDelta Deadline)
    (client_code : Client C TimeDelta Deadline W) (lawful : IsLawful platform) (n : ℕ)
    (allowed : IsAllowedClient n client_code) where
  abbrev pub IdleFrom : ℕ → Thread A C Deadline W → Thread A C Deadline W → Type 0
  IdleFrom m s t = Idle platform client_code lawful n allowed m s t

  closure-IsAllowed : (c : Closure C) → IsAllowed n (closure_code platform client_code c)
  unfolding closure_code
  closure-IsAllowed (client c) = allowed.closure c
  closure-IsAllowed quits = tt

  module _ (p : ℕ) (s : Thread A C Deadline W) where
    abbrev pub begun : Thread A C Deadline W
    begun = record s { loop = platform.take_task p s.loop }

    begun-Inv : Inv platform none s → platform.posted s.loop p ≡ true → Inv platform (some p) begun
    begun-Inv inv due = record {
      on_thread = inv.on_thread;
      entry_keyed = inv.entry_keyed;
      entry_range = inv.entry_range;
      next_range = inv.next_range;
      record_owned = inv.record_owned;
      record_waits =
          λ q k h. ground (arith, inv.record_waits q k, lawful.waiting-take_task p s.loop q);
      wait_live = λ q h. ground (arith, inv.wait_live q, lawful.waiting-take_task p s.loop q);
      current_live = inv.current_live;
      removed_current = inv.removed_current;
      removed_gone = inv.removed_gone;
      task_live = λ t. ground (arith, inv.task_live t, lawful.posted-take_task p s.loop t);
      task_running = λ t e. ground (arith, lawful.posted-take_task p s.loop t);
    }

    abbrev ended : Thread A C Deadline W
    ended = record s { task_records = erase p s.task_records }

    ended-Inv : Inv platform (some p) s → Inv platform none ended
    ended-Inv inv = record {
      on_thread = inv.on_thread;
      entry_keyed = inv.entry_keyed;
      entry_range = inv.entry_range;
      next_range = inv.next_range;
      record_owned = inv.record_owned;
      record_waits = inv.record_waits;
      wait_live = inv.wait_live;
      current_live = inv.current_live;
      removed_current = inv.removed_current;
      removed_gone = inv.removed_gone;
      task_live =
          λ t. ground (arith, inv.task_live t, inv.task_running t, find-erase p t s.task_records);
      task_running = λ t e. ground arith;
    }

    ended_lem :
        Inv platform (some p) s
        → (check (is_some (find p s.task_records))
            >> returns (record s { task_records = erase p s.task_records }))
          ≡ returns ended
    ended_lem inv = ground (arith, inv.task_live p)

  module _ (p : ℕ) (s : Thread A C Deadline W) (room : s.next_handler_key + n < 2 ^ 64)
      (inv : Inv platform none s) (idle : s.current_handler ≡ none)
      (due : platform.posted s.loop p ≡ true) where
    run-Continues :
        (b : Bool) (c : Closure C)
        → Ensures (Continues platform client_code lawful (some p) n (begun p s)) (
            if b
            then run_code platform client_code (closure_code platform client_code c) (begun p s)
            else returns (begun p s))
    run-Continues true c =
        run_code-Inv platform client_code lawful (some p) n _ (begun p s) (closure-IsAllowed c) room
          (begun-Inv p s inv due)
    run-Continues false c = record {
      inv = begun-Inv p s inv due;
      kept = record { this_kept = refl; running_kept = refl; current_kept = refl };
      keys = omega arith;
    }

    -- TaskRecord::Handle deletes the record of the task, whether the task ran or not.
    pub handle_task-Idle :
        (status : Status)
        → Ensures (IdleFrom n s) (handle_task platform client_code p status (begun p s))
    unfolding handle_task
    handle_task-Idle status = elim (Option-cases (find p s.task_records)) [
      | inl e ↦ absurd (ground (arith, inv.task_live p))
      | inr (r, e) ↦ rw e (
          Ensures-bind (Continues platform client_code lawful (some p) n (begun p s)) (IdleFrom n s)
            (if is_ok status
              then run_code platform client_code (closure_code platform client_code r.task)
                  (begun p s)
              else returns (begun p s))
            _ (run-Continues (is_ok status) r.task)
            λ t q. rw (ended_lem p t q.inv) (record {
              inv = ended-Inv p t q.inv;
              idle = q.kept.current_kept ∙ idle;
              this_kept = q.kept.this_kept;
              running_kept = q.kept.running_kept;
              keys = q.keys;
            }))
    ]
