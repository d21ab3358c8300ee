-- ===== src/Tasks/MessageLoop/Invariant/Runs.antt =====
-- Whole runs of a MessageLoop fail no check, and a loop that is shut down leaves nothing behind.
use mtl.Base.{
  ℕ, ◌+◌, ◌*◌, ◌<◌, ◌^◌, ◌≡◌, refl, inl, inr, not, true, false, none, List, ◌||◌, length, find,
  is_empty, is_empty_of_find, returns, Ensures, Ensures-bind, Ensures-bind_eq, Ensures-check,
  Option-cases, arith,
}
use mtl.Magenta.{Status, is_ok, is_canceled}
use mtl.Tasks.Platform.{Platform, IsLawful}
use mtl.Tasks.MessageLoop.{Thread, on_own_thread}
use mtl.Tasks.MessageLoop.Dispatch.{Client, Call, dispatch_all, run, destroy}
use mtl.Tasks.MessageLoop.Invariant.{Inv}
use mtl.Tasks.MessageLoop.Invariant.Frame.{Inv-Agree}
use mtl.Tasks.MessageLoop.Invariant.Handling.{IsAllowedClient}
use mtl.Tasks.MessageLoop.Invariant.Dispatches.{AreDue, After, dispatch_all-Idle}

module _ {A C TimeDelta Deadline W : Type 0} (platform : Platform A C TimeDelta Deadline)
    (client_code : Client C TimeDelta Deadline W) where
  module _ (lawful : IsLawful platform) (n : ℕ) (allowed : IsAllowedClient n client_code) where
    -- The state in which Run makes the first call of the async::Loop.
    abbrev pub entered : Thread A C Deadline W → Thread A C Deadline W
    entered s = record s { message_loop = record s.message_loop { is_running = true } }

    entered-Inv : (s : Thread A C Deadline W) → Inv platform none s → Inv platform none (entered s)
    entered-Inv s inv =
        Inv-Agree platform s (entered s)
          (record {
            same_thread = refl;
            same_this = refl;
            same_handlers = refl;
            same_records = refl;
            same_tasks = refl;
            same_current = refl;
            same_removed = refl;
            later_key = omega arith;
            same_waiting = λ v. refl;
            same_posted = λ v. refl;
          })
          inv

    abbrev left : Thread A C Deadline W → Thread A C Deadline W
    left t = record t {
      loop = (platform.reset_quit t.loop).1;
      message_loop = record t.message_loop { is_running = false };
    }

    left-Inv : (s : Thread A C Deadline W) → Inv platform none s → Inv platform none (left s)
    left-Inv s inv =
        Inv-Agree platform s (left s)
          (record {
            same_thread = refl;
            same_this = refl;
            same_handlers = refl;
            same_records = refl;
            same_tasks = refl;
            same_current = refl;
            same_removed = refl;
            later_key = omega arith;
            same_waiting = lawful.waiting-reset_quit s.loop;
            same_posted = lawful.posted-reset_quit s.loop;
          })
          inv

    own : (s : Thread A C Deadline W) → Inv platform none s → on_own_thread s ≡ true
    own s inv = ground (arith, inv.on_thread)

    -- From a loop that does not run, Run makes its calls and returns to a loop that does not run:
    -- whatever the clients do in the calls, no check fails and no freed record is touched, if each
    -- call is due when it is made and the keys suffice.
    pub run-Inv :
        (calls : List Call) (status : Status) (s : Thread A C Deadline W)
        → s.next_handler_key + length calls * (2 * n) < 2 ^ 64
        → Inv platform none s
        → s.current_handler ≡ none
        → s.is_running ≡ false
        → (is_ok status || is_canceled status) ≡ true
        → AreDue platform client_code calls (entered s)
        → Ensures
            (λ t. Inv platform none t × (t.current_handler ≡ none) × (t.is_running ≡ false))
            (run platform client_code calls status s)
    unfolding run
    run-Inv calls status s room inv idle stopped st due = Ensures-check _ _ _ (own s inv) (
        Ensures-check _ (not s.is_running) _ (ground arith) (
          Ensures-bind
            (After platform client_code lawful n allowed (length calls * (2 * n)) (entered s)) _
            (dispatch_all platform client_code calls (entered s)) _
            (dispatch_all-Idle platform client_code lawful n allowed calls (entered s) room
              (entered-Inv s inv) idle due)
            λ t q. Ensures-check _ _ _ st (
              Ensures-check _ _ _ (lawful.reset_quit_status t.loop)
                (Ensures-check _ _ _ q.running_kept (left-Inv t q.inv, q.idle, refl)))))

    -- ~MessageLoop
    pub destroy-Inv :
        (calls : List Call) (s : Thread A C Deadline W)
        → s.next_handler_key + length calls * (2 * n) < 2 ^ 64
        → Inv platform none s
        → s.current_handler ≡ none
        → AreDue platform client_code calls s
        → ((t : Thread A C Deadline W)
            → dispatch_all platform client_code calls s ≡ returns t
            → (p : ℕ) → (platform.waiting t.loop p ≡ false) × (platform.posted t.loop p ≡ false))
        → Ensures
            (λ t.
              ((p : ℕ) → find p t.handler_records ≡ none)
              × ((p : ℕ) → find p t.task_records ≡ none)
              × (t.g_current ≡ none))
            (destroy platform client_code calls s)
    unfolding destroy
    destroy-Inv calls s room inv idle due drained = Ensures-check _ _ _ (own s inv) (
        Ensures-bind_eq (After platform client_code lawful n allowed (length calls * (2 * n)) s) _
          (dispatch_all platform client_code calls s) _
          (dispatch_all-Idle platform client_code lawful n allowed calls s room inv idle due)
          λ t e q.
            Ensures-check _ _ _ (no_handlers t q (drained t e))
              (no_records t q (drained t e), no_tasks t q (drained t e), refl))
      where
        no_records :
            (t : Thread A C Deadline W)
            → After platform client_code lawful n allowed (length calls * (2 * n)) s t
            → ((p : ℕ) → (platform.waiting t.loop p ≡ false) × (platform.posted t.loop p ≡ false))
            → (p : ℕ) → find p t.handler_records ≡ none
        no_records t q none_left p = elim (Option-cases (find p t.handler_records)) [
          | inl e ↦ e
          | inr (r, e) ↦ absurd (ground (arith, q.inv.record_waits p r.key, q.idle, none_left p))
        ]

        no_tasks :
            (t : Thread A C Deadline W)
            → After platform client_code lawful n allowed (length calls * (2 * n)) s t
            → ((p : ℕ) → (platform.waiting t.loop p ≡ false) × (platform.posted t.loop p ≡ false))
            → (p : ℕ) → find p t.task_records ≡ none
        no_tasks t q none_left p = ground (arith, q.inv.task_live p, none_left p)

        no_handlers :
            (t : Thread A C Deadline W)
            → After platform client_code lawful n allowed (length calls * (2 * n)) s t
            → ((p : ℕ) → (platform.waiting t.loop p ≡ false) × (platform.posted t.loop p ≡ false))
            → is_empty t.handlers ≡ true
        no_handlers t q none_left = is_empty_of_find t.handlers λ k.
            elim (Option-cases (find k t.handlers)) [
              | inl e ↦ e
              | inr (p, e) ↦
                  absurd (ground (arith, q.inv.entry_keyed k p e, no_records t q none_left p))
            ]
