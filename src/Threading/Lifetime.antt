-- ===== src/Threading/Lifetime.antt =====
-- The whole life of a thread with a MessageLoop, from its queue to the destruction of the loop.
use mtl.Base.{
  ℕ, ◌+◌, ◌*◌, ◌<◌, ◌^◌, ◌≡◌, refl, true, false, none, List, [], length, ◌||◌, ap, ◌∙◌, find,
  returns, Ensures, Ensures-bind, Ensures-bind_eq,
}
use mtl.Magenta.{is_ok, is_canceled}
use mtl.Tasks.Platform.{Closure, Platform, IsLawful}
use mtl.Tasks.IncomingTaskQueue.{FtlTime, IncomingTaskQueue, clear_delegate}
use mtl.Tasks.MessageLoop.{Thread}
use mtl.Tasks.MessageLoop.Dispatch.{Client, run, destroy, dispatch_all}
use mtl.Tasks.MessageLoop.Invariant.Handling.{IsAllowedClient}
use mtl.Tasks.MessageLoop.Invariant.Dispatches.{AreDue}
use mtl.Tasks.MessageLoop.Invariant.Runs.{entered, run-Inv, destroy-Inv}
use mtl.Threading.{Calls, construct, destruct, main}
use mtl.Threading.Preload.{Accepting, Preloaded, construct-Preloaded}

module _ {A C TimeDelta Deadline W : Type 0} (platform : Platform A C TimeDelta Deadline)
    (lawful : IsLawful platform) (client_code : Client C TimeDelta Deadline W) (n : ℕ)
    (allowed : IsAllowedClient n client_code) (ftl : FtlTime)
    (nanoseconds : ftl.TimePoint → Deadline) (Up : A → Type 0)
    (accepting : Accepting platform Up) where
  -- The async::Loop makes calls that are due while it runs, and while it shuts down, where keys are left
  -- and nothing is outstanding at the end.
  pub record Scheduled (calls : Calls) (t : Thread A C Deadline W) : Type 0 where
    pub room : t.next_handler_key + length calls.while_running * (2 * n) < 2 ^ 64
    pub status : (is_ok calls.status || is_canceled calls.status) ≡ true
    pub running_due :
        AreDue platform client_code calls.while_running
          (entered platform client_code lawful n allowed t)
    pub shutdown :
        (u : Thread A C Deadline W)
        → run platform client_code calls.while_running calls.status t ≡ returns u
        → (u.next_handler_key + length calls.while_shutting_down * (2 * n) < 2 ^ 64)
          × AreDue platform client_code calls.while_shutting_down u
          × ((v : Thread A C Deadline W)
              → dispatch_all platform client_code calls.while_shutting_down u ≡ returns v
              → (p : ℕ) → (platform.waiting v.loop p ≡ false) × (platform.posted v.loop p ≡ false))

  -- Nothing of the thread's loop is left, and the queue drops every later task.
  pub record Ended (queue : IncomingTaskQueue (Closure C) ftl.TimePoint) (t : Thread A C Deadline W)
      : Type 0 where
    pub no_handlers : (p : ℕ) → find p t.handler_records ≡ none
    pub no_tasks : (p : ℕ) → find p t.task_records ≡ none
    pub no_loop : t.g_current ≡ none
    pub queue_left :
        queue ≡ record { incoming_queue = []; delegate = none; drop_incoming_tasks = true }

  stopped :
      (l : List (Closure C × ftl.TimePoint)) (t : Thread A C Deadline W)
      → Preloaded platform lawful ftl nanoseconds Up accepting l t
      → (t.current_handler ≡ none) × (t.is_running ≡ false)
  stopped l t p = (
    ap (λ m. m.current_handler) p.loaded.same_message_loop ∙ p.is_stopped.0,
    ap (λ m. m.is_running) p.loaded.same_message_loop ∙ p.is_stopped.1,
  )

  -- A thread whose loop is made on a queue of early tasks, runs and is destroyed fails no check and
  -- touches no freed record, whatever the clients do in the calls: at its end no record of a handler or
  -- a task is left, the thread has no current loop, and the queue is empty and drops later tasks.
  pub main-Ended :
      (calls : Calls) (l : List (Closure C × ftl.TimePoint)) (this : ℕ) (loop : A) (world : W)
      → Up loop
      → ((p : ℕ) → (platform.waiting loop p ≡ false) × (platform.posted loop p ≡ false))
      → ((q : IncomingTaskQueue (Closure C) ftl.TimePoint) (t : Thread A C Deadline W)
          → construct platform ftl nanoseconds
              (record { incoming_queue = l; delegate = none; drop_incoming_tasks = false })
              this
              loop
              world
            ≡ returns (q, t)
          → Scheduled calls t)
      → Ensures
          (λ r. Ended r.0 r.1)
          (main platform ftl nanoseconds client_code calls
            (record { incoming_queue = l; delegate = none; drop_incoming_tasks = false })
            this
            loop
            world)
  unfolding main destruct clear_delegate
  main-Ended calls l this loop world up none_left scheduled =
      Ensures-bind_eq _ (λ r. Ended r.0 r.1)
        (construct platform ftl nanoseconds
          (record { incoming_queue = l; delegate = none; drop_incoming_tasks = false }) this loop
          world)
        _
        (construct-Preloaded platform lawful ftl nanoseconds Up accepting l this loop world up
          none_left)
        (λ (q, t) made (same, p).
          let s = scheduled q t made in
          let (idle, still) = stopped l t p in
          Ensures-bind_eq _ (λ r. Ended r.0 r.1)
            (run platform client_code calls.while_running calls.status t) _
            (run-Inv platform client_code lawful n allowed calls.while_running calls.status t s.room
              p.loaded.inv idle still s.status s.running_due)
            (λ u ran (inv, rest, off).
              let (room, due, drained) = s.shutdown u ran in
              rw same (
                Ensures-bind _ (λ r. Ended r.0 r.1)
                  (destroy platform client_code calls.while_shutting_down u) _
                  (destroy-Inv platform client_code lawful n allowed calls.while_shutting_down u
                    room inv rest due drained)
                  (λ v (none1, none2, gone). record {
                    no_handlers = none1;
                    no_tasks = none2;
                    no_loop = gone;
                    queue_left = refl;
                  }))))
