-- ===== src/Threading/Tests.antt =====
-- A thread whose loop has two tasks before it starts: one that counts, and one that quits.
use mtl.Base.{
  Ensures-result, Outcome, ℕ, ◌+◌, ◌≡◌, refl, true, false, none, some, List, [], ◌∷◌, ltb, Ensures,
  arith, find, emplace, erase, empty, fresh, is_empty,
}
use mtl.Magenta.{ok}
use mtl.Tasks.Platform.{Closure, client, quits}
use mtl.Tasks.IncomingTaskQueue.{
  IncomingTaskQueue, FtlTime, init_delegate, clear_delegate, post_all,
}
use mtl.Tasks.MessageLoop.{message_loop, post_task, quit_now}
use mtl.Tasks.MessageLoop.Dispatch.{
  Client, done, reads, writes, task, run, destroy, dispatch_all, dispatch, handle_task,
  closure_code, run_code, epilogue,
}
use mtl.Tasks.MessageLoop.Sample.{Loop, platform, platform-IsLawful, idle_loop}
use mtl.Threading.{construct, main, Calls, destruct}
use mtl.Threading.Preload.{Accepting, Preloaded, construct-Preloaded}
use mtl.Threading.Lifetime.{Scheduled, Ended, main-Ended}
use mtl.Tasks.MessageLoop.Invariant.Handling.{IsAllowedClient}
use mtl.Tasks.MessageLoop.{Thread}

abbrev ftl : FtlTime
ftl = record {
  TimePoint = ℕ;
  TimeDelta = ℕ;
  time_point = 0;
  is_positive = λ d. ltb 0 d;
  advance = λ t d. t + d;
}

accepting : Accepting platform (λ a. a.down ≡ false)
accepting = record { accepts = λ p r a up. ground (arith, up) }

abbrev early : List (Closure ℕ × ℕ)
early = (client 5, 0) ∷ (quits, 7) ∷ []

construct-Preloaded_example :
    Ensures
      (λ r.
        (r.0 ≡ record { incoming_queue = []; delegate = some 50; drop_incoming_tasks = false })
        × Preloaded {W = ℕ} platform platform-IsLawful ftl
            (λ t. t)
            (λ a. a.down ≡ false)
            accepting
            early
            r.1)
      (construct platform ftl
        (λ t. t)
        (record { incoming_queue = early; delegate = none; drop_incoming_tasks = false })
        50
        idle_loop
        0)
construct-Preloaded_example =
    construct-Preloaded platform platform-IsLawful ftl (λ t. t) (λ a. a.down ≡ false) accepting
      early 50 idle_loop 0 refl (λ p. (refl, refl))

abbrev client_code : Client ℕ ℕ ℕ ℕ
client_code = record {
  on_handle_ready = λ handler object observed count. done;
  on_handle_error = λ handler object status. done;
  call = λ c. reads λ w. writes (w + c) done;
}

abbrev calls : Calls
calls = record { while_running = task 1 ok ∷ task 2 ok ∷ []; status = ok; while_shutting_down = [] }

-- CreateThread: a task that was posted early runs on the new thread.
thread_runs :
    Ensures
      (λ r. (r.1.world ≡ 5) × (r.1.g_current ≡ none) × (r.0.drop_incoming_tasks ≡ true))
      (main platform ftl
        (λ t. t)
        client_code
        calls
        (record { incoming_queue = early; delegate = none; drop_incoming_tasks = false })
        50
        idle_loop
        0)
unfolding main construct destruct run destroy dispatch_all dispatch handle_task closure_code
    run_code epilogue message_loop post_task quit_now is_empty init_delegate clear_delegate find
    emplace erase empty fresh post_all
thread_runs = (refl, refl, refl)

client_code-IsAllowed : IsAllowedClient 0 client_code
client_code-IsAllowed = record {
  ready = λ handler object observed count. tt;
  error = λ handler object status. tt;
  closure = λ c w. tt;
}

abbrev made : Outcome (IncomingTaskQueue (Closure ℕ) ℕ × Thread Loop ℕ ℕ ℕ)
made =
    construct platform ftl (λ t. t)
      (record { incoming_queue = early; delegate = none; drop_incoming_tasks = false }) 50 idle_loop
      0

early-Scheduled :
    Ensures
      (λ r.
        Scheduled platform platform-IsLawful client_code 0 client_code-IsAllowed ftl
          (λ t. t)
          (λ a. a.down ≡ false)
          accepting
          calls
          r.1)
      made
unfolding construct message_loop post_task quit_now init_delegate post_all run dispatch_all dispatch
    handle_task closure_code run_code epilogue find emplace erase empty fresh
early-Scheduled = record {
  room = omega arith;
  status = refl;
  running_due = (refl, Ensures-result _ _ (refl, λ t e. tt));
  shutdown = Ensures-result _ _ (omega arith, tt, Ensures-result _ _ (λ p. (refl, ground arith)));
}

main-Ended_example :
    Ensures
      (λ r.
        Ended platform platform-IsLawful client_code 0 client_code-IsAllowed ftl
          (λ t. t)
          (λ a. a.down ≡ false)
          accepting
          r.0
          r.1)
      (main platform ftl
        (λ t. t)
        client_code
        calls
        (record { incoming_queue = early; delegate = none; drop_incoming_tasks = false })
        50
        idle_loop
        0)
main-Ended_example =
    main-Ended platform platform-IsLawful client_code 0 client_code-IsAllowed ftl (λ t. t)
      (λ a. a.down ≡ false) accepting calls early 50 idle_loop 0 refl (λ p. (refl, refl))
      (λ q t e. Ensures-result _ made early-Scheduled (q, t) e)
