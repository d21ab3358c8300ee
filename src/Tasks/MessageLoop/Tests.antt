-- ===== src/Tasks/MessageLoop/Tests.antt =====
-- Runs of a MessageLoop over a small async::Loop that keeps the sets of its waits and tasks.
use mtl.Base.{
  ℕ, ◌+◌, ◌≡◌, refl, Bool, true, false, none, some, List, [], ◌∷◌, ◌==◌, if◌then◌else◌, find,
  emplace, erase, fresh, empty, returns, Ensures, Ensures-result, Ensures-result, arith,
}
use mtl.Magenta.{ok, failed, canceled, timed_out, signal_none}
use mtl.Tasks.Platform.{ShutsDown}
use mtl.Tasks.MessageLoop.Sample.{Loop, including, platform, platform-IsLawful, idle_loop}
use mtl.Tasks.MessageLoop.{Thread, message_loop, add_handler, remove_handler}
use mtl.Tasks.MessageLoop.Dispatch.{
  Client, Code, done, adds_handler, removes_handler, reads, writes, Call, wait, run_code,
  handle_wait, epilogue, dispatch, dispatch_all, run, destroy, drop_current, finish,
}
use mtl.Tasks.MessageLoop.Invariant.{Inv}
use mtl.Tasks.MessageLoop.Invariant.Reentry.{IsAllowed, Continues, run_code-Inv}
use mtl.Tasks.MessageLoop.Invariant.Handling.{IsAllowedClient}
use mtl.Tasks.MessageLoop.Invariant.Add.{add_handler-Inv}
use mtl.Tasks.HandlerLoop.{IsRegistry}
use mtl.Tasks.MessageLoop.Invariant.Registry.{handler_loop, Ready, message_loop-IsRegistry}
use mtl.Tasks.MessageLoop.Invariant.Initial.{message_loop-Inv}
use mtl.Tasks.MessageLoop.Invariant.Dispatches.{AreDue}
use mtl.Tasks.MessageLoop.Invariant.Runs.{run-Inv, destroy-Inv, entered}

-- The handler counts its signals, and at the first one it removes itself and registers anew.
abbrev client_code : Client ℕ ℕ ℕ ℕ
client_code = record {
  on_handle_ready = λ handler object observed count. reads λ w.
      if w == 0
      then removes_handler 1 (adds_handler 7 21 signal_none 0 λ key. writes (w + key) done)
      else (writes (w + 1) done);
  on_handle_error = λ handler object status. done;
  call = λ c. done;
}

abbrev moving : ℕ → Code ℕ ℕ ℕ ℕ
moving w = removes_handler 1 (adds_handler 7 21 signal_none 0 λ key. writes (w + key) done)

moving-IsAllowed : (w : ℕ) (b : Bool) → IsAllowed 1 (if b then moving w else (writes (w + 1) done))
moving-IsAllowed w true = (refl, refl, omega arith, λ key. tt)
moving-IsAllowed w false = tt

client_code-IsAllowed : IsAllowedClient 1 client_code
client_code-IsAllowed = record {
  ready = λ handler object observed count w. moving-IsAllowed w (w == 0);
  error = λ handler object status. tt;
  closure = λ c. tt;
}

-- One handler, at address 7, is registered under the key 1.
abbrev one_handler : Thread Loop ℕ ℕ ℕ
one_handler = record {
  g_current = some 50;
  message_loop = record {
    this = 50;
    after_task_callback = none;
    is_running = false;
    next_handler_key = 2;
    handlers = emplace 1 1 empty;
    current_handler = none;
    current_handler_removed = false;
  };
  loop = record idle_loop { waits = including 1 idle_loop.waits };
  handler_records =
      emplace 1
        (record { object = 20; trigger = signal_none; deadline = 1000; handler = 7; key = 1 })
        empty;
  task_records = empty;
  world = 0;
}

abbrev new_state : Thread Loop ℕ ℕ ℕ
new_state = record {
  g_current = some 50;
  message_loop = record {
    this = 50;
    after_task_callback = none;
    is_running = false;
    next_handler_key = 1;
    handlers = empty;
    current_handler = none;
    current_handler_removed = false;
  };
  loop = idle_loop;
  handler_records = empty;
  task_records = empty;
  world = 0;
}

new_state-Inv : Inv platform none new_state
unfolding message_loop
new_state-Inv = (message_loop-Inv {W = ℕ} platform 50 idle_loop 0 λ p. (refl, refl)).0

one_handler-Inv : Inv platform none one_handler
unfolding add_handler fresh empty
one_handler-Inv =
    (add_handler-Inv platform platform-IsLawful 7 20 signal_none 0 new_state refl refl (omega arith)
      new_state-Inv).0

-- Two signals and an error: the first makes the handler move, the second reaches the new record.
abbrev signals : List Call
signals =
    wait 1 ok signal_none 1 ∷ wait 2 ok signal_none 1 ∷ wait 2 (failed timed_out) signal_none 0 ∷ []

signals-AreDue :
    AreDue platform client_code signals
      (entered platform client_code platform-IsLawful 1 client_code-IsAllowed one_handler)
unfolding dispatch handle_wait run_code epilogue find emplace erase empty fresh add_handler
    remove_handler drop_current finish
signals-AreDue = (refl, Ensures-result _ _ (refl, Ensures-result _ _ (refl, λ t e. tt)))

run-Inv_example :
    Ensures
      (λ t. Inv platform none t × (t.current_handler ≡ none) × (t.is_running ≡ false))
      (run platform client_code signals ok one_handler)
run-Inv_example =
    run-Inv platform client_code platform-IsLawful 1 client_code-IsAllowed signals ok one_handler
      (omega arith) one_handler-Inv refl refl refl signals-AreDue

after_signals :
    Ensures
      (λ t. (t.world ≡ 3) × (t.next_handler_key ≡ 3) × (find 2 t.handlers ≡ none))
      (run platform client_code signals ok one_handler)
unfolding run dispatch_all dispatch handle_wait run_code epilogue find emplace erase empty fresh
    add_handler remove_handler drop_current finish
after_signals = (refl, refl, refl)

-- Shutting the loop down cancels the wait, and nothing is left.
abbrev shutdown : List Call
shutdown = wait 1 (failed canceled) signal_none 0 ∷ []

shut_state-drained :
    (t : Thread Loop ℕ ℕ ℕ)
    → dispatch_all platform client_code shutdown one_handler ≡ returns t
    → (p : ℕ) → (platform.waiting t.loop p ≡ false) × (platform.posted t.loop p ≡ false)
unfolding dispatch_all dispatch handle_wait run_code epilogue find emplace erase empty fresh
    add_handler remove_handler drop_current finish
shut_state-drained =
    Ensures-result
      (λ t. (p : ℕ) → (platform.waiting t.loop p ≡ false) × (platform.posted t.loop p ≡ false)) _
      (λ p. (ground arith, refl))

destroy-Inv_example :
    Ensures
      (λ t.
        ((p : ℕ) → find p t.handler_records ≡ none)
        × ((p : ℕ) → find p t.task_records ≡ none)
        × (t.g_current ≡ none))
      (destroy platform client_code shutdown one_handler)
destroy-Inv_example =
    destroy-Inv platform client_code platform-IsLawful 1 client_code-IsAllowed shutdown one_handler
      (omega arith) one_handler-Inv refl (refl, λ t e. tt) shut_state-drained

platform-ShutsDown : ShutsDown platform (λ a. a.down)
platform-ShutsDown = record {
  refuses = λ w r a. ground arith;
  down-begin_wait = λ w r a. ground arith;
  down-cancel_wait = λ w a. refl;
}

message_loop-IsRegistry_example :
    IsRegistry
      (handler_loop {W = ℕ} platform (λ a. a.down))
      (Ready {W = ℕ} platform (λ a. a.down) none)
message_loop-IsRegistry_example =
    message_loop-IsRegistry platform (λ a. a.down) platform-IsLawful platform-ShutsDown none

run_code-Inv_example :
    Ensures
      (Continues platform client_code platform-IsLawful none 1 one_handler)
      (run_code platform client_code (moving 0) one_handler)
run_code-Inv_example =
    run_code-Inv platform client_code platform-IsLawful none 1 (moving 0) one_handler
      (moving-IsAllowed 0 true) (omega arith) one_handler-Inv
