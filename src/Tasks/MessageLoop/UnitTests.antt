-- ===== src/Tasks/MessageLoop/UnitTests.antt =====
-- tasks/message_loop_unittest.cc: the handlers and the tasks of the tests, as code of the loop's clients.
pub mod Fifo
pub mod TaskTests
pub mod HandlerTests
use mtl.Base.{
  ℕ, ◌+◌, ◌≡◌, Bool, true, false, Option, none, some, List, [], ◌∷◌, ◌++◌, ◌==◌, if◌then◌else◌,
  Outcome,
}
use mtl.Magenta.{Status, Signals, ok, signal_none}
use mtl.Tasks.Platform.{Closure, client, quits}
use mtl.Tasks.MessageLoop.{Thread, message_loop}
use mtl.Tasks.MessageLoop.Dispatch.{
  Client, Code, done, adds_handler, removes_handler, asks_handler, posts, clears_callback,
  quits_now, reads, writes,
}
use mtl.Tasks.MessageLoop.UnitTests.Fifo.{Loop, platform, infinite}

-- The closures that the tests post, by what they do; a number stands for a string.
pub data Task : Type 0 where
  pushes : ℕ → Task
  pushes_and_quits : ℕ → Task
  pushes_and_clears : ℕ → Task
  posts_task : Task → Task
  pushes_and_posts : ℕ → Task → Task

-- TestMessageLoopHandler
pub record Counts : Type 0 where
  pub ready_count : ℕ
  pub error_count : ℕ
  pub last_error_result : Status

-- The classes derived from it, with the keys that a handler keeps.
pub data HandlerClass : Type 0 where
  counting : HandlerClass
  quit_on_ready : HandlerClass
  remove_on_ready : ℕ → HandlerClass
  quit_on_error : HandlerClass
  remove_many : List ℕ → HandlerClass
  add_handler_on_error : HandlerClass

-- What the tests look at: the strings that were pushed, the handlers by address, and whether what a
-- handler expects was so.
pub record World : Type 0 where
  pub pushed : List ℕ
  pub counts : ℕ → Counts
  pub expected : Bool
  pub classes : ℕ → HandlerClass

abbrev pub TestCode : Type 0
TestCode = Code Task ℕ ℕ World

abbrev pub push : ℕ → TestCode → TestCode
push x k = reads λ w. writes (record w { pushed = w.pushed ++ x ∷ [] }) k

-- `p` at one address.
abbrev pub counted : ℕ → (Counts → Counts) → TestCode → TestCode
counted p change k =
    reads
      λ w. writes (record w { counts = λ q. if p == q then change (w.counts q) else w.counts q }) k

abbrev pub task_code : Task → TestCode
task_code (pushes x) = push x done
task_code (pushes_and_quits x) = push x (quits_now done)
task_code (pushes_and_clears x) = push x (clears_callback done)
task_code (posts_task t) = posts (client t) 0 done
task_code (pushes_and_posts x t) = push x (posts (client t) 0 done)

-- TestMessageLoopHandler::OnHandleReady and OnHandleError
abbrev pub count_ready : ℕ → TestCode → TestCode
count_ready p k = counted p (λ c. record c { ready_count = c.ready_count + 1 }) k

abbrev pub count_error : ℕ → Status → TestCode → TestCode
count_error p status k =
    counted p (λ c. record c { error_count = c.error_count + 1; last_error_result = status }) k

-- RemoveOnReadyMessageLoopHandler::OnHandleReady
abbrev pub remove_on_ready_code : ℕ → ℕ → TestCode
remove_on_ready_code p key = asks_handler key λ there. reads λ w.
    writes (record w { expected = there })
      (removes_handler key (count_ready p (posts quits 0 done)))

abbrev pub on_ready : HandlerClass → ℕ → TestCode
on_ready counting p = count_ready p done
on_ready quit_on_ready p = quits_now (count_ready p done)
on_ready (remove_on_ready key) p = remove_on_ready_code p key
on_ready quit_on_error p = count_ready p done
on_ready (remove_many keys) p = count_ready p done
on_ready add_handler_on_error p = count_ready p done

-- The loop of RemoveManyMessageLoopHandler::OnHandleError.
abbrev pub remove_all : List ℕ → TestCode → TestCode
remove_all [] k = k
remove_all (key ∷ keys) k = removes_handler key (remove_all keys k)

abbrev pub trigger : Signals
trigger = record signal_none { readable = true }

abbrev pub on_error : HandlerClass → ℕ → ℕ → Status → TestCode
on_error counting p handle status = count_error p status done
on_error quit_on_ready p handle status = count_error p status done
on_error (remove_on_ready key) p handle status = count_error p status done
on_error quit_on_error p handle status = quits_now (count_error p status done)
on_error (remove_many keys) p handle status = remove_all keys (count_error p status done)
on_error add_handler_on_error p handle status =
    adds_handler p handle trigger infinite λ key. count_error p status done

abbrev pub client_code : Client Task ℕ ℕ World
client_code = record {
  on_handle_ready = λ p handle pending count. reads λ w. on_ready (w.classes p) p;
  on_handle_error = λ p handle status. reads λ w. on_error (w.classes p) p handle status;
  call = task_code;
}

-- A loop at address 50, handles with signals, and handlers of the given classes.
abbrev pub new_loop : List ℕ → (ℕ → HandlerClass) → Outcome (Thread Loop Task ℕ World)
new_loop signalled classes =
    message_loop platform 50
      (record {
        waits = [];
        called = [];
        tasks = [];
        signalled = signalled;
        quitting = false;
        down = false;
      })
      (record {
        pushed = [];
        counts = λ p. record { ready_count = 0; error_count = 0; last_error_result = ok };
        expected = true;
        classes = classes;
      })
      none
