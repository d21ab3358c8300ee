-- ===== src/Tasks/MessageLoop/UnitTests/HandlerTests.antt =====
-- tasks/message_loop_unittest.cc: the tests of handlers. The endpoint that a test waits on is handle 21,
-- and 22 and 23 are those of the further channels; a test that writes to a channel gives it a signal.
use mtl.Base.{
  ℕ, ◌≡◌, refl, Bool, true, false, some, List, [], ◌∷◌, Outcome, returns, ◌>>=◌, find, emplace,
  fresh, erase, empty, is_empty, ◌==◌, if◌then◌else◌,
}
use mtl.Magenta.{Status, ok, failed, timed_out, canceled}
use mtl.Tasks.Platform.{quits}
use mtl.Tasks.MessageLoop.{
  Thread, message_loop, post_task, add_handler, remove_handler, remove_found, has_handler, quit_now,
  set_after_task_callback, delete_record,
}
use mtl.Tasks.MessageLoop.Dispatch.{
  dispatch, dispatch_all, run, destroy, handle_task, handle_wait, finish, drop_current,
  closure_code, run_code, epilogue,
}
use mtl.Tasks.MessageLoop.UnitTests.Fifo.{
  Loop, platform, infinite, run_loop, destroy_loop, calls_by,
}
use mtl.Tasks.MessageLoop.UnitTests.{
  Counts, Task, pushes, World, HandlerClass, counting, quit_on_ready, remove_on_ready,
  quit_on_error, remove_many, add_handler_on_error, client_code, new_loop, trigger,
}

abbrev TestThread : Type 0
TestThread = Thread Loop Task ℕ World

abbrev add : ℕ → ℕ → ℕ → TestThread → Outcome (ℕ × TestThread)
add p handle timeout s = add_handler platform p handle trigger timeout s

-- A handler at address 7, on the endpoint, that runs; and whether its key is still known.
abbrev ran : List ℕ → HandlerClass → ℕ → Outcome (Bool × TestThread)
ran signalled c timeout = do
  s ← new_loop signalled (λ p. c)
  r ← add 7 21 timeout s
  t ← run_loop client_code r.1
  there ← has_handler platform r.0 t
  returns (there, t)

abbrev pub quit_from_ready : Outcome (Bool × TestThread)
quit_from_ready = ran (21 ∷ []) quit_on_ready infinite

abbrev pub handle_ready : Outcome (Bool × TestThread)
handle_ready = ran (21 ∷ []) (remove_on_ready 1) infinite

abbrev pub quit_when_deadline_expired : Outcome (Bool × TestThread)
quit_when_deadline_expired = ran [] quit_on_error 10000

abbrev pub after_handle_ready_callback : Outcome (Bool × TestThread)
after_handle_ready_callback = do
  s ← new_loop (21 ∷ []) (λ p. remove_on_ready 1)
  r ← add 7 21 infinite s
  s' ← set_after_task_callback platform (some (pushes 9)) r.1
  t ← run_loop client_code s'
  there ← has_handler platform r.0 t
  returns (there, t)

abbrev pub after_deadline_expired_callback : Outcome TestThread
after_deadline_expired_callback = do
  s ← new_loop [] (λ p. counting)
  r ← add 7 21 10000 s
  s' ← post_task platform quits 15000 r.1
  t ← set_after_task_callback platform (some (pushes 9)) s'
  run_loop client_code t

-- A handler at address 7 that is registered while the loop is destroyed.
abbrev destroyed : HandlerClass → Outcome TestThread
destroyed c = do s ← new_loop [] (λ p. c); r ← add 7 21 infinite s; destroy_loop client_code r.1

abbrev pub destruction : Outcome TestThread
destruction = destroyed counting

abbrev pub add_handler_on_error_test : Outcome TestThread
add_handler_on_error_test = destroyed add_handler_on_error

-- The odd handler, at address 7, is registered twice, and the even one, at address 8, in between.
abbrev pub multiple_handle_destruction : Outcome TestThread
multiple_handle_destruction = do
  s ← new_loop [] (λ p. counting)
  r1 ← add 7 21 infinite s
  r2 ← add 8 22 infinite r1.1
  r3 ← add 7 23 infinite r2.1
  let odd_handler = remove_many (r1.0 ∷ r3.0 ∷ [])
  destroy_loop client_code (record r3.1 {
    world = record r3.1.world { classes = λ p. if p == 7 then odd_handler else counting };
  })

-- Whether the key is still known, whether the handler at an address saw what it expects, and its counts.
abbrev seen : ℕ → Outcome (Bool × TestThread) → Outcome (Bool × (Bool × Counts))
seen p m = m >>= λ r. returns (r.0, (r.1.world.expected, r.1.world.counts p))

abbrev seen_after : ℕ → Outcome TestThread → Outcome Counts
seen_after p m = m >>= λ t. returns (t.world.counts p)

abbrev pushed : Outcome TestThread → Outcome (List ℕ)
pushed m = m >>= λ t. returns t.world.pushed

abbrev counts : ℕ → ℕ → Status → Counts
counts ready error last = record {
  ready_count = ready;
  error_count = error;
  last_error_result = last;
}

-- QuitFromReady, HandleReady and QuitWhenDeadlineExpired
handlers_run :
    (seen 7 quit_from_ready ≡ returns (true, (true, counts 1 0 ok)))
    × (seen 7 handle_ready ≡ returns (false, (true, counts 1 0 ok)))
    × (seen 7 quit_when_deadline_expired ≡ returns (false, (true, counts 0 1 (failed timed_out))))
unfolding message_loop post_task add_handler remove_handler remove_found delete_record has_handler
    quit_now run_loop calls_by run dispatch_all dispatch handle_task handle_wait finish drop_current
    closure_code run_code epilogue find emplace fresh erase empty
handlers_run = (refl, refl, refl)

-- AfterHandleReadyCallback and AfterDeadlineExpiredCallback
callbacks_count :
    (pushed (after_handle_ready_callback >>= λ r. returns r.1) ≡ returns (9 ∷ 9 ∷ []))
    × (seen 7 after_handle_ready_callback ≡ returns (false, (true, counts 1 0 ok)))
    × (pushed after_deadline_expired_callback ≡ returns (9 ∷ 9 ∷ []))
unfolding message_loop post_task add_handler remove_handler remove_found delete_record has_handler
    quit_now set_after_task_callback run_loop calls_by run dispatch_all dispatch handle_task
    handle_wait finish drop_current closure_code run_code epilogue find emplace fresh erase empty
callbacks_count = (refl, refl, refl)

-- Destruction and AddHandlerOnError
handlers_canceled :
    (seen_after 7 destruction ≡ returns (counts 0 1 (failed canceled)))
    × (seen_after 7 add_handler_on_error_test ≡ returns (counts 0 1 (failed canceled)))
unfolding message_loop add_handler remove_handler remove_found delete_record destroy_loop calls_by
    destroy dispatch_all dispatch handle_wait finish drop_current run_code epilogue find emplace
    fresh erase empty is_empty
handlers_canceled = (refl, refl)

-- MultipleHandleDestruction
odd_and_even_canceled :
    (seen_after 7 multiple_handle_destruction ≡ returns (counts 0 1 (failed canceled)))
    × (seen_after 8 multiple_handle_destruction ≡ returns (counts 0 1 (failed canceled)))
unfolding message_loop add_handler remove_handler remove_found delete_record destroy_loop calls_by
    destroy dispatch_all dispatch handle_wait finish drop_current run_code epilogue find emplace
    fresh erase empty is_empty
odd_and_even_canceled = (refl, refl)
