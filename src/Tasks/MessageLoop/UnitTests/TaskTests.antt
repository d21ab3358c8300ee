-- ===== src/Tasks/MessageLoop/UnitTests/TaskTests.antt =====
-- tasks/message_loop_unittest.cc: the tests of tasks. PostTask is that of the loop, to which the queue
-- delegates; its time is 0, which is due at once.
use mtl.Base.{
  ℕ, ◌≡◌, refl, Bool, true, false, none, some, Option, List, [], ◌∷◌, Outcome, returns, ◌>>=◌,
  Ensures, find, emplace, fresh, erase, empty, is_empty,
}
use mtl.Tasks.Platform.{client}
use mtl.Tasks.MessageLoop.{
  Thread, message_loop, get_current, post_task, post_quit_task, quit_now, set_after_task_callback,
  runs_tasks_on_current_thread, clear_after_task_callback,
}
use mtl.Tasks.MessageLoop.Dispatch.{
  dispatch, dispatch_all, run, destroy, handle_task, closure_code, run_code, epilogue,
}
use mtl.Tasks.MessageLoop.UnitTests.Fifo.{Loop, platform, run_loop, destroy_loop, calls_by}
use mtl.Tasks.MessageLoop.UnitTests.{
  Task, pushes, pushes_and_quits, pushes_and_clears, posts_task, pushes_and_posts, World,
  client_code, new_loop, counting,
}

abbrev TestThread : Type 0
TestThread = Thread Loop Task ℕ World

abbrev no_handlers : Outcome TestThread
no_handlers = new_loop [] (λ p. counting)

abbrev post : Task → TestThread → Outcome TestThread
post t s = post_task platform (client t) 0 s

-- What the thread has for its current loop while there is one, and after.
abbrev pub current : Outcome (Option ℕ × Option ℕ)
current = do s ← no_handlers; t ← destroy_loop client_code s; returns (get_current s, get_current t)

abbrev pub runs_tasks_on_current : Outcome (Bool × Bool)
runs_tasks_on_current = do
  s ← no_handlers
  t ← destroy_loop client_code s
  returns (runs_tasks_on_current_thread s, runs_tasks_on_current_thread t)

abbrev pub can_run_tasks : Outcome TestThread
can_run_tasks = do s ← no_handlers; t ← post (pushes_and_quits 1) s; run_loop client_code t

abbrev pub can_post_tasks_from_tasks : Outcome TestThread
can_post_tasks_from_tasks = do
  s ← no_handlers
  t ← post (posts_task (pushes_and_quits 1)) s
  run_loop client_code t

abbrev pub triply_nested_tasks : Outcome TestThread
triply_nested_tasks = do
  s ← no_handlers
  t ← post (pushes_and_posts 1 (pushes_and_posts 2 (pushes_and_quits 3))) s
  run_loop client_code t

abbrev pub can_run_tasks_in_order : Outcome TestThread
can_run_tasks_in_order = do
  s ← no_handlers
  t ← post (pushes 0) s
  u ← post (pushes 1) t
  v ← post_quit_task platform 0 u
  w ← post (pushes 2) v
  run_loop client_code w

-- The callback pushes 9.
abbrev pub after_task_callbacks : Outcome TestThread
after_task_callbacks = do
  s ← no_handlers
  s' ← set_after_task_callback platform (some (pushes 9)) s
  t ← post (pushes 0) s'
  u ← post (pushes 1) t
  v ← post_quit_task platform 0 u
  w ← post (pushes 2) v
  run_loop client_code w

abbrev pub remove_callbacks_during_callback : Outcome TestThread
remove_callbacks_during_callback = do
  s ← no_handlers
  s' ← set_after_task_callback platform (some (pushes_and_clears 9)) s
  t ← post (pushes 0) s'
  u ← post (pushes 1) t
  v ← post_quit_task platform 0 u
  run_loop client_code v

abbrev pub can_quit_many_times : Outcome TestThread
can_quit_many_times = do
  s ← no_handlers
  s1 ← quit_now platform s
  s2 ← quit_now platform s1
  s3 ← post_quit_task platform 0 s2
  s4 ← run_loop client_code s3
  s5 ← quit_now platform s4
  quit_now platform s5

abbrev Pushed : List ℕ → Outcome TestThread → Type 0
Pushed l m = Ensures (λ t. t.world.pushed ≡ l) m

-- Current and RunsTasksOnCurrentThread
loop_is_current :
    (current ≡ returns (some 50, none)) × (runs_tasks_on_current ≡ returns (true, false))
unfolding message_loop get_current runs_tasks_on_current_thread destroy_loop calls_by destroy
    dispatch_all is_empty empty
loop_is_current = (refl, refl)

-- CanRunTasks, CanPostTasksFromTasks, TriplyNestedTasks and CanRunTasksInOrder
tasks_run :
    Pushed (1 ∷ []) can_run_tasks
    × Pushed (1 ∷ []) can_post_tasks_from_tasks
    × Pushed (1 ∷ 2 ∷ 3 ∷ []) triply_nested_tasks
    × Pushed (0 ∷ 1 ∷ []) can_run_tasks_in_order
unfolding message_loop post_task post_quit_task quit_now run_loop calls_by run dispatch_all dispatch
    handle_task closure_code run_code epilogue find emplace fresh erase
tasks_run = (refl, refl, refl, refl)

-- AfterTaskCallbacks and RemoveAfterTaskCallbacksDuringCallback, and CanQuitManyTimes
callbacks_run :
    Pushed (0 ∷ 9 ∷ 1 ∷ 9 ∷ 9 ∷ []) after_task_callbacks
    × Pushed (0 ∷ 9 ∷ 1 ∷ []) remove_callbacks_during_callback
    × Pushed [] can_quit_many_times
unfolding message_loop post_task post_quit_task quit_now set_after_task_callback
    clear_after_task_callback run_loop calls_by run dispatch_all dispatch handle_task closure_code
    run_code epilogue find emplace fresh erase
callbacks_run = (refl, refl, refl)
