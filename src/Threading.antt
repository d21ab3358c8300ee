-- ===== src/Threading.antt =====
-- threading/create_thread.cc and threading/thread.cc: a thread with a MessageLoop that takes over the
-- IncomingTaskQueue to which others post. The body of the thread is a function, and so is ftl::Thread.
pub mod Preload
pub mod Lifetime
mod Tests
use mtl.Base.{
  ℕ, ◌*◌, Bool, true, false, Option, none, some, List, [], ◌∷◌, Outcome, returns, aborts, ◌>>=◌,
}
use mtl.Magenta.{Status}
use mtl.Handles.{Kernel, set_current_thread_name}
use mtl.Tasks.Platform.{Closure, Platform}
use mtl.Tasks.IncomingTaskQueue.{
  FtlTime, TaskQueueDelegate, IncomingTaskQueue, incoming_task_queue, init_delegate, clear_delegate,
}
use mtl.Tasks.MessageLoop.{Thread, message_loop, post_task, runs_tasks_on_current_thread}
use mtl.Tasks.MessageLoop.Dispatch.{Client, Call, run, destroy}

-- The calls that the loop makes while it runs, and while it shuts down; and Run's status.
pub record Calls : Type 0 where
  pub while_running : List Call
  pub status : Status
  pub while_shutting_down : List Call

module _ {A C TimeDelta Deadline W : Type 0} (platform : Platform A C TimeDelta Deadline)
    (ftl : FtlTime) (nanoseconds : ftl.TimePoint → Deadline) where
  -- The MessageLoop as the delegate of its queue; the queue's state behind it is the loop's thread, or
  -- that a check failed.
  abbrev pub loop_delegate :
      TaskQueueDelegate (Closure C) ftl.TimePoint (Outcome (Thread A C Deadline W))
  loop_delegate = record {
    post_task = λ d task target_time w. w >>= post_task platform task (nanoseconds target_time);
    runs_tasks_on_current_thread =
        λ d w. elim w [ aborts ↦ false | returns s ↦ runs_tasks_on_current_thread s ];
  }

  -- MessageLoop::MessageLoop on a queue.
  unfoldable pub construct :
      IncomingTaskQueue (Closure C) ftl.TimePoint
      → ℕ
      → A
      → W
      → Outcome (IncomingTaskQueue (Closure C) ftl.TimePoint × Thread A C Deadline W)
  construct queue this loop world = do
    s ← message_loop platform this loop world none
    r ← init_delegate ftl loop_delegate (some this) (queue, returns s)
    t ← r.1
    returns (r.0, t)

  -- ~MessageLoop on its queue.
  unfoldable pub destruct :
      Client C TimeDelta Deadline W
      → List Call
      → IncomingTaskQueue (Closure C) ftl.TimePoint
      → Thread A C Deadline W
      → Outcome (IncomingTaskQueue (Closure C) ftl.TimePoint × Thread A C Deadline W)
  destruct client_code calls queue s = do
    t ← destroy platform client_code calls s
    r ← clear_delegate ftl loop_delegate (queue, returns t)
    returns (r.0, t)

  -- Thread::Main
  unfoldable pub main :
      Client C TimeDelta Deadline W
      → Calls
      → IncomingTaskQueue (Closure C) ftl.TimePoint
      → ℕ
      → A
      → W
      → Outcome (IncomingTaskQueue (Closure C) ftl.TimePoint × Thread A C Deadline W)
  main client_code calls queue this loop world = do
    r ← construct queue this loop world
    t ← run platform client_code calls.while_running calls.status r.1
    destruct client_code calls.while_shutting_down r.0 t

  -- RunMessageLoop, which names its thread first.
  unfoldable pub run_message_loop :
      {K : Type 0}
      → Kernel K
      → Client C TimeDelta Deadline W
      → Calls
      → IncomingTaskQueue (Closure C) ftl.TimePoint
      → List ℕ
      → ℕ
      → A
      → W
      → K
      → Outcome (IncomingTaskQueue (Closure C) ftl.TimePoint × Thread A C Deadline W) × K
  run_message_loop kernel client_code calls queue thread_name this loop world k = (
    main client_code calls queue this loop world,
    elim thread_name [ [] ↦ k | c ∷ cs ↦ (set_current_thread_name kernel (c ∷ cs) k).1 ],
  )

-- ftl::Thread, which runs Main on a thread of its own.
pub record FtlThread (T : Type 0) : Type 0 where
  pub run_thread : ℕ → T → Bool × T
  pub is_running : T → Bool
  pub join : T → Bool × T

pub record MtlThread (T Q : Type 0) : Type 0 where
  pub thread : T
  pub task_runner : Q

abbrev pub default_stack_size : ℕ
default_stack_size = 1 * 1024 * 1024

module _ {T Q : Type 0} (ftl_thread : FtlThread T) where
  unfoldable pub start_thread : ℕ → MtlThread T Q → Bool × MtlThread T Q
  start_thread stack_size t =
      let (ok, thread) = ftl_thread.run_thread stack_size t.thread in
      (ok, record t { thread = thread })

  unfoldable pub join_thread : MtlThread T Q → Bool × MtlThread T Q
  join_thread t = let (ok, thread) = ftl_thread.join t.thread in (ok, record t { thread = thread })
