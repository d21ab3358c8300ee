-- ===== src/Tasks/IncomingTaskQueue.antt =====
-- tasks/incoming_task_queue.h and tasks/incoming_task_queue.cc. Each method holds `mutex_` from its
-- first statement to its last, so a method is one atomic step and the calls of several threads are
-- a sequence. A delegate is reached by its address; what it does is a function on a state `W`.
pub mod Delivery
mod Tests
use mtl.Base.{
  ℕ, Bool, true, false, not, Option, none, some, List, [], ◌∷◌, ◌++◌, if◌then◌else◌, Outcome,
  returns, aborts, ◌>>◌, check,
}

-- ftl::TimePoint and ftl::TimeDelta.
pub record FtlTime : Type 1 where
  pub TimePoint : Type 0
  pub TimeDelta : Type 0
  pub time_point : TimePoint
  pub is_positive : TimeDelta → Bool
  pub advance : TimePoint → TimeDelta → TimePoint

-- TaskQueueDelegate, with the address of the object first.
pub record TaskQueueDelegate (Closure TimePoint W : Type 0) : Type 0 where
  pub post_task : ℕ → Closure → TimePoint → W → W
  pub runs_tasks_on_current_thread : ℕ → W → Bool

pub record IncomingTaskQueue (Closure TimePoint : Type 0) : Type 0 where
  pub incoming_queue : List (Closure × TimePoint)
  pub delegate : Option ℕ
  pub drop_incoming_tasks : Bool

abbrev pub incoming_task_queue : {Closure TimePoint : Type 0} → IncomingTaskQueue Closure TimePoint
incoming_task_queue = record { incoming_queue = []; delegate = none; drop_incoming_tasks = false }

module _ {Closure W : Type 0} (ftl : FtlTime)
    (vtable : TaskQueueDelegate Closure ftl.TimePoint W) where
  open ftl use {TimePoint, TimeDelta, time_point, is_positive, advance}

  abbrev pub State : Type 0
  State = IncomingTaskQueue Closure TimePoint × W

  pub add_task : Closure → TimePoint → State → State
  add_task task target_time (q, w) = if q.drop_incoming_tasks then (q, w) else elim q.delegate [
    | some d ↦ (q, vtable.post_task d task target_time w)
    | none ↦ (record q { incoming_queue = q.incoming_queue ++ (task, target_time) ∷ [] }, w)
  ]

  pub post_task : Closure → State → State
  unfolding add_task
  post_task task s = add_task task time_point s

  pub post_task_for_time : Closure → TimePoint → State → State
  unfolding add_task
  post_task_for_time task target_time s = add_task task target_time s

  -- `now` is TimePoint::Now() at the call.
  pub post_delayed_task : Closure → TimeDelta → TimePoint → State → State
  unfolding add_task
  post_delayed_task task delay now s =
      add_task task (if is_positive delay then advance now delay else time_point) s

  pub runs_tasks_on_current_thread : State → Bool
  runs_tasks_on_current_thread (q, w) = elim q.delegate [
    | none ↦ false
    | some d ↦ vtable.runs_tasks_on_current_thread d w
  ]

  -- The loop of InitDelegate.
  unfoldable pub post_all : ℕ → List (Closure × TimePoint) → W → W
  post_all d [] w = w
  post_all d ((task, target_time) ∷ rest) w =
      post_all d rest (vtable.post_task d task target_time w)

  unfoldable pub init_delegate : Option ℕ → State → Outcome State
  unfolding post_all
  init_delegate none s = aborts
  init_delegate (some d) (q, w) = do
    check (not q.drop_incoming_tasks)
    returns (record q { incoming_queue = []; delegate = some d }, post_all d q.incoming_queue w)

  unfoldable pub clear_delegate : State → Outcome State
  clear_delegate (q, w) = do
    check (not q.drop_incoming_tasks)
    returns (record q { drop_incoming_tasks = true; delegate = none }, w)
