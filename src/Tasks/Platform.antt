-- ===== src/Tasks/Platform.antt =====
-- What tasks/ uses of code that is not in the repository: async::Loop with its waits and tasks,
-- the clock, and operator new. A wait or a task is known to the loop by the address of its record.
use mtl.Base.{not, ℕ, Bool, true, false, ◌&&◌, ◌||◌, none, ◌≡◌, ◌==◌, if◌then◌else◌, Map, find}
use mtl.Magenta.{Status, Signals, is_ok, is_bad_state, is_bad_handle}

-- MessageLoop::HandlerRecord with the fields of its base async::WaitWithTimeout; `loop_` is the
-- loop whose heap holds the record.
pub record HandlerRecord (Deadline : Type 0) : Type 0 where
  pub object : ℕ
  pub trigger : Signals
  pub deadline : Deadline
  pub handler : ℕ
  pub key : ℕ

-- A closure that a task runs: the client's, or the one that PostQuitTask makes.
pub data Closure (C : Type 0) : Type 0 where
  client : C → Closure C
  quits : Closure C

-- MessageLoop::TaskRecord with the deadline of its base async::Task.
pub record TaskRecord (C Deadline : Type 0) : Type 0 where
  pub deadline : Deadline
  pub task : Closure C

-- `A` is the state of the async::Loop, with the clock.
pub record Platform (A C TimeDelta Deadline : Type 0) : Type 0 where
  -- WaitWithTimeout::Begin and Cancel, Task::Post, Loop::Quit and ResetQuit
  pub begin_wait : ℕ → HandlerRecord Deadline → A → Status × A
  pub cancel_wait : ℕ → A → Status × A
  pub post_task : ℕ → TaskRecord C Deadline → A → Status × A
  pub quit : A → A
  pub reset_quit : A → Status × A
  -- what the loop does before it calls Handle, and when a wait's Handle returns ASYNC_WAIT_AGAIN
  pub take_wait : ℕ → A → A
  pub take_task : ℕ → A → A
  pub wait_again : ℕ → A → A
  -- the waits and the tasks that the loop still has to call
  pub waiting : A → ℕ → Bool
  pub posted : A → ℕ → Bool
  -- timeout == TimeDelta::Max(), MX_TIME_INFINITE, mx_deadline_after(timeout.ToNanoseconds())
  pub is_max : TimeDelta → Bool
  pub infinite : Deadline
  pub deadline_after : TimeDelta → A → Deadline
  -- operator new
  pub new_handler_record : Map (HandlerRecord Deadline) → ℕ
  pub new_task_record : Map (TaskRecord C Deadline) → ℕ

-- The documented behaviour: a wait that Begin accepted is outstanding until it is cancelled or
-- called, a call takes it out, and ASYNC_WAIT_AGAIN puts it back; the same for tasks, which are
-- called once. Begin and Post fail only on a loop that shuts down. Cancel of an outstanding wait
-- returns MX_OK, or MX_ERR_BAD_HANDLE if its handle is bad, and takes it out. New objects do not overlap.
pub record IsLawful {A C TimeDelta Deadline : Type 0} (p : Platform A C TimeDelta Deadline)
    : Type 0 where
  pub begin_wait_status :
      (w : ℕ) (r : HandlerRecord Deadline) (a : A)
      → (is_ok (p.begin_wait w r a).0 || is_bad_state (p.begin_wait w r a).0) ≡ true
  pub waiting-begin_wait :
      (w : ℕ) (r : HandlerRecord Deadline) (a : A) (v : ℕ)
      → p.waiting (p.begin_wait w r a).1 v
        ≡ (if is_ok (p.begin_wait w r a).0 && (w == v) then true else p.waiting a v)
  pub posted-begin_wait :
      (w : ℕ) (r : HandlerRecord Deadline) (a : A) (v : ℕ)
      → p.posted (p.begin_wait w r a).1 v ≡ p.posted a v
  pub cancel_wait_status :
      (w : ℕ) (a : A)
      → p.waiting a w ≡ true
      → (is_bad_handle (p.cancel_wait w a).0 || is_ok (p.cancel_wait w a).0) ≡ true
  pub waiting-cancel_wait :
      (w : ℕ) (a : A) (v : ℕ)
      → p.waiting (p.cancel_wait w a).1 v ≡ (if w == v then false else p.waiting a v)
  pub posted-cancel_wait : (w : ℕ) (a : A) (v : ℕ) → p.posted (p.cancel_wait w a).1 v ≡ p.posted a v
  pub post_task_status :
      (t : ℕ) (r : TaskRecord C Deadline) (a : A)
      → (is_ok (p.post_task t r a).0 || is_bad_state (p.post_task t r a).0) ≡ true
  pub posted-post_task :
      (t : ℕ) (r : TaskRecord C Deadline) (a : A) (v : ℕ)
      → p.posted (p.post_task t r a).1 v
        ≡ (if is_ok (p.post_task t r a).0 && (t == v) then true else p.posted a v)
  pub waiting-post_task :
      (t : ℕ) (r : TaskRecord C Deadline) (a : A) (v : ℕ)
      → p.waiting (p.post_task t r a).1 v ≡ p.waiting a v
  pub waiting-quit : (a : A) (v : ℕ) → p.waiting (p.quit a) v ≡ p.waiting a v
  pub posted-quit : (a : A) (v : ℕ) → p.posted (p.quit a) v ≡ p.posted a v
  pub reset_quit_status : (a : A) → is_ok (p.reset_quit a).0 ≡ true
  pub waiting-reset_quit : (a : A) (v : ℕ) → p.waiting (p.reset_quit a).1 v ≡ p.waiting a v
  pub posted-reset_quit : (a : A) (v : ℕ) → p.posted (p.reset_quit a).1 v ≡ p.posted a v
  pub waiting-take_wait :
      (w : ℕ) (a : A) (v : ℕ)
      → p.waiting (p.take_wait w a) v ≡ (if w == v then false else p.waiting a v)
  pub posted-take_wait : (w : ℕ) (a : A) (v : ℕ) → p.posted (p.take_wait w a) v ≡ p.posted a v
  pub posted-take_task :
      (t : ℕ) (a : A) (v : ℕ)
      → p.posted (p.take_task t a) v ≡ (if t == v then false else p.posted a v)
  pub waiting-take_task : (t : ℕ) (a : A) (v : ℕ) → p.waiting (p.take_task t a) v ≡ p.waiting a v
  pub waiting-wait_again :
      (w : ℕ) (a : A) (v : ℕ)
      → p.waiting (p.wait_again w a) v ≡ (if w == v then true else p.waiting a v)
  pub posted-wait_again : (w : ℕ) (a : A) (v : ℕ) → p.posted (p.wait_again w a) v ≡ p.posted a v
  pub find-new_handler_record :
      (m : Map (HandlerRecord Deadline)) → find (p.new_handler_record m) m ≡ none
  pub find-new_task_record : (m : Map (TaskRecord C Deadline)) → find (p.new_task_record m) m ≡ none

-- When the async::Loop shuts down, as documented: Begin fails then, and only then, and neither Begin
-- nor Cancel starts or ends it.
pub record ShutsDown {A C TimeDelta Deadline : Type 0} (p : Platform A C TimeDelta Deadline)
    (is_down : A → Bool) : Type 0 where
  pub refuses :
      (w : ℕ) (r : HandlerRecord Deadline) (a : A) → is_ok (p.begin_wait w r a).0 ≡ not (is_down a)
  pub down-begin_wait :
      (w : ℕ) (r : HandlerRecord Deadline) (a : A) → is_down (p.begin_wait w r a).1 ≡ is_down a
  pub down-cancel_wait : (w : ℕ) (a : A) → is_down (p.cancel_wait w a).1 ≡ is_down a
