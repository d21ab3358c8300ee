-- ===== src/Tasks/MessageLoop.antt =====
-- tasks/message_loop.h and tasks/message_loop.cc, on the thread of the loop. A read or a delete of
-- a record that is not on the heap aborts, as a failed check does.
pub mod Dispatch
pub mod Invariant
pub mod Sample
mod UnitTests
mod Tests
use mtl.Base.{
  ℕ, ◌+◌, ◌%◌, ◌^◌, Bool, true, false, not, ◌||◌, Option, none, some, ◌==◌, if◌then◌else◌, is_null,
  is_some, Outcome, returns, aborts, ◌>>◌, check, Map, empty, find, emplace, erase,
}
use mtl.Magenta.{Signals, is_ok, is_bad_state, is_bad_handle, handle_invalid}
use mtl.Tasks.Platform.{HandlerRecord, TaskRecord, Closure, quits, Platform}

pub record MessageLoop (C : Type 0) : Type 0 where
  pub this : ℕ
  pub after_task_callback : Option C
  pub is_running : Bool
  pub next_handler_key : ℕ
  pub handlers : Map ℕ
  pub current_handler : Option ℕ
  pub current_handler_removed : Bool

-- The thread: its `g_current`, its loop, the async::Loop under it, the heap of records, and what
-- the clients of the loop keep.
pub record Thread (A C Deadline W : Type 0) : Type 0 where
  pub g_current : Option ℕ
  pub message_loop : MessageLoop C
  pub open message_loop use *
  pub loop : A
  pub handler_records : Map (HandlerRecord Deadline)
  pub task_records : Map (TaskRecord C Deadline)
  pub world : W

-- p == address, for a pointer that may be null
abbrev pub points_to : Option ℕ → ℕ → Bool
points_to none a = false
points_to (some b) a = b == a

-- A pointer that is read.
abbrev pub deref {ℓ} : {A : Type ℓ} → Option A → Outcome A
deref none = aborts
deref (some a) = returns a

module _ {A C Deadline W : Type 0} where
  abbrev pub on_own_thread : Thread A C Deadline W → Bool
  on_own_thread s = points_to s.g_current s.this

  pub get_current : Thread A C Deadline W → Option ℕ
  get_current s = s.g_current

  pub runs_tasks_on_current_thread : Thread A C Deadline W → Bool
  runs_tasks_on_current_thread s = on_own_thread s

module _ {A C TimeDelta Deadline W : Type 0} (platform : Platform A C TimeDelta Deadline) where
  open platform use {
    begin_wait, cancel_wait, post_task as post, quit, reset_quit, is_max, infinite, deadline_after,
    new_handler_record, new_task_record,
  }

  -- MessageLoop::MessageLoop, for an object at address `this`; the registration with the
  -- IncomingTaskQueue is InitDelegate.
  unfoldable pub message_loop : ℕ → A → W → Option ℕ → Outcome (Thread A C Deadline W)
  message_loop this loop world g_current = do
    check (is_null g_current)
    returns (record {
      g_current = some this;
      message_loop = record {
        this = this;
        after_task_callback = none;
        is_running = false;
        next_handler_key = 1;
        handlers = empty;
        current_handler = none;
        current_handler_removed = false;
      };
      loop = loop;
      handler_records = empty;
      task_records = empty;
      world = world;
    })

  -- `deadline` is target_time.ToEpochDelta().ToNanoseconds().
  unfoldable pub post_task :
      Closure C → Deadline → Thread A C Deadline W → Outcome (Thread A C Deadline W)
  post_task task deadline s =
      let record_address = new_task_record s.task_records in
      let r : TaskRecord C Deadline = record { deadline = deadline; task = task } in
      let (status, loop) = post record_address r s.loop in
      if is_bad_state status then returns (record s { loop = loop }) else do
        check (is_ok status)
        returns (record s { loop = loop; task_records = emplace record_address r s.task_records })

  pub add_handler :
      ℕ → ℕ → Signals → TimeDelta → Thread A C Deadline W → Outcome (ℕ × Thread A C Deadline W)
  add_handler handler handle trigger timeout s = do
    check (on_own_thread s)
    check (not (handler == 0))
    check (not (handle == handle_invalid))
    let key = s.next_handler_key
    let r : HandlerRecord Deadline = record {
      object = handle;
      trigger = trigger;
      deadline = (if is_max timeout then infinite else deadline_after timeout s.loop);
      handler = handler;
      key = key;
    }
    let record_address = new_handler_record s.handler_records
    let (status, loop) = begin_wait record_address r s.loop
    let s' = record s {
      message_loop = record s.message_loop { next_handler_key = (key + 1) % 2 ^ 64 };
      loop = loop;
    }
    if is_bad_state status then returns (key, s') else do
      check (is_ok status)
      returns (
        key,
        record s' {
          message_loop = record s'.message_loop {
            handlers = emplace key record_address s.handlers;
          };
          handler_records = emplace record_address r s.handler_records;
        },
      )

  -- delete record
  unfoldable pub delete_record : ℕ → Thread A C Deadline W → Outcome (Thread A C Deadline W)
  delete_record address s = do
    check (is_some (find address s.handler_records))
    returns (record s { handler_records = erase address s.handler_records })

  remove_found : ℕ → ℕ → Thread A C Deadline W → Outcome (Thread A C Deadline W)
  unfolding delete_record
  remove_found key address s =
      let s' = record s {
        message_loop = record s.message_loop { handlers = erase key s.handlers };
      } in
      if points_to s.current_handler address
      then returns
          (record s' { message_loop = record s'.message_loop { current_handler_removed = true } })
      else do
        check (is_some (find address s.handler_records))
        let (status, loop) = cancel_wait address s.loop
        check (is_bad_handle status || is_ok status)
        delete_record address (record s' { loop = loop })

  pub remove_handler : ℕ → Thread A C Deadline W → Outcome (Thread A C Deadline W)
  unfolding remove_found
  remove_handler key s = do
    check (on_own_thread s)
    elim (find key s.handlers) [ none ↦ returns s | some address ↦ remove_found key address s ]

  pub has_handler : ℕ → Thread A C Deadline W → Outcome Bool
  has_handler key s = do check (on_own_thread s); returns (is_some (find key s.handlers))

  unfoldable pub quit_now : Thread A C Deadline W → Outcome (Thread A C Deadline W)
  quit_now s = do
    check (on_own_thread s)
    returns (if s.is_running then record s { loop = quit s.loop } else s)

  -- `deadline` is that of TimePoint(), by IncomingTaskQueue::PostTask.
  pub post_quit_task : Deadline → Thread A C Deadline W → Outcome (Thread A C Deadline W)
  unfolding post_task
  post_quit_task deadline s = post_task quits deadline s

  pub set_after_task_callback : Option C → Thread A C Deadline W → Outcome (Thread A C Deadline W)
  set_after_task_callback callback s = do
    check (on_own_thread s)
    returns (record s { message_loop = record s.message_loop { after_task_callback = callback } })

  pub clear_after_task_callback : Thread A C Deadline W → Outcome (Thread A C Deadline W)
  clear_after_task_callback s = do
    check (on_own_thread s)
    returns (record s { message_loop = record s.message_loop { after_task_callback = none } })
