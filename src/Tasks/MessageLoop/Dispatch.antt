-- ===== src/Tasks/MessageLoop/Dispatch.antt =====
-- tasks/message_loop.cc: what runs on the loop. The code of a client (a MessageLoopHandler, a task
-- or the after task callback) is a tree of calls into the loop, which may depend on what the calls
-- return and on the client's own state, so it may call back into the loop from inside a dispatch.
use mtl.Base.{
  ℕ, ◌||◌, Bool, true, false, not, Option, none, some, List, [], ◌∷◌, if◌then◌else◌, is_null,
  is_some, Outcome, returns, ◌>>=◌, ◌>>◌, check, find, erase, is_empty,
}
use mtl.Magenta.{Status, Signals, is_ok, is_canceled}
use mtl.Tasks.Platform.{Closure, client, quits, Platform}
use mtl.Tasks.MessageLoop.{
  Thread, points_to, deref, on_own_thread, post_task, add_handler, delete_record, remove_handler,
  has_handler, quit_now, set_after_task_callback, clear_after_task_callback,
}

pub data Code (C TimeDelta Deadline W : Type 0) : Type 0 where
  done : Code C TimeDelta Deadline W
  adds_handler :
      ℕ → ℕ → Signals → TimeDelta → (ℕ → Code C TimeDelta Deadline W) → Code C TimeDelta Deadline W
  removes_handler : ℕ → Code C TimeDelta Deadline W → Code C TimeDelta Deadline W
  asks_handler : ℕ → (Bool → Code C TimeDelta Deadline W) → Code C TimeDelta Deadline W
  posts : Closure C → Deadline → Code C TimeDelta Deadline W → Code C TimeDelta Deadline W
  sets_callback : Option C → Code C TimeDelta Deadline W → Code C TimeDelta Deadline W
  clears_callback : Code C TimeDelta Deadline W → Code C TimeDelta Deadline W
  quits_now : Code C TimeDelta Deadline W → Code C TimeDelta Deadline W
  reads : (W → Code C TimeDelta Deadline W) → Code C TimeDelta Deadline W
  writes : W → Code C TimeDelta Deadline W → Code C TimeDelta Deadline W

-- The virtual methods of the handlers, by the address of the handler, and the client's closures.
pub record Client (C TimeDelta Deadline W : Type 0) : Type 0 where
  pub on_handle_ready : ℕ → ℕ → Signals → ℕ → Code C TimeDelta Deadline W
  pub on_handle_error : ℕ → ℕ → Status → Code C TimeDelta Deadline W
  pub call : C → Code C TimeDelta Deadline W

-- What the async::Loop calls: a wait with a status, the observed signals and a count, or a task.
pub data Call : Type 0 where
  wait : ℕ → Status → Signals → ℕ → Call
  task : ℕ → Status → Call

module _ {A C TimeDelta Deadline W : Type 0} (platform : Platform A C TimeDelta Deadline)
    (client_code : Client C TimeDelta Deadline W) where
  open platform use {reset_quit, take_wait, take_task, wait_again}

  unfoldable pub run_code :
      Code C TimeDelta Deadline W → Thread A C Deadline W → Outcome (Thread A C Deadline W)
  run_code done s = returns s
  run_code (adds_handler handler handle trigger timeout k) s =
      add_handler platform handler handle trigger timeout s >>= λ r. run_code (k r.0) r.1
  run_code (removes_handler key k) s = remove_handler platform key s >>= run_code k
  run_code (asks_handler key k) s = has_handler platform key s >>= λ b. run_code (k b) s
  run_code (posts closure deadline k) s = post_task platform closure deadline s >>= run_code k
  run_code (sets_callback callback k) s = set_after_task_callback platform callback s >>= run_code k
  run_code (clears_callback k) s = clear_after_task_callback platform s >>= run_code k
  run_code (quits_now k) s = quit_now platform s >>= run_code k
  run_code (reads k) s = run_code (k s.world) s
  run_code (writes w k) s = run_code k (record s { world = w })

  unfoldable pub closure_code : Closure C → Code C TimeDelta Deadline W
  closure_code (client c) = client_code.call c
  closure_code quits = quits_now done

  abbrev pub set_current : Option ℕ → Bool → Thread A C Deadline W → Thread A C Deadline W
  set_current p removed s = record s {
    message_loop = record s.message_loop { current_handler = p; current_handler_removed = removed };
  }

  -- The error branch of HandlerRecord::Handle, after OnHandleError.
  unfoldable pub drop_current : ℕ → Thread A C Deadline W → Outcome (Thread A C Deadline W)
  drop_current address s = if s.current_handler_removed then returns s else do
    r ← deref (find address s.handler_records)
    check (is_some (find r.key s.handlers))
    returns (record s {
      message_loop = record s.message_loop {
        handlers = erase r.key s.handlers;
        current_handler_removed = true;
      };
    })

  -- The end of HandlerRecord::Handle: true is ASYNC_WAIT_AGAIN, false is ASYNC_WAIT_FINISHED.
  unfoldable pub finish : ℕ → Thread A C Deadline W → Outcome (Bool × Thread A C Deadline W)
  finish address s = do
    check (points_to s.current_handler address)
    if not s.current_handler_removed
        then returns (true, set_current none s.current_handler_removed s)
        else do t ← delete_record platform address (set_current none false s); returns (false, t)

  -- MessageLoop::HandlerRecord::Handle
  unfoldable pub handle_wait :
      ℕ → Status → Signals → ℕ → Thread A C Deadline W → Outcome (Bool × Thread A C Deadline W)
  handle_wait address status observed count s = do
    check (is_null s.current_handler)
    r ← deref (find address s.handler_records)
    let s' = set_current (some address) s.current_handler_removed s
    t ←
        if is_ok status
        then run_code (client_code.on_handle_ready r.handler r.object observed count) s'
        else (run_code (client_code.on_handle_error r.handler r.object status) s'
            >>= drop_current address)
    finish address t

  -- MessageLoop::TaskRecord::Handle
  unfoldable pub handle_task : ℕ → Status → Thread A C Deadline W → Outcome (Thread A C Deadline W)
  handle_task address status s = do
    r ← deref (find address s.task_records)
    t ← if is_ok status then run_code (closure_code r.task) s else returns s
    check (is_some (find address t.task_records))
    returns (record t { task_records = erase address t.task_records })

  -- MessageLoop::Epilogue
  unfoldable pub epilogue : Thread A C Deadline W → Outcome (Thread A C Deadline W)
  epilogue s = elim s.after_task_callback [
    | none ↦ returns s
    | some c ↦ run_code (client_code.call c) s
  ]

  -- A call by the async::Loop, with the epilogue that it was configured with.
  unfoldable pub dispatch : Call → Thread A C Deadline W → Outcome (Thread A C Deadline W)
  dispatch (wait address status observed count) s = do
    r ← handle_wait address status observed count (record s { loop = take_wait address s.loop })
    epilogue (if r.0 then record r.1 { loop = wait_again address r.1.loop } else r.1)
  dispatch (task address status) s = do
    t ← handle_task address status (record s { loop = take_task address s.loop })
    epilogue t

  unfoldable pub dispatch_all : List Call → Thread A C Deadline W → Outcome (Thread A C Deadline W)
  dispatch_all [] s = returns s
  dispatch_all (c ∷ cs) s = dispatch c s >>= dispatch_all cs

  -- MessageLoop::Run, where loop_.Run() makes the calls and returns the status.
  unfoldable pub run : List Call → Status → Thread A C Deadline W → Outcome (Thread A C Deadline W)
  run calls status s = do
    check (on_own_thread s)
    check (not s.is_running)
    t ← dispatch_all calls (record s { message_loop = record s.message_loop { is_running = true } })
    check (is_ok status || is_canceled status)
    let (reset, loop) = reset_quit t.loop
    check (is_ok reset)
    check t.is_running
    returns (record t { loop = loop; message_loop = record t.message_loop { is_running = false } })

  -- ~MessageLoop, where loop_.Shutdown() makes the calls; ClearDelegate is the queue's.
  unfoldable pub destroy : List Call → Thread A C Deadline W → Outcome (Thread A C Deadline W)
  destroy calls s = do
    check (on_own_thread s)
    t ← dispatch_all calls s
    check (is_empty t.handlers)
    returns (record t { g_current = none })
