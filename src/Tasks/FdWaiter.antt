-- ===== src/Tasks/FdWaiter.antt =====
-- tasks/fd_waiter.h and tasks/fd_waiter.cc. mxio and the message loop of the thread are an interface;
-- the callback that an operation calls last is returned, with its arguments.
pub mod Holding
pub mod Balance
mod Tests
use mtl.Base.{
  ℕ, Bool, true, false, Option, none, some, is_null, is_some, Outcome, returns, aborts, ◌>>=◌, ◌>>◌,
  check,
}
use mtl.Magenta.{Status, Signals, ok}

-- `W` is the state of the process.
pub record Calls (W TimeDelta : Type 0) : Type 0 where
  -- __mxio_fd_to_io, where `none` is a null pointer, and __mxio_release
  pub fd_to_io : ℕ → W → Option ℕ × W
  pub release : ℕ → W → W
  -- __mxio_wait_begin, with the handle, where `none` is MX_HANDLE_INVALID, and the signals; and
  -- __mxio_wait_end
  pub wait_begin : ℕ → ℕ → W → (Option ℕ × Signals) × W
  pub wait_end : ℕ → Signals → W → ℕ × W
  -- MessageLoop::GetCurrent()->AddHandler and RemoveHandler, and whether that loop shuts down
  pub add_handler : ℕ → Signals → TimeDelta → W → ℕ × W
  pub remove_handler : ℕ → W → W
  pub is_down : W → Bool

pub record FdWaiter (C : Type 0) : Type 0 where
  pub io : Option ℕ
  pub key : Option ℕ
  pub callback : Option C

module _ {W TimeDelta : Type 0} (calls : Calls W TimeDelta) where
  abbrev pub remove_key : Option ℕ → W → W
  remove_key none w = w
  remove_key (some key) w = calls.remove_handler key w

  abbrev pub end_events : Option ℕ → Signals → W → Outcome (ℕ × W)
  end_events none pending w = aborts
  end_events (some io) pending w = returns (calls.wait_end io pending w)

module _ (C : Type 0) {W TimeDelta : Type 0} (calls : Calls W TimeDelta) where
  abbrev pub State : Type 0
  State = FdWaiter C × W

  abbrev pub fd_waiter : FdWaiter C
  fd_waiter = record { io = none; key = none; callback = none }

  -- The rest of Cancel, where `io_` is not null.
  abbrev pub cancel_io : Option ℕ → State → Outcome State
  cancel_io none s = aborts
  cancel_io (some io) (h, w) = returns (fd_waiter, calls.release io (remove_key calls h.key w))

  unfoldable pub cancel : State → Outcome State
  cancel (h, w) = cancel_io h.io (h, w)

  -- Wait behind __mxio_wait_begin.
  unfoldable pub wait_begun : C → TimeDelta → Option ℕ → Signals → State → Outcome (Bool × State)
  wait_begun callback timeout none signals s = do t ← cancel s; returns (false, t)
  wait_begun callback timeout (some handle) signals (h, w) =
      let (key, w') = calls.add_handler handle signals timeout w in
      returns (true, (record h { key = some key; callback = some callback }, w'))

  -- Wait behind __mxio_fd_to_io.
  unfoldable pub wait_opened : C → ℕ → TimeDelta → Option ℕ → State → Outcome (Bool × State)
  wait_opened callback events timeout none s = returns (false, s)
  wait_opened callback events timeout (some io) (h, w) =
      let ((handle, signals), w') = calls.wait_begin io events w in
      wait_begun callback timeout handle signals (record h { io = some io }, w')

  unfoldable pub wait : C → ℕ → ℕ → TimeDelta → State → Outcome (Bool × State)
  wait callback fd events timeout (h, w) = do
    check (is_null h.io)
    check (is_null h.key)
    let (io, w') = calls.fd_to_io fd w
    wait_opened callback events timeout io (h, w')

  -- ~FDWaiter
  unfoldable pub destroy_waiter : State → Outcome State
  destroy_waiter (h, w) = do
    t ← if_waiting h.io (h, w)
    check (is_null (t.0.io))
    check (is_null (t.0.key))
    returns t
    where
      if_waiting : Option ℕ → State → Outcome State
      if_waiting none s = returns s
      if_waiting (some io) s = cancel s

  -- The callback, its arguments, and the state it is called in.
  unfoldable pub on_handle_ready : Signals → State → Outcome ((Option C × (Status × ℕ)) × State)
  on_handle_ready pending (h, w) = do
    check (is_some h.key)
    ended ← end_events calls h.io pending w
    t ← cancel (h, ended.1)
    returns ((h.callback, (ok, ended.0)), t)

  unfoldable pub on_handle_error : Status → State → Outcome ((Option C × (Status × ℕ)) × State)
  on_handle_error error (h, w) = do t ← cancel (h, w); returns ((h.callback, (error, 0)), t)
