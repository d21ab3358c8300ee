-- ===== src/Waiter.antt =====
-- waiter/default.cc, on the thread of a MessageLoop. The callback that an operation calls last is
-- returned, with its arguments; a use of a watcher that is deleted stops, as a failed check does.
pub mod Waits
pub mod Starts
pub mod Ends
pub mod Balance
mod Tests
use mtl.Base.{
  ℕ, Bool, true, false, not, Option, none, some, ◌==◌, if◌then◌else◌, Outcome, returns, aborts,
  ◌>>=◌, ◌>>◌, check, Map, find, emplace, erase,
}
use mtl.Magenta.{Status, Signals, ok, signal_none}
use mtl.Tasks.HandlerLoop.{HandlerLoop}

pub record HandleWatcher : Type 0 where
  pub key : ℕ
  pub handle : ℕ
  pub callback : ℕ
  pub context : ℕ

-- A call of `callback` with `context`.
pub record CallbackCall : Type 0 where
  pub callback : ℕ
  pub status : Status
  pub pending : Signals
  pub count : ℕ
  pub context : ℕ

-- The loop of the thread, and the watchers on the heap.
pub record World (L : Type 0) : Type 0 where
  pub loop : L
  pub watchers : Map HandleWatcher

abbrev pub deref_watcher : Option HandleWatcher → Outcome HandleWatcher
deref_watcher none = aborts
deref_watcher (some w) = returns w

-- MX_TIME_INFINITE, ftl::TimeDelta::Max and FromNanoseconds, and operator new.
pub record Platform (L TimeDelta : Type 0) : Type 0 where
  pub time_infinite : ℕ
  pub max : TimeDelta
  pub from_nanoseconds : ℕ → TimeDelta
  pub new_watcher : World L → ℕ

module _ {L TimeDelta : Type 0} (handler_loop : HandlerLoop L TimeDelta)
    (platform : Platform L TimeDelta) where
  -- HandleWatcher::Start, on the watcher at an address.
  unfoldable pub start_watcher : ℕ → Signals → ℕ → World L → Outcome (World L)
  start_watcher address signals timeout s = do
    w ← deref_watcher (find address s.watchers)
    r ←
        handler_loop.add_handler address w.handle signals
          (if timeout == platform.time_infinite
            then platform.max
            else platform.from_nanoseconds timeout)
          s.loop
    returns (record s {
      loop = r.1;
      watchers = emplace address (record w { key = r.0 }) (erase address s.watchers);
    })

  -- AsyncWait: the id, which is the address of the watcher.
  unfoldable pub async_wait : ℕ → Signals → ℕ → ℕ → ℕ → World L → Outcome (ℕ × World L)
  async_wait handle signals timeout callback context s = do
    let address = platform.new_watcher s
    let w : HandleWatcher = record {
      key = 0;
      handle = handle;
      callback = callback;
      context = context;
    }
    t ← start_watcher address signals timeout (record s { watchers = emplace address w s.watchers })
    returns (address, t)

  -- delete, with ~HandleWatcher.
  unfoldable pub delete_watcher : ℕ → World L → Outcome (World L)
  delete_watcher address s = do
    w ← deref_watcher (find address s.watchers)
    loop ← if w.key == 0 then returns s.loop else handler_loop.remove_handler w.key s.loop
    returns (record s { loop = loop; watchers = erase address s.watchers })

  unfoldable pub cancel_wait : ℕ → World L → Outcome (World L)
  cancel_wait wait_id s = delete_watcher wait_id s

  unfoldable pub call_callback :
      ℕ → Status → Signals → ℕ → World L → Outcome (CallbackCall × World L)
  call_callback address status pending count s = do
    w ← deref_watcher (find address s.watchers)
    t ← delete_watcher address s
    returns (
      record {
        callback = w.callback;
        status = status;
        pending = pending;
        count = count;
        context = w.context;
      },
      t,
    )

  unfoldable pub on_handle_ready : ℕ → ℕ → Signals → ℕ → World L → Outcome (CallbackCall × World L)
  on_handle_ready address handle pending count s = do
    w ← deref_watcher (find address s.watchers)
    check (w.handle == handle)
    call_callback address ok pending count s

  unfoldable pub on_handle_error : ℕ → ℕ → Status → World L → Outcome (CallbackCall × World L)
  on_handle_error address handle status s = do
    w ← deref_watcher (find address s.watchers)
    check (w.handle == handle)
    call_callback address status signal_none 0 s
