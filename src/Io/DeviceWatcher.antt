-- ===== src/Io/DeviceWatcher.antt =====
-- io/device_watcher.h and io/device_watcher.cc. The callback is code of the client: a function on
-- its state that also says whether it destroyed the watcher. A pointer into the buffer of a message
-- is the rest of the buffer behind it, and a read behind the end of the buffer is an overrun.
pub mod Messages
pub mod Termination
pub mod Create
mod Tests
mod Process
use mtl.Base.{
  ℕ, zero, suc, ◌+◌, ◌-◌, Bool, true, false, ◌||◌, Option, none, some, List, [], ◌∷◌, length, take,
  drop, ltb, ◌==◌, if◌then◌else◌, Outcome, returns, aborts, ◌>>=◌, ◌>>◌, check,
}
use mtl.Magenta.{Status, Signals, is_ok}

-- VFS_WATCH_EVT_ADDED and VFS_WATCH_EVT_EXISTING
pub record Events : Type 0 where
  pub added : ℕ
  pub existing : ℕ

pub record DeviceWatcher : Type 0 where
  pub dir_fd : ℕ
  pub dir_watch : Option ℕ
  pub handler_key : ℕ

-- How the loop over the events of a message ends, with the state of the client.
pub data Scan (W : Type 0) : Type 0 where
  finished : W → Scan W
  destroyed : W → Scan W
  overrun : W → Scan W
  out_of_fuel : W → Scan W

module _ {W : Type 0} (events : Events) (callback : ℕ → List ℕ → W → Bool × W) (dir_fd : ℕ) where
  abbrev pub is_found : ℕ → Bool
  is_found event = event == events.added || event == events.existing

  -- The body of the loop is a round of fuel. `size` falls by the length of the name.
  pub scan_events : ℕ → List ℕ → ℕ → W → Scan W
  scan_events zero msg size w = out_of_fuel w
  scan_events (suc fuel) [] size w = if ltb size 2 then finished w else overrun w
  scan_events (suc fuel) (event ∷ []) size w = if ltb size 2 then finished w else overrun w
  scan_events (suc fuel) (event ∷ namelen ∷ msg) size w =
      let (gone, w') = callback dir_fd (take namelen msg) w in
      let on_found = scan_events fuel (drop namelen msg) (size - namelen) w' in
      let on_other = scan_events fuel (drop namelen msg) (size - namelen) w in
      if ltb size 2
      then finished w
      else if ltb size (namelen + 2)
      then finished w
      else if is_found event
      then (if ltb (length msg) namelen then overrun w else if gone then destroyed w' else on_found)
      else (if ltb (length msg) namelen then overrun w else on_other)

-- What dir_watch_.read returns: a status, the buffer and the size of the message in it.
pub record Message : Type 0 where
  pub status : Status
  pub buffer : List ℕ
  pub size : ℕ

-- mx::channel::reset, and the end of an mx::channel's life: a handle that is held is closed.
abbrev pub close_held : {W : Type 0} → (ℕ → W → W) → Option ℕ → W → W
close_held close_handle none w = w
close_held close_handle (some handle) w = close_handle handle w

module _ {W : Type 0} (events : Events) (callback : ℕ → List ℕ → W → Bool × W)
    (close_handle : ℕ → W → W) where
  -- The watcher that is left, if the callback did not destroy it, and how the scan ended.
  pub on_handle_ready : ℕ → Message → Signals → DeviceWatcher → W → Outcome (DeviceWatcher × Scan W)
  unfolding scan_events
  on_handle_ready fuel message pending watcher w =
      if pending.readable
      then (do
        check (is_ok message.status)
        returns (
          watcher,
          scan_events events callback watcher.dir_fd fuel message.buffer message.size w,
        ))
      else if pending.peer_closed
      then returns (
        record watcher { dir_watch = none },
        finished (close_held close_handle watcher.dir_watch w),
      )
      else aborts
