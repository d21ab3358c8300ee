-- ===== src/Io/DeviceWatcher/Create.antt =====
-- DeviceWatcher::Create with the constructor and the destructor: the descriptors, the handles and
-- the handler keys that they open and close. The system calls and the message loop of the thread,
-- which has one, are an interface.
pub mod Lifecycle
use mtl.Magenta.{signal_none, Signals}
use mtl.Base.{
  sym, ℕ, ◌≡◌, refl, ◌∙◌, ap, fun_ext, Bool, true, false, Option, none, some, List, ◌==◌,
  if◌then◌else◌, arith, inl, inr, some-injective, Option-cases, Bool-cases,
}
use mtl.Io.DeviceWatcher.{Signals, DeviceWatcher, close_held}

-- `O` is the state of the process.
pub record Os (O : Type 0) : Type 0 where
  -- open(path, O_DIRECTORY | O_RDONLY), where `none` is a negative result
  pub open_directory : List ℕ → O → Option ℕ × O
  -- mx_channel_create, where `none` is a negative status
  pub channel_create : O → Option (ℕ × ℕ) × O
  -- ioctl_vfs_watch_dir, where false is a negative result
  pub ioctl_vfs_watch_dir : ℕ → ℕ → O → Bool × O
  pub close_fd : ℕ → O → O
  pub close_handle : ℕ → O → O
  -- MessageLoop::GetCurrent()->AddHandler, with its default timeout, and RemoveHandler; whether that
  -- loop shuts down
  pub add_handler : ℕ → Signals → O → ℕ × O
  pub remove_handler : ℕ → O → O
  pub is_down : O → Bool

-- The descriptors and handles of the process that are open, and the keys of its handlers.
pub record Resources : Type 0 where
  pub fds : ℕ → Bool
  pub handles : ℕ → Bool
  pub keys : ℕ → Bool

abbrev pub with : ℕ → (ℕ → Bool) → ℕ → Bool
with x f v = if x == v then true else f v

abbrev pub without : ℕ → (ℕ → Bool) → ℕ → Bool
without x f v = if x == v then false else f v

-- The documented behaviour: a call that fails opens nothing, one that succeeds opens something new,
-- and an accepted ioctl takes its channel over. AddHandler gives a new key, and registers the
-- handler, unless the loop shuts down.
pub record IsLawful {O : Type 0} (os : Os O) (opened : O → Resources) : Type 0 where
  pub open_fails :
      (path : List ℕ) (o : O)
      → (os.open_directory path o).0 ≡ none
      → opened (os.open_directory path o).1 ≡ opened o
  pub open_succeeds :
      (path : List ℕ) (o : O) (fd : ℕ)
      → (os.open_directory path o).0 ≡ some fd
      → ((opened o).fds fd ≡ false)
        × (opened (os.open_directory path o).1 ≡ record (opened o) { fds = with fd (opened o).fds })
  pub channel_fails :
      (o : O) → (os.channel_create o).0 ≡ none → opened (os.channel_create o).1 ≡ opened o
  pub channel_succeeds :
      (o : O) (a b : ℕ)
      → (os.channel_create o).0 ≡ some (a, b)
      → ((opened o).handles b ≡ false)
        × (with b (opened o).handles a ≡ false)
        × (opened (os.channel_create o).1
            ≡ record (opened o) { handles = with a (with b (opened o).handles) })
  pub ioctl_fails :
      (fd a : ℕ) (o : O)
      → (os.ioctl_vfs_watch_dir fd a o).0 ≡ false
      → opened (os.ioctl_vfs_watch_dir fd a o).1 ≡ opened o
  pub ioctl_succeeds :
      (fd a : ℕ) (o : O)
      → (os.ioctl_vfs_watch_dir fd a o).0 ≡ true
      → opened (os.ioctl_vfs_watch_dir fd a o).1
        ≡ record (opened o) { handles = without a (opened o).handles }
  pub opened-close_fd :
      (fd : ℕ) (o : O)
      → opened (os.close_fd fd o) ≡ record (opened o) { fds = without fd (opened o).fds }
  pub opened-close_handle :
      (h : ℕ) (o : O)
      → opened (os.close_handle h o) ≡ record (opened o) { handles = without h (opened o).handles }
  pub opened-add_handler :
      (h : ℕ) (trigger : Signals) (o : O)
      → ((opened o).keys (os.add_handler h trigger o).0 ≡ false)
        × (opened (os.add_handler h trigger o).1 ≡ (
            if os.is_down o
            then opened o
            else record (opened o) { keys = with (os.add_handler h trigger o).0 (opened o).keys }))
  pub opened-remove_handler :
      (k : ℕ) (o : O)
      → opened (os.remove_handler k o) ≡ record (opened o) { keys = without k (opened o).keys }

-- MX_CHANNEL_READABLE | MX_CHANNEL_PEER_CLOSED
abbrev pub watch_trigger : Signals
watch_trigger = record signal_none { readable = true; peer_closed = true }

module _ {O : Type 0} (os : Os O) where
  -- DeviceWatcher::DeviceWatcher
  pub device_watcher : ℕ → ℕ → O → DeviceWatcher × O
  device_watcher dir_fd dir_watch o =
      let (key, o') = os.add_handler dir_watch watch_trigger o in
      (record { dir_fd = dir_fd; dir_watch = some dir_watch; handler_key = key }, o')

  -- The part of Create behind the ioctl; `channel` is wd.channel.
  pub watch_started : ℕ → ℕ → ℕ → Bool × O → Option DeviceWatcher × O
  unfolding device_watcher
  watch_started dir_fd channel dir_watch (false, o) =
      (none, os.close_fd dir_fd (os.close_handle dir_watch (os.close_handle channel o)))
  watch_started dir_fd channel dir_watch (true, o) =
      let (watcher, o') = device_watcher dir_fd dir_watch o in (some watcher, o')

  -- The part of Create behind mx_channel_create.
  pub channel_created : ℕ → Option (ℕ × ℕ) × O → Option DeviceWatcher × O
  unfolding watch_started
  channel_created dir_fd (none, o) = (none, os.close_fd dir_fd o)
  channel_created dir_fd (some (channel, dir_watch), o) =
      watch_started dir_fd channel dir_watch (os.ioctl_vfs_watch_dir dir_fd channel o)

  pub directory_opened : Option ℕ × O → Option DeviceWatcher × O
  unfolding channel_created
  directory_opened (none, o) = (none, o)
  directory_opened (some dir_fd, o) = channel_created dir_fd (os.channel_create o)

  unfoldable pub create : List ℕ → O → Option DeviceWatcher × O
  unfolding directory_opened
  create path o = directory_opened (os.open_directory path o)

  -- ~DeviceWatcher, with the ends of `dir_watch_` and `dir_fd_`.
  unfoldable pub destroy_watcher : DeviceWatcher → O → O
  destroy_watcher watcher o =
      os.close_fd watcher.dir_fd
        (close_held os.close_handle watcher.dir_watch (os.remove_handler watcher.handler_key o))
