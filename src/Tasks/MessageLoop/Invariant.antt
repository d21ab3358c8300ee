-- ===== src/Tasks/MessageLoop/Invariant.antt =====
-- The bookkeeping of a MessageLoop: `handlers_`, the records on the heap and the waits that the
-- async::Loop still has to call agree at every moment at which code of a client can run.
mod Frame
pub mod Add
mod Remove
pub mod Calls
pub mod Reentry
mod Waits
pub mod Handling
mod Posted
pub mod Dispatches
pub mod Runs
pub mod Initial
pub mod Registry
use mtl.Base.{
  ℕ, ◌+◌, ◌<◌, ◌^◌, ◌≡◌, ◌≢◌, ◌⊎◌, Bool, true, false, Option, none, some, Map, find, is_some, ◌||◌,
}
use mtl.Tasks.Platform.{HandlerRecord, Platform}
use mtl.Tasks.MessageLoop.{Thread, points_to}

-- The key of the record at an address.
abbrev pub key_at : {Deadline : Type 0} → Map (HandlerRecord Deadline) → ℕ → Option ℕ
key_at m p = elim (find p m) [ none ↦ none | some r ↦ some r.key ]

module _ {A C TimeDelta Deadline W : Type 0} (platform : Platform A C TimeDelta Deadline) where
  abbrev pub keyed : Thread A C Deadline W → ℕ → Option ℕ
  keyed s p = key_at s.handler_records p

  -- `running` is the task that is being run, if any.
  pub record Inv (running : Option ℕ) (s : Thread A C Deadline W) : Type 0 where
    pub on_thread : s.g_current ≡ some s.this
    -- A handler's entry leads to a record on the heap that has its key.
    pub entry_keyed : (k p : ℕ) → find k s.handlers ≡ some p → keyed s p ≡ some k
    -- Keys are not zero and below the next one.
    pub entry_range : (k p : ℕ) → find k s.handlers ≡ some p → (0 < k) × (k < s.next_handler_key)
    pub next_range : 0 < s.next_handler_key
    -- A record on the heap is registered, or it is the running handler's and was removed.
    pub record_owned :
        (p k : ℕ)
        → keyed s p ≡ some k
        → (find k s.handlers ≡ some p)
          ⊎ ((s.current_handler ≡ some p) × (s.current_handler_removed ≡ true))
    -- The async::Loop waits for each record but the running one, and for nothing else.
    pub record_waits :
        (p k : ℕ)
        → keyed s p ≡ some k
        → (platform.waiting s.loop p ≡ true) ⊎ (s.current_handler ≡ some p)
    pub wait_live :
        (p : ℕ)
        → platform.waiting s.loop p ≡ true
        → (keyed s p ≢ none) × (s.current_handler ≢ some p)
    pub current_live : (p : ℕ) → s.current_handler ≡ some p → keyed s p ≢ none
    pub removed_current : s.current_handler_removed ≡ true → s.current_handler ≢ none
    pub removed_gone :
        (k p : ℕ)
        → s.current_handler ≡ some p
        → s.current_handler_removed ≡ true
        → find k s.handlers ≢ some p
    -- The task records on the heap are those that the async::Loop holds, and the running one.
    pub task_live :
        (t : ℕ)
        → is_some (find t s.task_records) ≡ (platform.posted s.loop t || points_to running t)
    pub task_running : (t : ℕ) → running ≡ some t → platform.posted s.loop t ≡ false
