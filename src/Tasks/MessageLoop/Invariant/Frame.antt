-- ===== src/Tasks/MessageLoop/Invariant/Frame.antt =====
-- What the invariant of a MessageLoop does not depend on.
use mtl.Base.{
  Option, ℕ, ◌≤◌, ◌≡◌, none, some, if◌then◌else◌, ◌==◌, Map, find, emplace, erase, find-emplace,
  find-erase, arith,
}
use mtl.Tasks.Platform.{HandlerRecord, Platform}
use mtl.Tasks.MessageLoop.{Thread}
use mtl.Tasks.MessageLoop.Invariant.{Inv, key_at}

pub key_at-emplace :
    {Deadline : Type 0} (p q : ℕ) (r : HandlerRecord Deadline) (m : Map (HandlerRecord Deadline))
    → find p m ≡ none
    → key_at (emplace p r m) q ≡ (if p == q then some r.key else key_at m q)
key_at-emplace p q r m h = ground (arith, find-emplace p q r m h)

pub key_at-erase :
    {Deadline : Type 0} (p q : ℕ) (m : Map (HandlerRecord Deadline))
    → key_at (erase p m) q ≡ (if p == q then none else key_at m q)
key_at-erase p q m = ground (arith, find-erase p q m)

module _ {A C TimeDelta Deadline W : Type 0} (platform : Platform A C TimeDelta Deadline) where
  -- What a call of the loop's interface by a client leaves alone.
  pub record Kept (s t : Thread A C Deadline W) : Type 0 where
    pub this_kept : t.this ≡ s.this
    pub running_kept : t.is_running ≡ s.is_running
    pub current_kept : t.current_handler ≡ s.current_handler

  -- Two states that agree on what the invariant reads.
  pub record Agree (s t : Thread A C Deadline W) : Type 0 where
    pub same_thread : t.g_current ≡ s.g_current
    pub same_this : t.this ≡ s.this
    pub same_handlers : t.handlers ≡ s.handlers
    pub same_records : t.handler_records ≡ s.handler_records
    pub same_tasks : t.task_records ≡ s.task_records
    pub same_current : t.current_handler ≡ s.current_handler
    pub same_removed : t.current_handler_removed ≡ s.current_handler_removed
    pub later_key : s.next_handler_key ≤ t.next_handler_key
    pub same_waiting : (v : ℕ) → platform.waiting t.loop v ≡ platform.waiting s.loop v
    pub same_posted : (v : ℕ) → platform.posted t.loop v ≡ platform.posted s.loop v

  pub Inv-Agree :
      {running : Option ℕ} (s t : Thread A C Deadline W)
      → Agree s t
      → Inv platform running s
      → Inv platform running t
  Inv-Agree s t a inv = record {
    on_thread = ground arith;
    entry_keyed = λ k p h. ground (arith, inv.entry_keyed k p);
    entry_range = λ k p h. ground (arith, inv.entry_range k p);
    next_range = ground arith;
    record_owned = λ p k h. ground (arith, inv.record_owned p k);
    record_waits = λ p k h. ground (arith, inv.record_waits p k, a.same_waiting p);
    wait_live = λ p h. ground (arith, inv.wait_live p, a.same_waiting p);
    current_live = λ p h. ground (arith, inv.current_live p);
    removed_current = λ h. ground (arith, inv.removed_current);
    removed_gone = λ k p h r. ground (arith, inv.removed_gone k p);
    task_live = λ v. ground (arith, inv.task_live v, a.same_posted v);
    task_running = λ v e. ground (arith, inv.task_running v, a.same_posted v);
  }
