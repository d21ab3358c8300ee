-- ===== src/Tasks/MessageLoop/Invariant/Initial.antt =====
-- A MessageLoop that was just made.
use mtl.Base.{find-empty, ℕ, ◌≡◌, refl, false, none, Ensures, arith}
use mtl.Tasks.Platform.{Platform, HandlerRecord, TaskRecord}
use mtl.Tasks.MessageLoop.{message_loop}
use mtl.Tasks.MessageLoop.Invariant.{Inv}

-- A new loop, over an async::Loop that has nothing to call.
pub message_loop-Inv :
    {A C TimeDelta Deadline W : Type 0} (platform : Platform A C TimeDelta Deadline) (this : ℕ)
    (loop : A) (world : W)
    → ((p : ℕ) → (platform.waiting loop p ≡ false) × (platform.posted loop p ≡ false))
    → Ensures
        (λ s.
          Inv platform none s
          × (s.current_handler ≡ none)
          × (s.is_running ≡ false)
          × (s.next_handler_key ≡ 1))
        (message_loop platform this loop world none)
unfolding message_loop
message_loop-Inv {A} {C} {TimeDelta} {Deadline} {W} platform this loop world none_left = (
  record {
    on_thread = refl;
    entry_keyed = λ k p h. ground (arith, find-empty {V = ℕ} k, h);
    entry_range = λ k p h. ground (arith, find-empty {V = ℕ} k, h);
    next_range = omega arith;
    record_owned = λ p k h. ground (arith, find-empty {V = HandlerRecord Deadline} p, h);
    record_waits = λ p k h. ground (arith, find-empty {V = HandlerRecord Deadline} p, h);
    wait_live = λ p h. ground (arith, none_left p, h);
    current_live = λ p h. ground (arith, h);
    removed_current = λ h. ground (arith, h);
    removed_gone = λ k p h. ground (arith, h);
    task_live = λ t. ground (arith, find-empty {V = TaskRecord C Deadline} t, none_left t);
    task_running = λ t e. ground (arith, e);
  },
  refl,
  refl,
  refl,
)
