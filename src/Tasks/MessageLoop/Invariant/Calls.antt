-- ===== src/Tasks/MessageLoop/Invariant/Calls.antt =====
-- The other calls of a MessageLoop keep the invariant.
use mtl.Base.{
  ℕ, ◌≡◌, refl, ◌⊎◌, inl, inr, true, false, Option, none, find, emplace, find-emplace, is_some,
  returns, Ensures, Bool-cases, arith,
}
use mtl.Magenta.{Status, is_ok}
use mtl.Tasks.Platform.{Closure, TaskRecord, Platform, IsLawful}
use mtl.Tasks.MessageLoop.{
  Thread, post_task, has_handler, quit_now, set_after_task_callback, clear_after_task_callback,
}
use mtl.Tasks.MessageLoop.Invariant.{Inv}
use mtl.Tasks.MessageLoop.Invariant.Frame.{Kept, Agree, Inv-Agree}

module _ {A C TimeDelta Deadline W : Type 0} (platform : Platform A C TimeDelta Deadline)
    (lawful : IsLawful platform) (running : Option ℕ) (s : Thread A C Deadline W) where
  -- What every call of a client but AddHandler ensures.
  abbrev pub Stays : Thread A C Deadline W → Type 0
  Stays t = Inv platform running t × Kept platform s t × (t.next_handler_key ≡ s.next_handler_key)

  module _ (task : Closure C) (deadline : Deadline) where
    abbrev pub made : TaskRecord C Deadline
    made = record { deadline = deadline; task = task }

    abbrev pub address : ℕ
    address = platform.new_task_record s.task_records

    abbrev pub begun : Status × A
    begun = platform.post_task address made s.loop

    abbrev pub suppressed : Thread A C Deadline W
    suppressed = record s { loop = begun.1 }

    abbrev pub posted : Thread A C Deadline W
    posted = record s { loop = begun.1; task_records = emplace address made s.task_records }

    pub post_task_cases :
        ((is_ok begun.0 ≡ false) × (post_task platform task deadline s ≡ returns suppressed))
        ⊎ ((is_ok begun.0 ≡ true) × (post_task platform task deadline s ≡ returns posted))
    unfolding post_task
    post_task_cases = ground (arith, lawful.post_task_status address made s.loop)

    pub posted-Inv : is_ok begun.0 ≡ true → Inv platform running s → Inv platform running posted
    posted-Inv st inv = record {
      on_thread = inv.on_thread;
      entry_keyed = inv.entry_keyed;
      entry_range = inv.entry_range;
      next_range = inv.next_range;
      record_owned = inv.record_owned;
      record_waits = λ p k h.
          ground (arith, inv.record_waits p k, lawful.waiting-post_task address made s.loop p);
      wait_live =
          λ p h. ground (arith, inv.wait_live p, lawful.waiting-post_task address made s.loop p);
      current_live = inv.current_live;
      removed_current = inv.removed_current;
      removed_gone = inv.removed_gone;
      task_live = λ t. ground (
        arith,
        inv.task_live t,
        lawful.posted-post_task address made s.loop t,
        find-emplace address t made s.task_records (lawful.find-new_task_record s.task_records),
      );
      task_running = λ t e. ground (
        arith,
        inv.task_running t,
        inv.task_live t,
        lawful.posted-post_task address made s.loop t,
        lawful.find-new_task_record s.task_records,
      );
    }

    suppressed-Agree : is_ok begun.0 ≡ false → Agree platform s suppressed
    suppressed-Agree st = record {
      same_thread = refl;
      same_this = refl;
      same_handlers = refl;
      same_records = refl;
      same_tasks = refl;
      same_current = refl;
      same_removed = refl;
      later_key = omega arith;
      same_waiting = lawful.waiting-post_task address made s.loop;
      same_posted = λ v. ground (arith, lawful.posted-post_task address made s.loop v);
    }

    pub post_task-Inv : Inv platform running s → Ensures Stays (post_task platform task deadline s)
    post_task-Inv inv = elim post_task_cases [
      | inl (st, e) ↦ rw e (
        Inv-Agree platform s suppressed (suppressed-Agree st) inv,
        record { this_kept = refl; running_kept = refl; current_kept = refl },
        refl,
      )
      | inr (st, e) ↦ rw e (
        posted-Inv st inv,
        record { this_kept = refl; running_kept = refl; current_kept = refl },
        refl,
      )
    ]

  pub has_handler_lem :
      (key : ℕ)
      → Inv platform running s
      → has_handler platform key s ≡ returns (is_some (find key s.handlers))
  unfolding has_handler
  has_handler_lem key inv = ground (arith, inv.on_thread)

  module _ (inv : Inv platform running s) where
    callback-Inv :
        (callback : Option C)
        → Stays
            (record s { message_loop = record s.message_loop { after_task_callback = callback } })
    callback-Inv callback = (
      Inv-Agree platform s
          (record s { message_loop = record s.message_loop { after_task_callback = callback } })
          (record {
            same_thread = refl;
            same_this = refl;
            same_handlers = refl;
            same_records = refl;
            same_tasks = refl;
            same_current = refl;
            same_removed = refl;
            later_key = omega arith;
            same_waiting = λ v. refl;
            same_posted = λ v. refl;
          })
          inv,
      record { this_kept = refl; running_kept = refl; current_kept = refl },
      refl,
    )

    pub world-Inv : (w : W) → Stays (record s { world = w })
    world-Inv w = (
      Inv-Agree platform s (record s { world = w })
          (record {
            same_thread = refl;
            same_this = refl;
            same_handlers = refl;
            same_records = refl;
            same_tasks = refl;
            same_current = refl;
            same_removed = refl;
            later_key = omega arith;
            same_waiting = λ v. refl;
            same_posted = λ v. refl;
          })
          inv,
      record { this_kept = refl; running_kept = refl; current_kept = refl },
      refl,
    )

    quit-Inv : Stays (record s { loop = platform.quit s.loop })
    quit-Inv = (
      Inv-Agree platform s (record s { loop = platform.quit s.loop })
          (record {
            same_thread = refl;
            same_this = refl;
            same_handlers = refl;
            same_records = refl;
            same_tasks = refl;
            same_current = refl;
            same_removed = refl;
            later_key = omega arith;
            same_waiting = lawful.waiting-quit s.loop;
            same_posted = lawful.posted-quit s.loop;
          })
          inv,
      record { this_kept = refl; running_kept = refl; current_kept = refl },
      refl,
    )

    set_lem :
        (callback : Option C)
        → set_after_task_callback platform callback s
          ≡ returns
              (record s { message_loop = record s.message_loop { after_task_callback = callback } })
    unfolding set_after_task_callback
    set_lem callback = ground (arith, inv.on_thread)

    clear_lem :
        clear_after_task_callback platform s
        ≡ returns (record s { message_loop = record s.message_loop { after_task_callback = none } })
    unfolding clear_after_task_callback
    clear_lem = ground (arith, inv.on_thread)

    quit_running :
        s.is_running ≡ true
        → quit_now platform s ≡ returns (record s { loop = platform.quit s.loop })
    unfolding quit_now
    quit_running e = ground (arith, inv.on_thread)

    quit_stopped : s.is_running ≡ false → quit_now platform s ≡ returns s
    unfolding quit_now
    quit_stopped e = ground (arith, inv.on_thread)

    pub set_after_task_callback-Inv :
        (callback : Option C) → Ensures Stays (set_after_task_callback platform callback s)
    set_after_task_callback-Inv callback = rw (set_lem callback) (callback-Inv callback)

    pub clear_after_task_callback-Inv : Ensures Stays (clear_after_task_callback platform s)
    clear_after_task_callback-Inv = rw clear_lem (callback-Inv none)

    pub quit_now-Inv : Ensures Stays (quit_now platform s)
    quit_now-Inv = elim (Bool-cases s.is_running) [
      | inl e ↦ rw (quit_running e) quit-Inv
      | inr e ↦
          rw (quit_stopped e)
            (inv, record { this_kept = refl; running_kept = refl; current_kept = refl }, refl)
    ]
