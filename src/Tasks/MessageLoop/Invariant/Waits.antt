-- ===== src/Tasks/MessageLoop/Invariant/Waits.antt =====
-- The two ends of HandlerRecord::Handle: taking the wait, and finishing it.
use mtl.Base.{
  ℕ, ◌≡◌, refl, ◌⊎◌, inl, inr, true, false, none, some, if◌then◌else◌, find, erase, returns,
  Ensures, Bool-cases, Option-cases, arith,
}
use mtl.Tasks.Platform.{HandlerRecord, Platform, IsLawful}
use mtl.Tasks.MessageLoop.{Thread, delete_record}
use mtl.Tasks.MessageLoop.Dispatch.{set_current, Client, drop_current, finish}
use mtl.Tasks.MessageLoop.Invariant.{Inv}
use mtl.Tasks.MessageLoop.Invariant.Frame.{key_at-erase}
use mtl.Tasks.MessageLoop.Invariant.Remove.{deferred, deferred-Inv}

module _ {A C TimeDelta Deadline W : Type 0} (platform : Platform A C TimeDelta Deadline)
    (lawful : IsLawful platform) (client_code : Client C TimeDelta Deadline W) (p : ℕ)
    (s : Thread A C Deadline W) where
  -- The loop has taken the wait at `p`, and Handle has marked it as the current one.
  abbrev pub taken : Thread A C Deadline W
  taken =
      set_current platform client_code (some p) s.current_handler_removed
        (record s { loop = platform.take_wait p s.loop })

  pub taken-Inv :
      Inv platform none s
      → s.current_handler ≡ none
      → platform.waiting s.loop p ≡ true
      → Inv platform none taken
  taken-Inv inv idle waits = record {
    on_thread = inv.on_thread;
    entry_keyed = inv.entry_keyed;
    entry_range = inv.entry_range;
    next_range = inv.next_range;
    record_owned = λ q k h. ground (arith, inv.record_owned q k);
    record_waits =
        λ q k h. ground (arith, inv.record_waits q k, lawful.waiting-take_wait p s.loop q);
    wait_live = λ q h. ground (arith, inv.wait_live q, lawful.waiting-take_wait p s.loop q);
    current_live = λ q h. ground (arith, inv.wait_live p);
    removed_current = λ h. ground arith;
    removed_gone = λ k q h g. ground (arith, inv.removed_current);
    task_live = λ t. ground (arith, inv.task_live t, lawful.posted-take_wait p s.loop t);
    task_running = λ t e. ground arith;
  }

  -- What is kept from Handle's call of the client to its return.
  pub record Around (t : Thread A C Deadline W) : Type 0 where
    pub keys_kept : t.next_handler_key ≡ s.next_handler_key
    pub running_kept : t.is_running ≡ s.is_running
    pub this_kept : t.this ≡ s.this

  abbrev deleted : Thread A C Deadline W
  deleted = record (set_current platform client_code none false s) {
    handler_records = erase p s.handler_records;
  }

  abbrev kept : Thread A C Deadline W
  kept = set_current platform client_code none s.current_handler_removed s

  module _ (inv : Inv platform none s) (current : s.current_handler ≡ some p) where
    drop_current_cases :
        ((s.current_handler_removed ≡ true) × (drop_current platform client_code p s ≡ returns s))
        ⊎ ((r : HandlerRecord Deadline) × (find r.key s.handlers ≡ some p)
            × (drop_current platform client_code p s
                ≡ returns (deferred platform lawful r.key p s)))
    unfolding drop_current
    drop_current_cases = elim (Option-cases (find p s.handler_records)) [
      | inl e ↦ absurd (inv.current_live p current (ground arith))
      | inr (r, e) ↦ elim (Bool-cases s.current_handler_removed) [
        | inl gone ↦ inl (gone, ground arith)
        | inr here ↦
            let entry : find r.key s.handlers ≡ some p = ground (arith, inv.record_owned p r.key) in
            inr (r, entry, ground arith)
      ]
    ]

    -- After OnHandleError the handler is out of `handlers_`.
    pub drop_current-Inv :
        Ensures
          (λ t.
            Inv platform none t
            × (t.current_handler ≡ some p)
            × (t.current_handler_removed ≡ true)
            × Around t)
          (drop_current platform client_code p s)
    drop_current-Inv = elim drop_current_cases [
      | inl (gone, e) ↦
          rw e
            (inv, current, gone, record { keys_kept = refl; running_kept = refl; this_kept = refl })
      | inr (r, entry, e) ↦ rw e (
        deferred-Inv platform lawful r.key p s inv entry current,
        current,
        refl,
        record { keys_kept = refl; running_kept = refl; this_kept = refl },
      )
    ]

    deleted-Inv : s.current_handler_removed ≡ true → Inv platform none deleted
    deleted-Inv gone = record {
      on_thread = inv.on_thread;
      entry_keyed = λ k q h.
          ground
            (arith, inv.entry_keyed k q, inv.removed_gone k p, key_at-erase p q s.handler_records);
      entry_range = inv.entry_range;
      next_range = inv.next_range;
      record_owned =
          λ q k h. ground (arith, inv.record_owned q k, key_at-erase p q s.handler_records);
      record_waits =
          λ q k h. ground (arith, inv.record_waits q k, key_at-erase p q s.handler_records);
      wait_live = λ q h. ground (arith, inv.wait_live q, key_at-erase p q s.handler_records);
      current_live = λ q h. ground arith;
      removed_current = λ h. ground arith;
      removed_gone = λ k q h g. ground arith;
      task_live = inv.task_live;
      task_running = inv.task_running;
    }

    kept-Inv :
        s.current_handler_removed ≡ false
        → Inv platform none (record kept { loop = platform.wait_again p s.loop })
    kept-Inv here = record {
      on_thread = inv.on_thread;
      entry_keyed = inv.entry_keyed;
      entry_range = inv.entry_range;
      next_range = inv.next_range;
      record_owned = λ q k h. ground (arith, inv.record_owned q k);
      record_waits =
          λ q k h. ground (arith, inv.record_waits q k, lawful.waiting-wait_again p s.loop q);
      wait_live = λ q h.
          ground (arith, inv.wait_live q, inv.current_live q, lawful.waiting-wait_again p s.loop q);
      current_live = λ q h. ground arith;
      removed_current = λ h. ground arith;
      removed_gone = λ k q h g. ground arith;
      task_live = λ t. ground (arith, inv.task_live t, lawful.posted-wait_again p s.loop t);
      task_running = λ t e. ground arith;
    }

    finish_cases :
        ((s.current_handler_removed ≡ true)
          × (finish platform client_code p s ≡ returns (false, deleted)))
        ⊎ ((s.current_handler_removed ≡ false)
            × (finish platform client_code p s ≡ returns (true, kept)))
    unfolding finish delete_record
    finish_cases = ground (arith, inv.current_live p)

    -- Handle leaves no current handler, and the loop waits again exactly if it is told so.
    pub finish-Inv :
        Ensures
          (λ r.
            Inv platform none
              (if r.0 then record r.1 { loop = platform.wait_again p r.1.loop } else r.1)
            × (r.1.current_handler ≡ none)
            × Around r.1)
          (finish platform client_code p s)
    finish-Inv = elim finish_cases [
      | inl (gone, e) ↦ rw e (
        deleted-Inv gone,
        refl,
        record { keys_kept = refl; running_kept = refl; this_kept = refl },
      )
      | inr (here, e) ↦
          rw e (
            kept-Inv here,
            refl,
            record { keys_kept = refl; running_kept = refl; this_kept = refl },
          )
    ]
