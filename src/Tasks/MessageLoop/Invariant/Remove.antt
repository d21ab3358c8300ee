-- ===== src/Tasks/MessageLoop/Invariant/Remove.antt =====
-- RemoveHandler keeps the invariant, for an idle handler, the running one and an unknown key.
use mtl.Base.{
  Option, ℕ, ◌≡◌, ◌≢◌, refl, ◌⊎◌, inl, inr, true, none, some, find, erase, find-erase, returns,
  Ensures, Option-cases, arith,
}
use mtl.Tasks.Platform.{Platform, IsLawful}
use mtl.Tasks.MessageLoop.{Thread, remove_handler}
use mtl.Tasks.MessageLoop.Invariant.{Inv}
use mtl.Tasks.MessageLoop.Invariant.Frame.{key_at-erase, Kept}

module _ {A C TimeDelta Deadline W : Type 0} (platform : Platform A C TimeDelta Deadline)
    (lawful : IsLawful platform) (key p : ℕ) (s : Thread A C Deadline W) where
  abbrev pub deferred : Thread A C Deadline W
  deferred = record s {
    message_loop = record s.message_loop {
      handlers = erase key s.handlers;
      current_handler_removed = true;
    };
  }

  abbrev pub dropped : Thread A C Deadline W
  dropped = record s {
    message_loop = record s.message_loop { handlers = erase key s.handlers };
    loop = (platform.cancel_wait p s.loop).1;
    handler_records = erase p s.handler_records;
  }

  module _ {running : Option ℕ} (inv : Inv platform running s)
      (found : find key s.handlers ≡ some p) where
    pub remove_handler_cases :
        ((s.current_handler ≡ some p) × (remove_handler platform key s ≡ returns deferred))
        ⊎ ((s.current_handler ≢ some p) × (remove_handler platform key s ≡ returns dropped))
    unfolding remove_handler
    remove_handler_cases = ground (
      arith,
      inv.on_thread,
      inv.entry_keyed key p,
      inv.record_waits p key,
      lawful.cancel_wait_status p s.loop,
    )

    pub deferred-Inv : s.current_handler ≡ some p → Inv platform running deferred
    deferred-Inv current = record {
      on_thread = inv.on_thread;
      entry_keyed = λ k q h. ground (arith, inv.entry_keyed k q, find-erase key k s.handlers);
      entry_range = λ k q h. ground (arith, inv.entry_range k q, find-erase key k s.handlers);
      next_range = inv.next_range;
      record_owned = λ q k h.
          ground (arith, inv.record_owned q k, inv.entry_keyed key p, find-erase key k s.handlers);
      record_waits = inv.record_waits;
      wait_live = inv.wait_live;
      current_live = inv.current_live;
      removed_current = λ h. ground arith;
      removed_gone = λ k q h g.
          ground (arith, inv.entry_keyed k q, inv.entry_keyed key p, find-erase key k s.handlers);
      task_live = inv.task_live;
      task_running = inv.task_running;
    }

    dropped-Inv : s.current_handler ≢ some p → Inv platform running dropped
    dropped-Inv other = record {
      on_thread = inv.on_thread;
      entry_keyed = λ k q h. ground (
        arith,
        inv.entry_keyed k q,
        inv.entry_keyed key p,
        find-erase key k s.handlers,
        key_at-erase p q s.handler_records,
      );
      entry_range = λ k q h. ground (arith, inv.entry_range k q, find-erase key k s.handlers);
      next_range = inv.next_range;
      record_owned = λ q k h. ground (
        arith,
        inv.record_owned q k,
        find-erase key k s.handlers,
        key_at-erase p q s.handler_records,
        inv.entry_keyed key p,
      );
      record_waits = λ q k h. ground (
        arith,
        inv.record_waits q k,
        key_at-erase p q s.handler_records,
        lawful.waiting-cancel_wait p s.loop q,
      );
      wait_live = λ q h. ground (
        arith,
        inv.wait_live q,
        key_at-erase p q s.handler_records,
        lawful.waiting-cancel_wait p s.loop q,
      );
      current_live = λ q h. ground (arith, inv.current_live q, key_at-erase p q s.handler_records);
      removed_current = inv.removed_current;
      removed_gone = λ k q h g. ground (arith, inv.removed_gone k q, find-erase key k s.handlers);
      task_live = λ v. ground (arith, inv.task_live v, lawful.posted-cancel_wait p s.loop v);
      task_running =
          λ v e. ground (arith, inv.task_running v, lawful.posted-cancel_wait p s.loop v);
    }

module _ {A C TimeDelta Deadline W : Type 0} (platform : Platform A C TimeDelta Deadline)
    (lawful : IsLawful platform) where
  pub unknown :
      {running : Option ℕ} (key : ℕ) (s : Thread A C Deadline W)
      → Inv platform running s
      → find key s.handlers ≡ none
      → remove_handler platform key s ≡ returns s
  unfolding remove_handler
  unknown key s inv e = ground (arith, inv.on_thread)

  pub remove_handler-Inv :
      {running : Option ℕ} (key : ℕ) (s : Thread A C Deadline W)
      → Inv platform running s
      → Ensures
          (λ t.
            Inv platform running t
            × Kept platform s t
            × (t.next_handler_key ≡ s.next_handler_key)
            × (find key t.handlers ≡ none))
          (remove_handler platform key s)
  remove_handler-Inv key s inv = elim (Option-cases (find key s.handlers)) [
    | inl e ↦ rw (unknown key s inv e) (inv, same, refl, e)
    | inr (p, e) ↦ elim (remove_handler_cases platform lawful key p s inv e) [
      | inl (c, r) ↦ rw r (
        deferred-Inv platform lawful key p s inv e c,
        record { this_kept = refl; running_kept = refl; current_kept = refl },
        refl,
        ground (arith, find-erase key key s.handlers),
      )
      | inr (c, r) ↦ rw r (
        dropped-Inv platform lawful key p s inv e c,
        record { this_kept = refl; running_kept = refl; current_kept = refl },
        refl,
        ground (arith, find-erase key key s.handlers),
      )
    ]
  ]
    where
      same : Kept platform s s
      same = record { this_kept = refl; running_kept = refl; current_kept = refl }
