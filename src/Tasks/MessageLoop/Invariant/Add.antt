-- ===== src/Tasks/MessageLoop/Invariant/Add.antt =====
-- AddHandler keeps the invariant.
use mtl.Base.{
  Option, ℕ, ◌+◌, ◌%◌, ◌<◌, ◌^◌, ◌≡◌, refl, ◌⊎◌, inl, inr, true, false, none, some, ◌==◌,
  if◌then◌else◌, find, emplace, find-emplace, returns, Ensures, Option-cases, arith,
}
use mtl.Magenta.{Status, Signals, is_ok}
use mtl.Tasks.Platform.{HandlerRecord, Platform, IsLawful}
use mtl.Tasks.MessageLoop.{Thread, add_handler}
use mtl.Tasks.MessageLoop.Invariant.{Inv}
use mtl.Tasks.MessageLoop.Invariant.Frame.{key_at-emplace, Kept, Agree, Inv-Agree}

module _ {A C TimeDelta Deadline W : Type 0} (platform : Platform A C TimeDelta Deadline) where
  -- The state after a record `r` at the free address `p` was begun and registered.
  unfoldable pub registered :
      ℕ → HandlerRecord Deadline → A → Thread A C Deadline W → Thread A C Deadline W
  registered p r loop s = record s {
    message_loop = record s.message_loop {
      next_handler_key = r.key + 1;
      handlers = emplace r.key p s.handlers;
    };
    loop = loop;
    handler_records = emplace p r s.handler_records;
  }

  module _ (p : ℕ) (r : HandlerRecord Deadline) (loop : A) (s : Thread A C Deadline W)
      {running : Option ℕ} (inv : Inv platform running s) (key : r.key ≡ s.next_handler_key)
      (free : find p s.handler_records ≡ none)
      (waits : (v : ℕ)
        → platform.waiting loop v ≡ (if p == v then true else platform.waiting s.loop v))
      (posts : (v : ℕ) → platform.posted loop v ≡ platform.posted s.loop v) where
    new_key : find r.key s.handlers ≡ none
    new_key = elim (Option-cases (find r.key s.handlers)) [
      | inl e ↦ e
      | inr (q, e) ↦ absurd (omega (arith, inv.entry_range r.key q e))
    ]

    entry :
        (k : ℕ)
        → find k (emplace r.key p s.handlers) ≡ (if r.key == k then some p else find k s.handlers)
    entry k = find-emplace r.key k p s.handlers new_key

    registered-Inv : Inv platform running (registered p r loop s)
    unfolding registered
    registered-Inv = record {
      on_thread = inv.on_thread;
      entry_keyed = λ k q h.
          ground (arith, inv.entry_keyed k q, entry k, key_at-emplace p q r s.handler_records free);
      entry_range = λ k q h. ground (arith, inv.entry_range k q, inv.next_range, entry k);
      next_range = omega arith;
      record_owned = λ q k h. ground (
        arith,
        inv.record_owned q k,
        inv.entry_keyed,
        entry k,
        new_key,
        key_at-emplace p q r s.handler_records free,
      );
      record_waits = λ q k h.
          ground
            (arith, inv.record_waits q k, waits q, key_at-emplace p q r s.handler_records free);
      wait_live = λ q h. ground (
        arith,
        inv.wait_live q,
        inv.current_live q,
        waits q,
        free,
        key_at-emplace p q r s.handler_records free,
      );
      current_live =
          λ q h. ground (arith, inv.current_live q, key_at-emplace p q r s.handler_records free);
      removed_current = inv.removed_current;
      removed_gone =
          λ k q h g. ground (arith, inv.removed_gone k q, inv.current_live q, entry k, free);
      task_live = λ v. ground (arith, inv.task_live v, posts v);
      task_running = λ v e. ground (arith, inv.task_running v, posts v);
    }

module _ {A C TimeDelta Deadline W : Type 0} (platform : Platform A C TimeDelta Deadline)
    (lawful : IsLawful platform) (handler handle : ℕ) (trigger : Signals) (timeout : TimeDelta)
    (s : Thread A C Deadline W) where
  -- The record that AddHandler makes, its address, and what Begin returns.
  unfoldable pub made : HandlerRecord Deadline
  made = record {
    object = handle;
    trigger = trigger;
    deadline =
        (if platform.is_max timeout
          then platform.infinite
          else platform.deadline_after timeout s.loop);
    handler = handler;
    key = s.next_handler_key;
  }

  unfoldable pub address : ℕ
  address = platform.new_handler_record s.handler_records

  unfoldable pub begun : Status × A
  begun = platform.begin_wait address made s.loop

  abbrev pub suppressed : Thread A C Deadline W
  suppressed = record s {
    message_loop = record s.message_loop { next_handler_key = s.next_handler_key + 1 };
    loop = begun.1;
  }

  pub add_handler_cases :
      s.g_current ≡ some s.this
      → (handler == 0) ≡ false
      → (handle == 0) ≡ false
      → s.next_handler_key + 1 < 2 ^ 64
      → ((is_ok begun.0 ≡ false)
          × (add_handler platform handler handle trigger timeout s
              ≡ returns (s.next_handler_key, suppressed)))
        ⊎ ((is_ok begun.0 ≡ true)
            × (add_handler platform handler handle trigger timeout s
                ≡ returns (s.next_handler_key, registered platform address made begun.1 s)))
  unfolding add_handler registered made address begun
  add_handler_cases own h1 h2 room =
      let wrap : (s.next_handler_key + 1) % 2 ^ 64 ≡ s.next_handler_key + 1 = omega arith in
      ground (arith, lawful.begin_wait_status address made s.loop)

  suppressed-Agree : is_ok begun.0 ≡ false → Agree platform s suppressed
  unfolding begun
  suppressed-Agree st = record {
    same_thread = refl;
    same_this = refl;
    same_handlers = refl;
    same_records = refl;
    same_tasks = refl;
    same_current = refl;
    same_removed = refl;
    later_key = omega arith;
    same_waiting = λ v. ground (arith, lawful.waiting-begin_wait address made s.loop v);
    same_posted = lawful.posted-begin_wait address made s.loop;
  }

  pub add_handler-Inv :
      {running : Option ℕ}
      → (handler == 0) ≡ false
      → (handle == 0) ≡ false
      → s.next_handler_key + 1 < 2 ^ 64
      → Inv platform running s
      → Ensures
          (λ r.
            Inv platform running r.1
            × Kept platform s r.1
            × (r.1.next_handler_key ≡ s.next_handler_key + 1))
          (add_handler platform handler handle trigger timeout s)
  unfolding made address begun registered
  add_handler-Inv h1 h2 room inv = elim (add_handler_cases inv.on_thread h1 h2 room) [
    | inl (st, e) ↦ rw e (
      Inv-Agree platform s suppressed (suppressed-Agree st) inv,
      record { this_kept = refl; running_kept = refl; current_kept = refl },
      refl,
    )
    | inr (st, e) ↦ rw e (
      registered-Inv platform address made begun.1 s inv refl
          (lawful.find-new_handler_record s.handler_records)
          (λ v. ground (arith, lawful.waiting-begin_wait address made s.loop v))
          (lawful.posted-begin_wait address made s.loop),
      record { this_kept = refl; running_kept = refl; current_kept = refl },
      refl,
    )
  ]
