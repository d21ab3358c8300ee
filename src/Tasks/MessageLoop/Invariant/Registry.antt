-- ===== src/Tasks/MessageLoop/Invariant/Registry.antt =====
-- A MessageLoop is a HandlerLoop: AddHandler and RemoveHandler change the one entry that they name.
use mtl.Base.{
  Bool, Ensures-result, ◌⊎◌, erase, ℕ, suc, ◌+◌, ◌<◌, ◌^◌, ◌≡◌, refl, inl, inr, false, Option, none,
  some, ◌==◌, if◌then◌else◌, find, find-emplace, find-erase, Ensures, Option-cases, arith,
}
use mtl.Magenta.{Signals}
use mtl.Tasks.Platform.{ShutsDown, Platform, IsLawful}
use mtl.Tasks.HandlerLoop.{HandlerLoop, IsRegistry, Registered, Unregistered}
use mtl.Tasks.MessageLoop.{Thread, add_handler, remove_handler}
use mtl.Tasks.MessageLoop.Invariant.{Inv}
use mtl.Tasks.MessageLoop.Invariant.Add.{
  add_handler-Inv, add_handler_cases, registered, made, address, begun,
}
use mtl.Tasks.MessageLoop.Invariant.Remove.{
  remove_handler-Inv, remove_handler_cases, unknown, deferred, dropped,
}

module _ {A C TimeDelta Deadline W : Type 0} (platform : Platform A C TimeDelta Deadline)
    (is_down : A → Bool) where
  -- The handler of the record to which an entry leads.
  abbrev pub handler_of : Thread A C Deadline W → ℕ → Option ℕ
  handler_of s k = elim (find k s.handlers) [
    | none ↦ none
    | some p ↦ elim (find p s.handler_records) [ none ↦ none | some r ↦ some r.handler ]
  ]

  abbrev pub handler_loop : HandlerLoop (Thread A C Deadline W) TimeDelta
  handler_loop = record {
    add_handler = add_handler platform;
    remove_handler = remove_handler platform;
    handler_of = handler_of;
    next_key = λ s. s.next_handler_key;
    is_down = λ s. is_down s.loop;
  }

  -- The bookkeeping is in order, and there are `n` keys left.
  abbrev pub Ready : Option ℕ → ℕ → Thread A C Deadline W → Type 0
  Ready running n s = Inv platform running s × (s.next_handler_key + n < 2 ^ 64)

  module _ (lawful : IsLawful platform) (shuts_down : ShutsDown platform is_down)
      (running : Option ℕ) where
    no_entry :
        (s : Thread A C Deadline W)
        → Inv platform running s
        → find s.next_handler_key s.handlers ≡ none
    no_entry s inv = elim (Option-cases (find s.next_handler_key s.handlers)) [
      | inl e ↦ e
      | inr (p, e) ↦ absurd (omega (arith, inv.entry_range s.next_handler_key p e))
    ]

    entry_below :
        (key handler : ℕ) (s : Thread A C Deadline W)
        → Inv platform running s
        → handler_of s key ≡ some handler
        → key < s.next_handler_key
    entry_below key handler s inv e = elim (Option-cases (find key s.handlers)) [
      | inl none_there ↦ absurd (ground arith)
      | inr (p, there) ↦ (inv.entry_range key p there).1
    ]

    registered_entry :
        (handler handle : ℕ) (trigger : Signals) (timeout : TimeDelta) (s : Thread A C Deadline W)
        → Inv platform running s
        → (j : ℕ)
        → handler_of
            (registered platform
              (address platform lawful handler handle trigger timeout s)
              (made platform lawful handler handle trigger timeout s)
              (begun platform lawful handler handle trigger timeout s).1
              s)
            j
          ≡ (if s.next_handler_key == j then some handler else handler_of s j)
    unfolding registered address made begun
    registered_entry handler handle trigger timeout s inv j =
        let p = platform.new_handler_record s.handler_records in
        let free = lawful.find-new_handler_record s.handler_records in
        let r = made platform lawful handler handle trigger timeout s in
        let entries = find-emplace s.next_handler_key j p s.handlers (no_entry s inv) in
        let there = find-emplace p p r s.handler_records free in
        elim (Option-cases (find j s.handlers)) [
          | inl e ↦ ground (arith, entries, there)
          | inr (q, e) ↦ ground (
            arith,
            entries,
            there,
            find-emplace p q r s.handler_records free,
            inv.entry_keyed j q e,
          )
        ]

    unregistered_entry :
        (key p : ℕ) (s t : Thread A C Deadline W)
        → Inv platform running s
        → find key s.handlers ≡ some p
        → t.handlers ≡ erase key s.handlers
        → (t.handler_records ≡ s.handler_records) ⊎ (t.handler_records ≡ erase p s.handler_records)
        → (j : ℕ) → handler_of t j ≡ (if key == j then none else handler_of s j)
    unregistered_entry key p s t inv found same records j =
        let entries = find-erase key j s.handlers in
        elim (Option-cases (find j s.handlers)) [
          | inl e ↦ ground (arith, entries)
          | inr (q, e) ↦ ground (
            arith,
            entries,
            find-erase p q s.handler_records,
            inv.entry_keyed j q e,
            inv.entry_keyed key p found,
          )
        ]

    add_handler-Registered :
        (n handler handle : ℕ) (trigger : Signals) (timeout : TimeDelta) (s : Thread A C Deadline W)
        → (handler == 0) ≡ false
        → (handle == 0) ≡ false
        → Ready running (suc n) s
        → Ensures
            (λ r. Ready running n r.1 × Registered handler_loop handler s r.0 r.1)
            (add_handler platform handler handle trigger timeout s)
    unfolding registered made address begun
    add_handler-Registered n handler handle trigger timeout s h1 h2 (inv, room) =
        let not_null : (s.next_handler_key == 0) ≡ false = ground (arith, inv.next_range) in
        let one_more : s.next_handler_key + 1 < 2 ^ 64 = omega arith in
        let kept =
          Ensures-result _ _
            (add_handler-Inv platform lawful handler handle trigger timeout s h1 h2 one_more inv) in
        let refused =
          shuts_down.refuses (address platform lawful handler handle trigger timeout s)
            (made platform lawful handler handle trigger timeout s) s.loop in
        elim (add_handler_cases platform lawful handler handle trigger timeout s inv.on_thread h1 h2
          one_more) [
            | inl (st, e) ↦ rw e (
              ((kept _ e).0, omega arith),
              record {
                not_null = not_null;
                new = refl;
                next = omega arith;
                same_down = shuts_down.down-begin_wait _ _ s.loop;
                entries = λ j. ground (arith, refused, st);
              },
            )
            | inr (st, e) ↦ rw e (
              ((kept _ e).0, omega arith),
              record {
                not_null = not_null;
                new = refl;
                next = omega arith;
                same_down = shuts_down.down-begin_wait _ _ s.loop;
                entries = λ j.
                    ground
                      (arith, refused, st, registered_entry handler handle trigger timeout s inv j);
              },
            )
          ]

    remove_handler-Unregistered :
        (n key : ℕ) (s : Thread A C Deadline W)
        → Ready running n s
        → Ensures
            (λ t. Ready running n t × Unregistered handler_loop key s t)
            (remove_handler platform key s)
    remove_handler-Unregistered n key s (inv, room) =
        let kept = Ensures-result _ _ (remove_handler-Inv platform lawful key s inv) in
        elim (Option-cases (find key s.handlers)) [
          | inl none_there ↦
              let e = unknown platform lawful key s inv none_there in
              rw e (
                ((kept _ e).0, room),
                record { same_next = refl; same_down = refl; entries = λ j. ground arith },
              )
          | inr (p, there) ↦ elim (remove_handler_cases platform lawful key p s inv there) [
            | inl (c, e) ↦ rw e (
              ((kept _ e).0, room),
              record {
                same_next = refl;
                same_down = refl;
                entries =
                    unregistered_entry key p s (deferred platform lawful key p s) inv there refl
                      (inl refl);
              },
            )
            | inr (c, e) ↦ rw e (
              ((kept _ e).0, room),
              record {
                same_next = refl;
                same_down = shuts_down.down-cancel_wait p s.loop;
                entries =
                    unregistered_entry key p s (dropped platform lawful key p s) inv there refl
                      (inr refl);
              },
            )
          ]
        ]

    -- AddHandler gives a key that is not 0 and that it never gave before. On a loop that does not shut
    -- down the handler is registered under the key, and on one that does nothing is. RemoveHandler takes
    -- out the entry of its key, also inside that handler's own call. Neither changes any other entry, or
    -- whether the loop shuts down, or fails a check, while the bookkeeping is in order, the handler and
    -- the handle are not null, and keys are left.
    pub message_loop-IsRegistry : IsRegistry handler_loop (Ready running)
    message_loop-IsRegistry = record {
      add_handler_lem = add_handler-Registered;
      remove_handler_lem = remove_handler-Unregistered;
      key_range = λ n key handler s (inv, room) e. entry_below key handler s inv e;
    }
