-- ===== src/Tasks/FdWaiter/Holding.antt =====
-- What a wait of an FDWaiter holds, and that each of its operations gives it back.
use mtl.Base.{
  Bool-cases, ◌∙◌, inl, inr, returns, Option-cases, sym, Ensures-bind, Option, ℕ, suc, ◌-◌, ◌≡◌,
  refl, ap, fun_ext, Bool, true, false, none, some, ◌==◌, if◌then◌else◌, arith, Ensures,
}
use mtl.Magenta.{ok, Status, Signals}
use mtl.Tasks.FdWaiter.{
  wait_opened, destroy_waiter, wait, on_handle_error, wait_begun, on_handle_ready, Calls, FdWaiter,
  fd_waiter, cancel,
}

-- How often each mxio_t is held, and the keys of the handlers.
pub record Held : Type 0 where
  pub refs : ℕ → ℕ
  pub keys : ℕ → Bool

abbrev pub hold : ℕ → (ℕ → ℕ) → ℕ → ℕ
hold io refs v = if io == v then suc (refs v) else refs v

abbrev pub let_go : ℕ → (ℕ → ℕ) → ℕ → ℕ
let_go io refs v = if io == v then refs v - 1 else refs v

abbrev pub with : ℕ → (ℕ → Bool) → ℕ → Bool
with x f v = if x == v then true else f v

abbrev pub without : ℕ → (ℕ → Bool) → ℕ → Bool
without x f v = if x == v then false else f v

-- The documented behaviour: fd_to_io takes a reference and release drops it. AddHandler gives a new
-- key, and registers the handler, unless the loop shuts down.
pub record IsLawful {W TimeDelta : Type 0} (calls : Calls W TimeDelta) (held : W → Held)
    : Type 0 where
  pub fd_to_io_fails :
      (fd : ℕ) (w : W) → (calls.fd_to_io fd w).0 ≡ none → held (calls.fd_to_io fd w).1 ≡ held w
  pub fd_to_io_succeeds :
      (fd io : ℕ) (w : W)
      → (calls.fd_to_io fd w).0 ≡ some io
      → held (calls.fd_to_io fd w).1 ≡ record (held w) { refs = hold io (held w).refs }
  pub held-release :
      (io : ℕ) (w : W)
      → held (calls.release io w) ≡ record (held w) { refs = let_go io (held w).refs }
  pub held-wait_begin : (io events : ℕ) (w : W) → held (calls.wait_begin io events w).1 ≡ held w
  pub held-wait_end :
      (io : ℕ) (pending : Signals) (w : W) → held (calls.wait_end io pending w).1 ≡ held w
  pub held-add_handler :
      (h : ℕ) (signals : Signals) (timeout : TimeDelta) (w : W)
      → ((held w).keys (calls.add_handler h signals timeout w).0 ≡ false)
        × (held (calls.add_handler h signals timeout w).1 ≡ (
            if calls.is_down w then held w else record (held w) {
              keys = with (calls.add_handler h signals timeout w).0 (held w).keys;
            }))
  pub held-remove_handler :
      (k : ℕ) (w : W)
      → held (calls.remove_handler k w) ≡ record (held w) { keys = without k (held w).keys }

let_go-hold : (io : ℕ) (refs : ℕ → ℕ) → let_go io (hold io refs) ≡ refs
let_go-hold io refs = fun_ext λ v. ground arith

without-with : (x : ℕ) (f : ℕ → Bool) → f x ≡ false → without x (with x f) ≡ f
without-with x f h = fun_ext λ v. ground (arith, ap f)

without_absent : (x : ℕ) (f : ℕ → Bool) → f x ≡ false → without x f ≡ f
without_absent x f h = fun_ext λ v. ground (arith, ap f)

module _ (C : Type 0) {W TimeDelta : Type 0} (calls : Calls W TimeDelta) (held : W → Held)
    (lawful : IsLawful calls held) where
  -- A wait that holds `io`, and `key` unless the loop shuts down, beside what was held before.
  pub record Waiting (callback : C) (base : Held) (s : FdWaiter C × W) : Type 0 where
    pub io : ℕ
    pub key : ℕ
    pub io_kept : s.0.io ≡ some io
    pub key_kept : s.0.key ≡ some key
    pub callback_kept : s.0.callback ≡ some callback
    pub keys : ℕ → Bool
    pub keys_left : without key keys ≡ base.keys
    pub held_lem : held s.1 ≡ record { refs = hold io base.refs; keys = keys }

  abbrev pub Idle : Held → FdWaiter C × W → Type 0
  Idle base s = (s.0 ≡ fd_waiter C calls) × (held s.1 ≡ base)

  released :
      (io key : ℕ) (keys : ℕ → Bool) (base : Held) (w : W)
      → without key keys ≡ base.keys
      → held w ≡ record { refs = hold io base.refs; keys = keys }
      → held (calls.release io (calls.remove_handler key w)) ≡ base
  released io key keys base w left e =
      rw (lawful.held-release, lawful.held-remove_handler, e)
        (λ i. record { refs = let_go-hold io base.refs i; keys = left i })

  pub cancel-Idle :
      (callback : C) (base : Held) (s : FdWaiter C × W)
      → Waiting callback base s
      → Ensures (Idle base) (cancel C calls s)
  unfolding cancel
  cancel-Idle callback base s wt =
      rw (wt.io_kept, wt.key_kept)
        (refl, released wt.io wt.key wt.keys base s.1 wt.keys_left wt.held_lem)

  -- What Wait leaves, by what it returns.
  abbrev pub Begun : C → Held → Bool × (FdWaiter C × W) → Type 0
  Begun callback base (true, s) = Waiting callback base s
  Begun callback base (false, s) = Idle base s

  wait_begun-Begun :
      (callback : C) (base : Held) (io : ℕ) (timeout : TimeDelta) (handle : Option ℕ)
      (signals : Signals) (w : W)
      → held w ≡ record base { refs = hold io base.refs }
      → Ensures (Begun callback base) (
          wait_begun C calls callback timeout handle signals
            (record { io = some io; key = none; callback = none }, w))
  unfolding wait_begun cancel
  wait_begun-Begun callback base io timeout none signals w e =
      (refl, rw (lawful.held-release, e) (λ i. record base { refs = let_go-hold io base.refs i }))
  wait_begun-Begun callback base io timeout (some handle) signals w e =
      let (new, added) = lawful.held-add_handler handle signals timeout w in
      let key = (calls.add_handler handle signals timeout w).0 in
      let new_key : base.keys key ≡ false = sym (ap (λ (b : Held). b.keys key) e) ∙ new in
      elim (Bool-cases (calls.is_down w)) [
        | inl down ↦ record {
          io = io;
          key = key;
          io_kept = refl;
          key_kept = refl;
          callback_kept = refl;
          keys = base.keys;
          keys_left = without_absent key base.keys new_key;
          held_lem = (rw down at added) ∙ e;
        }
        | inr up ↦ record {
          io = io;
          key = key;
          io_kept = refl;
          key_kept = refl;
          callback_kept = refl;
          keys = with key base.keys;
          keys_left = without-with key base.keys new_key;
          held_lem =
              (rw up at added) ∙ (λ i. record { refs = (e i).refs; keys = with key (e i).keys });
        }
      ]

  pub wait-Begun :
      (callback : C) (fd events : ℕ) (timeout : TimeDelta) (w : W)
      → Ensures
          (Begun callback (held w))
          (wait C calls callback fd events timeout (fd_waiter C calls, w))
  unfolding wait wait_opened
  wait-Begun callback fd events timeout w = elim (Option-cases (calls.fd_to_io fd w).0) [
    | inl bad ↦ rw bad (refl, lawful.fd_to_io_fails fd w bad)
    | inr (io, good) ↦
        let w₁ = (calls.fd_to_io fd w).1 in
        rw good (
          wait_begun-Begun callback (held w) io timeout (calls.wait_begin io events w₁).0.0
            (calls.wait_begin io events w₁).0.1 (calls.wait_begin io events w₁).1
            (lawful.held-wait_begin io events w₁ ∙ lawful.fd_to_io_succeeds fd io w good))
  ]

  pub on_handle_ready-Idle :
      (callback : C) (base : Held) (pending : Signals) (s : FdWaiter C × W)
      → Waiting callback base s
      → Ensures
          (λ r. (r.0.0 ≡ some callback) × (r.0.1.0 ≡ ok) × Idle base r.1)
          (on_handle_ready C calls pending s)
  unfolding on_handle_ready cancel
  on_handle_ready-Idle callback base pending s wt =
      rw (wt.io_kept, wt.key_kept)
        (
          wt.callback_kept,
          refl,
          (
            refl,
            released wt.io wt.key wt.keys base (calls.wait_end wt.io pending s.1).1 wt.keys_left
                (lawful.held-wait_end wt.io pending s.1 ∙ wt.held_lem),
          ),
        )

  pub on_handle_error-Idle :
      (callback : C) (base : Held) (error : Status) (s : FdWaiter C × W)
      → Waiting callback base s
      → Ensures
          (λ r. (r.0 ≡ (some callback, (error, 0))) × Idle base r.1)
          (on_handle_error C calls error s)
  unfolding on_handle_error
  on_handle_error-Idle callback base error s wt =
      Ensures-bind (Idle base) (λ r. (r.0 ≡ (some callback, (error, 0))) × Idle base r.1)
        (cancel C calls s) (λ t. returns ((s.0.callback, (error, 0)), t))
        (cancel-Idle callback base s wt) (λ t idle. ((λ i. (wt.callback_kept i, (error, 0))), idle))

  pub destroy_waiter-Idle :
      (callback : C) (base : Held) (s : FdWaiter C × W)
      → Waiting callback base s
      → Ensures (Idle base) (destroy_waiter C calls s)
  unfolding destroy_waiter cancel
  destroy_waiter-Idle callback base s wt =
      rw (wt.io_kept, wt.key_kept)
        (refl, released wt.io wt.key wt.keys base s.1 wt.keys_left wt.held_lem)
