-- ===== src/Tasks/FdWaiter/Balance.antt =====
-- Nothing of a wait of an FDWaiter is left at its end.
use mtl.Base.{
  ◌>>=◌, Outcome, returns, Ensures-bind, Option, ℕ, ◌≡◌, refl, ap, Bool, true, false, none, some,
  if◌then◌else◌, Ensures,
}
use mtl.Magenta.{ok, Status, Signals}
use mtl.Tasks.FdWaiter.{
  destroy_waiter, wait, on_handle_error, on_handle_ready, Calls, FdWaiter, fd_waiter, cancel,
}
use mtl.Tasks.FdWaiter.Holding.{
  Held, IsLawful, Waiting, Idle, Begun, wait-Begun, cancel-Idle, on_handle_ready-Idle,
  on_handle_error-Idle, destroy_waiter-Idle,
}

-- How a wait that is underway ends.
pub data End : Type 0 where
  cancels : End
  is_ready : Signals → End
  fails : Status → End
  destroys : End

module _ (C : Type 0) {W TimeDelta : Type 0} (calls : Calls W TimeDelta) where
  -- The call of the callback, if there is one, and the state.
  abbrev pub end_wait :
      End → FdWaiter C × W → Outcome (Option (Option C × (Status × ℕ)) × (FdWaiter C × W))
  end_wait cancels s = cancel C calls s >>= λ t. returns (none, t)
  end_wait (is_ready pending) s = on_handle_ready C calls pending s >>= λ r. returns (some r.0, r.1)
  end_wait (fails error) s = on_handle_error C calls error s >>= λ r. returns (some r.0, r.1)
  end_wait destroys s = destroy_waiter C calls s >>= λ t. returns (none, t)

  -- Wait, and the end of the wait if it returned true, with what it returned.
  abbrev pub one_wait :
      C
      → ℕ
      → ℕ
      → TimeDelta
      → End
      → W
      → Outcome (Bool × (Option (Option C × (Status × ℕ)) × (FdWaiter C × W)))
  one_wait callback fd events timeout e w =
      wait C calls callback fd events timeout (fd_waiter C calls, w) >>= λ r.
      (if r.0 then end_wait e r.1 else returns (none, r.1)) >>= λ t. returns (r.0, t)

-- No call, or one call of the callback, by how the wait ended.
abbrev pub Called : {C : Type 0} → C → End → Option (Option C × (Status × ℕ)) → Type 0
Called callback cancels called = called ≡ none
Called callback (is_ready pending) called =
    (events : ℕ) × (called ≡ some (some callback, (ok, events)))
Called callback (fails error) called = called ≡ some (some callback, (error, 0))
Called callback destroys called = called ≡ none

module _ (C : Type 0) {W TimeDelta : Type 0} (calls : Calls W TimeDelta) (held : W → Held)
    (lawful : IsLawful calls held) where
  abbrev pub Over : C → End → Held → Option (Option C × (Status × ℕ)) × (FdWaiter C × W) → Type 0
  Over callback e base r = Called callback e r.0 × Idle C calls held lawful base r.1

  end_wait-Over :
      (callback : C) (base : Held) (e : End) (s : FdWaiter C × W)
      → Waiting C calls held lawful callback base s
      → Ensures (Over callback e base) (end_wait C calls e s)
  end_wait-Over callback base cancels s wt =
      Ensures-bind (Idle C calls held lawful base) (Over callback cancels base) (cancel C calls s)
        (λ t. returns (none, t)) (cancel-Idle C calls held lawful callback base s wt)
        (λ t idle. (refl, idle))
  end_wait-Over callback base (is_ready pending) s wt =
      Ensures-bind
        (λ r. (r.0.0 ≡ some callback) × (r.0.1.0 ≡ ok) × Idle C calls held lawful base r.1)
        (Over callback (is_ready pending) base) (on_handle_ready C calls pending s)
        (λ r. returns (some r.0, r.1))
        (on_handle_ready-Idle C calls held lawful callback base pending s wt)
        (λ r (same, fine, idle). ((r.0.1.1, λ i. some (same i, (fine i, r.0.1.1))), idle))
  end_wait-Over callback base (fails error) s wt =
      Ensures-bind (λ r. (r.0 ≡ (some callback, (error, 0))) × Idle C calls held lawful base r.1)
        (Over callback (fails error) base) (on_handle_error C calls error s)
        (λ r. returns (some r.0, r.1))
        (on_handle_error-Idle C calls held lawful callback base error s wt)
        (λ r (same, idle). (ap some same, idle))
  end_wait-Over callback base destroys s wt =
      Ensures-bind (Idle C calls held lawful base) (Over callback destroys base)
        (destroy_waiter C calls s) (λ t. returns (none, t))
        (destroy_waiter-Idle C calls held lawful callback base s wt) (λ t idle. (refl, idle))

  -- What a Wait leads to, by what it returned.
  abbrev pub Result :
      C → End → Held → Bool × (Option (Option C × (Status × ℕ)) × (FdWaiter C × W)) → Type 0
  Result callback e base (true, r) = Called callback e r.0 × Idle C calls held lawful base r.1
  Result callback e base (false, r) = (r.0 ≡ none) × Idle C calls held lawful base r.1

  -- A Wait on an idle FDWaiter, and then Cancel, OnHandleReady, OnHandleError or the destructor if Wait
  -- returned true: no check fails, also where the loop shuts down, the waiter is idle again, and the mxio_t and the handlers that are
  -- held are those that were held before Wait. If Wait returned true, the callback is called once where
  -- the wait became ready, with MX_OK, or failed, with its error and 0, and not where it was cancelled
  -- or the waiter destroyed. If Wait returned false, it is not called.
  pub one_wait_lem :
      (callback : C) (fd events : ℕ) (timeout : TimeDelta) (e : End) (w : W)
      → Ensures (Result callback e (held w)) (one_wait C calls callback fd events timeout e w)
  one_wait_lem callback fd events timeout e w =
      Ensures-bind (Begun C calls held lawful callback (held w)) (Result callback e (held w))
        (wait C calls callback fd events timeout (fd_waiter C calls, w))
        (λ r.
          (if r.0 then end_wait C calls e r.1 else returns (none, r.1)) >>= λ t. returns (r.0, t))
        (wait-Begun C calls held lawful callback fd events timeout w) go
    where
      go :
          (r : Bool × (FdWaiter C × W))
          → Begun C calls held lawful callback (held w) r
          → Ensures (Result callback e (held w)) (
              (if r.0 then end_wait C calls e r.1 else returns (none, r.1)) >>= λ t.
              returns (r.0, t))
      go (true, s) wt =
          Ensures-bind (Over callback e (held w)) (Result callback e (held w))
            (end_wait C calls e s) (λ t. returns (true, t)) (end_wait-Over callback (held w) e s wt)
            (λ t over. over)
      go (false, s) idle = (refl, idle)
