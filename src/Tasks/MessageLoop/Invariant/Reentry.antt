-- ===== src/Tasks/MessageLoop/Invariant/Reentry.antt =====
-- Code of a client keeps the invariant and never fails a check, whatever it calls.
use mtl.Base.{
  Option, ℕ, ◌+◌, ◌-◌, ◌<◌, ◌≤◌, ◌^◌, ◌≡◌, refl, Bool, false, ◌==◌, find, is_some, Outcome, ◌>>=◌,
  Ensures, Ensures-bind, Ensures-mono, arith,
}
use mtl.Tasks.Platform.{Platform, IsLawful}
use mtl.Tasks.MessageLoop.{
  Thread, add_handler, remove_handler, post_task, quit_now, set_after_task_callback,
  clear_after_task_callback,
}
use mtl.Tasks.MessageLoop.Dispatch.{
  Code, done, adds_handler, removes_handler, asks_handler, posts, sets_callback, clears_callback,
  quits_now, reads, writes, Client, run_code,
}
use mtl.Tasks.MessageLoop.Invariant.{Inv}
use mtl.Tasks.MessageLoop.Invariant.Frame.{Kept}
use mtl.Tasks.MessageLoop.Invariant.Add.{add_handler-Inv}
use mtl.Tasks.MessageLoop.Invariant.Remove.{remove_handler-Inv}
use mtl.Tasks.MessageLoop.Invariant.Calls.{
  Stays, post_task-Inv, has_handler_lem, set_after_task_callback-Inv, clear_after_task_callback-Inv,
  quit_now-Inv, world-Inv,
}

-- The code adds at most `n` handlers, each a handler that is not null on a valid handle.
abbrev pub IsAllowed : {C TimeDelta Deadline W : Type 0} → ℕ → Code C TimeDelta Deadline W → Type 0
IsAllowed n done = Unit
IsAllowed n (adds_handler handler handle trigger timeout k) =
    ((handler == 0) ≡ false)
    × ((handle == 0) ≡ false)
    × (1 ≤ n)
    × ((key : ℕ) → IsAllowed (n - 1) (k key))
IsAllowed n (removes_handler key k) = IsAllowed n k
IsAllowed n (asks_handler key k) = (b : Bool) → IsAllowed n (k b)
IsAllowed n (posts closure deadline k) = IsAllowed n k
IsAllowed n (sets_callback callback k) = IsAllowed n k
IsAllowed n (clears_callback k) = IsAllowed n k
IsAllowed n (quits_now k) = IsAllowed n k
IsAllowed {W = W} n (reads k) = (w : W) → IsAllowed n (k w)
IsAllowed n (writes w k) = IsAllowed n k

module _ {A C TimeDelta Deadline W : Type 0} (platform : Platform A C TimeDelta Deadline)
    (client_code : Client C TimeDelta Deadline W) (lawful : IsLawful platform)
    (running : Option ℕ) where
  -- The state `t` keeps the invariant, is on the same dispatch as `s`, and has used at most `n` keys.
  pub record Continues (n : ℕ) (s t : Thread A C Deadline W) : Type 0 where
    pub inv : Inv platform running t
    pub kept : Kept platform s t
    pub keys : t.next_handler_key ≤ s.next_handler_key + n

  after_call :
      (n : ℕ) (s t u : Thread A C Deadline W)
      → Stays platform lawful running s t
      → Continues n t u
      → Continues n s u
  after_call n s t u (i, k, e) c = record {
    inv = c.inv;
    kept = record {
      this_kept = ground (arith, k.this_kept, c.kept.this_kept);
      running_kept = ground (arith, k.running_kept, c.kept.running_kept);
      current_kept = ground (arith, k.current_kept, c.kept.current_kept);
    };
    keys = omega (arith, c.keys);
  }

  next :
      (n : ℕ) (k : Code C TimeDelta Deadline W) (s : Thread A C Deadline W)
      → IsAllowed n k
      → s.next_handler_key + n < 2 ^ 64
      → (call : Outcome (Thread A C Deadline W)) → Ensures (Stays platform lawful running s) call
      → ((t : Thread A C Deadline W)
          → IsAllowed n k
          → t.next_handler_key + n < 2 ^ 64
          → Inv platform running t
          → Ensures (Continues n t) (run_code platform client_code k t))
      → Ensures (Continues n s) (call >>= run_code platform client_code k)
  next n k s allowed room call stays rest =
      Ensures-bind (Stays platform lawful running s) (Continues n s) call
        (run_code platform client_code k) stays
        λ t p.
          Ensures-mono (Continues n t) (Continues n s) (run_code platform client_code k t)
            (rest t allowed (omega (arith, p.2)) p.0) (λ u q. after_call n s t u p q)

  -- Code of a client that calls back into the loop, in any order and also inside a handler's own call,
  -- fails no check and keeps the bookkeeping, the loop that it runs on and its current handler, if it
  -- adds at most `n` valid handlers and as many keys are left.
  pub run_code-Inv :
      (n : ℕ) (c : Code C TimeDelta Deadline W) (s : Thread A C Deadline W)
      → IsAllowed n c
      → s.next_handler_key + n < 2 ^ 64
      → Inv platform running s
      → Ensures (Continues n s) (run_code platform client_code c s)
  unfolding run_code
  run_code-Inv n done s allowed room i = record {
    inv = i;
    kept = record { this_kept = refl; running_kept = refl; current_kept = refl };
    keys = omega arith;
  }
  run_code-Inv n (adds_handler handler handle trigger timeout k) s (h, v, pos, rest) room i =
      Ensures-bind _ (Continues n s) (add_handler platform handler handle trigger timeout s) _
        (add_handler-Inv platform lawful handler handle trigger timeout s h v (omega arith) i)
        λ r p.
          Ensures-mono (Continues (n - 1) r.1) (Continues n s)
            (run_code platform client_code (k r.0) r.1)
            (run_code-Inv (n - 1) (k r.0) r.1 (rest r.0) (omega arith) p.0)
            λ t q. record {
              inv = q.inv;
              kept = record {
                this_kept = ground arith;
                running_kept = ground arith;
                current_kept = ground arith;
              };
              keys = omega (arith, q.keys);
            }
  run_code-Inv n (removes_handler key k) s allowed room i =
      next n k s allowed room (remove_handler platform key s)
        (Ensures-mono _ (Stays platform lawful running s) (remove_handler platform key s)
          (remove_handler-Inv platform lawful key s i) (λ t p. (p.0, p.1, p.2)))
        (run_code-Inv n k)
  run_code-Inv n (asks_handler key k) s allowed room i =
      rw (has_handler_lem platform lawful running s key i)
        (run_code-Inv n (k (is_some (find key s.handlers))) s (allowed _) room i)
  run_code-Inv n (posts closure deadline k) s allowed room i =
      next n k s allowed room (post_task platform closure deadline s)
        (post_task-Inv platform lawful running s closure deadline i) (run_code-Inv n k)
  run_code-Inv n (sets_callback callback k) s allowed room i =
      next n k s allowed room (set_after_task_callback platform callback s)
        (set_after_task_callback-Inv platform lawful running s i callback) (run_code-Inv n k)
  run_code-Inv n (clears_callback k) s allowed room i =
      next n k s allowed room (clear_after_task_callback platform s)
        (clear_after_task_callback-Inv platform lawful running s i) (run_code-Inv n k)
  run_code-Inv n (quits_now k) s allowed room i =
      next n k s allowed room (quit_now platform s) (quit_now-Inv platform lawful running s i)
        (run_code-Inv n k)
  run_code-Inv n (reads k) s allowed room i = run_code-Inv n (k s.world) s (allowed s.world) room i
  run_code-Inv n (writes w k) s allowed room i =
      Ensures-mono (Continues n (record s { world = w })) (Continues n s)
        (run_code platform client_code k (record s { world = w }))
        (run_code-Inv n k (record s { world = w }) allowed room
          (world-Inv platform lawful running s i w).0)
        (λ u q.
          after_call n s (record s { world = w }) u (world-Inv platform lawful running s i w) q)
