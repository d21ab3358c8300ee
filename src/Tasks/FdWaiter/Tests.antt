-- ===== src/Tasks/FdWaiter/Tests.antt =====
-- A process in which every descriptor has an mxio_t, and in which only events other than 0 can be
-- waited for.
use mtl.Base.{
  inr, inl, Bool-cases, false, ℕ, ◌≡◌, refl, ap, fun_ext, Bool, true, none, some, ◌==◌,
  if◌then◌else◌, arith, Ensures, is_some, Map, empty, find, emplace, erase, fresh, find-fresh,
  find-emplace, find-erase, some-injective,
}
use mtl.Magenta.{signal_none}
use mtl.Tasks.FdWaiter.{Calls}
use mtl.Tasks.FdWaiter.Holding.{Held, hold, let_go, with, without, IsLawful}
use mtl.Tasks.FdWaiter.Balance.{is_ready, one_wait, Result, one_wait_lem}

record Process : Type 0 where
  refs : ℕ → ℕ
  handlers : Map Bool
  down : Bool

abbrev held : Process → Held
held w = record { refs = w.refs; keys = λ k. is_some (find k w.handlers) }

abbrev calls : Calls Process ℕ
calls = record {
  fd_to_io = λ fd w. (some fd, record w { refs = hold fd w.refs });
  release = λ io w. record w { refs = let_go io w.refs };
  wait_begin = λ io events w. ((if events == 0 then none else some io, signal_none), w);
  wait_end = λ io pending w. (4, w);
  add_handler = λ h signals timeout w. (
    fresh w.handlers,
    if w.down then w else record w { handlers = emplace (fresh w.handlers) true w.handlers },
  );
  is_down = λ w. w.down;
  remove_handler = λ k w. record w { handlers = erase k w.handlers };
}

keys-emplace :
    (m : Map Bool)
    → (λ k. is_some (find k (emplace (fresh m) true m))) ≡ with (fresh m) (λ k. is_some (find k m))
keys-emplace m = fun_ext λ v. ground (arith, find-emplace (fresh m) v true m (find-fresh m))

keys-erase :
    (k : ℕ) (m : Map Bool)
    → (λ v. is_some (find v (erase k m))) ≡ without k (λ v. is_some (find v m))
keys-erase k m = fun_ext λ v. ground (arith, find-erase k v m)

held_added :
    (h : ℕ) (w : Process)
    → held (calls.add_handler h signal_none 0 w).1 ≡ (
        if w.down then held w else record (held w) { keys = with (fresh w.handlers) (held w).keys })
held_added h w = elim (Bool-cases w.down) [
  | inl down ↦ rw down refl
  | inr up ↦ rw up (λ i. record (held w) { keys = keys-emplace w.handlers i })
]

calls-IsLawful : IsLawful calls held
calls-IsLawful = record {
  fd_to_io_fails = λ fd w e. cc;
  fd_to_io_succeeds = λ fd io w e i. record (held w) { refs = hold (some-injective e i) w.refs };
  held-release = λ io w. refl;
  held-wait_begin = λ io events w. refl;
  held-wait_end = λ io pending w. refl;
  held-add_handler = λ h signals timeout w. (ap is_some (find-fresh w.handlers), held_added h w);
  held-remove_handler = λ k w i. record (held w) { keys = keys-erase k w.handlers i };
}

abbrev quiet : Process
quiet = record { refs = λ io. 0; handlers = empty; down = false }

one_wait_lem_example :
    Ensures
      (Result ℕ calls held calls-IsLawful 7 (is_ready signal_none) (held quiet))
      (one_wait ℕ calls 7 3 1 100 (is_ready signal_none) quiet)
one_wait_lem_example =
    one_wait_lem ℕ calls held calls-IsLawful 7 3 1 100 (is_ready signal_none) quiet
