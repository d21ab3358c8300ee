-- ===== src/Socket/Files.antt =====
-- socket/files.cc: what its two handlers share. A handler is an object on the heap that has asked for
-- calls: tasks that it posted, and waits. The platform makes these calls in any order.
pub mod CopyFrom
pub mod CopyTo
mod Tests
use mtl.Base.{
  arith, ◌≡◌, refl, ℕ, zero, suc, Bool, Option, none, some, List, [], ◌∷◌, ◌++◌, Outcome, returns,
  aborts, ◌>>=◌,
}
use mtl.Magenta.{Status, ok}

pub data Request : Type 0 where
  fill_buffer : Request
  handle_ready : Request
  wait_complete : ℕ → Request

-- The end of the socket, the files, and the waiter, which are not part of the repository; the one
-- handler, or `none` after `delete this`; and the calls of `callback_` with the descriptor.
pub record World (S F E H : Type 0) : Type 0 where
  pub socket : S
  pub files : F
  pub waiter : E
  pub handler : Option H
  pub pending : List Request
  pub results : List (Bool × ℕ)

-- ftl::ReadFileDescriptor, where `none` is a negative result, and ftl::WriteFileDescriptor.
pub record Files (F : Type 0) : Type 0 where
  pub read_file_descriptor : ℕ → ℕ → F → Option (List ℕ) × F
  pub write_file_descriptor : ℕ → List ℕ → F → Bool × F

-- A call of a method of a deleted handler stops.
abbrev pub deref_handler : {H : Type 0} → Option H → Outcome H
deref_handler none = aborts
deref_handler (some h) = returns h

-- The call that is made next, which is taken out.
abbrev pub pick : ℕ → List Request → Option (Request × List Request)
pick i [] = none
pick zero (r ∷ rs) = some (r, rs)
pick (suc i) (r ∷ rs) = elim (pick i rs) [ none ↦ none | some (q, qs) ↦ some (q, r ∷ qs) ]

-- The same turn so many times: the one call that is asked for, and a wait that ends well.
abbrev pub turns : ℕ → List (ℕ × Status)
turns zero = []
turns (suc n) = (0, ok) ∷ turns n

module _ {S F E H : Type 0}
    (deliver : Request → Status → World S F E H → Outcome (World S F E H)) where
  pub step : ℕ → Status → World S F E H → Outcome (World S F E H)
  step i status s = elim (pick i s.pending) [
    | none ↦ returns s
    | some (r, rest) ↦ deliver r status (record s { pending = rest })
  ]

  -- A schedule: which of the calls comes next, and the status of the wait if it is one.
  pub run_schedule : List (ℕ × Status) → World S F E H → Outcome (World S F E H)
  unfolding step
  run_schedule [] s = returns s
  run_schedule ((i, status) ∷ schedule) s = step i status s >>= run_schedule schedule

  -- A turn of the schedule that names no call changes nothing.
  pub step_idle :
      (i : ℕ) (status : Status) (s : World S F E H)
      → pick i s.pending ≡ none
      → step i status s ≡ returns s
  unfolding step
  step_idle i status s h = ground (arith, h)
