-- ===== src/Tasks/MessageLoop/UnitTests/Fifo.antt =====
-- An async::Loop that makes its calls itself, for the unit tests: tasks that are due in the order of
-- their posting, then waits on handles that have a signal, then waits that time out, then later tasks.
use mtl.Base.{
  ℕ, zero, suc, Bool, true, false, Option, none, some, List, [], ◌∷◌, ◌++◌, map, has, ◌==◌,
  if◌then◌else◌, fresh, Outcome, returns, aborts,
}
use mtl.Magenta.{ok, failed, bad_state, canceled, timed_out, signal_none}
use mtl.Tasks.Platform.{Platform}
use mtl.Tasks.MessageLoop.{Thread}
use mtl.Tasks.MessageLoop.Dispatch.{Client, Call, wait, task, dispatch, run, destroy}

-- A wait with the address of its record, its object and its deadline.
pub record Wait : Type 0 where
  pub address : ℕ
  pub object : ℕ
  pub deadline : ℕ

-- `called` are the waits whose Handle runs, and `signalled` the objects that have a signal.
pub record Loop : Type 0 where
  pub waits : List Wait
  pub called : List Wait
  pub tasks : List (ℕ × ℕ)
  pub signalled : List ℕ
  pub quitting : Bool
  pub down : Bool

abbrev pub infinite : ℕ
infinite = 1000000

abbrev select : Bool → ℕ → List Wait → List Wait
select kept p [] = []
select kept p (w ∷ ws) =
    let rest = select kept p ws in
    if w.address == p then (if kept then w ∷ rest else rest) else if kept then rest else w ∷ rest

abbrev drop_task : ℕ → List (ℕ × ℕ) → List (ℕ × ℕ)
drop_task p [] = []
drop_task p (t ∷ ts) = let rest = drop_task p ts in if t.0 == p then rest else t ∷ rest

abbrev pub platform : {C : Type 0} → Platform Loop C ℕ ℕ
platform = record {
  begin_wait = λ p r a. if a.down then (failed bad_state, a) else (
    ok,
    record a {
      waits = a.waits ++ record { address = p; object = r.object; deadline = r.deadline } ∷ [];
    },
  );
  cancel_wait = λ p a. (ok, record a { waits = select false p a.waits });
  post_task = λ p r a.
      if a.down
      then (failed bad_state, a)
      else (ok, record a { tasks = a.tasks ++ (p, r.deadline) ∷ [] });
  quit = λ a. record a { quitting = true };
  reset_quit = λ a. (ok, record a { quitting = false });
  take_wait = λ p a. record a {
    waits = select false p a.waits;
    called = a.called ++ select true p a.waits;
  };
  take_task = λ p a. record a { tasks = drop_task p a.tasks };
  wait_again = λ p a. record a {
    waits = a.waits ++ select true p a.called;
    called = select false p a.called;
  };
  waiting = λ a p. has p (map (λ w. w.address) a.waits);
  posted = λ a p. has p (map (λ t. t.0) a.tasks);
  is_max = λ d. d == infinite;
  infinite = infinite;
  deadline_after = λ d a. d;
  new_handler_record = λ m. fresh m;
  new_task_record = λ m. fresh m;
}

abbrev first_due : List (ℕ × ℕ) → Option Call
first_due [] = none
first_due (t ∷ ts) = let rest = first_due ts in if t.1 == 0 then some (task t.0 ok) else rest

abbrev first_ready : List ℕ → List Wait → Option Call
first_ready signalled [] = none
first_ready signalled (w ∷ ws) =
    let rest = first_ready signalled ws in
    if has w.object signalled
    then some (wait w.address ok (record signal_none { readable = true }) 1)
    else rest

abbrev first_late : List Wait → Option Call
first_late [] = none
first_late (w ∷ ws) =
    let rest = first_late ws in
    if w.deadline == infinite then rest else some (wait w.address (failed timed_out) signal_none 0)

abbrev first_task : List (ℕ × ℕ) → Option Call
first_task [] = none
first_task (t ∷ ts) = some (task t.0 ok)

abbrev or_else : Option Call → Option Call → Option Call
or_else (some c) o = some c
or_else none o = o

-- What the loop calls next while it runs, and while it shuts down.
abbrev next_call : Loop → Option Call
next_call a =
    if a.quitting
    then none
    else or_else (first_due a.tasks) (
        or_else (first_ready a.signalled a.waits)
          (or_else (first_late a.waits) (first_task a.tasks)))

abbrev next_canceled : Loop → Option Call
next_canceled a = elim a.waits [
  | w ∷ ws ↦ some (wait w.address (failed canceled) signal_none 0)
  | [] ↦ elim a.tasks [ [] ↦ none | t ∷ ts ↦ some (task t.0 (failed canceled)) ]
]

module _ {C W : Type 0} (client_code : Client C ℕ ℕ W) where
  -- The calls that `next` gives one after the other, at most so many.
  unfoldable pub calls_by : (Loop → Option Call) → ℕ → Thread Loop C ℕ W → List Call
  calls_by next zero s = []
  calls_by next (suc n) s = elim (next s.loop) [
    | none ↦ []
    | some c ↦
        c
        ∷ (elim (dispatch platform client_code c s) [ aborts ↦ [] | returns t ↦ calls_by next n t ])
  ]

  -- Run and the destructor, with at most ten calls each.
  unfoldable pub run_loop : Thread Loop C ℕ W → Outcome (Thread Loop C ℕ W)
  run_loop s =
      let running = record s { message_loop = record s.message_loop { is_running = true } } in
      run platform client_code (calls_by next_call 10 running) (failed canceled) s

  unfoldable pub destroy_loop : Thread Loop C ℕ W → Outcome (Thread Loop C ℕ W)
  destroy_loop s =
      let shut = record s { loop = record s.loop { down = true } } in
      destroy platform client_code (calls_by next_canceled 10 shut) shut
