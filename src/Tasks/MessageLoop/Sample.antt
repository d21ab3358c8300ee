-- ===== src/Tasks/MessageLoop/Sample.antt =====
-- A small async::Loop that keeps the sets of its waits and tasks. Records are at increasing addresses.
use mtl.Base.{ℕ, refl, Bool, true, false, ◌==◌, if◌then◌else◌, fresh, find-fresh, arith}
use mtl.Magenta.{ok, failed, bad_state}
use mtl.Tasks.Platform.{Platform, IsLawful}

pub record Loop : Type 0 where
  pub waits : ℕ → Bool
  pub tasks : ℕ → Bool
  pub down : Bool

abbrev pub including : ℕ → (ℕ → Bool) → ℕ → Bool
including p f v = if p == v then true else f v

abbrev pub without : ℕ → (ℕ → Bool) → ℕ → Bool
without p f v = if p == v then false else f v

abbrev pub platform : Platform Loop ℕ ℕ ℕ
platform = record {
  begin_wait = λ p r a.
      if a.down then (failed bad_state, a) else (ok, record a { waits = including p a.waits });
  cancel_wait = λ p a. (ok, record a { waits = without p a.waits });
  post_task = λ p r a.
      if a.down then (failed bad_state, a) else (ok, record a { tasks = including p a.tasks });
  quit = λ a. a;
  reset_quit = λ a. (ok, a);
  take_wait = λ p a. record a { waits = without p a.waits };
  take_task = λ p a. record a { tasks = without p a.tasks };
  wait_again = λ p a. record a { waits = including p a.waits };
  waiting = λ a. a.waits;
  posted = λ a. a.tasks;
  is_max = λ d. d == 0;
  infinite = 1000;
  deadline_after = λ d a. d;
  new_handler_record = λ m. fresh m;
  new_task_record = λ m. fresh m;
}

pub platform-IsLawful : IsLawful platform
platform-IsLawful = record {
  begin_wait_status = λ w r a. ground arith;
  waiting-begin_wait = λ w r a v. ground arith;
  posted-begin_wait = λ w r a v. ground arith;
  cancel_wait_status = λ w a h. refl;
  waiting-cancel_wait = λ w a v. refl;
  posted-cancel_wait = λ w a v. refl;
  post_task_status = λ t r a. ground arith;
  posted-post_task = λ t r a v. ground arith;
  waiting-post_task = λ t r a v. ground arith;
  waiting-quit = λ a v. refl;
  posted-quit = λ a v. refl;
  reset_quit_status = λ a. refl;
  waiting-reset_quit = λ a v. refl;
  posted-reset_quit = λ a v. refl;
  waiting-take_wait = λ w a v. refl;
  posted-take_wait = λ w a v. refl;
  posted-take_task = λ t a v. refl;
  waiting-take_task = λ t a v. refl;
  waiting-wait_again = λ w a v. refl;
  posted-wait_again = λ w a v. refl;
  find-new_handler_record = find-fresh;
  find-new_task_record = find-fresh;
}

abbrev pub idle_loop : Loop
idle_loop = record { waits = λ p. false; tasks = λ p. false; down = false }
