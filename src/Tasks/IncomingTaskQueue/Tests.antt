-- ===== src/Tasks/IncomingTaskQueue/Tests.antt =====
-- Runs of an IncomingTaskQueue, with a delegate that keeps a log.
use mtl.Base.{ℕ, ◌+◌, ◌≡◌, refl, true, List, [], ◌∷◌, ◌++◌, map, returns, ltb}
use mtl.Tasks.IncomingTaskQueue.{FtlTime, TaskQueueDelegate, post_all}
use mtl.Tasks.IncomingTaskQueue.Delivery.{
  Post, posts, posts_for_time, posts_delayed, due, lifetime, dropping, delivery,
}

abbrev ftl : FtlTime
ftl = record {
  TimePoint = ℕ;
  TimeDelta = ℕ;
  time_point = 0;
  is_positive = λ d. ltb 0 d;
  advance = λ t d. t + d;
}

abbrev log : TaskQueueDelegate ℕ ℕ (List (ℕ × ℕ))
log = record {
  post_task = λ d task time w. w ++ (task, time) ∷ [];
  runs_tasks_on_current_thread = λ d w. true;
}

abbrev early : List (Post ℕ ℕ ℕ)
early = posts 1 ∷ posts_delayed 2 5 100 ∷ []

abbrev late : List (Post ℕ ℕ ℕ)
late = posts_for_time 3 7 ∷ posts_delayed 4 0 100 ∷ []

delivery_example :
    lifetime ftl log early 9 late (posts 5 ∷ []) []
    ≡ returns (dropping ftl log, post_all ftl log 9 (map (due ftl log) (early ++ late)) [])
delivery_example = delivery ftl log early 9 late (posts 5 ∷ []) []

delivered :
    post_all ftl log 9 (map (due ftl log) (early ++ late)) []
    ≡ (1, 0) ∷ (2, 105) ∷ (3, 7) ∷ (4, 0) ∷ []
unfolding post_all due
delivered = refl
