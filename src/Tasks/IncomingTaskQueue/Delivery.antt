-- ===== src/Tasks/IncomingTaskQueue/Delivery.antt =====
-- What happens to the tasks that threads post to an IncomingTaskQueue.
use mtl.Base.{
  ℕ, true, false, none, some, List, [], ◌∷◌, ◌++◌, ◌≡◌, refl, ◌∙◌, ap, map, map-append,
  append_assoc, append-nil, if◌then◌else◌, Outcome, returns, ◌>>=◌,
}
use mtl.Tasks.IncomingTaskQueue.{
  FtlTime, TaskQueueDelegate, IncomingTaskQueue, incoming_task_queue, post_task, post_task_for_time,
  post_delayed_task, post_all, init_delegate, clear_delegate,
}

-- A call of the TaskRunner interface, by any thread; a delayed one has the time of the call.
pub data Post (Closure TimePoint TimeDelta : Type 0) : Type 0 where
  posts : Closure → Post Closure TimePoint TimeDelta
  posts_for_time : Closure → TimePoint → Post Closure TimePoint TimeDelta
  posts_delayed : Closure → TimeDelta → TimePoint → Post Closure TimePoint TimeDelta

-- A queue that has a delegate is empty and accepts tasks, and one that drops tasks has none.
pub record IsValid {Closure TimePoint : Type 0} (q : IncomingTaskQueue Closure TimePoint)
    : Type 0 where
  pub drained : (d : ℕ) → q.delegate ≡ some d → q.incoming_queue ≡ []
  pub accepting : (d : ℕ) → q.delegate ≡ some d → q.drop_incoming_tasks ≡ false

module _ {Closure W : Type 0} (ftl : FtlTime)
    (vtable : TaskQueueDelegate Closure ftl.TimePoint W) where
  open ftl use {TimePoint, TimeDelta, time_point, is_positive, advance}

  abbrev Submission : Type 0
  Submission = Post Closure TimePoint TimeDelta

  abbrev State : Type 0
  State = IncomingTaskQueue Closure TimePoint × W

  pub submit : Submission → State → State
  submit (posts task) s = post_task ftl vtable task s
  submit (posts_for_time task target_time) s = post_task_for_time ftl vtable task target_time s
  submit (posts_delayed task delay now) s = post_delayed_task ftl vtable task delay now s

  pub submit_all : List Submission → State → State
  submit_all [] s = s
  submit_all (p ∷ ps) s = submit_all ps (submit p s)

  -- The task and the time at which it is due: the delay counts from the call, and not at all if it
  -- is not positive.
  unfoldable pub due : Submission → Closure × TimePoint
  due (posts task) = (task, time_point)
  due (posts_for_time task target_time) = (task, target_time)
  due (posts_delayed task delay now) =
      (task, if is_positive delay then advance now delay else time_point)

  abbrev buffering : List (Closure × TimePoint) → IncomingTaskQueue Closure TimePoint
  buffering l = record { incoming_queue = l; delegate = none; drop_incoming_tasks = false }

  abbrev delegating : ℕ → IncomingTaskQueue Closure TimePoint
  delegating d = record { incoming_queue = []; delegate = some d; drop_incoming_tasks = false }

  abbrev pub dropping : IncomingTaskQueue Closure TimePoint
  dropping = record { incoming_queue = []; delegate = none; drop_incoming_tasks = true }

  submit-buffering :
      (p : Submission) (l : List (Closure × TimePoint)) (w : W)
      → submit p (buffering l, w) ≡ (buffering (l ++ due p ∷ []), w)
  unfolding submit due post_task post_task_for_time post_delayed_task
  submit-buffering (posts task) l w = refl
  submit-buffering _ l w = refl

  submit-delegating :
      (p : Submission) (d : ℕ) (w : W)
      → submit p (delegating d, w) ≡ (delegating d, vtable.post_task d (due p).0 (due p).1 w)
  unfolding submit due post_task post_task_for_time post_delayed_task
  submit-delegating (posts task) d w = refl
  submit-delegating _ d w = refl

  submit-dropping : (p : Submission) (w : W) → submit p (dropping, w) ≡ (dropping, w)
  unfolding submit post_task post_task_for_time post_delayed_task
  submit-dropping (posts task) w = refl
  submit-dropping _ w = refl

  submit_all-buffering :
      (ps : List Submission) (l : List (Closure × TimePoint)) (w : W)
      → submit_all ps (buffering l, w) ≡ (buffering (l ++ map due ps), w)
  unfolding submit_all
  submit_all-buffering [] l w = simp append-nil
  submit_all-buffering (p ∷ ps) l w = rw (submit-buffering p l w) (
      submit_all-buffering ps (l ++ due p ∷ []) w
      ∙ ap (λ k. (buffering k, w)) (append_assoc l (due p ∷ []) (map due ps)))

  submit_all-delegating :
      (ps : List Submission) (d : ℕ) (w : W)
      → submit_all ps (delegating d, w) ≡ (delegating d, post_all ftl vtable d (map due ps) w)
  unfolding submit_all post_all
  submit_all-delegating [] d w = refl
  submit_all-delegating (p ∷ ps) d w = rw (submit-delegating p d w) (submit_all-delegating ps d _)

  submit_all-dropping : (ps : List Submission) (w : W) → submit_all ps (dropping, w) ≡ (dropping, w)
  unfolding submit_all
  submit_all-dropping [] w = refl
  submit_all-dropping (p ∷ ps) w = rw (submit-dropping p w) (submit_all-dropping ps w)

  post_all-append :
      (d : ℕ) (xs ys : List (Closure × TimePoint)) (w : W)
      → post_all ftl vtable d (xs ++ ys) w ≡ post_all ftl vtable d ys (post_all ftl vtable d xs w)
  unfolding post_all
  post_all-append d [] ys w = refl
  post_all-append d (x ∷ xs) ys w = post_all-append d xs ys _

  -- The life of a queue: tasks are posted before there is a delegate, while there is one, and after.
  pub lifetime : List Submission → ℕ → List Submission → List Submission → W → Outcome State
  lifetime before d during after w =
      init_delegate ftl vtable (some d) (submit_all before (incoming_task_queue, w)) >>= λ s.
      clear_delegate ftl vtable (submit_all during s) >>= λ t. returns (submit_all after t)

  -- The delegate gets every task posted before ClearDelegate, once each and in the order of posting,
  -- whether it was posted before or after InitDelegate; what is posted later is dropped, the queue
  -- ends empty, and no check fails.
  pub delivery :
      (before : List Submission) (d : ℕ) (during after : List Submission) (w : W)
      → lifetime before d during after w
        ≡ returns (dropping, post_all ftl vtable d (map due (before ++ during)) w)
  unfolding lifetime
  delivery before d during after w = rw (submit_all-buffering before [] w) (
      unfold init_delegate in
      rw (submit_all-delegating during d (post_all ftl vtable d (map due before) w)) (
        unfold clear_delegate in
        rw (
          submit_all-dropping after,
          map-append due before during,
          post_all-append d (map due before) (map due during) w,
        )))
