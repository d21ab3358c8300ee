-- ===== src/Threading/Preload.antt =====
-- The tasks that were posted before the thread's loop was there.
use mtl.Base.{
  find-empty, empty, has, IsDistinct, ℕ, ◌≡◌, ◌≢◌, refl, ◌∙◌, true, false, none, some, List, [],
  ◌∷◌, ◌==◌, if◌then◌else◌, find, find-emplace, returns, Ensures, Ensures-bind, Ensures-mono, inl,
  inr, arith,
}
use mtl.Magenta.{is_ok}
use mtl.Tasks.Platform.{Closure, Platform, IsLawful, TaskRecord}
use mtl.Tasks.IncomingTaskQueue.{FtlTime, init_delegate, post_all}
use mtl.Tasks.MessageLoop.{Thread, message_loop}
use mtl.Tasks.MessageLoop.Invariant.{Inv}
use mtl.Tasks.MessageLoop.Invariant.Calls.{post_task_cases, posted, posted-Inv, made, address}
use mtl.Tasks.MessageLoop.Invariant.Initial.{message_loop-Inv}
use mtl.Threading.{loop_delegate, construct}

module _ {A C TimeDelta Deadline : Type 0} (platform : Platform A C TimeDelta Deadline) where
  -- The async::Loop is not shutting down, so it accepts tasks, and stays so.
  pub record Accepting (Up : A → Type 0) : Type 0 where
    pub accepts :
        (p : ℕ) (r : TaskRecord C Deadline) (a : A)
        → Up a
        → (is_ok (platform.post_task p r a).0 ≡ true) × Up (platform.post_task p r a).1

module _ {A C TimeDelta Deadline W : Type 0} (platform : Platform A C TimeDelta Deadline)
    (lawful : IsLawful platform) (ftl : FtlTime) (nanoseconds : ftl.TimePoint → Deadline) where
  -- Each task of the list has a record of its own, at a free address, which the loop will call.
  abbrev pub Recorded :
      List (Closure C × ftl.TimePoint)
      → List ℕ
      → Thread A C Deadline W
      → Thread A C Deadline W
      → Type 0
  Recorded [] [] s t = Unit
  Recorded [] (p ∷ ps) s t = ⊥
  Recorded (x ∷ l) [] s t = ⊥
  Recorded (x ∷ l) (p ∷ ps) s t =
      (find p s.task_records ≡ none)
      × (find p t.task_records ≡ some (record { deadline = nanoseconds x.1; task = x.0 }))
      × (platform.posted t.loop p ≡ true)
      × Recorded l ps s t

  pub record Loaded (l : List (Closure C × ftl.TimePoint)) (s t : Thread A C Deadline W)
      : Type 0 where
    pub inv : Inv platform none t
    pub same_message_loop : t.message_loop ≡ s.message_loop
    pub addresses : List ℕ
    pub distinct : IsDistinct addresses
    pub recorded : Recorded l addresses s t
    pub others_kept :
        (p : ℕ)
        → has p addresses ≡ false
        → (find p t.task_records ≡ find p s.task_records)
          × (platform.posted t.loop p ≡ platform.posted s.loop p)

  module _ (Up : A → Type 0) (accepting : Accepting platform Up) where
    -- A record that is made before others were free.
    earlier :
        (l : List (Closure C × ftl.TimePoint)) (ps : List ℕ) (s s' t : Thread A C Deadline W)
        → ((p : ℕ) → find p s'.task_records ≡ none → find p s.task_records ≡ none)
        → Recorded l ps s' t
        → Recorded l ps s t
    earlier [] [] s s' t free r = tt
    earlier [] (p ∷ ps) s s' t free r = r
    earlier (x ∷ l) [] s s' t free r = r
    earlier (x ∷ l) (p ∷ ps) s s' t free (f, e, w, r) = (free p f, e, w, earlier l ps s s' t free r)

    -- An address that is in use is not among the free ones.
    used :
        (l : List (Closure C × ftl.TimePoint)) (ps : List ℕ) (s t : Thread A C Deadline W) (q : ℕ)
        → (find q s.task_records ≢ none)
        → Recorded l ps s t
        → has q ps ≡ false
    used [] [] s t q there r = refl
    used [] (p ∷ ps) s t q there r = absurd r
    used (x ∷ l) [] s t q there r = absurd r
    used (x ∷ l) (p ∷ ps) s t q there (f, e, w, r) =
        ground (arith, used l ps s t q there r, there, f)

    post_all-Loaded :
        (d : ℕ) (l : List (Closure C × ftl.TimePoint)) (s : Thread A C Deadline W)
        → Inv platform none s
        → Up s.loop
        → Ensures
            (Loaded l s)
            (post_all ftl (loop_delegate platform ftl nanoseconds) d l (returns s))
    unfolding post_all
    post_all-Loaded d [] s inv up = record {
      inv = inv;
      same_message_loop = refl;
      addresses = [];
      distinct = tt;
      recorded = tt;
      others_kept = λ p e. (refl, refl);
    }
    post_all-Loaded d ((task, time) ∷ l) s inv up =
        let deadline = nanoseconds time in
        let p = address platform lawful none s task deadline in
        let r = made platform lawful none s task deadline in
        let s' = posted platform lawful none s task deadline in
        let (done, up') = accepting.accepts p r s.loop up in
        let free = lawful.find-new_task_record s.task_records in
        let at : (q : ℕ)
            → find q s'.task_records ≡ (if p == q then some r else find q s.task_records) =
          λ q. find-emplace p q r s.task_records free in
        let there : find p s'.task_records ≡ some r = ground (arith, at p) in
        elim (post_task_cases platform lawful none s task deadline) [
          | inl (st, e) ↦ absurd (ground (arith, done))
          | inr (st, e) ↦ rw e (
              Ensures-mono (Loaded l s') (Loaded ((task, time) ∷ l) s)
                (post_all ftl (loop_delegate platform ftl nanoseconds) d l (returns s'))
                (post_all-Loaded d l s' (posted-Inv platform lawful none s task deadline st inv)
                  up')
                (λ t g.
                  let out : has p g.addresses ≡ false =
                    used l g.addresses s' t p (λ e. ground (arith, there)) g.recorded in
                  record {
                    inv = g.inv;
                    same_message_loop = g.same_message_loop;
                    addresses = p ∷ g.addresses;
                    distinct = (out, g.distinct);
                    recorded = (
                      free,
                      (g.others_kept p out).0 ∙ there,
                      ground (arith, (g.others_kept p out).1, lawful.posted-post_task p r s.loop p),
                      earlier l g.addresses s s' t (λ q e. ground (arith, at q)) g.recorded,
                    );
                    others_kept = λ q e.
                        ground (arith, g.others_kept q, at q, lawful.posted-post_task p r s.loop q);
                  }))
        ]

    -- The tasks of the list, and no other, have records.
    pub record Preloaded (l : List (Closure C × ftl.TimePoint)) (t : Thread A C Deadline W)
        : Type 0 where
      pub new_thread : Thread A C Deadline W
      pub is_stopped :
          (new_thread.current_handler ≡ none)
          × (new_thread.is_running ≡ false)
          × (new_thread.next_handler_key ≡ 1)
      pub none_before : (p : ℕ) → find p new_thread.task_records ≡ none
      pub loaded : Loaded l new_thread t

    -- A MessageLoop that is made on a queue, over an async::Loop that accepts tasks and has nothing to
    -- call, fails no check and keeps its bookkeeping: each task that was posted before has one record,
    -- with its closure and its time, which the loop will call, and there is no other record; the queue
    -- is empty and gives later tasks to the loop.
    pub construct-Preloaded :
        (l : List (Closure C × ftl.TimePoint)) (this : ℕ) (loop : A) (world : W)
        → Up loop
        → ((p : ℕ) → (platform.waiting loop p ≡ false) × (platform.posted loop p ≡ false))
        → Ensures
            (λ r.
              (r.0
                ≡ record { incoming_queue = []; delegate = some this; drop_incoming_tasks = false })
              × Preloaded l r.1)
            (construct platform ftl nanoseconds
              (record { incoming_queue = l; delegate = none; drop_incoming_tasks = false })
              this
              loop
              world)
    unfolding construct message_loop init_delegate
    construct-Preloaded l this loop world up none_left =
        let s : Thread A C Deadline W = record {
          g_current = some this;
          message_loop = record {
            this = this;
            after_task_callback = none;
            is_running = false;
            next_handler_key = 1;
            handlers = empty;
            current_handler = none;
            current_handler_removed = false;
          };
          loop = loop;
          handler_records = empty;
          task_records = empty;
          world = world;
        } in
        let inv : Inv platform none s =
          (message_loop-Inv {C = C} platform this loop world none_left).0 in
        Ensures-bind (Loaded l s) _
          (post_all ftl (loop_delegate platform ftl nanoseconds) this l (returns s)) _
          (post_all-Loaded this l s inv up)
          (λ t g. (
            refl,
            record {
              new_thread = s;
              is_stopped = (refl, refl, refl);
              none_before = λ p. find-empty p;
              loaded = g;
            },
          ))
