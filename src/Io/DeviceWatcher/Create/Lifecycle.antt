-- ===== src/Io/DeviceWatcher/Create/Lifecycle.antt =====
-- What a watcher leaves open: nothing if Create fails, and nothing after its destruction.
use mtl.Base.{
  sym, ℕ, ◌≡◌, refl, ◌∙◌, ap, fun_ext, Bool, true, false, Option, none, some, List, arith, inl, inr,
  some-injective, Option-cases, Bool-cases,
}
use mtl.Io.DeviceWatcher.{DeviceWatcher}
use mtl.Io.DeviceWatcher.Create.{
  watch_trigger, Os, Resources, with, without, IsLawful, device_watcher, watch_started,
  channel_created, directory_opened, create, destroy_watcher,
}

without_absent : (x : ℕ) (f : ℕ → Bool) → f x ≡ false → without x f ≡ f
without_absent x f h = fun_ext λ v. ground (arith, ap f)

without-with : (x : ℕ) (f : ℕ → Bool) → f x ≡ false → without x (with x f) ≡ f
without-with x f h = fun_ext λ v. ground (arith, ap f)

restored :
    (base : Resources) {f g k : ℕ → Bool}
    → f ≡ base.fds
    → g ≡ base.handles
    → k ≡ base.keys
    → record { fds = f; handles = g; keys = k } ≡ base
restored base p q r i = record { fds = p i; handles = q i; keys = r i }

module _ {O : Type 0} (os : Os O) where
  created-none :
      (fd : ℕ) (r : Option (ℕ × ℕ) × O)
      → r.0 ≡ none
      → channel_created os fd r ≡ (none, os.close_fd fd r.1)
  unfolding channel_created
  created-none fd (none, o) e = refl
  created-none fd (some _, o) e = cc

  created-some :
      (fd a b : ℕ) (r : Option (ℕ × ℕ) × O)
      → r.0 ≡ some (a, b)
      → channel_created os fd r ≡ watch_started os fd a b (os.ioctl_vfs_watch_dir fd a r.1)
  unfolding channel_created
  created-some fd a b (none, o) e = cc
  created-some fd a b (some (a', b'), o) e = cc

  started-false :
      (fd a b : ℕ) (r : Bool × O)
      → r.0 ≡ false
      → watch_started os fd a b r ≡ watch_started os fd a b (false, r.1)
  started-false fd a b (false, o) e = refl
  started-false fd a b (true, o) e = cc

  started-true :
      (fd a b : ℕ) (r : Bool × O)
      → r.0 ≡ true
      → watch_started os fd a b r
        ≡ (some (device_watcher os fd b r.1).0, (device_watcher os fd b r.1).1)
  unfolding watch_started
  started-true fd a b (false, o) e = cc
  started-true fd a b (true, o) e = refl

  opened-none : (r : Option ℕ × O) → r.0 ≡ none → directory_opened os r ≡ (none, r.1)
  unfolding directory_opened
  opened-none (none, o) e = refl
  opened-none (some _, o) e = cc

  opened-some :
      (fd : ℕ) (r : Option ℕ × O)
      → r.0 ≡ some fd
      → directory_opened os r ≡ channel_created os fd (os.channel_create r.1)
  unfolding directory_opened
  opened-some fd (none, o) e = cc
  opened-some fd (some _, o) e = cc

  module _ {opened : O → Resources} (lawful : IsLawful os opened) where
    started_fails :
        (base : Resources) (fd a b : ℕ) (o : O)
        → base.fds fd ≡ false
        → base.handles b ≡ false
        → with b base.handles a ≡ false
        → opened o ≡ record base { fds = with fd base.fds; handles = with a (with b base.handles) }
        → opened (watch_started os fd a b (false, o)).1 ≡ base
    unfolding watch_started
    started_fails base fd a b o new_fd new_b new_a e =
        rw (lawful.opened-close_fd, lawful.opened-close_handle, lawful.opened-close_handle, e)
          (restored base (without-with fd base.fds new_fd)
            (ap (without b) (without-with a (with b base.handles) new_a)
              ∙ without-with b base.handles new_b)
            refl)

    module _ (base : Resources) (fd : ℕ) (o : O) (new_fd : base.fds fd ≡ false)
        (e : opened o ≡ record base { fds = with fd base.fds }) where
      abbrev made : Option (ℕ × ℕ) × O
      made = os.channel_create o

      abbrev asked : ℕ → Bool × O
      asked a = os.ioctl_vfs_watch_dir fd a made.1

      -- The channel is new, beside what was open before.
      made_lem :
          (a b : ℕ)
          → made.0 ≡ some (a, b)
          → (base.handles b ≡ false)
            × (with b base.handles a ≡ false)
            × (opened made.1
                ≡ record base { fds = with fd base.fds; handles = with a (with b base.handles) })
      made_lem a b h = let made_new = lawful.channel_succeeds o a b h in rw e at made_new

      created_fails :
          (channel_created os fd made).0 ≡ none → opened (channel_created os fd made).1 ≡ base
      created_fails h = elim (Option-cases made.0) [
        | inl failed ↦ rw (created-none fd made failed) (
            rw (lawful.opened-close_fd, lawful.channel_fails o failed, e)
              (λ i. record base { fds = without-with fd base.fds new_fd i }))
        | inr ((a, b), some_made) ↦
            let (new_b, new_a, both) = made_lem a b some_made in
            elim (Bool-cases (asked a).0) [
              | inl accepted ↦
                  let made_watcher : (channel_created os fd made).0
                      ≡ some (device_watcher os fd b (asked a).1).0 =
                    ap (λ (r : Option DeviceWatcher × O). r.0)
                      (created-some fd a b made some_made
                        ∙ started-true fd a b (asked a) accepted) in
                  cc
              | inr refused ↦
                  rw (created-some fd a b made some_made, started-false fd a b (asked a) refused)
                    (started_fails base fd a b (asked a).1 new_fd new_b new_a
                      (lawful.ioctl_fails fd a made.1 refused ∙ both))
            ]
      ]

    -- A Create that returns null leaves open what was open before, and nothing else.
    pub create_fails :
        (path : List ℕ) (o : O)
        → (create os path o).0 ≡ none
        → opened (create os path o).1 ≡ opened o
    unfolding create
    create_fails path o h = elim (Option-cases (os.open_directory path o).0) [
      | inl none_open ↦
          rw (opened-none (os.open_directory path o) none_open) (lawful.open_fails path o none_open)
      | inr (fd, some_open) ↦
          let (new_fd, e) = lawful.open_succeeds path o fd some_open in
          let same = opened-some fd (os.open_directory path o) some_open in
          rw same (created_fails (opened o) fd (os.open_directory path o).1 new_fd e (rw same at h))
    ]

    module _ (base : Resources) (fd a b : ℕ) (o : O) (new_fd : base.fds fd ≡ false)
        (new_b : base.handles b ≡ false) (new_a : with b base.handles a ≡ false)
        (e : opened o
          ≡ record base { fds = with fd base.fds; handles = with a (with b base.handles) }) where
      abbrev answer : Bool × O
      answer = os.ioctl_vfs_watch_dir fd a o

      abbrev key : ℕ
      key = (os.add_handler b watch_trigger answer.1).0

      -- The watcher holds the descriptor, one end of the channel, and a handler.
      destroyed_lem :
          answer.0 ≡ true
          → opened (
              os.close_fd fd (
                os.close_handle b
                  (os.remove_handler key (os.add_handler b watch_trigger answer.1).1)))
            ≡ base
      destroyed_lem accepted =
          let (new_key, added) = lawful.opened-add_handler b watch_trigger answer.1 in
          let held : opened answer.1
              ≡ record base { fds = with fd base.fds; handles = with b base.handles } =
            lawful.ioctl_succeeds fd a o accepted
            ∙ rw e (λ i. record base {
              fds = with fd base.fds;
              handles = without-with a (with b base.handles) new_a i;
            }) in
          let after_keys : opened
                (os.remove_handler key (os.add_handler b watch_trigger answer.1).1)
              ≡ opened answer.1 =
            elim (Bool-cases (os.is_down answer.1)) [
              | inl down ↦
                  rw (lawful.opened-remove_handler, rw down at added)
                    (λ i. record (opened answer.1) {
                      keys = without_absent key (opened answer.1).keys new_key i;
                    })
              | inr up ↦
                  rw (lawful.opened-remove_handler, rw up at added)
                    (λ i. record (opened answer.1) {
                      keys = without-with key (opened answer.1).keys new_key i;
                    })
            ] in
          rw (lawful.opened-close_fd, lawful.opened-close_handle, after_keys, held)
            (restored base (without-with fd base.fds new_fd) (without-with b base.handles new_b)
              refl)

      destroyed_started :
          (w : DeviceWatcher)
          → (watch_started os fd a b answer).0 ≡ some w
          → opened (destroy_watcher os w (watch_started os fd a b answer).1) ≡ base
      unfolding watch_started device_watcher destroy_watcher
      destroyed_started w h = elim (Bool-cases answer.0) [
        | inl accepted ↦
            let same = started-true fd a b answer accepted in
            rw
              (
                sym (some-injective (ap (λ (r : Option DeviceWatcher × O). r.0) (sym same) ∙ h)),
                same,
              )
              (destroyed_lem accepted)
        | inr refused ↦
            let none_started : (watch_started os fd a b answer).0 ≡ none =
              ap (λ (r : Option DeviceWatcher × O). r.0) (started-false fd a b answer refused) in
            cc
      ]

    module _ (base : Resources) (fd : ℕ) (o : O) (new_fd : base.fds fd ≡ false)
        (e : opened o ≡ record base { fds = with fd base.fds }) where
      destroyed_created :
          (w : DeviceWatcher)
          → (channel_created os fd (os.channel_create o)).0 ≡ some w
          → opened (destroy_watcher os w (channel_created os fd (os.channel_create o)).1) ≡ base
      destroyed_created w h = elim (Option-cases (os.channel_create o).0) [
        | inl failed ↦
            let fails =
              ap (λ (r : Option DeviceWatcher × O). r.0)
                (created-none fd (os.channel_create o) failed) in
            cc
        | inr ((a, b), some_made) ↦
            let (new_b, new_a, both) = made_lem base fd o new_fd e a b some_made in
            let same = created-some fd a b (os.channel_create o) some_made in
            rw same (
              destroyed_started base fd a b (os.channel_create o).1 new_fd new_b new_a both w
                (rw same at h))
      ]

    -- A watcher that Create made, and that is then destroyed, leaves open what was open before Create,
    -- and nothing else.
    pub destroy-create :
        (path : List ℕ) (o : O) (w : DeviceWatcher)
        → (create os path o).0 ≡ some w
        → opened (destroy_watcher os w (create os path o).1) ≡ opened o
    unfolding create
    destroy-create path o w h = elim (Option-cases (os.open_directory path o).0) [
      | inl none_open ↦
          let fails =
            ap (λ (r : Option DeviceWatcher × O). r.0)
              (opened-none (os.open_directory path o) none_open) in
          cc
      | inr (fd, some_open) ↦
          let (new_fd, e) = lawful.open_succeeds path o fd some_open in
          let same = opened-some fd (os.open_directory path o) some_open in
          rw same
            (destroyed_created (opened o) fd (os.open_directory path o).1 new_fd e w (rw same at h))
    ]
