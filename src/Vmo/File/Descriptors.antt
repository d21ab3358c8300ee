-- ===== src/Vmo/File/Descriptors.antt =====
-- What VmoFromFd and VmoFromFilename leave open.
use mtl.Base.{
  is_some, Option, subst, ◌∙◌, fun_ext, inr, inl, Option-cases, ℕ, Bool, true, false, none, some,
  List, if◌then◌else◌, ◌==◌, ◌≡◌, refl, arith,
}
use mtl.Magenta.{is_ok, handle_invalid}
use mtl.Vmo.File.{FileCalls, vmo_from_fd, vmo_from_filename}

module _ {W : Type 0} (files : FileCalls W) where
  -- Which descriptors and handles are open, and the object that a file's mxio_get_vmo gives.
  pub record Tracked : Type 0 where
    pub fd_open : W → ℕ → Bool
    pub handle_open : W → ℕ → Bool

  -- open gives a descriptor that was not open, and mxio_get_vmo a handle that was not.
  pub record IsLawful (tracked : Tracked) : Type 0 where
    pub open_new :
        (name : List ℕ) (w : W) (d : ℕ)
        → (files.open_file name w).0 ≡ some d
        → tracked.fd_open w d ≡ false
    pub fd_open-open :
        (name : List ℕ) (w : W) (d j : ℕ)
        → (files.open_file name w).0 ≡ some d
        → tracked.fd_open (files.open_file name w).1 j
          ≡ (if d == j then true else tracked.fd_open w j)
    pub fd_open-open_fails :
        (name : List ℕ) (w : W) (j : ℕ)
        → (files.open_file name w).0 ≡ none
        → tracked.fd_open (files.open_file name w).1 j ≡ tracked.fd_open w j
    pub handle_open-open :
        (name : List ℕ) (w : W) (h : ℕ)
        → tracked.handle_open (files.open_file name w).1 h ≡ tracked.handle_open w h
    pub fd_open-close :
        (d j : ℕ) (w : W)
        → tracked.fd_open (files.close_fd d w) j ≡ (if d == j then false else tracked.fd_open w j)
    pub handle_open-close_fd :
        (d h : ℕ) (w : W) → tracked.handle_open (files.close_fd d w) h ≡ tracked.handle_open w h
    pub fd_open-get_vmo :
        (d j : ℕ) (w : W) → tracked.fd_open (files.get_vmo d w).1.1 j ≡ tracked.fd_open w j
    pub get_vmo_new :
        (d : ℕ) (w : W)
        → is_ok (files.get_vmo d w).0 ≡ true
        → tracked.handle_open w (files.get_vmo d w).1.0 ≡ false
    pub get_vmo_valid :
        (d : ℕ) (w : W)
        → is_ok (files.get_vmo d w).0 ≡ true
        → ((files.get_vmo d w).1.0 == handle_invalid) ≡ false
    pub handle_open-get_vmo :
        (d h : ℕ) (w : W)
        → tracked.handle_open (files.get_vmo d w).1.1 h ≡ (
            if is_ok (files.get_vmo d w).0
            then if (files.get_vmo d w).1.0 == h then true else tracked.handle_open w h
            else tracked.handle_open w h)
    pub handle_open-close :
        (h k : ℕ) (w : W)
        → tracked.handle_open (files.close_handle h w) k
          ≡ (if h == k then false else tracked.handle_open w k)
    pub fd_open-close_handle :
        (h j : ℕ) (w : W) → tracked.fd_open (files.close_handle h w) j ≡ tracked.fd_open w j

  -- The handle of a descriptor's object, if mxio_get_vmo gives one, and that of a file's, if open gives
  -- a descriptor too.
  abbrev pub object_of_fd : ℕ → W → Option ℕ
  object_of_fd d w = if is_ok (files.get_vmo d w).0 then some (files.get_vmo d w).1.0 else none

  abbrev pub object_of : List ℕ → W → Option ℕ
  object_of name w = elim (files.open_file name w).0 [
    | none ↦ none
    | some d ↦ object_of_fd d (files.open_file name w).1
  ]

  -- `r` is the result of a function that was given `before` in `handle_ptr`, and `handles` those that
  -- were open. The object's handle, if there is one, replaces `before`, which is closed; if there is
  -- none, nothing is opened or closed.
  pub record Replaced (tracked : Tracked) (before : ℕ) (object : Option ℕ) (handles : ℕ → Bool)
      (r : Bool × (ℕ × W)) : Type 0 where
    pub returned : r.0 ≡ is_some object
    pub held : r.1.0 ≡ (elim object [ none ↦ before | some h ↦ h ])
    pub not_invalid : r.0 ≡ true → (r.1.0 == handle_invalid) ≡ false
    pub closed :
        r.0 ≡ true → (before == handle_invalid) ≡ false → tracked.handle_open r.1.1 before ≡ false
    pub handles_left :
        (h : ℕ)
        → (h == handle_invalid) ≡ false
        → tracked.handle_open r.1.1 h ≡ (
            if r.0
            then if r.1.0 == h then true else if before == h then false else handles h
            else handles h)

  module _ (tracked : Tracked) (lawful : IsLawful tracked) where
    vmo_from_fd-closes :
        (d handle_ptr : ℕ) (w : W) (j : ℕ)
        → tracked.fd_open (vmo_from_fd files d handle_ptr w).1.1 j
          ≡ (if d == j then false else tracked.fd_open w j)
    unfolding vmo_from_fd
    vmo_from_fd-closes d handle_ptr w j =
        let r = files.get_vmo d w in
        ground (
          arith,
          lawful.fd_open-close d j r.1.1,
          lawful.fd_open-close d j (files.close_handle handle_ptr r.1.1),
          lawful.fd_open-close_handle handle_ptr j r.1.1,
          lawful.fd_open-get_vmo d j w,
        )

    vmo_from_fd-Replaced :
        (d handle_ptr : ℕ) (w : W)
        → ((handle_ptr == handle_invalid) ≡ false → tracked.handle_open w handle_ptr ≡ true)
        → Replaced tracked handle_ptr
            (object_of_fd d w)
            (tracked.handle_open w)
            (vmo_from_fd files d handle_ptr w)
    unfolding vmo_from_fd
    vmo_from_fd-Replaced d handle_ptr w owned =
        let r = files.get_vmo d w in
        record {
          returned = ground arith;
          held = ground arith;
          not_invalid = λ e. ground (arith, lawful.get_vmo_valid d w);
          closed = λ e valid. ground (
            arith,
            lawful.handle_open-close_fd d handle_ptr (files.close_handle handle_ptr r.1.1),
            lawful.handle_open-close handle_ptr handle_ptr r.1.1,
          );
          handles_left = λ h valid. ground (
            arith,
            lawful.handle_open-close_fd d h r.1.1,
            lawful.handle_open-close_fd d h (files.close_handle handle_ptr r.1.1),
            lawful.handle_open-close handle_ptr h r.1.1,
            lawful.handle_open-get_vmo d h w,
            lawful.get_vmo_new d w,
            owned,
          );
        }

    -- VmoFromFilename leaves open the descriptors that were open before, whichever call fails. It returns
    -- true if the file can be opened and has an object, and false if not. Where it returns true,
    -- `handle_ptr` holds the object's handle, and the handle that it held is closed; where not, it holds
    -- what it held. No other handle is opened or closed, while `handle_ptr` is empty or holds an open
    -- handle at the call.
    pub vmo_from_filename-Replaced :
        (name : List ℕ) (handle_ptr : ℕ) (w : W)
        → ((handle_ptr == handle_invalid) ≡ false → tracked.handle_open w handle_ptr ≡ true)
        → ((j : ℕ)
            → tracked.fd_open (vmo_from_filename files name handle_ptr w).1.1 j
              ≡ tracked.fd_open w j)
          × Replaced tracked handle_ptr
              (object_of name w)
              (tracked.handle_open w)
              (vmo_from_filename files name handle_ptr w)
    unfolding vmo_from_filename
    vmo_from_filename-Replaced name handle_ptr w owned =
        let r = files.open_file name w in
        elim (Option-cases r.0) [
          | inl failed ↦
              rw (vmo_from_filename, object_of, failed)
                (
                  λ j. lawful.fd_open-open_fails name w j failed,
                  record {
                    returned = refl;
                    held = refl;
                    not_invalid = λ e. ground arith;
                    closed = λ e valid. ground arith;
                    handles_left = λ h valid. lawful.handle_open-open name w h;
                  },
                )
          | inr (d, opened) ↦
              rw (vmo_from_filename, object_of, opened)
                (
                  λ j. ground (
                    arith,
                    vmo_from_fd-closes d handle_ptr r.1 j,
                    lawful.fd_open-open name w d j opened,
                    lawful.open_new name w d opened,
                  ),
                  (let owned' : (handle_ptr == handle_invalid) ≡ false
                          → tracked.handle_open r.1 handle_ptr ≡ true =
                        λ e. lawful.handle_open-open name w handle_ptr ∙ owned e in
                      let same : tracked.handle_open r.1 ≡ tracked.handle_open w =
                        fun_ext (λ h. lawful.handle_open-open name w h) in
                      subst
                        (λ f.
                          Replaced tracked handle_ptr (object_of_fd d r.1) f
                            (vmo_from_fd files d handle_ptr r.1))
                        same (vmo_from_fd-Replaced d handle_ptr r.1 owned')),
                )
        ]
