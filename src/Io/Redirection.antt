-- ===== src/Io/Redirection.antt =====
-- io/redirection.h and io/redirection.cc. An assignment to an mx::socket or mx::handle closes the handle
-- that it replaces.
mod Tests
use mtl.Base.{
  ◌&&◌, ◌||◌, not, ℕ, ◌==◌, ◌≡◌, refl, Bool, true, false, if◌then◌else◌, arith, Bool-cases, inl,
  inr,
}
use mtl.Magenta.{Status, is_ok, ok, handle_invalid}

pub record StartupHandle : Type 0 where
  pub id : ℕ
  pub handle : ℕ

-- mx::socket::create, with its two ends, mx_handle_close, and PA_HND(PA_MXIO_PIPE, fd).
pub record RedirectionCalls (W : Type 0) : Type 0 where
  pub create_socket : W → Status × ((ℕ × ℕ) × W)
  pub close_handle : ℕ → W → W
  pub pipe_id : ℕ → ℕ

-- What the out parameters hold, and the state.
pub record Redirected (W : Type 0) : Type 0 where
  pub out_socket : ℕ
  pub out_startup_handle : StartupHandle
  pub state : W

module _ {W : Type 0} (calls : RedirectionCalls W) where
  abbrev pub close : ℕ → W → W
  close handle w = if handle == handle_invalid then w else calls.close_handle handle w

  unfoldable pub create_redirected_socket : ℕ → Redirected W → Status × Redirected W
  create_redirected_socket startup_fd r =
      let (status, ((local_socket, remote_socket), w)) = calls.create_socket r.state in
      if is_ok status
      then (
        ok,
        record {
          out_socket = local_socket;
          out_startup_handle = record { id = calls.pipe_id startup_fd; handle = remote_socket };
          state = close r.out_startup_handle.handle (close r.out_socket w);
        },
      )
      else (status, record r { state = w })

  -- Which handles are open. The ends of a socket are two new handles, and a create that fails opens none.
  pub record IsLawful (opened : W → ℕ → Bool) : Type 0 where
    pub ends_new :
        (w : W)
        → is_ok (calls.create_socket w).0 ≡ true
        → (opened w (calls.create_socket w).1.0.0 ≡ false)
          × (opened w (calls.create_socket w).1.0.1 ≡ false)
    pub opened-create :
        (w : W) (h : ℕ)
        → opened (calls.create_socket w).1.1 h ≡ (
            if is_ok (calls.create_socket w).0
            then if (calls.create_socket w).1.0.0 == h
              then true
              else if (calls.create_socket w).1.0.1 == h
              then true
              else opened w h
            else opened w h)
    pub opened-close :
        (h k : ℕ) (w : W)
        → opened (calls.close_handle h w) k ≡ (if h == k then false else opened w k)

  -- An out parameter is empty or holds an open handle.
  abbrev pub Holds : (W → ℕ → Bool) → ℕ → W → Type 0
  Holds opened h w = (h == handle_invalid) ≡ false → opened w h ≡ true

  -- The result of a call for `startup_fd`, where the out parameters and the state were `r`.
  pub record Created (opened : W → ℕ → Bool) (startup_fd : ℕ) (r : Redirected W)
      (result : Status × Redirected W) : Type 0 where
    pub status_lem : is_ok result.0 ≡ is_ok (calls.create_socket r.state).0
    pub error_lem : is_ok result.0 ≡ false → result.0 ≡ (calls.create_socket r.state).0
    pub socket_kept : is_ok result.0 ≡ false → result.1.out_socket ≡ r.out_socket
    pub handle_kept : is_ok result.0 ≡ false → result.1.out_startup_handle ≡ r.out_startup_handle
    -- The local end is in `out_socket`, and the remote end in `out_startup_handle`.
    pub socket_lem :
        is_ok result.0 ≡ true → result.1.out_socket ≡ (calls.create_socket r.state).1.0.0
    pub handle_lem :
        is_ok result.0 ≡ true
        → result.1.out_startup_handle
          ≡ record { id = calls.pipe_id startup_fd; handle = (calls.create_socket r.state).1.0.1 }
    pub ends_open :
        is_ok result.0 ≡ true
        → (opened result.1.state result.1.out_socket ≡ true)
          × (opened result.1.state result.1.out_startup_handle.handle ≡ true)
    pub socket_closed :
        is_ok result.0 ≡ true
        → (r.out_socket == handle_invalid) ≡ false
        → opened result.1.state r.out_socket ≡ false
    pub handle_closed :
        is_ok result.0 ≡ true
        → (r.out_startup_handle.handle == handle_invalid) ≡ false
        → opened result.1.state r.out_startup_handle.handle ≡ false
    pub opened_left :
        (h : ℕ)
        → (h == handle_invalid) ≡ false
        → opened result.1.state h ≡ (
            if not (is_ok result.0)
            then opened r.state h
            else if result.1.out_socket == h || result.1.out_startup_handle.handle == h
            then true
            else if r.out_socket == h || r.out_startup_handle.handle == h
            then false
            else opened r.state h)

  opened-close_both :
      (opened : W → ℕ → Bool) (lawful : IsLawful opened) (g h k : ℕ) (w : W)
      → opened (close g (close h w)) k ≡ (
          if not (g == handle_invalid) && (g == k) || (not (h == handle_invalid) && (h == k))
          then false
          else opened w k)
  opened-close_both opened lawful g h k w = ground (
    arith,
    lawful.opened-close h k w,
    lawful.opened-close g k w,
    lawful.opened-close g k (calls.close_handle h w),
  )

  -- If a socket can be created, CreateRedirectedSocket returns MX_OK, closes what the out parameters held
  -- and leaves the two ends of the new socket open in them, the local one in `out_socket` and the remote
  -- one in `out_startup_handle`, with the id of the descriptor. If not, it returns its error, and they
  -- hold what they held. No other handle is opened or closed, while each of them is empty or holds an
  -- open handle.
  pub create_redirected_socket-Created :
      (opened : W → ℕ → Bool) (lawful : IsLawful opened) (startup_fd : ℕ) (r : Redirected W)
      → Holds opened r.out_socket r.state
      → Holds opened r.out_startup_handle.handle r.state
      → Created opened startup_fd r (create_redirected_socket startup_fd r)
  unfolding create_redirected_socket
  create_redirected_socket-Created opened lawful startup_fd r socket_held handle_held =
      let made = calls.create_socket r.state in
      let w = made.1.1 in
      let at =
        λ (h : ℕ). opened-close_both opened lawful r.out_startup_handle.handle r.out_socket h w in
      let before = λ (h : ℕ). lawful.opened-create r.state h in
      let new = lawful.ends_new r.state in
      record {
        status_lem = ground arith;
        error_lem = λ e. ground arith;
        socket_kept = λ e. ground arith;
        handle_kept = λ e. ground arith;
        socket_lem = λ e. ground arith;
        handle_lem = λ e. ground arith;
        ends_open = λ e. (
          ground (arith, at made.1.0.0, before made.1.0.0, new, socket_held, handle_held),
          ground (arith, at made.1.0.1, before made.1.0.1, new, socket_held, handle_held),
        );
        socket_closed = λ e valid. ground (arith, at r.out_socket);
        handle_closed = λ e valid. ground (arith, at r.out_startup_handle.handle);
        opened_left = λ h valid. ground (arith, at h, before h, new, socket_held, handle_held);
      }
