-- ===== src/Io/Redirection/Tests.antt =====
-- Handles that are given in order, of which 1 to 4 are open.
use mtl.Base.{ℕ, ◌+◌, refl, Bool, true, false, not, ◌&&◌, ◌==◌, ltb, if◌then◌else◌, arith}
use mtl.Magenta.{ok}
use mtl.Io.Redirection.{
  RedirectionCalls, Redirected, IsLawful, Created, create_redirected_socket,
  create_redirected_socket-Created,
}

record Handles : Type 0 where
  next : ℕ
  closed : ℕ → Bool

abbrev is_open : Handles → ℕ → Bool
is_open w h = ltb h w.next && not (w.closed h)

abbrev calls : RedirectionCalls Handles
calls = record {
  create_socket = λ w. (
    ok,
    (
      (w.next, w.next + 1),
      record {
        next = w.next + 2;
        closed = λ h. if w.next == h then false else if w.next + 1 == h then false else w.closed h;
      },
    ),
  );
  close_handle = λ k w. record w { closed = λ h. if k == h then true else w.closed h };
  pipe_id = λ fd. 65536 + fd;
}

calls-IsLawful : IsLawful calls is_open
calls-IsLawful = record {
  ends_new = λ w e. (ground arith, ground arith);
  opened-create = λ w h. ground arith;
  opened-close = λ h k w. ground arith;
}

-- The socket's variable holds handle 3.
abbrev holding : Redirected Handles
holding = record {
  out_socket = 3;
  out_startup_handle = record { id = 0; handle = 0 };
  state = record { next = 5; closed = λ h. false };
}

create_redirected_socket-Created_example :
    Created calls is_open 1 holding (create_redirected_socket calls 1 holding)
create_redirected_socket-Created_example =
    create_redirected_socket-Created calls is_open calls-IsLawful 1 holding (λ e. refl)
      (λ e. ground arith)
