-- ===== src/Vmo/File/Tests.antt =====
-- One file, and the descriptors and handles below a limit each, which are given in order.
use mtl.Base.{
  ℕ, suc, ◌≡◌, refl, Bool, true, false, not, none, some, [], ◌∷◌, ◌==◌, ltb, ◌&&◌, if◌then◌else◌,
  arith,
}
use mtl.Magenta.{ok}
use mtl.Vmo.File.{FileCalls, vmo_from_filename}
use mtl.Vmo.File.Descriptors.{object_of, Tracked, IsLawful, Replaced, vmo_from_filename-Replaced}

-- Descriptors and handles that were not closed, below the next ones.
record Process : Type 0 where
  next_fd : ℕ
  next_handle : ℕ
  closed_fds : ℕ → Bool
  closed_handles : ℕ → Bool

abbrev fd_is_open : Process → ℕ → Bool
fd_is_open w j = ltb j w.next_fd && not (w.closed_fds j)

abbrev handle_is_open : Process → ℕ → Bool
handle_is_open w h = ltb h (suc w.next_handle) && not (w.closed_handles h)

abbrev files : FileCalls Process
files = record {
  open_file = λ name w. elim name [
    | [] ↦ (none, w)
    | x ∷ rest ↦ (
      some w.next_fd,
      record w {
        next_fd = suc w.next_fd;
        closed_fds = λ j. if w.next_fd == j then false else w.closed_fds j;
      },
    )
  ];
  close_fd = λ d w. record w { closed_fds = λ j. if d == j then true else w.closed_fds j };
  get_vmo = λ d w. (
    ok,
    (
      suc w.next_handle,
      record w {
        next_handle = suc w.next_handle;
        closed_handles = λ h. if suc w.next_handle == h then false else w.closed_handles h;
      },
    ),
  );
  close_handle =
      λ d w. record w { closed_handles = λ h. if d == h then true else w.closed_handles h };
}

abbrev tracked : Tracked files
tracked = record { fd_open = fd_is_open; handle_open = handle_is_open }

files-IsLawful : IsLawful files tracked
files-IsLawful = record {
  open_new = λ name w d e. ground arith;
  fd_open-open = λ name w d j e. ground arith;
  fd_open-open_fails = λ name w j e. ground arith;
  handle_open-open = λ name w h. ground arith;
  fd_open-close = λ d j w. ground arith;
  handle_open-close_fd = λ d h w. refl;
  fd_open-get_vmo = λ d j w. refl;
  get_vmo_new = λ d w e. ground arith;
  get_vmo_valid = λ d w e. ground arith;
  handle_open-get_vmo = λ d h w. ground arith;
  handle_open-close = λ h k w. ground arith;
  fd_open-close_handle = λ h j w. refl;
}

-- Descriptor 0 and handles 0 to 4 are open.
abbrev process : Process
process = record {
  next_fd = 1;
  next_handle = 4;
  closed_fds = λ j. false;
  closed_handles = λ h. false;
}

vmo_from_filename-Replaced_example :
    ((j : ℕ)
      → fd_is_open (vmo_from_filename files (97 ∷ []) 4 process).1.1 j ≡ fd_is_open process j)
    × Replaced files tracked 4
        (object_of files (97 ∷ []) process)
        (handle_is_open process)
        (vmo_from_filename files (97 ∷ []) 4 process)
vmo_from_filename-Replaced_example =
    vmo_from_filename-Replaced files tracked files-IsLawful (97 ∷ []) 4 process (λ e. refl)
