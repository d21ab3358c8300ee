-- ===== src/Vmo/File.antt =====
-- vmo/file.cc. A ftl::UniqueFD closes its descriptor where it goes out of scope, and mx::vmo::reset
-- closes the handle that it replaces.
pub mod Descriptors
mod Tests
use mtl.Base.{ℕ, Bool, true, false, Option, none, some, List, if◌then◌else◌, ◌==◌}
use mtl.Magenta.{Status, is_ok, handle_invalid}

-- open, which gives no descriptor where it returns -1; close; mxio_get_vmo; mx_handle_close.
pub record FileCalls (W : Type 0) : Type 0 where
  pub open_file : List ℕ → W → Option ℕ × W
  pub close_fd : ℕ → W → W
  pub get_vmo : ℕ → W → Status × (ℕ × W)
  pub close_handle : ℕ → W → W

module _ {W : Type 0} (files : FileCalls W) where
  abbrev pub reset : ℕ → W → W
  reset handle w = if handle == handle_invalid then w else files.close_handle handle w

  -- The Boolean, what `handle_ptr` holds, and the state once `fd` is closed.
  unfoldable pub vmo_from_fd : ℕ → ℕ → W → Bool × (ℕ × W)
  vmo_from_fd fd handle_ptr w =
      let (status, (result, w')) = files.get_vmo fd w in
      if is_ok status
      then (true, (result, files.close_fd fd (reset handle_ptr w')))
      else (false, (handle_ptr, files.close_fd fd w'))

  unfoldable pub vmo_from_filename : List ℕ → ℕ → W → Bool × (ℕ × W)
  vmo_from_filename filename handle_ptr w =
      let (fd, w') = files.open_file filename w in
      elim fd [ none ↦ (false, (handle_ptr, w')) | some d ↦ vmo_from_fd d handle_ptr w' ]
