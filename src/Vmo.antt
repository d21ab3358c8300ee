-- ===== src/Vmo.antt =====
-- vmo/vmo.cc: strings and vectors in virtual memory objects. The four pairs of functions of vmo/strings.h
-- and vmo/vector.h are two templates, on a container that is its bytes.
pub mod Transfers
pub mod File
pub mod SharedVmo
mod Tests
use mtl.Base.{
  ℕ, ◌+◌, ◌-◌, ◌≡◌, zero, suc, Bool, true, false, not, List, [], ◌∷◌, ◌++◌, length, take, drop,
  ◌==◌, if◌then◌else◌,
}
use mtl.Magenta.{Status, is_ok, is_negative}

-- mx::vmo: create gives a handle, which is null where it fails; write and read give the status and
-- how many bytes they moved, or the bytes.
pub record VmoCalls (V : Type 0) : Type 0 where
  pub create : ℕ → Status × V
  pub write : List ℕ → ℕ → V → Status × (ℕ × V)
  pub get_size : V → Status × ℕ
  pub read : ℕ → ℕ → V → Status × List ℕ

abbrev pub replicate : ℕ → ℕ → List ℕ
replicate zero x = []
replicate (suc n) x = x ∷ replicate n x

-- std::string::resize and std::vector::resize
abbrev pub resize : ℕ → List ℕ → List ℕ
resize n container = take n container ++ replicate (n - length container) 0

-- The container after bytes are read to its start.
abbrev pub overwrite : List ℕ → List ℕ → List ℕ
overwrite bytes container = bytes ++ drop (length bytes) container

module _ {V : Type 0} (vmo : VmoCalls V) where
  -- VmoFromContainer: the Boolean, and what `handle_ptr` points to.
  unfoldable pub vmo_from_container : List ℕ → Bool × V
  vmo_from_container container =
      let (status, handle) = vmo.create (length container) in
      let (written, (actual, handle')) = vmo.write container 0 handle in
      if is_negative status
      then (false, handle)
      else if length container == 0
      then (true, handle)
      else if is_negative written
      then (false, handle')
      else if not (actual == length container)
      then (false, handle')
      else (true, handle')

  -- ContainerFromVmo: the Boolean, and what `container_ptr` points to.
  unfoldable pub container_from_vmo : V → List ℕ → Bool × List ℕ
  container_from_vmo buffer container =
      let (status, num_bytes) = vmo.get_size buffer in
      let resized = resize num_bytes container in
      let (got, bytes) = vmo.read 0 num_bytes buffer in
      if not (is_ok status)
      then (false, container)
      else if num_bytes == 0
      then (true, resized)
      else if is_negative got
      then (false, overwrite bytes resized)
      else if not (length bytes == num_bytes)
      then (false, overwrite bytes resized)
      else (true, overwrite bytes resized)
