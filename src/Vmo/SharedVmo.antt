-- ===== src/Vmo/SharedVmo.antt =====
-- vmo/shared_vmo.h and vmo/shared_vmo.cc. std::call_once makes the calls of Map by several threads a
-- sequence, in which the first one maps, and a call that finds it done reads `mapping_` behind it.
pub mod Lifetime
mod Tests
use mtl.Base.{
  ℕ, zero, suc, Bool, true, false, not, ◌&&◌, Option, none, some, List, [], ◌∷◌, ◌==◌,
  if◌then◌else◌, Outcome, returns, ◌>>=◌, ◌>>◌, check,
}
use mtl.Magenta.{Status, is_ok, handle_invalid}

-- mx::vmo::get_size; mx::vmar::map on the root, at offset 0, with the address that it writes, if any;
-- mx::vmar::unmap; and the close of a handle.
pub record VmarCalls (W : Type 0) : Type 0 where
  pub get_size : ℕ → W → Status × ℕ
  pub map_vmo : ℕ → ℕ → ℕ → W → Status × (Option ℕ × W)
  pub unmap : ℕ → ℕ → W → Status × W
  pub close_handle : ℕ → W → W

-- `is_mapped_once` is the state of `mapping_once_flag_`.
pub record SharedVmo : Type 0 where
  pub vmo : ℕ
  pub map_flags : ℕ
  pub vmo_size : ℕ
  pub is_mapped_once : Bool
  pub mapping : ℕ

abbrev pub written : Option ℕ → ℕ → ℕ
written none mapping = mapping
written (some a) mapping = a

module _ {W : Type 0} (vmar : VmarCalls W) where
  unfoldable pub shared_vmo : ℕ → ℕ → W → Outcome SharedVmo
  shared_vmo vmo map_flags w = do
    check (not (vmo == handle_invalid))
    let (status, size) = vmar.get_size vmo w
    check (is_ok status)
    returns (record {
      vmo = vmo;
      map_flags = map_flags;
      vmo_size = size;
      is_mapped_once = false;
      mapping = 0;
    })

  -- The address, and the object and the state behind the call.
  unfoldable pub map : SharedVmo → W → ℕ × (SharedVmo × W)
  map s w =
      let (status, (address, w')) = vmar.map_vmo s.vmo s.vmo_size s.map_flags w in
      let s' = record s { is_mapped_once = true; mapping = written address s.mapping } in
      if not (s.vmo == handle_invalid) && not (s.map_flags == 0) && not s.is_mapped_once
      then (s'.mapping, (s', w'))
      else (s.mapping, (s, w))

  -- ~SharedVmo, and that of its `vmo_`.
  unfoldable pub destroy_shared_vmo : SharedVmo → W → Outcome W
  destroy_shared_vmo s w = do
    w' ← if s.mapping == 0 then returns w else (do
      let (status, w') = vmar.unmap s.mapping s.vmo_size w
      check (is_ok status)
      returns w')
    returns (vmar.close_handle s.vmo w')

  -- `n` calls of Map, with what they return.
  unfoldable pub maps : ℕ → SharedVmo → W → List ℕ × (SharedVmo × W)
  maps zero s w = ([], (s, w))
  maps (suc n) s w = let (a, (s', w')) = map s w in let (rest, t) = maps n s' w' in (a ∷ rest, t)
