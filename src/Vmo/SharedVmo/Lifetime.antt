-- ===== src/Vmo/SharedVmo/Lifetime.antt =====
-- The mapping of a SharedVmo, from the first call of Map to the destruction.
use mtl.Base.{
  Bool-cases, ℕ, zero, suc, true, false, not, ◌&&◌, Option, none, some, List, ◌==◌, ◌≡◌, refl,
  if◌then◌else◌, Outcome, returns, ◌>>=◌, Ensures, Ensures-bind, arith, Option-cases, inl, inr,
}
use mtl.Magenta.{is_ok, handle_invalid}
use mtl.Vmo.{replicate}
use mtl.Vmo.SharedVmo.{VmarCalls, SharedVmo, shared_vmo, map, maps, destroy_shared_vmo}

module _ {W : Type 0} (vmar : VmarCalls W) where
  -- A mapping that was made is at a new address that is not null, and can be removed with its size; a
  -- call that fails writes no address and maps nothing.
  pub record IsLawful (mapped : W → ℕ → Option ℕ) : Type 0 where
    pub map_vmo_new :
        (vmo size flags a : ℕ) (w : W)
        → (vmar.map_vmo vmo size flags w).1.0 ≡ some a
        → ((a == 0) ≡ false) × (mapped w a ≡ none)
    pub mapped-map_vmo :
        (vmo size flags b : ℕ) (w : W)
        → mapped (vmar.map_vmo vmo size flags w).1.1 b ≡ (elim (vmar.map_vmo vmo size flags w).1.0 [
          | none ↦ mapped w b
          | some a ↦ if a == b then some size else mapped w b
        ])
    pub unmap_status :
        (a size : ℕ) (w : W) → mapped w a ≡ some size → is_ok (vmar.unmap a size w).0 ≡ true
    pub mapped-unmap :
        (a size b : ℕ) (w : W)
        → mapped w a ≡ some size
        → mapped (vmar.unmap a size w).1 b ≡ (if a == b then none else mapped w b)
    pub mapped-close_handle : (h b : ℕ) (w : W) → mapped (vmar.close_handle h w) b ≡ mapped w b

  maps_nothing :
      (n : ℕ) (s : SharedVmo) (w : W)
      → map vmar s w ≡ (s.mapping, (s, w))
      → maps vmar n s w ≡ (replicate n s.mapping, (s, w))
  unfolding maps
  maps_nothing zero s w e = refl
  maps_nothing (suc n) s w e = rw (e, maps_nothing n s w e) refl

  map_again :
      (s : SharedVmo) (w : W)
      → map vmar (map vmar s w).1.0 (map vmar s w).1.1
        ≡ ((map vmar s w).1.0.mapping, ((map vmar s w).1.0, (map vmar s w).1.1))
  unfolding map
  map_again s w = ground arith

  map_result : (s : SharedVmo) (w : W) → (map vmar s w).0 ≡ (map vmar s w).1.0.mapping
  unfolding map
  map_result s w = ground arith

  -- Any number of calls of Map does what the first of them does, and each returns what it returns, also
  -- where it fails: nothing is mapped twice.
  pub maps-replicate :
      (n : ℕ) (s : SharedVmo) (w : W)
      → maps vmar (suc n) s w ≡ (replicate (suc n) (map vmar s w).0, (map vmar s w).1)
  unfolding maps
  maps-replicate n s w =
      rw (maps_nothing n (map vmar s w).1.0 (map vmar s w).1.1 (map_again s w), map_result s w) refl

  module _ (mapped : W → ℕ → Option ℕ) (lawful : IsLawful mapped) where
    -- What is mapped, beside what was mapped without the object.
    pub record Holds (before : ℕ → Option ℕ) (s : SharedVmo) (w : W) : Type 0 where
      pub unused : s.is_mapped_once ≡ false → s.mapping ≡ 0
      pub free : (s.mapping == 0) ≡ false → before s.mapping ≡ none
      pub mapped_now :
          (b : ℕ)
          → mapped w b
            ≡ (if not (s.mapping == 0) && s.mapping == b then some s.vmo_size else before b)

    map-Holds :
        (before : ℕ → Option ℕ) (s : SharedVmo) (w : W)
        → Holds before s w
        → Holds before (map vmar s w).1.0 (map vmar s w).1.1
    unfolding map
    map-Holds before s w h =
        let r = vmar.map_vmo s.vmo s.vmo_size s.map_flags w in
        elim (Option-cases r.1.0) [
          | inl none_made ↦ record {
            unused = λ e. ground (arith, h.unused);
            free = λ e. ground (arith, h.free, h.unused, none_made);
            mapped_now = λ b. ground (
              arith,
              h.mapped_now b,
              h.unused,
              none_made,
              lawful.mapped-map_vmo s.vmo s.vmo_size s.map_flags b w,
            );
          }
          | inr (a, made) ↦ record {
            unused = λ e. ground (arith, h.unused);
            free = λ e. ground (
              arith,
              h.free,
              h.unused,
              made,
              h.mapped_now a,
              lawful.map_vmo_new s.vmo s.vmo_size s.map_flags a w made,
            );
            mapped_now = λ b. ground (
              arith,
              h.mapped_now b,
              h.unused,
              made,
              lawful.map_vmo_new s.vmo s.vmo_size s.map_flags a w made,
              lawful.mapped-map_vmo s.vmo s.vmo_size s.map_flags b w,
            );
          }
        ]

    maps-Holds :
        (n : ℕ) (before : ℕ → Option ℕ) (s : SharedVmo) (w : W)
        → Holds before s w
        → Holds before (maps vmar n s w).1.0 (maps vmar n s w).1.1
    unfolding maps
    maps-Holds zero before s w h = h
    maps-Holds (suc n) before s w h =
        maps-Holds n before (map vmar s w).1.0 (map vmar s w).1.1 (map-Holds before s w h)

    destroy-Holds :
        (before : ℕ → Option ℕ) (s : SharedVmo) (w : W)
        → Holds before s w
        → Ensures (λ t. (b : ℕ) → mapped t b ≡ before b) (destroy_shared_vmo vmar s w)
    unfolding destroy_shared_vmo
    destroy-Holds before s w h = elim (Bool-cases (s.mapping == 0)) [
      | inl unmapped ↦
          rw unmapped (λ b. ground (arith, h.mapped_now b, lawful.mapped-close_handle s.vmo b w))
      | inr there ↦
          let now : mapped w s.mapping ≡ some s.vmo_size = ground (arith, h.mapped_now s.mapping) in
          rw (there, lawful.unmap_status s.mapping s.vmo_size w now)
            (λ b. ground (
              arith,
              h.mapped_now b,
              h.free,
              lawful.mapped-unmap s.mapping s.vmo_size b w now,
              lawful.mapped-close_handle s.vmo b (vmar.unmap s.mapping s.vmo_size w).1,
            ))
    ]

    -- The life of an object: what its calls of Map returned, and the state at the end.
    abbrev pub lifetime : ℕ → ℕ → ℕ → W → Outcome (List ℕ × W)
    lifetime n vmo flags w = do
      s ← shared_vmo vmar vmo flags w
      let (results, (s', w')) = maps vmar n s w
      t ← destroy_shared_vmo vmar s' w'
      returns (results, t)

    -- An object on a valid handle whose size is known, on which Map is called any number of times, and
    -- that is then destroyed, fails no check and leaves mapped what was mapped before it.
    pub lifetime-mapped :
        (n vmo flags : ℕ) (w : W)
        → (vmo == handle_invalid) ≡ false
        → is_ok (vmar.get_size vmo w).0 ≡ true
        → Ensures (λ r. (b : ℕ) → mapped r.1 b ≡ mapped w b) (lifetime n vmo flags w)
    unfolding shared_vmo
    lifetime-mapped n vmo flags w valid sized =
        let s : SharedVmo = record {
          vmo = vmo;
          map_flags = flags;
          vmo_size = (vmar.get_size vmo w).1;
          is_mapped_once = false;
          mapping = 0;
        } in
        let h =
          maps-Holds n (mapped w) s w
            record { unused = λ e. refl; free = λ e. ground arith; mapped_now = λ b. refl } in
        rw (valid, sized)
          (Ensures-bind (λ t. (b : ℕ) → mapped t b ≡ mapped w b) _
            (destroy_shared_vmo vmar (maps vmar n s w).1.0 (maps vmar n s w).1.1) _
            (destroy-Holds (mapped w) _ _ h) (λ t e. e))
