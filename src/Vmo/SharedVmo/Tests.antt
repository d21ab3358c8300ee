-- ===== src/Vmo/SharedVmo/Tests.antt =====
-- A kernel that maps each object once, behind the last mapping; flags above 9 are refused.
use mtl.Base.{
  false, ℕ, suc, ◌≡◌, refl, Option, none, some, [], ◌∷◌, ◌==◌, ltb, if◌then◌else◌, Ensures, arith,
}
use mtl.Magenta.{ok, failed, bad_state}
use mtl.Vmo.{replicate}
use mtl.Vmo.SharedVmo.{VmarCalls, SharedVmo, map, maps}
use mtl.Vmo.SharedVmo.Lifetime.{IsLawful, maps-replicate, lifetime, lifetime-mapped}

-- Mappings are below `next`, behind which nothing counts.
record AddressSpace : Type 0 where
  next : ℕ
  mappings : ℕ → Option ℕ

abbrev mapped : AddressSpace → ℕ → Option ℕ
mapped w a = if ltb a (suc w.next) then w.mappings a else none

abbrev vmar : VmarCalls AddressSpace
vmar = record {
  get_size = λ vmo w. (ok, 5);
  map_vmo = λ vmo size flags w. if ltb 9 flags then (failed bad_state, (none, w)) else (
    ok,
    (
      some (suc w.next),
      record {
        next = suc w.next;
        mappings = λ b. if suc w.next == b then some size else w.mappings b;
      },
    ),
  );
  unmap = λ a size w. (ok, record w { mappings = λ b. if a == b then none else w.mappings b });
  close_handle = λ h w. w;
}

vmar-IsLawful : IsLawful vmar mapped
vmar-IsLawful = record {
  map_vmo_new = λ vmo size flags a w e. ground arith;
  mapped-map_vmo = λ vmo size flags b w. ground arith;
  unmap_status = λ a size w e. refl;
  mapped-unmap = λ a size b w e. ground arith;
  mapped-close_handle = λ h b w. refl;
}

abbrev address_space : AddressSpace
address_space = record { next = 0; mappings = λ a. none }

abbrev readable : SharedVmo
readable = record { vmo = 30; map_flags = 1; vmo_size = 5; is_mapped_once = false; mapping = 0 }

maps-replicate_example :
    maps vmar 3 readable address_space
    ≡ (replicate 3 (map vmar readable address_space).0, (map vmar readable address_space).1)
maps-replicate_example = maps-replicate vmar 2 readable address_space

lifetime-mapped_example :
    Ensures
      (λ r. (b : ℕ) → mapped r.1 b ≡ mapped address_space b)
      (lifetime vmar mapped vmar-IsLawful 3 30 1 address_space)
lifetime-mapped_example = lifetime-mapped vmar mapped vmar-IsLawful 3 30 1 address_space refl refl

-- SharedVmos, Unmappable: without flags, Map gives null.
unmappable : (maps vmar 2 (record readable { map_flags = 0 }) address_space).0 ≡ 0 ∷ 0 ∷ []
unfolding maps map
unmappable = refl

-- SharedVmos, Mapped
two_maps : (maps vmar 2 readable address_space).0 ≡ 1 ∷ 1 ∷ []
unfolding maps map
two_maps = refl
