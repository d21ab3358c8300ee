-- ===== src/Vmo/Tests.antt =====
-- Virtual memory objects that are their bytes.
use mtl.Base.{
  ℕ, zero, suc, ◌+◌, ◌≡◌, refl, sym, ap, true, List, [], ◌∷◌, ◌++◌, length, take, drop, take_all,
  ◌∙◌, arith,
}
use mtl.Magenta.{ok}
use mtl.Vmo.{VmoCalls, replicate, vmo_from_container, container_from_vmo}
use mtl.Vmo.Transfers.{
  IsLawful, IsReliable, length-replicate, contents-vmo_from_container, container_from_vmo-contents,
  container_from_vmo-vmo_from_container,
}

abbrev vmo : VmoCalls (List ℕ)
vmo = record {
  create = λ n. (ok, replicate n 0);
  write = λ bytes offset v.
      (ok, (length bytes, take offset v ++ (bytes ++ drop (offset + length bytes) v)));
  get_size = λ v. (ok, length v);
  read = λ offset n v. (ok, take n (drop offset v));
}

take_again : (n : ℕ) (xs : List ℕ) → take n xs ≡ take (length (take n xs)) xs
take_again zero xs = refl
take_again (suc n) [] = refl
take_again (suc n) (x ∷ xs) = ap (◌∷◌ x) (take_again n xs)

vmo-IsLawful : IsLawful vmo (λ v. v)
vmo-IsLawful = record {
  length-create = λ n e. length-replicate n 0;
  contents-write = λ bytes v e.
      ap (◌++◌ bytes) (ap (λ n. drop n v) (omega arith))
      ∙ ap (λ l. l ++ drop (length bytes) v) (sym (take_all (length bytes) bytes (omega arith)));
  get_size_lem = λ v e. refl;
  read_lem = λ n v e. take_again n v;
}

vmo-IsReliable : IsReliable vmo (λ v. v)
vmo-IsReliable = record {
  creates = λ n. refl;
  writes = λ bytes v e. (refl, refl);
  sizes = λ v. refl;
  reads = λ n v e. (refl, ap length (take_all n v (omega arith)) ∙ sym e);
}

contents-vmo_from_container_example : (vmo_from_container vmo (104 ∷ 105 ∷ [])).1 ≡ 104 ∷ 105 ∷ []
unfolding vmo_from_container
contents-vmo_from_container_example =
    contents-vmo_from_container vmo (λ v. v) vmo-IsLawful (104 ∷ 105 ∷ []) refl

container_from_vmo-contents_example :
    (container_from_vmo vmo (104 ∷ 105 ∷ []) (7 ∷ [])).1 ≡ 104 ∷ 105 ∷ []
unfolding container_from_vmo
container_from_vmo-contents_example =
    container_from_vmo-contents vmo (λ v. v) vmo-IsLawful (104 ∷ 105 ∷ []) (7 ∷ []) refl

container_from_vmo-vmo_from_container_example :
    ((vmo_from_container vmo (104 ∷ [])).0 ≡ true)
    × ((container_from_vmo vmo (vmo_from_container vmo (104 ∷ [])).1 (7 ∷ 8 ∷ [])).0 ≡ true)
    × ((container_from_vmo vmo (vmo_from_container vmo (104 ∷ [])).1 (7 ∷ 8 ∷ [])).1 ≡ 104 ∷ [])
container_from_vmo-vmo_from_container_example =
    container_from_vmo-vmo_from_container vmo (λ v. v) vmo-IsLawful vmo-IsReliable (104 ∷ [])
      (7 ∷ 8 ∷ [])
