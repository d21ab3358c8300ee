-- ===== src/Base/Maps.antt =====
-- std::map and the heap of allocated objects: finite maps with numbers for keys. The entries are
-- private to this file, and the other modules have the laws of `find`.
use Prim.Native.Nat.{ℕ, ◌+◌, ◌≤◌, max}
use mathlib.Core.Path.{◌≡◌, refl}
use mathlib.Core.Bool.{Bool, true, false}
use mathlib.Core.Option.{Option, none, some}
use mathlib.Core.List.{List, [], ◌∷◌}
use native.Mathlib.Omega.{arith}
use mtl.Base.Tests.{◌==◌, if◌then◌else◌}

find_entry {ℓ} : {V : Type ℓ} → ℕ → List (ℕ × V) → Option V
find_entry k [] = none
find_entry k ((j, v) ∷ m) = if j == k then some v else find_entry k m

erase_entry {ℓ} : {V : Type ℓ} → ℕ → List (ℕ × V) → List (ℕ × V)
erase_entry k [] = []
erase_entry k ((j, v) ∷ m) = let rest = erase_entry k m in if j == k then rest else (j, v) ∷ rest

pub record Map {ℓ} (V : Type ℓ) : Type ℓ where
  entries : List (ℕ × V)

module _ {ℓ} {V : Type ℓ} where
  unfoldable pub empty : Map V
  empty = record { entries = [] }

  unfoldable pub find : ℕ → Map V → Option V
  unfolding empty find_entry
  find k m = find_entry k m.entries

  -- std::map::emplace keeps an entry that is there.
  unfoldable pub emplace : ℕ → V → Map V → Map V
  unfolding find
  emplace k v m = elim (find k m) [ none ↦ record { entries = (k, v) ∷ m.entries } | some _ ↦ m ]

  unfoldable pub erase : ℕ → Map V → Map V
  unfolding erase_entry
  erase k m = record { entries = erase_entry k m.entries }

  unfoldable pub is_empty : Map V → Bool
  is_empty m = elim m.entries [ [] ↦ true | _ ∷ _ ↦ false ]

  pub find-emplace :
      (k j : ℕ) (v : V) (m : Map V)
      → find k m ≡ none
      → find j (emplace k v m) ≡ (if k == j then some v else find j m)
  unfolding emplace
  find-emplace k j v m h = ground (arith, h)

  find_entry-erase_entry :
      (k j : ℕ) (m : List (ℕ × V))
      → find_entry j (erase_entry k m) ≡ (if k == j then none else find_entry j m)
  unfolding find_entry erase_entry
  find_entry-erase_entry k j [] = ground arith
  find_entry-erase_entry k j ((i, v) ∷ m) = ground (arith, find_entry-erase_entry k j m)

  pub find-erase : (k j : ℕ) (m : Map V) → find j (erase k m) ≡ (if k == j then none else find j m)
  unfolding find erase
  find-erase k j m = find_entry-erase_entry k j m.entries

  pub is_empty_of_find : (m : Map V) → ((k : ℕ) → find k m ≡ none) → is_empty m ≡ true
  unfolding find is_empty
  is_empty_of_find m h = go m.entries h
    where
      go :
          (l : List (ℕ × V))
          → ((k : ℕ) → find_entry k l ≡ none)
          → (elim l [ [] ↦ true | _ ∷ _ ↦ false ]) ≡ true
      go [] h = refl
      go ((j, v) ∷ l) h = ground (arith, h j)

pub find-empty {ℓ} : {V : Type ℓ} (k : ℕ) → find k (empty {V = V}) ≡ none
unfolding find
find-empty k = refl

-- One more than every key: an address that a map does not have.
fresh_entry {ℓ} : {V : Type ℓ} → List (ℕ × V) → ℕ
fresh_entry [] = 1
fresh_entry ((j, v) ∷ m) = max (j + 1) (fresh_entry m)

module _ {ℓ} {V : Type ℓ} where
  unfoldable pub fresh : Map V → ℕ
  unfolding fresh_entry
  fresh m = fresh_entry m.entries

  find_entry_above : (k : ℕ) (m : List (ℕ × V)) → fresh_entry m ≤ k → find_entry k m ≡ none
  unfolding find_entry fresh_entry
  find_entry_above k [] h = refl
  find_entry_above k ((j, v) ∷ m) h =
      let below : fresh_entry m ≤ k = omega arith in
      let other : (j == k) ≡ false = ground arith in rw other (find_entry_above k m below)

  pub find-above : (k : ℕ) (m : Map V) → fresh m ≤ k → find k m ≡ none
  unfolding find fresh
  find-above k m h = find_entry_above k m.entries h

  pub find-fresh : (m : Map V) → find (fresh m) m ≡ none
  unfolding find fresh
  find-fresh m = find_entry_above (fresh_entry m.entries) m.entries (omega arith)
