-- ===== src/Handles/Names.antt =====
-- The names of objects.
use mtl.Base.{
  length-take_bound, ℕ, suc, ◌-◌, ◌<◌, Bool, true, some, List, [], ◌∷◌, ◌++◌, ◌==◌, ◌≡◌, refl,
  if◌then◌else◌, take, length, arith,
}
use mtl.Magenta.{is_ok}
use mtl.Vmo.{replicate}
use mtl.Handles.{Kernel, string_of, get_object_name, set_object_name}

-- A name as a null-terminated string.
abbrev pub before_null : List ℕ → List ℕ
before_null [] = []
before_null (b ∷ bs) = let rest = before_null bs in if b == 0 then [] else b ∷ rest

string_of-padded :
    (n : ℕ) (name : List ℕ) → string_of (name ++ replicate (suc n) 0) ≡ some (before_null name)
unfolding string_of
string_of-padded n [] = refl
string_of-padded n (b ∷ bs) = ground (arith, string_of-padded n bs)

module _ {W : Type 0} (kernel : Kernel W) where
  -- On the handles that a property can be set on, the kernel stores the name, cut so that a null byte
  -- fits behind it, and gives it padded with null bytes.
  pub record IsLawful (accepts : W → ℕ → Bool) (stored : W → ℕ → List ℕ) : Type 0 where
    pub set_name_lem :
        (h : ℕ) (name : List ℕ) (w : W)
        → accepts w h ≡ true
        → (is_ok (kernel.object_set_name h name w).0 ≡ true)
          × (accepts (kernel.object_set_name h name w).1 h ≡ true)
          × (stored (kernel.object_set_name h name w).1 h ≡ take (kernel.max_name_len - 1) name)
    pub get_name_lem :
        (h : ℕ) (w : W)
        → accepts w h ≡ true
        → (is_ok (kernel.object_get_name h kernel.max_name_len w).0 ≡ true)
          × ((kernel.object_get_name h kernel.max_name_len w).1
              ≡ stored w h ++ replicate (kernel.max_name_len - length (stored w h)) 0)
    pub max_range : 0 < kernel.max_name_len

  -- The name that SetObjectName set on an object that takes names is the one that GetObjectName gives,
  -- up to its first null byte and to the longest name, and without a read behind the buffer.
  pub get_object_name-set_object_name :
      (accepts : W → ℕ → Bool) (stored : W → ℕ → List ℕ) (lawful : IsLawful accepts stored) (h : ℕ)
      (name : List ℕ) (w : W)
      → accepts w h ≡ true
      → (is_ok (set_object_name kernel h name w).0 ≡ true)
        × (get_object_name kernel h (set_object_name kernel h name w).1
            ≡ some (before_null (take (kernel.max_name_len - 1) name)))
  unfolding get_object_name set_object_name
  get_object_name-set_object_name accepts stored lawful h name w valid =
      let (done, still, same) = lawful.set_name_lem h name w valid in
      let w' = (kernel.object_set_name h name w).1 in
      let (got, bytes) = lawful.get_name_lem h w' still in
      let cut = take (kernel.max_name_len - 1) name in
      let room : kernel.max_name_len - length cut ≡ suc (kernel.max_name_len - 1 - length cut) =
        omega (arith, length-take_bound (kernel.max_name_len - 1) name, lawful.max_range) in
      (done, rw (got, bytes, same, room) (string_of-padded _ cut))
