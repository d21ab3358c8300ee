-- ===== src/Vmo/Transfers.antt =====
-- What a transfer to a virtual memory object and back moves.
use mtl.Base.{
  ℕ, zero, suc, ◌+◌, ◌-◌, ◌≤◌, ◌≡◌, refl, sym, ◌∙◌, ap, true, false, List, [], ◌∷◌, ◌++◌,
  append-nil, length, length-append, length-drop, take, take_all, drop, ◌==◌, Bool-cases, inl, inr,
  arith,
}
use mtl.Magenta.{is_ok, is_negative}
use mtl.Vmo.{VmoCalls, resize, overwrite, replicate, vmo_from_container, container_from_vmo}

-- An object has as many bytes as it was created with. A write at its start that succeeds replaces as
-- many bytes as it says, and a read that succeeds gives bytes from the start.
pub record IsLawful {V : Type 0} (vmo : VmoCalls V) (contents : V → List ℕ) : Type 0 where
  pub length-create :
      (n : ℕ) → is_negative (vmo.create n).0 ≡ false → length (contents (vmo.create n).1) ≡ n
  pub contents-write :
      (bytes : List ℕ) (v : V)
      → is_negative (vmo.write bytes 0 v).0 ≡ false
      → contents (vmo.write bytes 0 v).1.1
        ≡ take (vmo.write bytes 0 v).1.0 bytes ++ drop (vmo.write bytes 0 v).1.0 (contents v)
  pub get_size_lem :
      (v : V) → is_ok (vmo.get_size v).0 ≡ true → (vmo.get_size v).1 ≡ length (contents v)
  pub read_lem :
      (n : ℕ) (v : V)
      → is_negative (vmo.read 0 n v).0 ≡ false
      → (vmo.read 0 n v).1 ≡ take (length (vmo.read 0 n v).1) (contents v)

length-nil : (xs : List ℕ) → length xs ≡ 0 → xs ≡ []
length-nil [] h = refl
length-nil (x ∷ xs) h = absurd (omega arith)

drop_past : (n : ℕ) (xs : List ℕ) → length xs ≤ n → drop n xs ≡ []
drop_past n xs h = length-nil (drop n xs) (omega (arith, length-drop n xs))

all_written :
    (n : ℕ) (bytes old : List ℕ)
    → n ≡ length bytes
    → length old ≡ length bytes
    → take n bytes ++ drop n old ≡ bytes
all_written n bytes old e h =
    ap (◌++◌ (take n bytes)) (drop_past n old (omega arith))
    ∙ append-nil (take n bytes)
    ∙ take_all n bytes (omega arith)

pub length-replicate : (n x : ℕ) → length (replicate n x) ≡ n
length-replicate zero x = omega arith
length-replicate (suc n) x = omega (arith, length-replicate n x)

length-take : (n : ℕ) (xs : List ℕ) → length (take n xs) + (n - length xs) ≡ n
length-take zero xs = omega arith
length-take (suc n) [] = omega arith
length-take (suc n) (x ∷ xs) = omega (arith, length-take n xs)

length-resize : (n : ℕ) (xs : List ℕ) → length (resize n xs) ≡ n
length-resize n xs = omega (
  arith,
  length-append (take n xs) (replicate (n - length xs) 0),
  length-replicate (n - length xs) 0,
  length-take n xs,
)

all_read :
    (n : ℕ) (bytes old container : List ℕ)
    → length bytes ≡ n
    → bytes ≡ take (length bytes) old
    → n ≡ length old
    → overwrite bytes (resize n container) ≡ old
all_read n bytes old container all e h =
    ap (◌++◌ bytes)
      (drop_past (length bytes) (resize n container) (omega (arith, length-resize n container)))
    ∙ append-nil bytes
    ∙ e
    ∙ take_all (length bytes) old (omega arith)

module _ {V : Type 0} (vmo : VmoCalls V) (contents : V → List ℕ)
    (lawful : IsLawful vmo contents) where
  -- If VmoFromString or VmoFromVector returns true, the object has exactly the bytes of the container.
  pub contents-vmo_from_container :
      (container : List ℕ)
      → (vmo_from_container vmo container).0 ≡ true
      → contents (vmo_from_container vmo container).1 ≡ container
  unfolding vmo_from_container
  contents-vmo_from_container container h =
      let v = (vmo.create (length container)).1 in
      let created : is_negative (vmo.create (length container)).0 ≡ false = ground arith in
      let size = lawful.length-create (length container) created in
      elim (Bool-cases (length container == 0)) [
        | inl e ↦
            let nothing : length container ≡ 0 = ground arith in
            rw (created, e)
              (length-nil (contents v) (omega arith) ∙ sym (length-nil container nothing))
        | inr some_bytes ↦
            let written : is_negative (vmo.write container 0 v).0 ≡ false = ground arith in
            let whole : (vmo.write container 0 v).1.0 ≡ length container = ground arith in
            let filled =
              lawful.contents-write container v written
              ∙ all_written (vmo.write container 0 v).1.0 container (contents v) whole size in
            ground arith
      ]

  -- If StringFromVmo or VectorFromVmo returns true, the container has exactly the bytes of the object.
  pub container_from_vmo-contents :
      (buffer : V) (container : List ℕ)
      → (container_from_vmo vmo buffer container).0 ≡ true
      → (container_from_vmo vmo buffer container).1 ≡ contents buffer
  unfolding container_from_vmo
  container_from_vmo-contents buffer container h =
      let n = (vmo.get_size buffer).1 in
      let sized : is_ok (vmo.get_size buffer).0 ≡ true = ground arith in
      let size = lawful.get_size_lem buffer sized in
      elim (Bool-cases (n == 0)) [
        | inl e ↦
            let none_there : length (contents buffer) ≡ 0 = ground arith in
            let none_got : length (resize n container) ≡ 0 =
              length-resize n container ∙ (ground arith) in
            let same : resize n container ≡ contents buffer =
              length-nil (resize n container) none_got
              ∙ sym (length-nil (contents buffer) none_there) in
            ground arith
        | inr some_bytes ↦
            let got : is_negative (vmo.read 0 n buffer).0 ≡ false = ground arith in
            let whole : length (vmo.read 0 n buffer).1 ≡ n = ground arith in
            let all_got : overwrite (vmo.read 0 n buffer).1 (resize n container) ≡ contents buffer =
              all_read n (vmo.read 0 n buffer).1 (contents buffer) container whole
                (lawful.read_lem n buffer got) size in
            ground arith
      ]

-- No call fails, and each moves all that it is asked to.
pub record IsReliable {V : Type 0} (vmo : VmoCalls V) (contents : V → List ℕ) : Type 0 where
  pub creates : (n : ℕ) → is_negative (vmo.create n).0 ≡ false
  pub writes :
      (bytes : List ℕ) (v : V)
      → length (contents v) ≡ length bytes
      → (is_negative (vmo.write bytes 0 v).0 ≡ false) × ((vmo.write bytes 0 v).1.0 ≡ length bytes)
  pub sizes : (v : V) → is_ok (vmo.get_size v).0 ≡ true
  pub reads :
      (n : ℕ) (v : V)
      → n ≡ length (contents v)
      → (is_negative (vmo.read 0 n v).0 ≡ false) × (length (vmo.read 0 n v).1 ≡ n)

module _ {V : Type 0} (vmo : VmoCalls V) (contents : V → List ℕ) (lawful : IsLawful vmo contents)
    (reliable : IsReliable vmo contents) where
  vmo_from_container-succeeds : (container : List ℕ) → (vmo_from_container vmo container).0 ≡ true
  unfolding vmo_from_container
  vmo_from_container-succeeds container =
      let created = reliable.creates (length container) in
      let (written, whole) =
        reliable.writes container (vmo.create (length container)).1
          (lawful.length-create (length container) created) in
      ground arith

  container_from_vmo-succeeds :
      (buffer : V) (container : List ℕ) → (container_from_vmo vmo buffer container).0 ≡ true
  unfolding container_from_vmo
  container_from_vmo-succeeds buffer container =
      let sized = reliable.sizes buffer in
      let (got, whole) =
        reliable.reads (vmo.get_size buffer).1 buffer (lawful.get_size_lem buffer sized) in
      ground arith

  -- On objects whose calls do not fail, a string or vector that is put into an object and got back into
  -- any container is the same again, and both calls return true.
  pub container_from_vmo-vmo_from_container :
      (container old : List ℕ)
      → ((vmo_from_container vmo container).0 ≡ true)
        × ((container_from_vmo vmo (vmo_from_container vmo container).1 old).0 ≡ true)
        × ((container_from_vmo vmo (vmo_from_container vmo container).1 old).1 ≡ container)
  container_from_vmo-vmo_from_container container old =
      let made = vmo_from_container-succeeds container in
      let buffer = (vmo_from_container vmo container).1 in
      let got = container_from_vmo-succeeds buffer old in
      (
        made,
        got,
        container_from_vmo-contents vmo contents lawful buffer old got
            ∙ contents-vmo_from_container vmo contents lawful container made,
      )
