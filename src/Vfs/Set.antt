-- ===== src/Vfs/Set.antt =====
-- The set of a dispatcher's handlers.
use mtl.Base.{has, IsDistinct, ℕ, ◌≡◌, refl, false, not, List, [], ◌∷◌, ◌==◌, ◌||◌, ◌&&◌, arith}
use mtl.Vfs.{insert, remove}

pub has-insert : (p q : ℕ) (ps : List ℕ) → has q (insert p ps) ≡ (p == q || has q ps)
unfolding insert
has-insert p q [] = refl
has-insert p q (r ∷ ps) = ground (arith, has-insert p q ps)

pub has-remove : (p q : ℕ) (ps : List ℕ) → has q (remove p ps) ≡ (not (p == q) && has q ps)
unfolding remove
has-remove p q [] = ground arith
has-remove p q (r ∷ ps) = ground (arith, has-remove p q ps)

pub insert-IsDistinct :
    (p : ℕ) (ps : List ℕ) → has p ps ≡ false → IsDistinct ps → IsDistinct (insert p ps)
unfolding insert
insert-IsDistinct p [] new d = (refl, tt)
insert-IsDistinct p (r ∷ ps) new (alone, d) =
    let rest = insert-IsDistinct p ps (ground (arith, new)) d in
    let alone' : has r (insert p ps) ≡ false = ground (arith, has-insert p r ps, new) in
    ground (arith, new, alone', rest)

pub remove-IsDistinct : (p : ℕ) (ps : List ℕ) → IsDistinct ps → IsDistinct (remove p ps)
unfolding remove
remove-IsDistinct p [] d = tt
remove-IsDistinct p (r ∷ ps) (alone, d) =
    let rest = remove-IsDistinct p ps d in
    let alone' : has r (remove p ps) ≡ false = ground (arith, has-remove p r ps) in
    ground (arith, rest)
