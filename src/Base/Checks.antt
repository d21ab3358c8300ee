-- ===== src/Base/Checks.antt =====
-- Code that may stop the process at a failed FTL_CHECK or FTL_DCHECK.
use mathlib.Core.Path.{◌≡◌, refl}
use mathlib.Core.Bool.{Bool, true, false}

-- `aborts` is a check that failed: the rest of the code does not run.
pub data Outcome {ℓ} (A : Type ℓ) : Type ℓ where
  returns : A → Outcome A
  aborts : Outcome A

infixl 5 ◌>>=◌ ◌>>◌
abbrev pub ◌>>=◌ {ℓ κ} : {A : Type ℓ} {B : Type κ} → Outcome A → (A → Outcome B) → Outcome B
returns a >>= f = f a
aborts >>= f = aborts

abbrev pub ◌>>◌ {ℓ} : {B : Type ℓ} → Outcome (Unit {0}) → Outcome B → Outcome B
m >> k = m >>= λ _. k

-- FTL_CHECK and FTL_DCHECK.
abbrev pub check : Bool → Outcome (Unit {0})
check true = returns tt
check false = aborts

-- The code runs to its end, and the result satisfies `P`.
abbrev pub Ensures {ℓ} : {A : Type ℓ} → (A → Type 0) → Outcome A → Type 0
Ensures P (returns a) = P a
Ensures P aborts = ⊥

pub Ensures-bind {ℓ κ} :
    {A : Type ℓ} {B : Type κ} (P : A → Type 0) (Q : B → Type 0) (m : Outcome A) (f : A → Outcome B)
    → Ensures P m
    → ((a : A) → P a → Ensures Q (f a))
    → Ensures Q (m >>= f)
Ensures-bind P Q (returns a) f h k = k a h
Ensures-bind P Q aborts f h k = absurd h

pub Ensures-mono {ℓ} :
    {A : Type ℓ} (P Q : A → Type 0) (m : Outcome A)
    → Ensures P m
    → ((a : A) → P a → Q a)
    → Ensures Q m
Ensures-mono P Q (returns a) h k = k a h
Ensures-mono P Q aborts h k = absurd h

-- The rest of the code may also use what the first part returns.
pub Ensures-bind_eq {ℓ κ} :
    {A : Type ℓ} {B : Type κ} (P : A → Type 0) (Q : B → Type 0) (m : Outcome A) (f : A → Outcome B)
    → Ensures P m
    → ((a : A) → m ≡ returns a → P a → Ensures Q (f a))
    → Ensures Q (m >>= f)
Ensures-bind_eq P Q (returns a) f h k = k a refl h
Ensures-bind_eq P Q aborts f h k = absurd h

pub Ensures-check {ℓ} :
    {A : Type ℓ} (P : A → Type 0) (b : Bool) (m : Outcome A)
    → b ≡ true
    → Ensures P m
    → Ensures P (check b >> m)
Ensures-check P b m e h = rw e h

pub Ensures-result {ℓ} :
    {A : Type ℓ} (P : A → Type 0) (m : Outcome A) → Ensures P m → (a : A) → m ≡ returns a → P a
Ensures-result P m h a e = rw e at h

pub Ensures-both {ℓ} :
    {A : Type ℓ} (P Q R : A → Type 0) (m : Outcome A)
    → Ensures P m
    → Ensures Q m
    → ((a : A) → P a → Q a → R a)
    → Ensures R m
Ensures-both P Q R (returns a) h k f = f a h k
Ensures-both P Q R aborts h k f = absurd h
