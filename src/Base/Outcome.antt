-- ===== src/Base/Outcome.antt =====
-- What a Rust call comes to: `Ok`, `Err`, or a panic (a failed assertion, an `unwrap`, a slice out
-- of range). A panic is no value that the caller can handle.
use mathlib.Core.Bool.{Bool, true, false}

pub data Outcome {ℓ κ} (E : Type ℓ) (A : Type κ) : Type (ℓ ⊔ κ) where
  panic : Outcome E A
  err : E → Outcome E A
  ok : A → Outcome E A

-- `Result::map`.
abbrev pub map {κ ℓ μ} :
    {A : Type κ} {E : Type ℓ} {B : Type μ} → (A → B) → Outcome E A → Outcome E B
map f panic = panic
map f (err e) = err e
map f (ok a) = ok (f a)

-- `assert!` and, in a build with debug assertions, `debug_assert!`.
abbrev pub assert {ℓ} : {E : Type ℓ} → Bool → Outcome E (Unit {0})
assert false = panic
assert true = ok tt

-- The `?` operator.
infixl 5 ◌>>=◌ ◌>>◌
abbrev pub ◌>>=◌ {κ ℓ μ} :
    {A : Type κ} {E : Type ℓ} {B : Type μ} → Outcome E A → (A → Outcome E B) → Outcome E B
panic >>= k = panic
err e >>= k = err e
ok a >>= k = k a

abbrev pub ◌>>◌ {κ ℓ} : {E : Type κ} {B : Type ℓ} → Outcome E (Unit {0}) → Outcome E B → Outcome E B
check >> rest = check >>= λ _. rest
