-- ===== src/Base/Exec.antt =====
-- An `async fn` on a connection: it is given the state of the connection and leaves a new one,
-- beside a value, an error or a panic. What was done before an error stays done.
use mathlib.Core.Path.{◌≡◌, ap}
use h2l.Base.Outcome.{Outcome, ok, err, panic}

abbrev pub Exec {ℓ κ μ} : Type ℓ → Type κ → Type μ → Type (ℓ ⊔ κ ⊔ μ)
Exec S E A = S → Outcome E A × S

module _ {ℓ κ μ} {S : Type ℓ} {E : Type κ} {A : Type μ} where
  abbrev pub pure : A → Exec S E A
  pure a s = (ok a, s)

  abbrev pub raise : E → Exec S E A
  raise e s = (err e, s)

  abbrev pub lift : Outcome E A → Exec S E A
  lift r s = (r, s)

module _ {ℓ κ μ ν} {S : Type ℓ} {E : Type κ} {A : Type μ} {B : Type ν} where
  abbrev pub continue : Outcome E A → (A → Exec S E B) → Exec S E B
  continue (ok a) f s = f a s
  continue (err e) f s = (err e, s)
  continue panic f s = (panic, s)

  infixl 5 ◌>>=◌
  abbrev pub ◌>>=◌ : Exec S E A → (A → Exec S E B) → Exec S E B
  ◌>>=◌ m f s = continue (m s).0 f (m s).1

  -- A step that succeeds hands its value and its state on; one that fails ends the run.
  pub >>=-ok :
      (m : Exec S E A) (f : A → Exec S E B) (s s' : S) (a : A)
      → m s ≡ (ok a, s')
      → (m >>= f) s ≡ f a s'
  >>=-ok m f s s' a e = ap (λ (p : Outcome E A × S). continue p.0 f p.1) e

  pub >>=-err :
      (m : Exec S E A) (f : A → Exec S E B) (s s' : S) (e : E)
      → m s ≡ (err e, s')
      → (m >>= f) s ≡ (err e, s')
  >>=-err m f s s' e q = ap (λ (p : Outcome E A × S). continue p.0 f p.1) q

  pub >>=-panic :
      (m : Exec S E A) (f : A → Exec S E B) (s s' : S)
      → m s ≡ (panic, s')
      → (m >>= f) s ≡ (panic, s')
  >>=-panic m f s s' q = ap (λ (p : Outcome E A × S). continue p.0 f p.1) q

module _ {ℓ κ μ} {S : Type ℓ} {E : Type κ} {B : Type μ} where
  infixl 5 ◌>>◌
  abbrev pub ◌>>◌ : Exec S E (Unit {0}) → Exec S E B → Exec S E B
  m >> k = m >>= λ _. k

-- `map_err`, and the conversion that `?` makes.
abbrev pub convert {ℓ κ μ} :
    {E : Type ℓ} {F : Type κ} {A : Type μ} → (E → F) → Outcome E A → Outcome F A
convert f (ok a) = ok a
convert f (err e) = err (f e)
convert f panic = panic

abbrev pub map_err {ℓ κ μ ν} :
    {S : Type ℓ} {E : Type κ} {F : Type μ} {A : Type ν} → (E → F) → Exec S E A → Exec S F A
map_err f m s = (convert f (m s).0, (m s).1)
