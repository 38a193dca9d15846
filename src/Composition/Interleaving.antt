-- ===== src/Composition/Interleaving.antt =====
-- Two lists of transactions that come together into one, in any order.
use h2l.Base.{ℕ, ◌≡◌, refl, ap, List, [], ◌∷◌, ◌++◌}
use h2l.Frame.Any.{Frame}
use h2l.Transaction.{Token, Transaction, link_changed}
use h2l.Link.Tasks.{in_frames}

-- Each list keeps its order.
pub data Interleaves {ℓ} {A : Type ℓ} : List A → List A → List A → Type ℓ where
  both_end : Interleaves [] [] []
  from_left : (x : A) {xs ys l : List A} → Interleaves xs ys l → Interleaves (x ∷ xs) ys (x ∷ l)
  from_right : (y : A) {xs ys l : List A} → Interleaves xs ys l → Interleaves xs (y ∷ ys) (y ∷ l)

module _ {ℓ} {A : Type ℓ} where
  Interleaves-nil : {xs ys l : List A} → Interleaves xs ys l → ys ≡ [] → l ≡ xs
  Interleaves-nil both_end e = refl
  Interleaves-nil (from_left x i) e = ap (λ k. x ∷ k) (Interleaves-nil i e)
  Interleaves-nil (from_right y i) e = cc e

  -- A list of one comes somewhere into the other.
  pub Interleaves-insert :
      {xs ys l : List A} (y : A)
      → Interleaves xs ys l
      → ys ≡ y ∷ []
      → (before : List A) × (behind : List A) × (l ≡ before ++ (y ∷ behind))
        × (before ++ behind ≡ xs)
  Interleaves-insert y both_end e = cc e
  Interleaves-insert y (from_left x i) e =
      let (before, behind, p, q) = Interleaves-insert y i e in
      (x ∷ before, behind, ap (λ k. x ∷ k) p, ap (λ k. x ∷ k) q)
  Interleaves-insert {xs} y (from_right z i) e = ([], xs, cc (e, Interleaves-nil i (cc e)), refl)

module _ {Sender : Type 0} where
  -- The flags of the reports among these.
  abbrev pub reports : List (Transaction Sender) → List ℕ
  reports [] = []
  reports (link_changed flags token ∷ rest) = flags ∷ reports rest
  reports (_ ∷ rest) = reports rest

module _ (Sender : Type 0) (token : Token) where
  pub reports-in_frames :
      (fs : List Frame) (last : List (Transaction Sender))
      → reports (in_frames token fs ++ last) ≡ reports last
  reports-in_frames [] last = refl
  reports-in_frames (f ∷ fs) last = reports-in_frames fs last
