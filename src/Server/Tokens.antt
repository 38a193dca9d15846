-- ===== src/Server/Tokens.antt =====
-- server.rs: `link_tokens`. A `HashMap` gives its keys in no order that one can rely on, so that the
-- list is one only up to the order of its items.
use h2l.Base.{
  ℕ, ◌+◌, ◌==◌, if◌then◌else◌, ◌≡◌, refl, List, [], ◌∷◌, false, arith, Bool-cases, ==→eq, inl, inr,
  sym, ap, ◌∙◌,
}
use mathlib.Core.Quot
use mathlib.Core.Quot.{Quot, Quot-set}
use native.Mathlib.Nat.{ℕ_set}
use h2l.Crates.Bitflags.{Bitflags}
use h2l.Crates.Channel.{Channel}
use h2l.Transaction.{Token, Link, Transaction}
use h2l.Server.Table.{Links, get, insert, remove}
use h2l.Server.Forward.{Server}
use h2l.Server.View.{is_some, get-remove}

-- How often a token stands in a list.
abbrev pub times : Token → List Token → ℕ
times token [] = 0
times token (key ∷ rest) = (if key == token then 1 else 0) + times token rest

-- The same tokens, each as often.
abbrev Reordered : List Token → List Token → Type 0
Reordered xs ys = (token : Token) → times token xs ≡ times token ys

abbrev pub Tokens : Type 0
Tokens = Quot Reordered

unfoldable pub listed : Token → Tokens → ℕ
listed token = Quot.lift ℕ_set (times token) (λ xs ys h. h token)

abbrev pub keys : {Sender : Type 0} → Links Sender → List Token
keys [] = []
keys ((key, link) ∷ rest) = key ∷ keys rest

module _ {Sender : Type 0} (bits : Bitflags) (channel : Channel Sender (Transaction Sender)) where
  unfoldable pub link_tokens : Server bits channel → Tokens
  link_tokens s = Quot.mk (keys s.links)

module _ {Sender : Type 0} where
  -- Each token of the table is one key.
  abbrev pub IsTable : Links Sender → Type 0
  IsTable links =
      (token : Token) → times token (keys links) ≡ (if is_some (get links token) then 1 else 0)

  times-remove_same :
      (links : Links Sender) (token : Token) → times token (keys (remove links token)) ≡ 0
  times-remove_same [] token = refl
  times-remove_same ((key, link) ∷ rest) token = ground (arith, times-remove_same rest token)

  times-remove_other :
      (links : Links Sender) (token other : Token)
      → (token == other) ≡ false
      → times other (keys (remove links token)) ≡ times other (keys links)
  times-remove_other [] token other h = refl
  times-remove_other ((key, link) ∷ rest) token other h =
      ground (arith, times-remove_other rest token other h)

  pub remove-IsTable :
      (links : Links Sender) (token : Token) → IsTable links → IsTable (remove links token)
  remove-IsTable links token h other = elim (Bool-cases (token == other)) [
    | inl e ↦
        let same : token ≡ other = ==→eq token other e in
        rw (get-remove links token other, e)
          (ap (λ (k : Token). times k (keys (remove links token))) (sym same)
            ∙ times-remove_same links token)
    | inr e ↦
        rw (get-remove links token other, e) (times-remove_other links token other e ∙ h other)
  ]

  pub insert-IsTable :
      (links : Links Sender) (token : Token) (link : Link Sender)
      → IsTable links
      → IsTable (insert links token link)
  insert-IsTable links token link h other = elim (Bool-cases (token == other)) [
    | inl e ↦
        rw e (ground (arith, remove-IsTable links token h other, get-remove links token other))
    | inr e ↦ let v = remove-IsTable links token h other in rw e (ground (arith, v))
  ]
