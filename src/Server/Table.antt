-- ===== src/Server/Table.antt =====
-- server.rs, the field `links`: a map from tokens to links, as a list of pairs.
use h2l.Base.{◌==◌, if◌then◌else◌, ◌≡◌, ◌≢◌, refl, Option, none, some, List, [], ◌∷◌, arith}
use h2l.Transaction.{Token, Link}

abbrev pub Links : Type 0 → Type 0
Links Sender = List (Token × Link Sender)

module _ {Sender : Type 0} where
  abbrev pub get : Links Sender → Token → Option (Link Sender)
  get [] token = none
  get ((key, link) ∷ rest) token = if key == token then some link else get rest token

  abbrev pub remove : Links Sender → Token → Links Sender
  remove [] token = []
  remove ((key, link) ∷ rest) token =
      let others = remove rest token in if key == token then others else (key, link) ∷ others

  abbrev pub insert : Links Sender → Token → Link Sender → Links Sender
  insert links token link = (token, link) ∷ remove links token

  pub get-remove_same :
      (links : Links Sender) (token : Token) → get (remove links token) token ≡ none
  get-remove_same [] token = refl
  get-remove_same ((key, link) ∷ rest) token = ground (arith, get-remove_same rest token)

  pub get-remove_other :
      (links : Links Sender) (token other : Token)
      → token ≢ other
      → get (remove links token) other ≡ get links other
  get-remove_other [] token other h = refl
  get-remove_other ((key, link) ∷ rest) token other h =
      ground (arith, get-remove_other rest token other h)
