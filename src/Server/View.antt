-- ===== src/Server/View.antt =====
-- The server's table of links against what the application is told of them.
use h2l.Base.{
  ◌==◌, if◌then◌else◌, Bool-cases, ◌≡◌, refl, ap, sym, ◌∙◌, inl, inr, Option, none, some, List, [],
  ◌∷◌, ◌++◌, Bool, true, false, arith, ==→eq,
}
use h2l.Base.Outcome.{Outcome, ok, err, panic}
use h2l.Base.Exec.{Exec, continue, ◌>>◌}
use h2l.Crates.Bitflags.{Bitflags}
use h2l.Crates.Channel.{Channel}
use h2l.Transaction.{Token, Link, Transaction, link_changed}
use h2l.Server.Table.{Links, get, insert, remove, get-remove_same, get-remove_other}
use h2l.Server.Forward.{attached, detached, Server, send_to, send_found, unwrap, send, find_link}

abbrev pub is_some {ℓ} : {A : Type ℓ} → Option A → Bool
is_some none = false
is_some (some a) = true

module _ {Sender : Type 0} where
  -- What one call of the closure tells of a link: whether it is attached now.
  abbrev pub told : Token → Transaction Sender → Bool → Bool
  told token (link_changed flags other) before =
      if other == token
      then (if flags == attached then true else if flags == detached then false else before)
      else before
  told token _ before = before

  -- The links that are attached after these calls, by ATTACHED and DETACHED only.
  abbrev pub is_attached : Token → List (Transaction Sender) → Bool → Bool
  is_attached token [] before = before
  is_attached token (tr ∷ rest) before = is_attached token rest (told token tr before)

  pub is_attached-append :
      (token : Token) (calls : List (Transaction Sender)) (tr : Transaction Sender) (before : Bool)
      → is_attached token (calls ++ (tr ∷ [])) before
        ≡ told token tr (is_attached token calls before)
  is_attached-append token [] tr before = refl
  is_attached-append token (x ∷ calls) tr before =
      is_attached-append token calls tr (told token x before)

  pub get-insert :
      (links : Links Sender) (token other : Token) (link : Link Sender)
      → is_some (get (insert links token link) other)
        ≡ (if token == other then true else is_some (get links other))
  get-insert links token other link = ground (arith, get-remove_other links token other)

  pub get-remove :
      (links : Links Sender) (token other : Token)
      → is_some (get (remove links token) other)
        ≡ (if token == other then false else is_some (get links other))
  get-remove links token other = elim (Bool-cases (token == other)) [
    | inl e ↦ rw e (
        ap (λ (k : Token). is_some (get (remove links token) k)) (sym (==→eq token other e))
        ∙ ap is_some (get-remove_same links token))
    | inr e ↦ rw e (ap is_some (get-remove_other links token other (λ h. ground arith)))
  ]

module _ {Sender : Type 0} (bits : Bitflags) (channel : Channel Sender (Transaction Sender)) where
  open channel use {World}

  -- The application, by the calls so far, knows exactly the links of the table.
  abbrev pub Agrees : Server bits channel → Type 0
  Agrees s = (token : Token) → is_some (get s.links token) ≡ is_attached token s.calls false

  -- The same links and the same calls.
  abbrev pub SameView : Server bits channel → Server bits channel → Type 0
  SameView s s' = (s'.links ≡ s.links) × (s'.calls ≡ s.calls)

  pub Agrees-SameView : (s s' : Server bits channel) → SameView s s' → Agrees s → Agrees s'
  Agrees-SameView s s' (l, c) h token =
      ap (λ (t : Links Sender). is_some (get t token)) l
      ∙ h token
      ∙ ap (λ (t : List (Transaction Sender)). is_attached token t false) (sym c)

  send_found-SameView :
      (token : Token) (tr : Transaction Sender) (o : Option (Link Sender)) (s : Server bits channel)
      → SameView s (send_found bits channel token tr o s).1
  unfolding send_found send
  send_found-SameView token tr none s = (refl, refl)
  send_found-SameView token tr (some link) s = (refl, refl)

  pub send_to-SameView :
      (token : Token) (tr : Transaction Sender) (s : Server bits channel)
      → SameView s (send_to bits channel token tr s).1
  unfolding send_to
  send_to-SameView token tr s = send_found-SameView token tr (find_link bits channel token s) s

  -- An action that leaves both alone, and what follows it.
  abbrev pub Keeps : Exec (Server bits channel) ⊥ (Unit {0}) → Type 0
  Keeps m = (s : Server bits channel) → SameView s (m s).1

  >>-Keeps : (m k : Exec (Server bits channel) ⊥ (Unit {0})) → Keeps m → Keeps k → Keeps (m >> k)
  >>-Keeps m k hm hk s = after (m s).0 (m s).1 (hm s)
    where
      after :
          (r : Outcome ⊥ (Unit {0})) (s' : Server bits channel)
          → SameView s s'
          → SameView s (continue r (λ _. k) s').1
      after (ok a) s' (l, c) = ((hk s').0 ∙ l, (hk s').1 ∙ c)
      after (err e) s' h = h
      after panic s' h = h

  unwrap-send_to-Keeps :
      (token : Token) (tr : Transaction Sender)
      → Keeps (unwrap bits channel (send_to bits channel token tr))
  unwrap-send_to-Keeps token tr s = send_to-SameView token tr s

  pub send_both-Keeps :
      (token : Token) (first second : Transaction Sender)
      → Keeps (
          unwrap bits channel (send_to bits channel token first)
          >> unwrap bits channel (send_to bits channel token second))
  send_both-Keeps token first second =
      >>-Keeps (unwrap bits channel (send_to bits channel token first))
        (unwrap bits channel (send_to bits channel token second)) (unwrap-send_to-Keeps token first)
        (unwrap-send_to-Keeps token second)

  -- A call of the closure, where what it tells is what was done to the table.
  pub Agrees-call :
      (s : Server bits channel) (links : Links Sender) (w : World) (tr : Transaction Sender)
      → ((token : Token) → is_some (get links token) ≡ told token tr (is_some (get s.links token)))
      → Agrees s
      → Agrees (record { links = links; world = w; calls = s.calls ++ (tr ∷ []) })
  Agrees-call s links w tr h v token =
      h token ∙ ap (told token tr) (v token) ∙ sym (is_attached-append token s.calls tr false)
