-- ===== src/Server/Outgoing.antt =====
-- What the forward loop of a server puts into the channel of one link, among all the others.
use h2l.Base.{
  ◌==◌, ==→eq, if◌then◌else◌, Bool-cases, ◌≡◌, refl, ap, sym, ◌∙◌, ◌⊎◌, inl, inr, Option, none,
  some, List, [], ◌∷◌, ◌++◌, append-nil, append_assoc, true, All,
}
use mathlib.Core.Path.{subst}
use h2l.Crates.Bitflags.{Bitflags}
use h2l.Crates.Channel.{Channel}
use h2l.Frame.Settings
use h2l.Frame.Settings.{Settings}
use h2l.Frame.Any.{settings}
use h2l.Transaction.{Token, Link, Transaction, frame, link_changed}
use h2l.Server.Table.{Links, get, remove}
use h2l.Server.Forward.{read_closed, Server, find_link, send_to, send_found, send}
use h2l.Server.View.{send_to-SameView}

-- Two lists put together have what both have.
All-append {ℓ κ} :
    {A : Type ℓ} (P : A → Type κ) (xs ys : List A) → All P xs → All P ys → All P (xs ++ ys)
All-append P [] ys h k = k
All-append P (x ∷ xs) ys h k = (h.0, All-append P xs ys h.1 k)

module _ {Sender : Type 0} (token : Token) (tx : Sender) where
  -- The channel is that of this link only.
  abbrev pub Owns : Token → Link Sender → Type 0
  Owns other link = ((other == token) ≡ true) ⊎ (link.outgoing_tx ≡ tx → ⊥)

  abbrev pub OwnsAll : Links Sender → Type 0
  OwnsAll links = All (λ e. Owns e.0 e.1) links

  pub OwnsAll-remove : (links : Links Sender) (t : Token) → OwnsAll links → OwnsAll (remove links t)
  OwnsAll-remove [] t h = tt
  OwnsAll-remove ((key, link) ∷ rest) t h = elim (Bool-cases (key == t)) [
    | inl e ↦ rw e (OwnsAll-remove rest t h.1)
    | inr e ↦ rw e (h.0, OwnsAll-remove rest t h.1)
  ]

  OwnsAll-get :
      (links : Links Sender) (t : Token) (link : Link Sender)
      → OwnsAll links
      → get links t ≡ some link
      → Owns t link
  OwnsAll-get [] t link h e = cc e
  OwnsAll-get ((key, first) ∷ rest) t link h e = elim (Bool-cases (key == t)) [
    | inl q ↦
        let found : (if key == t then some first else get rest t) ≡ some first = rw q refl in
        let same : first ≡ link = cc (e, found) in rw (sym (==→eq key t q), sym same) h.0
    | inr q ↦
        let next : (if key == t then some first else get rest t) ≡ get rest t = rw q refl in
        OwnsAll-get rest t link h.1 (sym next ∙ e)
  ]

module _ {Sender : Type 0} (bits : Bitflags) (token : Token) where
  -- What the forward loop sends to this link for one transaction: SETTINGS of the link, and an ACK, and
  -- the report that its reader is closed. A frame without a token counts as one of the token 0.
  abbrev pub answers : Transaction Sender → List (Transaction Sender)
  answers (frame (settings v) none) =
      if 0 == token
      then if Settings.is_ack bits v.flags
        then []
        else frame (settings v) none ∷ frame (settings Settings.ack) none ∷ []
      else []
  answers (frame (settings v) (some other)) =
      if other == token
      then if Settings.is_ack bits v.flags
        then []
        else frame (settings v) (some other) ∷ frame (settings Settings.ack) (some other) ∷ []
      else []
  answers (link_changed flags other) =
      if other == token
      then if flags == read_closed then link_changed flags other ∷ [] else []
      else []
  answers _ = []

module _ {Sender : Type 0} (bits : Bitflags) (channel : Channel Sender (Transaction Sender))
    (Q : Transaction Sender → Type 0) (token : Token) (tx : Sender) where
  open channel use {World, sent, try_send, try_send_cases, try_send_others}

  -- What is put into the channel in between is all of the kind.
  abbrev pub Puts : World → World → Type 0
  Puts w w' = (xs : List (Transaction Sender)) × (sent w' tx ≡ sent w tx ++ xs) × All Q xs

  pub Puts-refl : (w : World) → Puts w w
  Puts-refl w = ([], sym (append-nil (sent w tx)), tt)

  pub Puts-trans : (w w' w'' : World) → Puts w w' → Puts w' w'' → Puts w w''
  Puts-trans w w' w'' (xs, e, h) (ys, e', h') =
      (xs ++ ys, e' ∙ ap (λ l. l ++ ys) e ∙ append_assoc (sent w tx) xs ys, All-append Q xs ys h h')

  -- A step that puts only these, and leaves the channel to its link.
  abbrev pub Fair : Server bits channel → Server bits channel → Type 0
  Fair s s' = Puts s.world s'.world × OwnsAll token tx s'.links

  send_found-Puts :
      (t : Token) (tr : Transaction Sender) (o : Option (Link Sender)) (s : Server bits channel)
      → find_link bits channel t s ≡ o
      → OwnsAll token tx s.links
      → ((t == token) ≡ true → Q tr)
      → Puts s.world (send_found bits channel t tr o s).1.world
  unfolding find_link send_found send
  send_found-Puts t tr none s e own h = Puts-refl s.world
  send_found-Puts t tr (some link) s e own h = elim (try_send_others link.outgoing_tx tx) [
    | inr other ↦ ([], other tr s.world ∙ sym (append-nil (sent s.world tx)), tt)
    | inl same ↦ elim (OwnsAll-get token tx s.links t link own e) [
      | inr no_one ↦ absurd (no_one same)
      | inl mine ↦ elim (try_send_cases link.outgoing_tx tr s.world) [
        | inl (w, q, put) ↦ rw q (
          tr ∷ [],
          subst (λ (y : Sender). sent w y ≡ sent s.world y ++ (tr ∷ [])) same put,
          (h mine, tt),
        )
        | inr (e', q) ↦ rw q (Puts-refl s.world)
      ]
    ]
  ]

  pub send_to-Fair :
      (t : Token) (tr : Transaction Sender) (s : Server bits channel)
      → OwnsAll token tx s.links
      → ((t == token) ≡ true → Q tr)
      → Fair s (send_to bits channel t tr s).1
  unfolding send_to
  send_to-Fair t tr s own h = (
    send_found-Puts t tr (find_link bits channel t s) s refl own h,
    subst (OwnsAll token tx) (sym (send_to-SameView bits channel t tr s).0) own,
  )
