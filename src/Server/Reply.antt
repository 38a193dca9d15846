-- ===== src/Server/Reply.antt =====
-- How the server answers the SETTINGS of a peer.
use h2l.Base.{
  ◌≡◌, refl, ap, ◌∙◌, ◌⊎◌, inl, inr, none, some, List, [], ◌∷◌, ◌++◌, sym, append-nil, append_assoc,
  false,
}
use h2l.Base.Outcome.{ok, err, panic}
use h2l.Base.Exec.{Exec, >>=-ok, >>=-panic, ◌>>◌, pure}
use h2l.Crates.Bitflags.{Bitflags}
use h2l.Crates.Channel.{Channel, TrySendError}
use h2l.Frame.Settings
use h2l.Frame.Settings.{Settings}
use h2l.Frame.Any.{settings}
use h2l.Transaction.{Token, Link, Transaction, frame}
use h2l.Server.Forward.{
  Server, find_link, send, send_found, send_to, unwrap, on_settings, on_frame, on_transaction,
}

module _ {Sender : Type 0} (bits : Bitflags) (channel : Channel Sender (Transaction Sender)) where
  open channel use {World, try_send, try_send_cases, sent}

  -- The channel of the link refused a transaction.
  abbrev pub Refused : Link Sender → Type 0
  Refused link =
      (tr : Transaction Sender) × (e : TrySendError) × (w : World) × (try_send link.outgoing_tx tr w
        ≡ (err e, w))

  -- An action ends well and these transactions were put into the channel of the link, or it panics
  -- since the channel refused one.
  abbrev pub Answers :
      {A : Type 0}
      → Exec (Server bits channel) ⊥ A
      → A
      → Link Sender
      → List (Transaction Sender)
      → Server bits channel
      → Type 0
  Answers m a link trs s =
      ((w : World) × (m s ≡ (ok a, record s { world = w }))
        × (sent w link.outgoing_tx ≡ sent s.world link.outgoing_tx ++ trs))
      ⊎ ((s' : Server bits channel) × (m s ≡ (panic, s')) × Refused link)

  unwrap-send_to-Answers :
      (token : Token) (link : Link Sender) (tr : Transaction Sender) (s : Server bits channel)
      → find_link bits channel token s ≡ some link
      → Answers (unwrap bits channel (send_to bits channel token tr)) tt link (tr ∷ []) s
  unfolding send_to send_found send
  unwrap-send_to-Answers token link tr s h = elim (try_send_cases link.outgoing_tx tr s.world) [
    | inl (w, e, q) ↦ inl (w, rw (h, e) refl, q)
    | inr (e, q) ↦ inr (s, rw (h, q) refl, (tr, e, s.world, q))
  ]

  >>-Answers :
      {A : Type 0} (m : Exec (Server bits channel) ⊥ (Unit {0}))
      (k : Exec (Server bits channel) ⊥ A) (a : A) (link : Link Sender)
      (first second : List (Transaction Sender)) (s : Server bits channel)
      → Answers m tt link first s
      → ((w : World) → Answers k a link second (record s { world = w }))
      → Answers (m >> k) a link (first ++ second) s
  >>-Answers m k a link first second s (inl (w, e, q)) hk = elim (hk w) [
    | inl (w', e', q') ↦ inl (
      w',
      >>=-ok m (λ _. k) s (record s { world = w }) tt e ∙ e',
      q' ∙ ap (λ l. l ++ second) q ∙ append_assoc (sent s.world link.outgoing_tx) first second,
    )
    | inr (s', e', r) ↦ inr (s', >>=-ok m (λ _. k) s (record s { world = w }) tt e ∙ e', r)
  ]
  >>-Answers m k a link first second s (inr (s', e, r)) hk =
      inr (s', >>=-panic m (λ _. k) s s' e, r)

  module _ (f : Transaction Sender → World → World) where
    -- SETTINGS that are not an ACK, received from a link of the table, are put into the channel of
    -- that link, and then an ACK, and the loop goes on; or the channel refused one of the two, and
    -- the loop panics.
    pub on_transaction-settings_reply :
        (v : Settings) (token : Token) (link : Link Sender) (s : Server bits channel)
        → Settings.is_ack bits v.flags ≡ false
        → find_link bits channel token s ≡ some link
        → Answers
            (on_transaction bits channel f (frame (settings v) (some token)))
            false
            link
            (frame (settings v) (some token) ∷ frame (settings Settings.ack) (some token) ∷ [])
            s
    unfolding on_transaction on_frame on_settings find_link
    on_transaction-settings_reply v token link s a h =
        let first = frame (settings v) (some token) in
        let second = frame (settings Settings.ack) (some token) in
        let send_first = unwrap bits channel (send_to bits channel token first) in
        let send_second = unwrap bits channel (send_to bits channel token second) in
        rw a (
          >>-Answers (send_first >> send_second) (pure false) false link (first ∷ second ∷ []) [] s
            (>>-Answers send_first send_second tt link (first ∷ []) (second ∷ []) s
              (unwrap-send_to-Answers token link first s h)
              (λ w. unwrap-send_to-Answers token link second (record s { world = w }) h))
            (λ w. inl (w, refl, sym (append-nil (sent w link.outgoing_tx)))))

    -- SETTINGS that are not an ACK, from a link that is not in the table, panic the loop.
    pub on_transaction-settings_missing :
        (v : Settings) (token : Token) (s : Server bits channel)
        → Settings.is_ack bits v.flags ≡ false
        → find_link bits channel token s ≡ none
        → on_transaction bits channel f (frame (settings v) (some token)) s ≡ (panic, s)
    unfolding on_transaction on_frame on_settings send_to send_found
    on_transaction-settings_missing v token s a h = rw (a, h) refl
