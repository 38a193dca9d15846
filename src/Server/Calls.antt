-- ===== src/Server/Calls.antt =====
-- What the forward loop of the server hands to the application.
use h2l.Base.{
  ◌==◌, if◌then◌else◌, Bool-cases, ℕ, ◌≡◌, refl, ap, sym, ◌∙◌, inl, inr, Option, List, [], ◌∷◌,
  ◌++◌, append-nil, append_assoc, Bool, true, false, All, arith,
}
use h2l.Base.Outcome.{ok}
use h2l.Crates.Bitflags.{Bitflags}
use h2l.Crates.Channel.{Channel}
use h2l.Frame.Settings
use h2l.Frame.Any.{
  Frame, data_frame, headers, priority, reset, settings, go_away, window_update, continuation,
  bin_code, unknown,
}
use h2l.Transaction.{
  Token, Transaction, bytes, frame, client_changed, link_changed, new_link, server_changed,
  token_of,
}
use h2l.Server.Forward.{
  attached, detached, accept_loop_exited, forward_loop_exited, read_closed, read_write_closed,
  Server, send_to, on_settings, on_frame, on_new_link, on_link_changed, on_server_changed,
  on_transaction, forward_loop,
}
use h2l.Server.View.{send_to-SameView}

module _ {Sender : Type 0} where
  -- The calls for one transaction: DATA and HEADERS as they are, a new link as ATTACHED, a link of
  -- which both sides are closed as DETACHED, the end of the accept loop as that of the forward loop.
  abbrev pub visible : Transaction Sender → List (Transaction Sender)
  visible (frame (data_frame d) token) = frame (data_frame d) token ∷ []
  visible (frame (headers h) token) = frame (headers h) token ∷ []
  visible (frame _ token) = []
  visible (new_link link) = link_changed attached (token_of link) ∷ []
  visible (link_changed flags token) =
      if flags == read_write_closed then link_changed detached token ∷ [] else []
  visible (server_changed flags) =
      if flags == accept_loop_exited then server_changed forward_loop_exited ∷ [] else []
  visible (bytes xs token) = bytes xs token ∷ []
  visible (client_changed flags token) = client_changed flags token ∷ []

  -- The transaction that ends the loop.
  abbrev pub ends : Transaction Sender → Bool
  ends (server_changed flags) = flags == accept_loop_exited
  ends _ = false

  abbrev pub visible_all {ℓ} :
      {A : Type ℓ} → List (A × Transaction Sender) → List (Transaction Sender)
  visible_all [] = []
  visible_all ((others, tr) ∷ rest) =
      let more = visible_all rest in visible tr ++ (if ends tr then [] else more)

module _ {Sender : Type 0} (bits : Bitflags) (channel : Channel Sender (Transaction Sender)) where
  open channel use {World}

  -- No SETTINGS but an ACK: the server has nothing to answer.
  abbrev pub IsQuiet : Transaction Sender → Type 0
  IsQuiet (frame (settings v) token) = Settings.is_ack bits v.flags ≡ true
  IsQuiet _ = Unit {0}

  module _ (f : Transaction Sender → World → World) where
    -- The transaction is handled, and these calls are made.
    abbrev Calls : Transaction Sender → Server bits channel → Type 0
    Calls tr s =
        (s' : Server bits channel) × (on_transaction bits channel f tr s ≡ (ok (ends tr), s'))
        × (s'.calls ≡ s.calls ++ visible tr)

    on_link_changed-Calls :
        (flags : ℕ) (token : Token) (s : Server bits channel) → Calls (link_changed flags token) s
    unfolding on_transaction on_link_changed
    on_link_changed-Calls flags token s = elim (Bool-cases (flags == read_closed)) [
      | inl e ↦
          let other : (flags == read_write_closed) ≡ false = ground arith in
          rw (e, other)
            (
              (send_to bits channel token (link_changed flags token) s).1,
              refl,
              (send_to-SameView bits channel token (link_changed flags token) s).1
                  ∙ sym (append-nil s.calls),
            )
      | inr e ↦ elim (Bool-cases (flags == read_write_closed)) [
        | inl e' ↦ rw (e, e') (_, refl, refl)
        | inr e' ↦ rw (e, e') (s, refl, sym (append-nil s.calls))
      ]
    ]

    on_server_changed-Calls : (flags : ℕ) (s : Server bits channel) → Calls (server_changed flags) s
    unfolding on_transaction on_server_changed
    on_server_changed-Calls flags s = elim (Bool-cases (flags == accept_loop_exited)) [
      | inl e ↦ rw e (_, refl, refl)
      | inr e ↦ rw e (s, refl, sym (append-nil s.calls))
    ]

    on_frame-Calls :
        (v : Frame) (token : Option Token) (s : Server bits channel)
        → IsQuiet (frame v token)
        → Calls (frame v token) s
    unfolding on_transaction on_frame on_settings
    on_frame-Calls (data_frame d) token s q = (_, refl, refl)
    on_frame-Calls (headers h) token s q = (_, refl, refl)
    on_frame-Calls (settings v) token s q = rw q (s, refl, sym (append-nil s.calls))
    on_frame-Calls (priority _) token s q = (s, refl, sym (append-nil s.calls))
    on_frame-Calls (reset _) token s q = (s, refl, sym (append-nil s.calls))
    on_frame-Calls (go_away _) token s q = (s, refl, sym (append-nil s.calls))
    on_frame-Calls (window_update _) token s q = (s, refl, sym (append-nil s.calls))
    on_frame-Calls (continuation _) token s q = (s, refl, sym (append-nil s.calls))
    on_frame-Calls (bin_code _) token s q = (s, refl, sym (append-nil s.calls))
    on_frame-Calls unknown token s q = (s, refl, sym (append-nil s.calls))

    pub on_transaction-Calls :
        (tr : Transaction Sender) (s : Server bits channel) → IsQuiet tr → Calls tr s
    unfolding on_transaction on_new_link
    on_transaction-Calls (frame v token) s q = on_frame-Calls v token s q
    on_transaction-Calls (new_link link) s q = (_, refl, refl)
    on_transaction-Calls (link_changed flags token) s q = on_link_changed-Calls flags token s
    on_transaction-Calls (server_changed flags) s q = on_server_changed-Calls flags s
    on_transaction-Calls (bytes xs token) s q = (_, refl, refl)
    on_transaction-Calls (client_changed flags token) s q = (_, refl, refl)

    -- Where no SETTINGS but ACKs are received, the forward loop does not panic, whatever the other
    -- tasks do, and it calls the closure exactly for what is visible of the transactions received, in
    -- their order, up to the end of the accept loop.
    pub forward_loop-visible_all :
        (received : List ((World → World) × Transaction Sender)) (s : Server bits channel)
        → All (λ r. IsQuiet r.1) received
        → (s' : Server bits channel) × (forward_loop bits channel f received s ≡ (ok tt, s'))
          × (s'.calls ≡ s.calls ++ visible_all received)
    unfolding forward_loop
    forward_loop-visible_all [] s q = (s, refl, sym (append-nil s.calls))
    forward_loop-visible_all ((others, tr) ∷ rest) s (q, qs) =
        let before : Server bits channel = record s { world = others s.world } in
        let (s', e, c) = on_transaction-Calls tr before q in
        let (s'', e', c') = forward_loop-visible_all rest s' qs in
        elim (Bool-cases (ends tr)) [
          | inl stop ↦
              rw (e, stop) (s', refl, c ∙ ap (λ l. s.calls ++ l) (sym (append-nil (visible tr))))
          | inr on ↦
              rw (e, on)
                (
                  s'',
                  e',
                  c'
                      ∙ ap (λ l. l ++ visible_all rest) c
                      ∙ append_assoc s.calls (visible tr) (visible_all rest),
                )
        ]
