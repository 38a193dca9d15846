-- ===== src/Client/Forwarded.antt =====
-- What the forward loop of a client hands to the application.
use h2l.Base.{
  ℕ, ◌≡◌, ◌≢◌, refl, sym, ◌∙◌, ◌⊎◌, inl, inr, List, [], ◌∷◌, ◌++◌, append-nil, append_assoc, Bool,
  true, false, if◌then◌else◌, Bool-cases,
}
use h2l.Base.Outcome.{Outcome, ok, err, panic}
use h2l.Crates.Bitflags.{Bitflags}
use h2l.Crates.Channel.{Channel, SendError}
use h2l.Transaction.{
  Token, Transaction, bytes, frame, client_changed, link_changed, new_link, server_changed,
}
use h2l.Link.Written.{is_told}
use h2l.Client.Forward.{
  break, forward, mantain_loop_exited, Shared, Client, is_half_closed, flags, sent_with,
  send_outgoing, on_client_changed, flow_of, forward_loop,
}

module _ {Sender : Type 0} (bits : Bitflags) where
  open bits use {contains}

  -- The transaction that ends the loop.
  abbrev pub ends : Transaction Sender → Bool
  ends (client_changed changed token) = contains changed mantain_loop_exited
  ends _ = false

  -- The transactions up to the one that ends the loop.
  abbrev pub forwarded {ℓ} :
      {A : Type ℓ} → List (A × Transaction Sender) → List (Transaction Sender)
  forwarded [] = []
  forwarded ((others, tr) ∷ rest) = let more = forwarded rest in if ends tr then [] else tr ∷ more

module _ {Sender : Type 0} (bits : Bitflags) (channel : Channel Sender (Transaction Sender)) where
  open bits use {contains}
  open channel use {World}

  -- The report of a reader that ended, for which the write loop is to be told.
  abbrev pub IsNotice : Transaction Sender → Type 0
  IsNotice (client_changed changed token) = is_half_closed bits channel changed ≡ true
  IsNotice _ = ⊥

  -- The outgoing channel of the client does not take the notice for the write loop.
  abbrev pub Refuses : Transaction Sender → Client bits channel → Type 0
  Refuses tr s =
      IsNotice tr
      × ((channel.send s.shared.outgoing_tx
            (client_changed (flags bits channel s.shared) s.shared.raw_token) s.shared.world).0
          ≢ ok tt)

  -- The calls are left alone.
  sent_with_cases :
      (r : Outcome SendError (Unit {0}) × World) (s : Client bits channel)
      → ((sh : Shared bits channel) × (sent_with bits channel r s
            ≡ (ok tt, record s { shared = sh })))
        ⊎ ((s' : Client bits channel) × (sent_with bits channel r s ≡ (panic, s')) × (r.0 ≢ ok tt))
  sent_with_cases (ok a, w) s = inl (record s.shared { world = w }, refl)
  sent_with_cases (err e, w) s =
      inr (record s { shared = record s.shared { world = w } }, refl, λ h. cc h)
  sent_with_cases (panic, w) s =
      inr (record s { shared = record s.shared { world = w } }, refl, λ h. cc h)

  Handles : Transaction Sender → Client bits channel → Type 0
  Handles tr s =
      ((ends bits tr ≡ true) × (flow_of bits channel tr s ≡ (ok break, s)))
      ⊎ ((ends bits tr ≡ false)
          × (sh : Shared bits channel) × (flow_of bits channel tr s
              ≡ (ok (forward tr), record s { shared = sh })))
      ⊎ ((s' : Client bits channel) × (flow_of bits channel tr s ≡ (panic, s')) × Refuses tr s)

  on_client_changed_cases :
      (changed : ℕ) (token : Token) (s : Client bits channel)
      → Handles (client_changed changed token) s
  unfolding Handles flow_of on_client_changed send_outgoing
  on_client_changed_cases changed token s =
      let message = client_changed (flags bits channel s.shared) s.shared.raw_token in
      let sent = channel.send s.shared.outgoing_tx message s.shared.world in
      elim (Bool-cases (contains changed mantain_loop_exited)) [
        | inl e ↦ inl (e, rw e refl)
        | inr e ↦ elim (Bool-cases (is_half_closed bits channel changed)) [
          | inl h ↦ elim (sent_with_cases sent s) [
            | inl (sh, q) ↦ inr (inl (e, sh, rw (e, h, q) refl))
            | inr (s', q, n) ↦ inr (inr (s', rw (e, h, q) refl, (h, n)))
          ]
          | inr h ↦ inr (inl (e, s.shared, rw (e, h) refl))
        ]
      ]

  flow_of_cases : (tr : Transaction Sender) (s : Client bits channel) → Handles tr s
  unfolding Handles flow_of
  flow_of_cases (client_changed changed token) s = on_client_changed_cases changed token s
  flow_of_cases (bytes xs token) s = inr (inl (refl, s.shared, refl))
  flow_of_cases (frame v token) s = inr (inl (refl, s.shared, refl))
  flow_of_cases (link_changed l token) s = inr (inl (refl, s.shared, refl))
  flow_of_cases (new_link link) s = inr (inl (refl, s.shared, refl))
  flow_of_cases (server_changed l) s = inr (inl (refl, s.shared, refl))

  module _ (f : Transaction Sender → Shared bits channel → Shared bits channel) where
    -- In a run over these, the outgoing channel does not take a notice for the write loop.
    abbrev pub RefusedIn :
        List ((Shared bits channel → Shared bits channel) × Transaction Sender)
        → Client bits channel
        → Type 0
    RefusedIn [] s = ⊥
    RefusedIn ((others, tr) ∷ rest) s =
        Refuses tr (record s { shared = others s.shared })
        ⊎ ((sh : Shared bits channel) × (flow_of bits channel tr
                (record s { shared = others s.shared })
              ≡ (ok (forward tr), record s { shared = sh }))
            × RefusedIn rest (record { shared = f tr sh; calls = s.calls ++ (tr ∷ []) }))

    -- The run panics, and the reason for it.
    abbrev pub Panics :
        List ((Shared bits channel → Shared bits channel) × Transaction Sender)
        → Client bits channel
        → Type 0
    Panics received s =
        (s' : Client bits channel) × (forward_loop bits channel f received s ≡ (panic, s'))
        × RefusedIn received s

    -- The forward loop of a client, whatever the other tasks do, has called the closure exactly for the
    -- transactions received before the first ClientChanged that contains MANTAIN_LOOP_EXITED, in their
    -- order, and has ended if there is such a transaction, and waits for more if there is none; or it
    -- panics at the report of a reader that ended, since the outgoing channel of the client did not take
    -- the notice for the write loop.
    pub forward_loop-forwarded :
        (received : List ((Shared bits channel → Shared bits channel) × Transaction Sender))
        (s : Client bits channel)
        → ((s' : Client bits channel) × (forward_loop bits channel f received s
              ≡ (ok (is_told (ends bits) received), s'))
            × (s'.calls ≡ s.calls ++ forwarded bits received))
          ⊎ Panics received s
    unfolding forward_loop Handles
    forward_loop-forwarded [] s = inl (s, refl, sym (append-nil s.calls))
    forward_loop-forwarded ((others, tr) ∷ rest) s =
        let before : Client bits channel = record s { shared = others s.shared } in
        elim (flow_of_cases tr before) [
          | inl (stop, e) ↦ inl (before, rw (e, stop) refl, rw stop (sym (append-nil s.calls)))
          | inr (inl (on, sh, e)) ↦
              let called : Client bits channel = record {
                shared = f tr sh;
                calls = s.calls ++ (tr ∷ []);
              } in
              elim (forward_loop-forwarded rest called) [
                | inl (s', q, c) ↦ inl (
                  s',
                  rw (e, on) q,
                  c ∙ rw on (append_assoc s.calls (tr ∷ []) (forwarded bits rest)),
                )
                | inr (s', q, r) ↦ inr (s', rw e q, inr (sh, e, r))
              ]
          | inr (inr (s', e, r)) ↦ inr (s', rw e refl, inl r)
        ]
