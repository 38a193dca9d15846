-- ===== src/Server/Handled.antt =====
-- What every run of the forward loop hands to the application, also one that panics.
use h2l.Base.{
  if◌then◌else◌, Bool-cases, ◌≡◌, refl, ap, sym, ◌∙◌, ◌⊎◌, inl, inr, Option, List, [], ◌∷◌, ◌++◌,
  append-nil, append_assoc, Bool, true, false, arith,
}
use h2l.Base.Outcome.{Outcome, ok, err, panic}
use h2l.Base.Exec.{continue, pure}
use h2l.Crates.Bitflags.{Bitflags}
use h2l.Crates.Channel.{Channel}
use h2l.Frame.Settings.{Settings}
use h2l.Frame.Any.{
  data_frame, headers, priority, reset, settings, go_away, window_update, continuation, bin_code,
  unknown,
}
use h2l.Transaction.{
  Token, Transaction, bytes, frame, client_changed, link_changed, new_link, server_changed,
  transactions,
}
use h2l.Server.Forward.{Server, on_settings, on_frame, on_transaction, forward_loop}
use h2l.Server.Calls.{visible, ends, IsQuiet, on_transaction-Calls}
use h2l.Server.Agreement.{on_settings-Keeps}

module _ {Sender : Type 0} where
  -- The calls for these transactions.
  abbrev pub visible_each : List (Transaction Sender) → List (Transaction Sender)
  visible_each [] = []
  visible_each (tr ∷ rest) = visible tr ++ visible_each rest

  pub visible_each-append :
      (xs ys : List (Transaction Sender))
      → visible_each (xs ++ ys) ≡ visible_each xs ++ visible_each ys
  visible_each-append [] ys = refl
  visible_each-append (tr ∷ rest) ys =
      ap (λ l. visible tr ++ l) (visible_each-append rest ys)
      ∙ sym (append_assoc (visible tr) (visible_each rest) (visible_each ys))

  -- One of the transactions ends the loop.
  abbrev pub any_ends : List (Transaction Sender) → Bool
  any_ends [] = false
  any_ends (x ∷ rest) = if ends x then true else any_ends rest

  pub any_ends-append :
      (xs ys : List (Transaction Sender)) → any_ends xs ≡ true → any_ends (xs ++ ys) ≡ true
  any_ends-append [] ys h = ground arith
  any_ends-append (x ∷ rest) ys h = ground (arith, any_ends-append rest ys)

module _ {Sender : Type 0} (bits : Bitflags) (channel : Channel Sender (Transaction Sender))
    (f : Transaction Sender → channel.World → channel.World) where
  open channel use {World}

  -- The transaction is handled, and the calls for it are made; or the loop panics, with no call.
  abbrev Handles : Transaction Sender → Server bits channel → Type 0
  Handles tr s =
      (((on_transaction bits channel f tr s).0 ≡ ok (ends tr))
        × ((on_transaction bits channel f tr s).1.calls ≡ s.calls ++ visible tr))
      ⊎ (((on_transaction bits channel f tr s).0 ≡ panic)
          × ((on_transaction bits channel f tr s).1.calls ≡ s.calls))

  quiet-Handles :
      (tr : Transaction Sender) (s : Server bits channel) → IsQuiet bits channel tr → Handles tr s
  quiet-Handles tr s q =
      let (s', e, c) = on_transaction-Calls bits channel f tr s q in inl (rw e refl, rw e c)

  settings-Handles :
      (v : Settings) (token : Option Token) (s : Server bits channel)
      → Handles (frame (settings v) token) s
  unfolding on_transaction on_frame
  settings-Handles v token s =
      after (on_settings bits channel f v token s).0 (on_settings bits channel f v token s).1
        (on_settings-Keeps bits channel f v token s).1
    where
      after :
          (r : Outcome ⊥ (Unit {0})) (s' : Server bits channel)
          → s'.calls ≡ s.calls
          → (((continue r (λ _. pure false) s').0 ≡ ok false)
              × ((continue r (λ _. pure false) s').1.calls ≡ s.calls ++ []))
            ⊎ (((continue r (λ _. pure false) s').0 ≡ panic)
                × ((continue r (λ _. pure false) s').1.calls ≡ s.calls))
      after (ok a) s' c = inl (refl, c ∙ sym (append-nil s.calls))
      after (err e) s' c = absurd e
      after panic s' c = inr (refl, c)

  on_transaction-Handles : (tr : Transaction Sender) (s : Server bits channel) → Handles tr s
  on_transaction-Handles (frame (settings v) token) s = settings-Handles v token s
  on_transaction-Handles (frame (data_frame d) token) s = quiet-Handles _ s tt
  on_transaction-Handles (frame (headers h) token) s = quiet-Handles _ s tt
  on_transaction-Handles (frame (priority _) token) s = quiet-Handles _ s tt
  on_transaction-Handles (frame (reset _) token) s = quiet-Handles _ s tt
  on_transaction-Handles (frame (go_away _) token) s = quiet-Handles _ s tt
  on_transaction-Handles (frame (window_update _) token) s = quiet-Handles _ s tt
  on_transaction-Handles (frame (continuation _) token) s = quiet-Handles _ s tt
  on_transaction-Handles (frame (bin_code _) token) s = quiet-Handles _ s tt
  on_transaction-Handles (frame unknown token) s = quiet-Handles _ s tt
  on_transaction-Handles (new_link link) s = quiet-Handles _ s tt
  on_transaction-Handles (link_changed flags token) s = quiet-Handles _ s tt
  on_transaction-Handles (server_changed flags) s = quiet-Handles _ s tt
  on_transaction-Handles (bytes xs token) s = quiet-Handles _ s tt
  on_transaction-Handles (client_changed flags token) s = quiet-Handles _ s tt

  -- The loop handled the first of the transactions, and made the calls for these and no others; it
  -- returned behind the last of all, or behind the one that ends it, or it panicked at the next one.
  abbrev pub HandlesFirst :
      List ((World → World) × Transaction Sender)
      → Server bits channel
      → Outcome ⊥ (Unit {0}) × Server bits channel
      → Type 0
  HandlesFirst received s r =
      (first : List (Transaction Sender)) × (rest : List (Transaction Sender)) × (transactions
          received
        ≡ first ++ rest)
      × (r.1.calls ≡ s.calls ++ visible_each first)
      × (((r.0 ≡ ok tt) × ((rest ≡ []) ⊎ (any_ends first ≡ true)))
          ⊎ ((r.0 ≡ panic) × (any_ends first ≡ false)))

  pub forward_loop-HandlesFirst :
      (received : List ((World → World) × Transaction Sender)) (s : Server bits channel)
      → HandlesFirst received s (forward_loop bits channel f received s)
  unfolding forward_loop
  forward_loop-HandlesFirst [] s = ([], [], refl, sym (append-nil s.calls), inl (refl, inl refl))
  forward_loop-HandlesFirst ((others, tr) ∷ rest) s =
      let before : Server bits channel = record s { world = others s.world } in
      after (on_transaction bits channel f tr before).0 (on_transaction bits channel f tr before).1
        (λ s'. forward_loop-HandlesFirst rest s') (on_transaction-Handles tr before)
    where
      after :
          (r : Outcome ⊥ Bool) (s' : Server bits channel)
          → ((s' : Server bits channel)
              → HandlesFirst rest s' (forward_loop bits channel f rest s'))
          → ((r ≡ ok (ends tr)) × (s'.calls ≡ s.calls ++ visible tr))
            ⊎ ((r ≡ panic) × (s'.calls ≡ s.calls))
          → HandlesFirst
              ((others, tr) ∷ rest)
              s
              (continue r (λ stop. if stop then pure tt else forward_loop bits channel f rest) s')
      after r s' again (inr (e, c)) =
          rw e ([], tr ∷ transactions rest, refl, c ∙ sym (append-nil s.calls), inr (refl, refl))
      after r s' again (inl (e, c)) = elim (Bool-cases (ends tr)) [
        | inl stop ↦
            rw (e, stop)
              (
                tr ∷ [],
                transactions rest,
                refl,
                c ∙ ap (λ l. s.calls ++ l) (sym (append-nil (visible tr))),
                inl (refl, inr (ap (λ b. if b then true else false) stop)),
              )
        | inr on ↦
            let (first, rest', t, c', o) = again s' in
            rw (e, on)
              (
                tr ∷ first,
                rest',
                ap (λ l. tr ∷ l) t,
                c'
                    ∙ ap (λ l. l ++ visible_each first) c
                    ∙ append_assoc s.calls (visible tr) (visible_each first),
                elim o [
                  | inl (q, inl over) ↦ inl (q, inl over)
                  | inl (q, inr end) ↦ inl (q, inr (ground arith))
                  | inr (q, g) ↦ inr (q, ground arith)
                ],
              )
      ]
