-- ===== src/Server/Listed.antt =====
-- The tokens that the server lists, through every run of the forward loop.
use h2l.Base.{
  ℕ, ◌==◌, if◌then◌else◌, Bool-cases, ◌≡◌, refl, ap, sym, ◌∙◌, ◌⊎◌, inl, inr, Option, List, [], ◌∷◌,
  Bool, true, false,
}
use mathlib.Core.Path.{subst}
use h2l.Base.Outcome.{Outcome, ok, err, panic}
use h2l.Base.Exec.{continue, pure}
use h2l.Crates.Bitflags.{Bitflags}
use h2l.Crates.Channel.{Channel}
use h2l.Frame.Any.{Frame, settings}
use h2l.Transaction.{
  Token, Link, Transaction, bytes, frame, client_changed, link_changed, new_link, server_changed,
  token_of,
}
use h2l.Server.Table.{Links, insert, remove}
use h2l.Server.Forward.{
  accept_loop_exited, read_closed, read_write_closed, Server, on_frame, on_new_link,
  on_link_changed, on_server_changed, on_transaction, forward_loop,
}
use h2l.Server.View.{is_attached, send_to-SameView}
use h2l.Server.Agreement.{forward_loop-Agrees, >>-pure-state, on_settings-Keeps}
use h2l.Server.Tokens.{IsTable, insert-IsTable, remove-IsTable, link_tokens, listed}

module _ {Sender : Type 0} (bits : Bitflags) (channel : Channel Sender (Transaction Sender))
    (f : Transaction Sender → channel.World → channel.World) where
  open channel use {World}

  -- What one transaction does to the table.
  abbrev Changes : Links Sender → Links Sender → Type 0
  Changes links links' =
      (links' ≡ links)
      ⊎ ((token : Token) × (link : Link Sender) × (links' ≡ insert links token link))
      ⊎ ((token : Token) × (links' ≡ remove links token))

  on_frame-Changes :
      (v : Frame) (token : Option Token) (s : Server bits channel)
      → Changes s.links (on_frame bits channel f v token s).1.links
  unfolding on_frame
  on_frame-Changes (settings v) token s = inl (on_settings-Keeps bits channel f v token s).0
  on_frame-Changes _ token s = inl refl

  on_link_changed-Changes :
      (flags : ℕ) (token : Token) (s : Server bits channel)
      → Changes s.links (on_link_changed bits channel f flags token s).1.links
  unfolding on_link_changed
  on_link_changed-Changes flags token s = elim (Bool-cases (flags == read_closed)) [
    | inl e ↦ rw e (inl (send_to-SameView bits channel token (link_changed flags token) s).0)
    | inr e ↦ elim (Bool-cases (flags == read_write_closed)) [
      | inl e' ↦ rw (e, e') (inr (inr (token, refl)))
      | inr e' ↦ rw (e, e') (inl refl)
    ]
  ]

  on_transaction-Changes :
      (tr : Transaction Sender) (s : Server bits channel)
      → Changes s.links (on_transaction bits channel f tr s).1.links
  unfolding on_transaction on_new_link on_server_changed
  on_transaction-Changes (frame v token) s =
      rw (>>-pure-state bits channel f (on_frame bits channel f v token) false s)
        (on_frame-Changes v token s)
  on_transaction-Changes (new_link link) s = inr (inl (token_of link, link, refl))
  on_transaction-Changes (link_changed flags token) s =
      rw (>>-pure-state bits channel f (on_link_changed bits channel f flags token) false s)
        (on_link_changed-Changes flags token s)
  on_transaction-Changes (server_changed flags) s =
      elim (Bool-cases (flags == accept_loop_exited)) [
        | inl e ↦ rw e (inl refl)
        | inr e ↦ rw e (inl refl)
      ]
  on_transaction-Changes (bytes xs token) s = inl refl
  on_transaction-Changes (client_changed flags token) s = inl refl

  Changes-IsTable :
      (links links' : Links Sender) → Changes links links' → IsTable links → IsTable links'
  Changes-IsTable links links' (inl e) h = subst IsTable (sym e) h
  Changes-IsTable links links' (inr (inl (token, link, e))) h =
      subst IsTable (sym e) (insert-IsTable links token link h)
  Changes-IsTable links links' (inr (inr (token, e))) h =
      subst IsTable (sym e) (remove-IsTable links token h)

  forward_loop-IsTable :
      (received : List ((World → World) × Transaction Sender)) (s : Server bits channel)
      → IsTable s.links
      → IsTable (forward_loop bits channel f received s).1.links
  unfolding forward_loop
  forward_loop-IsTable [] s h = h
  forward_loop-IsTable ((others, tr) ∷ rest) s h =
      let s' : Server bits channel = record s { world = others s.world } in
      after (on_transaction bits channel f tr s').0 (on_transaction bits channel f tr s').1
        (λ s v. forward_loop-IsTable rest s v)
        (Changes-IsTable s.links _ (on_transaction-Changes tr s') h)
    where
      after :
          (r : Outcome ⊥ Bool) (s' : Server bits channel)
          → ((s : Server bits channel)
              → IsTable s.links
              → IsTable (forward_loop bits channel f rest s).1.links)
          → IsTable s'.links
          → IsTable
              (continue r
                (λ stop. if stop then pure tt else forward_loop bits channel f rest)
                s').1.links
      after (ok true) s' again v = v
      after (ok false) s' again v = again s' v
      after (err e) s' again v = v
      after panic s' again v = v

  -- In every run of the forward loop of a server that was just made, whatever the other tasks do, also
  -- in one that panics: `link_tokens` lists each token of which the application was told ATTACHED, and
  -- no DETACHED since, exactly once, and no other token.
  pub listed-link_tokens :
      (received : List ((World → World) × Transaction Sender)) (w : World) (token : Token)
      → listed token (
          link_tokens bits channel
            (forward_loop bits channel f received (record { links = []; world = w; calls = [] })).1)
        ≡ (if is_attached token
              (forward_loop bits channel f received
                (record { links = []; world = w; calls = [] })).1.calls
              false
            then 1
            else 0)
  unfolding listed link_tokens
  listed-link_tokens received w token =
      let start : Server bits channel = record { links = []; world = w; calls = [] } in
      forward_loop-IsTable received start (λ t. refl) token
      ∙ ap (λ b. if b then 1 else 0)
          (forward_loop-Agrees bits channel f received start (λ t. refl) token)
