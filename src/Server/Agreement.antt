-- ===== src/Server/Agreement.antt =====
-- The server and the application agree on the links, through every run of the forward loop.
use h2l.Base.{
  ◌==◌, if◌then◌else◌, Bool-cases, ℕ, ◌≡◌, refl, inl, inr, Option, List, [], ◌∷◌, Bool, true, false,
}
use mathlib.Core.Path.{subst}
use h2l.Base.Outcome.{Outcome, ok, err, panic}
use h2l.Base.Exec.{Exec, continue, ◌>>◌, pure}
use h2l.Crates.Bitflags.{Bitflags}
use h2l.Crates.Channel.{Channel}
use h2l.Frame.Settings
use h2l.Frame.Settings.{Settings}
use h2l.Frame.Any.{
  Frame, data_frame, headers, priority, reset, settings, go_away, window_update, continuation,
  bin_code, unknown,
}
use h2l.Transaction.{
  Token, Link, Transaction, bytes, frame, client_changed, link_changed, new_link, server_changed,
  token_of,
}
use h2l.Server.Table.{insert, remove}
use h2l.Server.Forward.{
  new, attached, detached, accept_loop_exited, forward_loop_exited, Server, send_to, unwrap_or,
  on_settings, on_frame, on_new_link, on_link_changed, on_server_changed, on_transaction,
  forward_loop, read_closed, read_write_closed,
}
use h2l.Server.View.{
  get-insert, get-remove, Agrees, Agrees-SameView, Agrees-call, send_to-SameView, send_both-Keeps,
  Keeps,
}

module _ {Sender : Type 0} (bits : Bitflags) (channel : Channel Sender (Transaction Sender)) where
  open channel use {World}

  -- A server that was just made is in agreement.
  pub new-Agrees :
      {Address : Type 0} (addrs : List Address) (w : World) (s : Server bits channel)
      → new bits channel (ok addrs) w ≡ ok s
      → Agrees bits channel s
  unfolding new
  new-Agrees addrs w s h =
      let made : Server bits channel = record { links = []; world = w; calls = [] } in
      let e : made ≡ s = cc h in subst (λ t. Agrees bits channel t) e (λ token. refl)

  module _ (f : Transaction Sender → World → World) where
    pub on_settings-Keeps :
        (v : Settings) (token : Option Token)
        → Keeps bits channel (on_settings bits channel f v token)
    unfolding on_settings
    on_settings-Keeps v token s = elim (Bool-cases (Settings.is_ack bits v.flags)) [
      | inl e ↦ rw e (refl, refl)
      | inr e ↦ rw e (
          send_both-Keeps bits channel (unwrap_or bits channel token 0) (frame (settings v) token)
            (frame (settings Settings.ack) token) s)
    ]

    on_frame-Agrees :
        (v : Frame) (token : Option Token) (s : Server bits channel)
        → Agrees bits channel s
        → Agrees bits channel (on_frame bits channel f v token s).1
    unfolding on_frame
    on_frame-Agrees (data_frame d) token s h =
        Agrees-call bits channel s s.links (f (frame (data_frame d) token) s.world) _ (λ t. refl) h
    on_frame-Agrees (headers k) token s h =
        Agrees-call bits channel s s.links (f (frame (headers k) token) s.world) _ (λ t. refl) h
    on_frame-Agrees (settings v) token s h =
        Agrees-SameView bits channel s (on_settings bits channel f v token s).1
          (on_settings-Keeps v token s) h
    on_frame-Agrees (priority _) token s h = h
    on_frame-Agrees (reset _) token s h = h
    on_frame-Agrees (go_away _) token s h = h
    on_frame-Agrees (window_update _) token s h = h
    on_frame-Agrees (continuation _) token s h = h
    on_frame-Agrees (bin_code _) token s h = h
    on_frame-Agrees unknown token s h = h

    on_new_link-Agrees :
        (link : Link Sender) (s : Server bits channel)
        → Agrees bits channel s
        → Agrees bits channel (on_new_link bits channel f link s).1
    unfolding on_new_link
    on_new_link-Agrees link s h =
        Agrees-call bits channel s (insert s.links (token_of link) link)
          (f (link_changed attached (token_of link)) s.world) _
          (λ t. get-insert s.links (token_of link) t link) h

    on_link_changed-Agrees :
        (flags : ℕ) (token : Token) (s : Server bits channel)
        → Agrees bits channel s
        → Agrees bits channel (on_link_changed bits channel f flags token s).1
    unfolding on_link_changed
    on_link_changed-Agrees flags token s h = elim (Bool-cases (flags == read_closed)) [
      | inl e ↦ rw e (
          Agrees-SameView bits channel s (send_to bits channel token (link_changed flags token) s).1
            (send_to-SameView bits channel token (link_changed flags token) s) h)
      | inr e ↦ elim (Bool-cases (flags == read_write_closed)) [
        | inl e' ↦
            rw (e, e')
              (Agrees-call bits channel s (remove s.links token)
                (f (link_changed detached token) s.world) (link_changed detached token)
                (λ t. get-remove s.links token t) h)
        | inr e' ↦ rw (e, e') h
      ]
    ]

    on_server_changed-Agrees :
        (flags : ℕ) (s : Server bits channel)
        → Agrees bits channel s
        → Agrees bits channel (on_server_changed bits channel f flags s).1
    unfolding on_server_changed
    on_server_changed-Agrees flags s h = elim (Bool-cases (flags == accept_loop_exited)) [
      | inl e ↦ rw e (
          Agrees-call bits channel s s.links (f (server_changed forward_loop_exited) s.world)
            (server_changed forward_loop_exited) (λ t. refl) h)
      | inr e ↦ rw e h
    ]

    -- What follows an action does not change the state when it is only a value.
    pub >>-pure-state :
        (m : Exec (Server bits channel) ⊥ (Unit {0})) (b : Bool) (s : Server bits channel)
        → ((m >> pure b) s).1 ≡ (m s).1
    >>-pure-state m b s = after (m s).0 (m s).1
      where
        after :
            (r : Outcome ⊥ (Unit {0})) (s' : Server bits channel)
            → (continue r (λ _. pure b) s').1 ≡ s'
        after (ok a) s' = refl
        after (err e) s' = refl
        after panic s' = refl

    on_transaction-Agrees :
        (tr : Transaction Sender) (s : Server bits channel)
        → Agrees bits channel s
        → Agrees bits channel (on_transaction bits channel f tr s).1
    unfolding on_transaction
    on_transaction-Agrees (frame v token) s h =
        rw (>>-pure-state (on_frame bits channel f v token) false s) (on_frame-Agrees v token s h)
    on_transaction-Agrees (new_link link) s h =
        rw (>>-pure-state (on_new_link bits channel f link) false s) (on_new_link-Agrees link s h)
    on_transaction-Agrees (link_changed flags token) s h =
        rw (>>-pure-state (on_link_changed bits channel f flags token) false s)
          (on_link_changed-Agrees flags token s h)
    on_transaction-Agrees (server_changed flags) s h = on_server_changed-Agrees flags s h
    on_transaction-Agrees (bytes xs token) s h =
        Agrees-call bits channel s s.links (f (bytes xs token) s.world) (bytes xs token) (λ t. refl)
          h
    on_transaction-Agrees (client_changed flags token) s h =
        Agrees-call bits channel s s.links (f (client_changed flags token) s.world)
          (client_changed flags token) (λ t. refl) h

    -- In every run of the forward loop, whatever the other tasks do, also in one that panics, the
    -- application stays in agreement with the table of the links, where it was before: it was told
    -- ATTACHED, and no DETACHED since, of exactly the tokens that are in the table.
    pub forward_loop-Agrees :
        (received : List ((World → World) × Transaction Sender)) (s : Server bits channel)
        → Agrees bits channel s
        → Agrees bits channel (forward_loop bits channel f received s).1
    unfolding forward_loop
    forward_loop-Agrees [] s h = h
    forward_loop-Agrees ((others, tr) ∷ rest) s h =
        let s' : Server bits channel = record s { world = others s.world } in
        after (on_transaction bits channel f tr s').0 (on_transaction bits channel f tr s').1
          (λ s v. forward_loop-Agrees rest s v) (on_transaction-Agrees tr s' h)
      where
        after :
            (r : Outcome ⊥ Bool) (s' : Server bits channel)
            → ((s : Server bits channel)
                → Agrees bits channel s
                → Agrees bits channel (forward_loop bits channel f rest s).1)
            → Agrees bits channel s'
            → Agrees bits channel
                (continue r
                  (λ stop. if stop then pure tt else forward_loop bits channel f rest)
                  s').1
        after (ok true) s' again v = v
        after (ok false) s' again v = again s' v
        after (err e) s' again v = v
        after panic s' again v = v
