-- ===== src/Composition/Shutdown.antt =====
-- The server from its first connection to its end: the accept loop, the forward loop and what
-- `spawn` tells the application.
use h2l.Base.{
  ◌==◌, if◌then◌else◌, Bool-cases, ◌≡◌, refl, ap, ◌∙◌, inl, inr, List, [], ◌∷◌, ◌++◌, append_assoc,
  true, All,
}
use h2l.Base.Outcome.{ok}
use h2l.Base.Exec.{>>=-ok}
use h2l.Crates.Bitflags.{Bitflags}
use h2l.Crates.Channel.{Channel}
use h2l.Frame.Any.{
  data_frame, headers, priority, reset, settings, go_away, window_update, continuation, bin_code,
  unknown,
}
use h2l.Transaction.{
  Token, Link, Transaction, bytes, frame, client_changed, link_changed, new_link, server_changed,
  token_of,
}
use h2l.Server.Forward.{
  attached, detached, read_write_closed, accept_loop_exited, forward_loop_exited, Server, call,
  forward_loop,
}
use h2l.Server.Calls.{visible_all, IsQuiet, forward_loop-visible_all}
use h2l.Server.Accept.{Incoming, accept_loop, finish, terminated}
use h2l.Server.Accepted.{arrivals, is_stopped, new_links, last_word, accept_loop-new_links}

module _ {Sender : Type 0} where
  -- Of what the forward loop receives, what the accept loop sent.
  abbrev pub from_acceptor {ℓ} :
      {A : Type ℓ} → List (A × Transaction Sender) → List (Transaction Sender)
  from_acceptor [] = []
  from_acceptor ((others, new_link link) ∷ rest) = new_link link ∷ from_acceptor rest
  from_acceptor ((others, server_changed flags) ∷ rest) = server_changed flags ∷ from_acceptor rest
  from_acceptor ((others, tr) ∷ rest) = from_acceptor rest

  -- The tokens of which the application is told ATTACHED.
  abbrev pub attached_tokens : List (Transaction Sender) → List Token
  attached_tokens [] = []
  attached_tokens (link_changed flags token ∷ rest) =
      let more = attached_tokens rest in if flags == attached then token ∷ more else more
  attached_tokens (tr ∷ rest) = attached_tokens rest

  abbrev pub tokens : List (Link Sender) → List Token
  tokens [] = []
  tokens (link ∷ rest) = token_of link ∷ tokens rest

  -- The calls up to the end of the accept loop.
  abbrev UpToEnd {ℓ} : {A : Type ℓ} → List (A × Transaction Sender) → List (Link Sender) → Type 0
  UpToEnd received links =
      (xs : List (Transaction Sender)) × (visible_all received
        ≡ xs ++ (server_changed forward_loop_exited ∷ []))
      × (attached_tokens xs ≡ tokens links)

  module _ {W : Type 0} where
    visible_all-UpToEnd :
        (received : List (W × Transaction Sender)) (links : List (Link Sender))
        → from_acceptor received ≡ new_links links ++ last_word true
        → UpToEnd received links
    visible_all-UpToEnd [] [] e = cc e
    visible_all-UpToEnd [] (link ∷ links) e = cc e
    visible_all-UpToEnd ((others, new_link link) ∷ rest) [] e = cc e
    visible_all-UpToEnd ((others, new_link link) ∷ rest) (link' ∷ links) e =
        let (xs, v, a) = visible_all-UpToEnd rest links (cc e) in
        let same : link ≡ link' = cc e in
        (
          link_changed attached (token_of link) ∷ xs,
          ap (λ l. link_changed attached (token_of link) ∷ l) v,
          rw (same, a) refl,
        )
    visible_all-UpToEnd ((others, server_changed flags) ∷ rest) (link ∷ links) e = cc e
    visible_all-UpToEnd ((others, server_changed flags) ∷ rest) [] e =
        let same : flags ≡ accept_loop_exited = cc e in ([], rw same refl, refl)
    visible_all-UpToEnd ((others, bytes bs token) ∷ rest) links e =
        let (xs, v, a) = visible_all-UpToEnd rest links e in
        (bytes bs token ∷ xs, ap (λ l. bytes bs token ∷ l) v, a)
    visible_all-UpToEnd ((others, client_changed flags token) ∷ rest) links e =
        let (xs, v, a) = visible_all-UpToEnd rest links e in
        (client_changed flags token ∷ xs, ap (λ l. client_changed flags token ∷ l) v, a)
    visible_all-UpToEnd ((others, link_changed flags token) ∷ rest) links e =
        let (xs, v, a) = visible_all-UpToEnd rest links e in
        elim (Bool-cases (flags == read_write_closed)) [
          | inl closed ↦
              rw closed
                (link_changed detached token ∷ xs, ap (λ l. link_changed detached token ∷ l) v, a)
          | inr on ↦ rw on (xs, v, a)
        ]
    visible_all-UpToEnd ((others, frame (data_frame d) token) ∷ rest) links e =
        let (xs, v, a) = visible_all-UpToEnd rest links e in
        (frame (data_frame d) token ∷ xs, ap (λ l. frame (data_frame d) token ∷ l) v, a)
    visible_all-UpToEnd ((others, frame (headers h) token) ∷ rest) links e =
        let (xs, v, a) = visible_all-UpToEnd rest links e in
        (frame (headers h) token ∷ xs, ap (λ l. frame (headers h) token ∷ l) v, a)
    visible_all-UpToEnd ((others, frame (settings _) token) ∷ rest) links e =
        visible_all-UpToEnd rest links e
    visible_all-UpToEnd ((others, frame (priority _) token) ∷ rest) links e =
        visible_all-UpToEnd rest links e
    visible_all-UpToEnd ((others, frame (reset _) token) ∷ rest) links e =
        visible_all-UpToEnd rest links e
    visible_all-UpToEnd ((others, frame (go_away _) token) ∷ rest) links e =
        visible_all-UpToEnd rest links e
    visible_all-UpToEnd ((others, frame (window_update _) token) ∷ rest) links e =
        visible_all-UpToEnd rest links e
    visible_all-UpToEnd ((others, frame (continuation _) token) ∷ rest) links e =
        visible_all-UpToEnd rest links e
    visible_all-UpToEnd ((others, frame (bin_code _) token) ∷ rest) links e =
        visible_all-UpToEnd rest links e
    visible_all-UpToEnd ((others, frame unknown token) ∷ rest) links e =
        visible_all-UpToEnd rest links e

module _ {Sender : Type 0} (bits : Bitflags) (channel : Channel Sender (Transaction Sender))
    (f : Transaction Sender → channel.World → channel.World) where
  open channel use {World}

  -- Where the listener is bound and the accept loop comes to its end, whatever it sent is received in
  -- its order, with anything of the links in between, and no SETTINGS but ACKs are: the forward loop
  -- ends without a panic, whatever the other tasks do, and the application is told ATTACHED of exactly
  -- the connections that arrived, in their order, and last FORWARD_LOOP_EXITED and then TERMINATED.
  pub finish-terminated :
      (trans_tx : Sender) (incoming : List ((World → World) × Incoming Sender)) (w : World)
      (received : List ((World → World) × Transaction Sender)) (s : Server bits channel)
      → is_stopped incoming ≡ true
      → from_acceptor received
        ≡ (accept_loop channel trans_tx (ok tt) incoming (record { world = w; sends = [] })).1.sends
      → All (λ r. IsQuiet bits channel r.1) received
      → (s' : Server bits channel) × (finish bits channel f received s ≡ (ok tt, s'))
        × ((xs : List (Transaction Sender)) × (s'.calls
              ≡ s.calls
                ++ xs
                ++ (server_changed forward_loop_exited ∷ server_changed terminated ∷ []))
            × (attached_tokens xs ≡ tokens (arrivals incoming)))
  unfolding finish
  finish-terminated trans_tx incoming w received s stopped order quiet =
      let ((a', e, sent), unbound) =
        accept_loop-new_links channel trans_tx incoming (record { world = w; sends = [] }) in
      let (xs, v, t) = visible_all-UpToEnd received (arrivals incoming) (
        order
        ∙ ap (λ p. p.1.sends) e
        ∙ sent
        ∙ ap (λ b. new_links (arrivals incoming) ++ last_word b) stopped) in
      let (s', e', c) = forward_loop-visible_all bits channel f received s quiet in
      (
        _,
        >>=-ok (forward_loop bits channel f received)
            (λ u. call bits channel f (server_changed terminated)) s s' tt e',
        (xs, simp (c, v, append_assoc), t),
      )
