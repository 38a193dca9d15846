-- ===== src/Server/Confined.antt =====
-- The channel of one link holds what its server may put there, whatever the other links send.
use h2l.Base.{
  ℕ, ◌==◌, if◌then◌else◌, Bool-cases, ◌≡◌, inl, inr, Option, none, some, List, [], ◌∷◌, Bool, true,
  false, All,
}
use h2l.Base.Outcome.{Outcome, ok, err, panic}
use h2l.Base.Exec.{Exec, continue, pure, ◌>>◌}
use h2l.Crates.Bitflags.{Bitflags}
use h2l.Crates.Channel.{Channel}
use h2l.Frame.Settings
use h2l.Frame.Settings.{Settings}
use h2l.Frame.Any.{
  Frame, data_frame, headers, priority, reset, settings, go_away, window_update, continuation,
  bin_code, unknown,
}
use h2l.Transaction.{
  Token, Transaction, bytes, frame, client_changed, link_changed, new_link, server_changed,
  token_of,
}
use h2l.Server.Forward.{
  read_closed, read_write_closed, accept_loop_exited, unwrap_or, unwrap, Server, send_to,
  on_settings, on_frame, on_new_link, on_link_changed, on_server_changed, on_transaction,
  forward_loop,
}
use h2l.Server.Agreement.{>>-pure-state}
use h2l.Server.Outgoing.{
  Owns, OwnsAll, OwnsAll-remove, answers, Puts, Puts-refl, Puts-trans, Fair, send_to-Fair,
}

module _ {Sender : Type 0} (bits : Bitflags) (channel : Channel Sender (Transaction Sender))
    (Q : Transaction Sender → Type 0) (token : Token) (tx : Sender)
    (f : Transaction Sender → channel.World → channel.World) where
  open channel use {World}

  -- What holds of the transactions received, for a channel that belongs to one link: its answers are of
  -- the kind, and a link that comes has another channel, unless it is this one.
  abbrev pub Allowed : Transaction Sender → Type 0
  Allowed (new_link link) = Owns token tx (token_of link) link
  Allowed tr = All Q (answers bits token tr)

  >>-Fair :
      {A : Type 0} (m : Exec (Server bits channel) ⊥ (Unit {0}))
      (k : Exec (Server bits channel) ⊥ A) (s : Server bits channel)
      → Fair bits channel Q token tx s (m s).1
      → ((s' : Server bits channel)
          → OwnsAll token tx s'.links
          → Fair bits channel Q token tx s' (k s').1)
      → Fair bits channel Q token tx s ((m >> k) s).1
  >>-Fair m k s (p, own) h = after (m s).0 (m s).1 p own
    where
      after :
          (r : Outcome ⊥ (Unit {0})) (s' : Server bits channel)
          → Puts bits channel Q token tx s.world s'.world
          → OwnsAll token tx s'.links
          → Fair bits channel Q token tx s (continue r (λ _. k) s').1
      after (ok a) s' p' own' =
          let (p'', own'') = h s' own' in
          (Puts-trans bits channel Q token tx s.world s'.world _ p' p'', own'')
      after (err e) s' p' own' = (p', own')
      after panic s' p' own' = (p', own')

  answers-settings :
      (v : Settings) (to : Option Token)
      → Settings.is_ack bits v.flags ≡ false
      → All Q (answers bits token (frame (settings v) to))
      → (unwrap_or bits channel to 0 == token) ≡ true
      → Q (frame (settings v) to) × Q (frame (settings Settings.ack) to)
  answers-settings v none open_ack h e =
      let here : (0 == token) ≡ true = e in
      let both : All Q (frame (settings v) none ∷ frame (settings Settings.ack) none ∷ []) =
        rw (here, open_ack) at h in
      (both.0, both.1.0)
  answers-settings v (some other) open_ack h e =
      let here : (other == token) ≡ true = e in
      let both : All Q
          (frame (settings v) (some other) ∷ frame (settings Settings.ack) (some other) ∷ []) =
        rw (here, open_ack) at h in
      (both.0, both.1.0)

  on_settings-Fair :
      (v : Settings) (to : Option Token) (s : Server bits channel)
      → OwnsAll token tx s.links
      → All Q (answers bits token (frame (settings v) to))
      → Fair bits channel Q token tx s (on_settings bits channel f v to s).1
  unfolding on_settings
  on_settings-Fair v to s own h = elim (Bool-cases (Settings.is_ack bits v.flags)) [
    | inl e ↦ rw e (Puts-refl bits channel Q token tx s.world, own)
    | inr e ↦ rw e (
        >>-Fair
          (unwrap bits channel
            (send_to bits channel (unwrap_or bits channel to 0) (frame (settings v) to)))
          (unwrap bits channel
            (send_to bits channel (unwrap_or bits channel to 0) (frame (settings Settings.ack) to)))
          s
          (send_to-Fair bits channel Q token tx (unwrap_or bits channel to 0)
            (frame (settings v) to) s own (λ here. (answers-settings v to e h here).0))
          (λ s' own'.
            send_to-Fair bits channel Q token tx (unwrap_or bits channel to 0)
              (frame (settings Settings.ack) to) s' own'
              (λ here. (answers-settings v to e h here).1)))
  ]

  on_link_changed-Fair :
      (calls : (tr : Transaction Sender) (w : World) → Puts bits channel Q token tx w (f tr w))
      (flags : ℕ) (other : Token) (s : Server bits channel)
      → OwnsAll token tx s.links
      → All Q (answers bits token (link_changed flags other))
      → Fair bits channel Q token tx s (on_link_changed bits channel f flags other s).1
  unfolding on_link_changed
  on_link_changed-Fair calls flags other s own h = elim (Bool-cases (flags == read_closed)) [
    | inl e ↦ rw e (
        send_to-Fair bits channel Q token tx other (link_changed flags other) s own
          (λ here. (told here e).0))
    | inr e ↦ elim (Bool-cases (flags == read_write_closed)) [
      | inl e' ↦ rw (e, e') (calls _ s.world, OwnsAll-remove token tx s.links other own)
      | inr e' ↦ rw (e, e') (Puts-refl bits channel Q token tx s.world, own)
    ]
  ]
    where
      told :
          (other == token) ≡ true
          → (flags == read_closed) ≡ true
          → All Q (link_changed flags other ∷ [])
      told here e = rw (here, e) at h

  on_frame-Fair :
      (calls : (tr : Transaction Sender) (w : World) → Puts bits channel Q token tx w (f tr w))
      (v : Frame) (to : Option Token) (s : Server bits channel)
      → OwnsAll token tx s.links
      → All Q (answers bits token (frame v to))
      → Fair bits channel Q token tx s (on_frame bits channel f v to s).1
  unfolding on_frame
  on_frame-Fair calls (data_frame d) to s own h = (calls _ s.world, own)
  on_frame-Fair calls (headers k) to s own h = (calls _ s.world, own)
  on_frame-Fair calls (settings v) to s own h = on_settings-Fair v to s own h
  on_frame-Fair calls (priority _) to s own h = (Puts-refl bits channel Q token tx s.world, own)
  on_frame-Fair calls (reset _) to s own h = (Puts-refl bits channel Q token tx s.world, own)
  on_frame-Fair calls (go_away _) to s own h = (Puts-refl bits channel Q token tx s.world, own)
  on_frame-Fair calls (window_update _) to s own h =
      (Puts-refl bits channel Q token tx s.world, own)
  on_frame-Fair calls (continuation _) to s own h = (Puts-refl bits channel Q token tx s.world, own)
  on_frame-Fair calls (bin_code _) to s own h = (Puts-refl bits channel Q token tx s.world, own)
  on_frame-Fair calls unknown to s own h = (Puts-refl bits channel Q token tx s.world, own)

  on_server_changed-Fair :
      (calls : (tr : Transaction Sender) (w : World) → Puts bits channel Q token tx w (f tr w))
      (flags : ℕ) (s : Server bits channel)
      → OwnsAll token tx s.links
      → Fair bits channel Q token tx s (on_server_changed bits channel f flags s).1
  unfolding on_server_changed
  on_server_changed-Fair calls flags s own = elim (Bool-cases (flags == accept_loop_exited)) [
    | inl e ↦ rw e (calls _ s.world, own)
    | inr e ↦ rw e (Puts-refl bits channel Q token tx s.world, own)
  ]

  on_transaction-Fair :
      (calls : (tr : Transaction Sender) (w : World) → Puts bits channel Q token tx w (f tr w))
      (tr : Transaction Sender) (s : Server bits channel)
      → OwnsAll token tx s.links
      → Allowed tr
      → Fair bits channel Q token tx s (on_transaction bits channel f tr s).1
  unfolding on_transaction on_new_link
  on_transaction-Fair calls (frame v to) s own h =
      rw (>>-pure-state bits channel f (on_frame bits channel f v to) false s)
        (on_frame-Fair calls v to s own h)
  on_transaction-Fair calls (new_link link) s own h =
      (calls _ s.world, (h, OwnsAll-remove token tx s.links (token_of link) own))
  on_transaction-Fair calls (link_changed flags other) s own h =
      rw (>>-pure-state bits channel f (on_link_changed bits channel f flags other) false s)
        (on_link_changed-Fair calls flags other s own h)
  on_transaction-Fair calls (server_changed flags) s own h =
      on_server_changed-Fair calls flags s own
  on_transaction-Fair calls (bytes xs to) s own h = (calls _ s.world, own)
  on_transaction-Fair calls (client_changed flags other) s own h = (calls _ s.world, own)

  -- A channel of which only one link holds the sending end: the links of the table and those that come
  -- have other channels, unless they have the token of this link. What the closure of the application
  -- and the other tasks put into it, and the answers to what this link sends (its SETTINGS, an ACK, the
  -- report that its reader is closed), are all of some kind. Then, also where the loop panics, nothing
  -- is taken back from the channel, and all that is put into it is of this kind: the forward loop puts
  -- nothing else there, whatever the other links send.
  pub forward_loop-Puts :
      (received : List ((World → World) × Transaction Sender)) (s : Server bits channel)
      → ((tr : Transaction Sender) (w : World) → Puts bits channel Q token tx w (f tr w))
      → All (λ r. ((w : World) → Puts bits channel Q token tx w (r.0 w)) × Allowed r.1) received
      → OwnsAll token tx s.links
      → Puts bits channel Q token tx s.world (forward_loop bits channel f received s).1.world
  unfolding forward_loop
  forward_loop-Puts [] s calls all own = Puts-refl bits channel Q token tx s.world
  forward_loop-Puts ((others, tr) ∷ rest) s calls ((o, h), all) own =
      let before : Server bits channel = record s { world = others s.world } in
      let (p, own') = on_transaction-Fair calls tr before own h in
      Puts-trans bits channel Q token tx s.world (others s.world) _ (o s.world) (
        after (on_transaction bits channel f tr before).0
          (on_transaction bits channel f tr before).1 before.world p own'
          (λ s' own''. forward_loop-Puts rest s' calls all own''))
    where
      after :
          (r : Outcome ⊥ Bool) (s' : Server bits channel) (w : World)
          → Puts bits channel Q token tx w s'.world
          → OwnsAll token tx s'.links
          → ((s' : Server bits channel)
              → OwnsAll token tx s'.links
              → Puts bits channel Q token tx s'.world (forward_loop bits channel f rest s').1.world)
          → Puts bits channel Q token tx w
              (continue r
                (λ stop. if stop then pure tt else forward_loop bits channel f rest)
                s').1.world
      after (err e) s' w p own again = absurd e
      after panic s' w p own again = p
      after (ok true) s' w p own again = p
      after (ok false) s' w p own again =
          Puts-trans bits channel Q token tx w s'.world _ p (again s' own)
