-- ===== src/Server/Served.antt =====
-- What the forward loop of the server hands to the application of one link.
use h2l.Base.{
  Bool-cases, ◌≡◌, refl, sym, ◌⊎◌, inl, inr, some, List, [], ◌∷◌, ◌++◌, append-nil, append_assoc,
  false, All,
}
use h2l.Base.Outcome.{ok, panic}
use h2l.Crates.Bitflags.{Bitflags}
use h2l.Crates.Channel.{Channel}
use h2l.Frame.Settings
use h2l.Frame.Settings.{Settings}
use h2l.Frame.Any.{
  Frame, data_frame, headers, priority, reset, settings, go_away, window_update, continuation,
  bin_code, unknown,
}
use h2l.Transaction.{Token, Link, Transaction, frame}
use h2l.Server.Forward.{Server, find_link, on_settings, on_frame, on_transaction, forward_loop}
use h2l.Server.Calls.{visible, visible_all, IsQuiet, forward_loop-visible_all}
use h2l.Server.Reply.{Refused, on_transaction-settings_reply}

module _ {Sender : Type 0} (W : Type 0) (token : Token) where
  -- Frames of the link, each with what other tasks did before it is received.
  abbrev pub frames_received : List ((W → W) × Frame) → List ((W → W) × Transaction Sender)
  frames_received [] = []
  frames_received ((others, v) ∷ rest) = (others, frame v (some token)) ∷ frames_received rest

module _ {Sender : Type 0} (bits : Bitflags) (channel : Channel Sender (Transaction Sender))
    (token : Token) (link : Link Sender)
    (f : Transaction Sender → channel.World → channel.World) where
  open channel use {World}

  -- The frame is handled, the link is still there, and these calls are made; or the loop
  -- panics, since the channel of the link refused an answer.
  abbrev Serves : Frame → Server bits channel → Type 0
  Serves v s =
      ((s' : Server bits channel) × (on_transaction bits channel f (frame v (some token)) s
          ≡ (ok false, s'))
        × (s'.calls ≡ s.calls ++ visible (frame v (some token)))
        × (find_link bits channel token s' ≡ some link))
      ⊎ ((s' : Server bits channel) × (on_transaction bits channel f (frame v (some token)) s
            ≡ (panic, s'))
          × Refused bits channel link)

  on_settings-Serves :
      (v : Settings) (s : Server bits channel)
      → find_link bits channel token s ≡ some link
      → Serves (settings v) s
  unfolding on_transaction on_frame on_settings find_link
  on_settings-Serves v s h = elim (Bool-cases (Settings.is_ack bits v.flags)) [
    | inl e ↦ inl (s, rw e refl, sym (append-nil s.calls), h)
    | inr e ↦ elim (on_transaction-settings_reply bits channel f v token link s e h) [
      | inl (w, q, r) ↦ inl (record s { world = w }, q, sym (append-nil s.calls), h)
      | inr p ↦ inr p
    ]
  ]

  on_frame-Serves :
      (v : Frame) (s : Server bits channel)
      → find_link bits channel token s ≡ some link
      → Serves v s
  unfolding on_transaction on_frame find_link
  on_frame-Serves (data_frame d) s h = inl (_, refl, refl, h)
  on_frame-Serves (headers k) s h = inl (_, refl, refl, h)
  on_frame-Serves (settings v) s h = on_settings-Serves v s h
  on_frame-Serves (priority _) s h = inl (s, refl, sym (append-nil s.calls), h)
  on_frame-Serves (reset _) s h = inl (s, refl, sym (append-nil s.calls), h)
  on_frame-Serves (go_away _) s h = inl (s, refl, sym (append-nil s.calls), h)
  on_frame-Serves (window_update _) s h = inl (s, refl, sym (append-nil s.calls), h)
  on_frame-Serves (continuation _) s h = inl (s, refl, sym (append-nil s.calls), h)
  on_frame-Serves (bin_code _) s h = inl (s, refl, sym (append-nil s.calls), h)
  on_frame-Serves unknown s h = inl (s, refl, sym (append-nil s.calls), h)

  -- The loop returns, and made these calls; or it panics, since the channel of the link refused an
  -- answer.
  abbrev pub Runs : List ((World → World) × Transaction Sender) → Server bits channel → Type 0
  Runs received s =
      ((s' : Server bits channel) × (forward_loop bits channel f received s ≡ (ok tt, s'))
        × (s'.calls ≡ s.calls ++ visible_all received))
      ⊎ ((s' : Server bits channel) × (forward_loop bits channel f received s ≡ (panic, s'))
          × Refused bits channel link)

  -- Frames of the link, and then transactions that need no answer.
  pub frames_received-Runs :
      (fs : List ((World → World) × Frame)) (last : List ((World → World) × Transaction Sender))
      (s : Server bits channel)
      → All (λ r. IsQuiet bits channel r.1) last
      → find_link bits channel token s ≡ some link
      → Runs (frames_received World token fs ++ last) s
  unfolding forward_loop find_link
  frames_received-Runs [] last s q h = inl (forward_loop-visible_all bits channel f last s q)
  frames_received-Runs ((others, v) ∷ rest) last s q h =
      let before : Server bits channel = record s { world = others s.world } in
      elim (on_frame-Serves v before h) [
        | inr (s', e, r) ↦ inr (s', rw e refl, r)
        | inl (s', e, c, h') ↦ elim (frames_received-Runs rest last s' q h') [
          | inr (s'', e', r) ↦ inr (s'', rw e e', r)
          | inl (s'', e', c') ↦ inl (s'', rw e e', simp (c', c, append_assoc))
        ]
      ]
