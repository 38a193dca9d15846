-- ===== src/Composition/Sending.antt =====
-- What the application of a server sends to one link: frames that the channel of the link takes.
use h2l.Base.{
  ◌≡◌, refl, ap, sym, ◌∙◌, ◌⊎◌, inl, inr, some, List, [], ◌∷◌, ◌++◌, append-nil, append_assoc, All,
}
use h2l.Base.Outcome.{Outcome, ok, err}
use h2l.Base.Exec.{Exec, pure, ◌>>◌}
use h2l.Crates.Bitflags.{Bitflags}
use h2l.Crates.Channel.{Channel, TrySendError}
use h2l.Frame.Any.{Frame}
use h2l.Transaction.{Token, Link, Transaction, frame, transactions}
use h2l.Server.Forward.{Server, SendError, try_send_error, find_link, send, send_found, send_to}
use h2l.Link.Tasks.{in_frames}
use h2l.Composition.Frames.{queued, frames}

module _ {Sender : Type 0} (bits : Bitflags) (channel : Channel Sender (Transaction Sender)) where
  open channel use {World, sent, try_send_cases}

  -- An application that sends frames to a link by `Server::send_to`, up to the first error.
  abbrev pub send_each : Token → List Frame → Exec (Server bits channel) SendError (Unit {0})
  send_each token [] = pure tt
  send_each token (f ∷ rest) =
      send_to bits channel token (frame f (some token)) >> send_each token rest

  -- All the frames; or those before the one that the channel of the link refused.
  abbrev pub PutFrames :
      Token
      → Link Sender
      → List Frame
      → Server bits channel
      → Outcome SendError (Unit {0}) × Server bits channel
      → List Frame
      → Type 0
  PutFrames token link fs s r first =
      (rest : List Frame) × (fs ≡ first ++ rest)
      × (sent r.1.world link.outgoing_tx ≡ sent s.world link.outgoing_tx ++ in_frames token first)
      × (((r.0 ≡ ok tt) × (rest ≡ [])) ⊎ ((e : TrySendError) × (r.0 ≡ err (try_send_error e))))

  pub send_each-PutFrames :
      (token : Token) (link : Link Sender) (fs : List Frame) (s : Server bits channel)
      → find_link bits channel token s ≡ some link
      → (first : List Frame) × PutFrames token link fs s (send_each token fs s) first
  unfolding find_link send_to send_found send
  send_each-PutFrames token link [] s h =
      ([], ([], refl, sym (append-nil (sent s.world link.outgoing_tx)), inl (refl, refl)))
  send_each-PutFrames token link (f ∷ fs) s h =
      elim (try_send_cases link.outgoing_tx (frame f (some token)) s.world) [
        | inl (w, e, put) ↦
            let (first, (rest, q, p, o)) =
              send_each-PutFrames token link fs (record s { world = w }) h in
            rw (h, e)
              (
                f ∷ first,
                (
                  rest,
                  ap (λ l. f ∷ l) q,
                  p
                      ∙ ap (λ l. l ++ in_frames token first) put
                      ∙ append_assoc (sent s.world link.outgoing_tx) (frame f (some token) ∷ [])
                          (in_frames token first),
                  o,
                ),
              )
        | inr (e, q) ↦
            rw (h, q)
              ([], (f ∷ fs, refl, sym (append-nil (sent s.world link.outgoing_tx)), inr (e, refl)))
      ]

module _ {C : Type 0} where
  pub All-both :
      (Keeps : (C → C) → Type 0) (Readable : Frame → Type 0) (sending : List ((C → C) × Frame))
      → All (λ r. Keeps r.0) sending
      → All Readable (frames sending)
      → All (λ r. Keeps r.0 × Readable r.1) sending
  All-both Keeps Readable [] h k = tt
  All-both Keeps Readable ((others, f) ∷ rest) (h, hs) (k, ks) =
      ((h, k), All-both Keeps Readable rest hs ks)

module _ (Sender : Type 0) (token : Token) where
  pub transactions-queued :
      {C : Type 0} (sending : List ((C → C) × Frame))
      → transactions (queued {Sender = Sender} sending (some token))
        ≡ in_frames token (frames sending)
  transactions-queued [] = refl
  transactions-queued ((others, f) ∷ rest) =
      ap (λ l. frame f (some token) ∷ l) (transactions-queued rest)

  pub in_frames-same :
      (fs gs : List Frame) → in_frames {Sender = Sender} token fs ≡ in_frames token gs → fs ≡ gs
  in_frames-same [] [] e = refl
  in_frames-same [] (g ∷ gs) e = cc e
  in_frames-same (f ∷ fs) [] e = cc e
  in_frames-same (f ∷ fs) (g ∷ gs) e =
      let same : f ≡ g = cc e in let rest : fs ≡ gs = in_frames-same fs gs (cc e) in cc (same, rest)

  pub in_frames-append :
      (fs gs : List Frame)
      → in_frames {Sender = Sender} token (fs ++ gs) ≡ in_frames token fs ++ in_frames token gs
  in_frames-append [] gs = refl
  in_frames-append (f ∷ fs) gs = ap (λ l. frame f (some token) ∷ l) (in_frames-append fs gs)
