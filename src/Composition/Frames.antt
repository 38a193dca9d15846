-- ===== src/Composition/Frames.antt =====
-- Frames that one end writes are what the other end reads.
use h2l.Base.{
  ℕ, suc, ◌≡◌, refl, ap, sym, ◌∙◌, ◌⊎◌, inl, inr, Bool, true, false, Option, List, [], ◌∷◌, ◌++◌,
  append-nil, arith, length, All,
}
use h2l.Base.Outcome.{ok}
use h2l.Crates.Bitflags.{Bitflags}
use h2l.Crates.BytesMut.{BytesMut}
use h2l.Crates.TcpStream.{TcpStream}
use h2l.Frame.Any.{
  Frame, data_frame, headers, priority, reset, settings, go_away, window_update, continuation,
  bin_code, unknown,
}
use h2l.Frame.Any.Wire.{frame_wire, IsSendable}
use h2l.Transaction.{Token, Transaction, frame}
use h2l.Link.Read.{broken}
use h2l.Link
use h2l.Client
use h2l.Link.Reads.{stream_wire, all_received}
use h2l.Link.Receive.{read_frames-stream_wire}
use h2l.Link.Written.{KeepsWritten, IsWritable, outgoing_wire, is_told, Failed}
use h2l.Client.Written.{client_ends, write_loop-outgoing_wire}
use h2l.Client.Receive.{read_frames-all_received}

module _ {C : Type 0} where
  -- Frames in the outgoing channel, each with what the reading task does before it is taken.
  abbrev pub queued :
      {Sender : Type 0}
      → List ((C → C) × Frame)
      → Option Token
      → List ((C → C) × Transaction Sender)
  queued [] token = []
  queued ((others, f) ∷ rest) token = (others, frame f token) ∷ queued rest token

  abbrev pub frames : List ((C → C) × Frame) → List Frame
  frames [] = []
  frames ((others, f) ∷ rest) = f ∷ frames rest

  outgoing_wire-queued :
      {Sender : Type 0} (ends : Transaction Sender → Bool)
      → ((f : Frame) (token : Option Token) → ends (frame f token) ≡ false)
      → (sending : List ((C → C) × Frame)) (token : Option Token)
      → outgoing_wire ends (queued sending token) ≡ stream_wire (frames sending)
  outgoing_wire-queued ends on [] token = refl
  outgoing_wire-queued ends on ((others, f) ∷ rest) token =
      rw (on f token)
        (ap (λ (l : List ℕ). frame_wire f ++ l) (outgoing_wire-queued ends on rest token))

  pub is_told-queued :
      {Sender : Type 0} (ends : Transaction Sender → Bool)
      → ((f : Frame) (token : Option Token) → ends (frame f token) ≡ false)
      → (sending : List ((C → C) × Frame)) (token : Option Token)
      → is_told ends (queued sending token) ≡ false
  is_told-queued ends on [] token = refl
  is_told-queued ends on ((others, f) ∷ rest) token =
      rw (on f token) (is_told-queued ends on rest token)

  -- What the other end gets of a stream on which nothing but these frames was written.
  pub delivered_wire :
      (Sender : Type 0) (ends : Transaction Sender → Bool)
      → ((f : Frame) (token : Option Token) → ends (frame f token) ≡ false)
      → (sending : List ((C → C) × Frame)) (token : Option Token) (before after got : List ℕ)
      → before ≡ []
      → after ≡ before ++ outgoing_wire ends (queued sending token)
      → got ≡ after
      → got ≡ stream_wire (frames sending) ++ []
  delivered_wire Sender ends on sending token before after got start p h =
      h
      ∙ p
      ∙ ap (λ (l : List ℕ). l ++ outgoing_wire ends (queued sending token)) start
      ∙ outgoing_wire-queued ends on sending token
      ∙ sym (append-nil (stream_wire (frames sending)))

  pub All-queued :
      (Sender : Type 0) (Keeps : (C → C) → Type 0) (Readable : Frame → Type 0)
      → ((f : Frame) → Readable f → IsSendable f)
      → (sending : List ((C → C) × Frame)) (token : Option Token)
      → All (λ r. Keeps r.0 × Readable r.1) sending
      → All
          (λ (r : (C → C) × Transaction Sender). Keeps r.0 × IsWritable r.1)
          (queued sending token)
  All-queued Sender Keeps Readable fits [] token v = tt
  All-queued Sender Keeps Readable fits ((others, f) ∷ rest) token ((k, r), vs) =
      ((k, fits f r), All-queued Sender Keeps Readable fits rest token vs)

  All-frames :
      (Keeps : (C → C) → Type 0) (Readable : Frame → Type 0) (sending : List ((C → C) × Frame))
      → All (λ r. Keeps r.0 × Readable r.1) sending
      → All Readable (frames sending)
  All-frames Keeps Readable [] v = tt
  All-frames Keeps Readable ((others, f) ∷ rest) ((k, r), vs) =
      (r, All-frames Keeps Readable rest vs)

link_readable-IsSendable : (f : Frame) → Link.Receive.IsReadable f → IsSendable f
link_readable-IsSendable (data_frame d) v = v.0
link_readable-IsSendable (headers h) v = v
link_readable-IsSendable (settings s) v = v.0
link_readable-IsSendable (go_away g) v = v
link_readable-IsSendable (window_update w) v = v
link_readable-IsSendable (priority p) v = absurd v
link_readable-IsSendable (reset r) v = absurd v
link_readable-IsSendable (continuation c) v = absurd v
link_readable-IsSendable (bin_code b) v = absurd v
link_readable-IsSendable unknown v = absurd v

pub client_readable-IsSendable : (f : Frame) → Client.Receive.IsReadable f → IsSendable f
client_readable-IsSendable (data_frame d) v = v.0
client_readable-IsSendable (settings s) v = v.0
client_readable-IsSendable (headers h) v = v
client_readable-IsSendable (priority p) v = v
client_readable-IsSendable (reset r) v = v
client_readable-IsSendable (go_away g) v = v
client_readable-IsSendable (window_update w) v = v
client_readable-IsSendable (continuation c) v = v
client_readable-IsSendable (bin_code b) v = absurd v
client_readable-IsSendable unknown v = absurd v

module _ (far : TcpStream) where
  open far use {Conn, incoming}

  -- What a reader at the other end of the stream receives, once it got all that was written.
  abbrev pub Arrives :
      ((ℕ → Conn → List Frame × (Link.Read.End × Conn))) → List ℕ → List Frame → ℕ → Type 0
  Arrives loop ws fs fuel =
      (d : Conn) → incoming d ≡ ws → (d' : Conn) × (loop fuel d ≡ (fs, (broken, d')))

module _ (Sender : Type 0) (bits : Bitflags) (buf : BytesMut) (near far : TcpStream) where
  open near use {Conn, written}

  -- A client writes frames which a link can read, on a stream with nothing written so far, whatever its
  -- reading task does meanwhile: its write loop waits for more behind the frames, and a link at the
  -- other end that gets the bytes written receives exactly these frames, in order; or the connection
  -- failed, and the loop has ended.
  pub link_receives :
      (sending : List ((Conn → Conn) × Frame)) (token : Option Token) (c : Conn)
      → written c ≡ []
      → All (λ r. KeepsWritten near r.0 × Link.Receive.IsReadable r.1) sending
      → (c' : Conn) × (left : Bool) × (Client.Write.write_loop {Sender = Sender} bits buf near
            (queued sending token)
            c
          ≡ (ok left, c'))
        × (((left ≡ false)
              × Arrives far
                  (Link.Read.read_frames bits buf far)
                  (written c')
                  (all_received Link.Receive.received (frames sending))
                  (suc (length (frames sending))))
            ⊎ ((left ≡ true)
                × Failed near
                    (Client.Write.write_one {Sender = Sender} bits buf near)
                    (queued sending token)
                    c
                    c'))
  link_receives sending token c start v =
      let (c', left, e, q) = write_loop-outgoing_wire bits buf near (queued sending token) c (
        All-queued Sender (KeepsWritten near) Link.Receive.IsReadable link_readable-IsSendable
          sending token v) in
      (
        c',
        left,
        e,
        elim q [
          | inl (t, p) ↦ inl (
            t ∙ is_told-queued (client_ends bits buf near) (λ f t'. refl) sending token,
            (λ d h.
                read_frames-stream_wire bits buf far (suc (length (frames sending)))
                  (frames sending) d []
                  (All-frames (KeepsWritten near) Link.Receive.IsReadable sending v)
                  (delivered_wire Sender (client_ends bits buf near) (λ f t'. refl) sending token
                    (written c) (written c') (far.incoming d) start p h)
                  (omega arith) (omega arith)),
          )
          | inr p ↦ inr p
        ],
      )
