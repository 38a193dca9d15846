-- ===== src/Composition/Arriving.antt =====
-- From the frames that the application of a server sends to one link to what the application of the
-- client is told.
use h2l.Base.{
  ℕ, ◌+◌, ◌<◌, ◌≡◌, refl, ap, sym, ◌∙◌, ◌⊎◌, inl, inr, some, List, [], ◌++◌, append_assoc, length,
  length-append, All, All-append_left, arith,
}
use mathlib.Core.Path.{subst}
use h2l.Base.Outcome.{Outcome}
use h2l.Crates.Bitflags.{Bitflags}
use h2l.Crates.BytesMut.{BytesMut}
use h2l.Crates.Channel.{Channel}
use h2l.Crates.TcpStream.{TcpStream}
use h2l.Frame.Error.{IoError}
use h2l.Frame.Any.{Frame}
use h2l.Transaction.{Token, Link, Transaction, transactions}
use h2l.Server.Forward.{Server, find_link}
use h2l.Link.Reads.{stream_wire, all_received}
use h2l.Link.Tasks.{in_frames}
use h2l.Link.Write
use h2l.Link.Written.{KeepsWritten, Failed, link_ends, write_loop-WritesAll}
use h2l.Client.Receive
use h2l.Client.Forward.{read_closed, Shared, Client}
use h2l.Client.Task.{Worker, read_task}
use h2l.Client.Tasks.{IsConnected, Holds}
use h2l.Composition.Frames.{queued, frames, delivered_wire, All-queued, client_readable-IsSendable}
use h2l.Composition.Delivery.{Delivers, forward_loop-Delivers}
use h2l.Composition.Sending.{
  send_each, PutFrames, send_each-PutFrames, transactions-queued, in_frames-same, in_frames-append,
  All-both,
}

module _ {Sender : Type 0} (bits : Bitflags) (channel : Channel Sender (Transaction Sender))
    (buf : BytesMut) (near far : TcpStream)
    (f : Transaction Sender → Shared bits channel → Shared bits channel) where
  open channel use {sent}

  -- The channel of a link has taken some frames before, which a client reads, and the application sends
  -- more of these to the link, up to the first error. The write loop of the link receives what the
  -- channel has taken, on a stream with nothing written so far, and a client at the other end gets the
  -- bytes written and then the end of the stream; while its reading task runs, no loop is marked as ended,
  -- the token stays, and no other task takes the mark of the reader away once it is there, as an
  -- `add_flags` does that overlaps; and its forward loop receives all that this task sent. Then some first part of
  -- the frames is such that the channel has taken this part, all of the frames if no error was returned,
  -- or refused the next one; and the application of the client was told exactly the frames from before
  -- and those of this part, in order and as a client receives them, and at the end that the reader was
  -- closed (nothing at the end where the reading task panicked), or its forward loop panics at the
  -- report, since its outgoing channel did not take the notice for the write loop; or the connection failed under the write loop.
  pub send_each-Delivers :
      (token : Token) (link : Link Sender) (before fs : List Frame) (s : Server bits channel)
      (sending : List ((near.Conn → near.Conn) × Frame)) (c : near.Conn)
      (shutdown : far.Conn → Outcome IoError (Unit {0})) (incoming_tx : Sender) (own : Token)
      (others : ℕ → Worker channel → Worker channel) (fuel : ℕ) (d : far.Conn) (r : Worker channel)
      (received : List ((Shared bits channel → Shared bits channel) × Transaction Sender))
      (x : Client bits channel)
      → find_link bits channel token s ≡ some link
      → sent s.world link.outgoing_tx ≡ in_frames token before
      → All Receive.IsReadable (before ++ fs)
      → transactions (queued sending (some token))
        ≡ sent (send_each bits channel token fs s).1.world link.outgoing_tx
      → near.written c ≡ []
      → All (λ q. KeepsWritten near q.0) sending
      → far.incoming d
        ≡ near.written
            (Write.write_loop {Sender = Sender} bits buf near (queued sending (some token)) c).1
      → length before + length fs < fuel
      → ((n : ℕ) (y : Worker channel)
          → IsConnected channel own y
          → IsConnected channel own (others n y))
      → Holds bits channel read_closed others
      → IsConnected channel own r
      → r.sends ≡ []
      → transactions received
        ≡ (read_task bits channel incoming_tx others buf far shutdown fuel d r).1.sends
      → (first : List Frame) × PutFrames bits channel token link fs s
          (send_each bits channel token fs s)
          first
        × (Delivers bits channel f own
              (all_received Receive.received (before ++ first))
              (read_task bits channel incoming_tx others buf far shutdown fuel d r).0
              received
              x
            ⊎ Failed near
                (Write.write_one {Sender = Sender} bits buf near)
                (queued sending (some token))
                c
                (Write.write_loop {Sender = Sender} bits buf near
                  (queued sending (some token))
                  c).1)
  send_each-Delivers token link before fs s sending c shutdown incoming_tx own others fuel d r
        received x h held readable queue fresh keeps wire enough keep hold connected start order =
      let (first, put) = send_each-PutFrames bits channel token link fs s h in
      let (rest, split, taken, _) = put in
      let all : in_frames token (frames sending) ≡ in_frames token (before ++ first) =
        sym (transactions-queued Sender token sending)
        ∙ queue
        ∙ taken
        ∙ ap (λ l. l ++ in_frames token first) held
        ∙ sym (in_frames-append Sender token before first) in
      let same : frames sending ≡ before ++ first =
        in_frames-same Sender token (frames sending) (before ++ first) all in
      let whole : before ++ fs ≡ (before ++ first) ++ rest =
        ap (λ l. before ++ l) split ∙ sym (append_assoc before first rest) in
      let fits : All Receive.IsReadable (before ++ first) =
        All-append_left Receive.IsReadable (before ++ first) rest
          (subst (All Receive.IsReadable) whole readable) in
      let (c', left, e, q) = write_loop-WritesAll bits buf near (queued sending (some token)) c (
        All-queued Sender (KeepsWritten near) Receive.IsReadable client_readable-IsSendable sending
          (some token)
          (All-both (KeepsWritten near) Receive.IsReadable sending keeps
            (subst (All Receive.IsReadable) (sym same) fits))) in
      let end : (Write.write_loop {Sender = Sender} bits buf near (queued sending (some token)) c).1
          ≡ c' =
        ap (λ p. p.1) e in
      let short : length (before ++ first) < fuel =
        omega
          (arith, length-append (before ++ first) rest, length-append before fs, ap length whole) in
      (
        first,
        put,
        elim q [
          | inl (told, p) ↦ inl (
              forward_loop-Delivers bits channel f buf far shutdown incoming_tx own others fuel
                (before ++ first) d [] r received x fits
                (delivered_wire Sender (link_ends bits buf near) (λ g t. refl) sending (some token)
                    (near.written c) (near.written c') (far.incoming d) fresh p
                    (wire ∙ ap near.written end)
                  ∙ ap (λ l. stream_wire l ++ []) same)
                (omega arith) short keep hold connected start order)
          | inr (ended, p) ↦ inr (
              subst
                (λ (e' : near.Conn).
                  Failed near (Write.write_one {Sender = Sender} bits buf near)
                    (queued sending (some token)) c e')
                (sym end) p)
        ],
      )
