-- ===== src/Link/Task.antt =====
-- link.rs: the reading and the writing task of a link, whole, with what they send to the forward
-- loop of the server.
use h2l.Base.{ℕ, ◌+◌, Bool, true, false, List, [], ◌∷◌, ◌++◌, some, length}
use h2l.Base.Outcome.{ok, panic}
use h2l.Base.Exec.{Exec, pure, lift, ◌>>◌, ◌>>=◌}
use h2l.Crates.Bitflags.{Bitflags}
use h2l.Crates.BytesMut.{BytesMut}
use h2l.Crates.Channel.{Channel}
use h2l.Crates.Httparse.{Httparse}
use h2l.Crates.TcpStream.{TcpStream}
use h2l.Frame.Any.{Frame}
use h2l.Transaction.{Token, Transaction, frame, link_changed}
use h2l.Server.Forward.{read_closed, write_closed}
use h2l.Link.Read.{End, broken, panicked, more}
use h2l.Link.Handshake.{read_loop}
use h2l.Link.Write.{write_loop}
use h2l.Link.Flags.{flags, add_flags}

module _ {Sender : Type 0} (channel : Channel Sender (Transaction Sender)) where
  -- The flags of the link, the channels, and what the task sent so far.
  pub record Reporter : Type 0 where
    pub raw_flags : ℕ
    pub world : channel.World
    pub sends : List (Transaction Sender)

module _ {Sender : Type 0} (bits : Bitflags) (channel : Channel Sender (Transaction Sender))
    (incoming_tx : Sender) (token : Token) (others : ℕ → Reporter channel → Reporter channel) where
  -- What other tasks do at a moment behind the sends made so far.
  abbrev pub others_after : ℕ → Reporter channel → Reporter channel
  others_after k s = record (others (length s.sends + k) s) { sends = s.sends }

  -- What other tasks do to the flags and the channels, after the sends made so far.
  abbrev pub by_others : Reporter channel → Reporter channel
  by_others s = record (others (length s.sends) s) { sends = s.sends }

  -- A send that fails is only logged.
  unfoldable pub send_incoming : Transaction Sender → Exec (Reporter channel) ⊥ (Unit {0})
  send_incoming tr s =
      let (r, w) = channel.send incoming_tx tr s.world in
      (ok tt, record s { world = w; sends = s.sends ++ (tr ∷ []) })

  -- The frames that were read, one after the other.
  unfoldable pub send_frames : List Frame → Exec (Reporter channel) ⊥ (Unit {0})
  send_frames [] = pure tt
  send_frames (f ∷ rest) =
      (λ s. send_incoming (frame f (some token)) (by_others s)) >> send_frames rest

  -- The ends of both tasks: `add_flags` loads the flags and then stores them with one more, and `flags`
  -- loads them again for the report; other tasks go on before each of the three.
  unfoldable pub report : ℕ → Exec (Reporter channel) ⊥ (Unit {0})
  report val s =
      let s1 : Reporter channel = others_after 1 s in
      let s2 : Reporter channel = others_after 2 s1 in
      let s3 : Reporter channel =
        others_after 3 (record s2 { raw_flags = add_flags bits val s1.raw_flags }) in
      send_incoming (link_changed (flags s3.raw_flags) token) s3

  -- A panic in the loop ends the task before its report.
  unfoldable pub at_end : End → Exec (Reporter channel) ⊥ (Unit {0})
  at_end broken = report read_closed
  at_end panicked = lift panic
  at_end more = pure tt

  -- `read_loop`, whole.
  unfoldable pub read_task :
      (buf : BytesMut) (http : Httparse) (tcp : TcpStream)
      → ℕ
      → tcp.Conn
      → Exec (Reporter channel) ⊥ (Unit {0})
  read_task buf http tcp fuel c =
      let (frames, (end, c')) = read_loop bits buf http tcp fuel c in
      send_frames frames >> at_end end

  -- Behind the write loop, if it has ended.
  unfoldable pub leave : Bool → Exec (Reporter channel) ⊥ Bool
  leave true = report write_closed >> pure true
  leave false = pure false

  -- `write_loop`, whole; `false` when the loop waits for more.
  unfoldable pub write_task :
      (buf : BytesMut) (tcp : TcpStream)
      → List ((tcp.Conn → tcp.Conn) × Transaction Sender)
      → tcp.Conn
      → Exec (Reporter channel) ⊥ Bool
  write_task buf tcp received c =
      let (r, c') = write_loop bits buf tcp received c in lift r >>= leave
