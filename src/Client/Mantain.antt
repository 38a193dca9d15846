-- ===== src/Client/Mantain.antt =====
-- client.rs: `mantain_loop`, which connects, opens the connection, runs the reading and the writing
-- task to their ends, and connects again.
use h2l.Base.{ℕ, List, [], ◌∷◌, ◌++◌, Bool, true, false, not, if◌then◌else◌, some}
use h2l.Base.Outcome.{Outcome, ok, err, panic}
use h2l.Base.Exec.{Exec, pure, ◌>>=◌, ◌>>◌}
use h2l.Crates.Bitflags.{Bitflags}
use h2l.Crates.BytesMut.{BytesMut}
use h2l.Crates.Channel.{Channel, SendError}
use h2l.Crates.TcpStream.{TcpStream}
use h2l.Frame.Error.{IoError}
use h2l.Frame.Settings.{Settings}
use h2l.Frame.Any.{settings}
use h2l.Transaction.{Transaction, client_changed, frame}
use h2l.Client.Forward.{mantain_loop_exited}
use h2l.Client.Flags.{
  handshaked, reconnected, read_write_closed, loaded_flags, add_flags, remove_flags,
}
use h2l.Client.Handshake.{HandshakeError, handshake}

-- `unwrap` on what `send` gives.
abbrev pub unwrapped : Outcome SendError (Unit {0}) → Outcome ⊥ (Unit {0})
unwrapped (ok a) = ok tt
unwrapped _ = panic

-- `future::timeout(.., TcpStream::connect(..))`: a stream with its descriptor, an error, no answer.
pub data Connecting (Conn : Type 0) : Type 0 where
  connected : Conn → ℕ → Connecting Conn
  refused timed_out : Connecting Conn

module _ {Sender : Type 0} (channel : Channel Sender (Transaction Sender)) where
  open channel use {World}

  -- What the loop reads and changes of the client, and what it sent to the forward loop so far.
  pub record Mantainer : Type 0 where
    pub exit_loop : Bool
    pub raw_flags : ℕ
    pub raw_token : ℕ
    pub world : World
    pub sends : List (Transaction Sender)

  -- `Client::new`, on what `to_socket_addrs` gives and with the channels as they then are.
  unfoldable pub new :
      {Address : Type 0} → Outcome IoError (List Address) → World → Outcome ⊥ Mantainer
  new (ok addrs) w =
      ok (record { exit_loop = false; raw_flags = 0; raw_token = 0; world = w; sends = [] })
  new _ w = panic

  -- What other tasks do to the atomics and the channels.
  abbrev pub by_others : (Mantainer → Mantainer) → Exec Mantainer ⊥ (Unit {0})
  by_others g s = (ok tt, record (g s) { sends = s.sends })

  -- `set_exit_loop(true)`, which other tasks call.
  unfoldable pub shutdown : Mantainer → Mantainer
  shutdown s = record s { exit_loop = true }

-- A round: what other tasks did before it, how connecting went, and what the reading and the
-- writing task and others did until both had ended, which they do without a panic.
pub record Attempt {Sender : Type 0} (channel : Channel Sender (Transaction Sender)) (Conn : Type 0)
    : Type 0 where
  pub before : Mantainer channel → Mantainer channel
  pub connecting : Connecting Conn
  pub during : Mantainer channel → Mantainer channel

module _ {Sender : Type 0} (bits : Bitflags) (buf : BytesMut) (tcp : TcpStream)
    (channel : Channel Sender (Transaction Sender)) (incoming_tx : Sender)
    (auto_reconnect : Bool) where
  open channel use {send}
  open tcp use {Conn}

  unfoldable pub send_incoming : Transaction Sender → Exec (Mantainer channel) ⊥ (Unit {0})
  send_incoming tr s =
      let (r, w) = send incoming_tx tr s.world in
      (unwrapped r, record s { world = w; sends = s.sends ++ (tr ∷ []) })

  -- A connection that was opened, up to the start of its two tasks.
  unfoldable pub announce : ℕ → Settings → Exec (Mantainer channel) ⊥ (Unit {0})
  announce fd peer s =
      let s1 : Mantainer channel = record s {
        raw_token = fd;
        raw_flags = add_flags bits handshaked s.raw_flags;
      } in
      (send_incoming (client_changed (loaded_flags bits s1.raw_flags) s1.raw_token)
          >> send_incoming (frame (settings peer) (some s1.raw_token)))
        s1

  -- What is left when both tasks have ended; `true` breaks the loop.
  unfoldable pub settle : Exec (Mantainer channel) ⊥ Bool
  settle s =
      let s1 : Mantainer channel = record s {
        raw_flags = remove_flags bits read_write_closed s.raw_flags;
        raw_token = 0;
      } in
      if not auto_reconnect
      then (ok true, s1)
      else if not (bits.contains (loaded_flags bits s1.raw_flags) reconnected)
      then (ok false, record s1 { raw_flags = add_flags bits reconnected s1.raw_flags })
      else (ok false, s1)

  -- The `match` on the handshake.
  unfoldable pub after_handshake :
      ℕ
      → (Mantainer channel → Mantainer channel)
      → Outcome HandshakeError Settings
      → Exec (Mantainer channel) ⊥ Bool
  after_handshake fd during (ok peer) s =
      ((announce fd peer >> by_others channel during) >> settle) s
  after_handshake fd during (err e) s = (ok true, s)
  after_handshake fd during panic s = (panic, s)

  -- The `match` on the connection; a refused one only waits.
  unfoldable pub attempt :
      Connecting Conn → (Mantainer channel → Mantainer channel) → Exec (Mantainer channel) ⊥ Bool
  attempt (connected c fd) during = after_handshake fd during (handshake bits buf tcp c).0
  attempt refused during = pure false
  attempt timed_out during = pure false

  -- Behind the loop.
  unfoldable pub leave : Exec (Mantainer channel) ⊥ Bool
  leave s = (
    ok true,
    record s { exit_loop = true; raw_flags = add_flags bits mantain_loop_exited s.raw_flags },
  )

  -- `'outer: while !self.is_exit_loop()`; `false` when the attempts given run out before it ends.
  unfoldable pub mantain_loop : List (Attempt channel Conn) → Exec (Mantainer channel) ⊥ Bool
  mantain_loop [] s = if s.exit_loop then leave s else (ok false, s)
  mantain_loop (a ∷ rest) s =
      let s1 : Mantainer channel = (by_others channel a.before s).1 in
      if s1.exit_loop
      then leave s1
      else (attempt a.connecting a.during >>= λ broken. if broken then leave else mantain_loop rest)
          s1
