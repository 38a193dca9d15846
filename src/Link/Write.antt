-- ===== src/Link/Write.antt =====
-- link.rs: how a link writes what is sent to it onto its stream. The loop of a client is the same
-- over another `match`.
use h2l.Base.{List, [], ◌∷◌, Bool, true, false}
use h2l.Base.Outcome.{Outcome, ok, err, panic}
use h2l.Base.Exec.{Exec, pure, ◌>>◌}
use h2l.Crates.Bitflags.{Bitflags}
use h2l.Crates.BytesMut.{BytesMut}
use h2l.Crates.TcpStream.{TcpStream}
use h2l.Frame.Error.{IoError}
use h2l.Frame.Any.{write_to}
use h2l.Transaction.{Transaction, bytes, frame, link_changed}
use h2l.Server.Forward.{read_closed}

module _ (tcp : TcpStream) where
  open tcp use {Conn}

  -- How a round of the loop ends: `true` and an error break it.
  unfoldable pub after_write :
      (Conn → Outcome ⊥ Bool × Conn) → Outcome IoError Bool × Conn → Outcome ⊥ Bool × Conn
  after_write rest (ok true, c) = (ok true, c)
  after_write rest (ok false, c) = rest c
  after_write rest (err e, c) = (ok true, c)
  after_write rest (panic, c) = (panic, c)

module _ {Sender : Type 0} (tcp : TcpStream) where
  open tcp use {Conn}

  -- `'outer: while let Ok(tr) = outgoing_rx.recv().await`, over what is received, each with what the
  -- reading task did to the connection before; `false` when what is received runs out before the loop
  -- ends, and it waits for more.
  unfoldable pub write_rounds :
      (Transaction Sender → Exec Conn IoError Bool)
      → List ((Conn → Conn) × Transaction Sender)
      → Exec Conn ⊥ Bool
  unfolding after_write
  write_rounds round [] c = (ok false, c)
  write_rounds round ((others, tr) ∷ rest) c =
      after_write tcp (write_rounds round rest) (round tr (others c))

module _ {Sender : Type 0} (bits : Bitflags) (buf : BytesMut) (tcp : TcpStream) where
  open tcp use {Conn, write_all}

  -- The `match` on what was received.
  unfoldable pub write_one : Transaction Sender → Exec Conn IoError Bool
  write_one (bytes xs token) = write_all xs >> pure false
  write_one (frame f token) = write_to buf tcp f >> pure false
  write_one (link_changed flags token) = pure (bits.contains flags read_closed)
  write_one _ = pure false

  -- `write_loop`, up to the report at its end.
  unfoldable pub write_loop : List ((Conn → Conn) × Transaction Sender) → Exec Conn ⊥ Bool
  write_loop = write_rounds tcp write_one
