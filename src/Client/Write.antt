-- ===== src/Client/Write.antt =====
-- client.rs: how a client writes what is sent to it onto its stream. The loop is that of a link.
use h2l.Base.{List, Bool, false}
use h2l.Base.Exec.{Exec, pure, ◌>>◌}
use h2l.Crates.Bitflags.{Bitflags}
use h2l.Crates.BytesMut.{BytesMut}
use h2l.Crates.TcpStream.{TcpStream}
use h2l.Frame.Error.{IoError}
use h2l.Frame.Any.{write_to}
use h2l.Transaction.{Transaction, bytes, frame, client_changed}
use h2l.Client.Forward.{read_closed}
use h2l.Link.Write.{write_rounds}

module _ {Sender : Type 0} (bits : Bitflags) (buf : BytesMut) (tcp : TcpStream) where
  open tcp use {Conn, write_all}

  -- The `match` on what was received.
  unfoldable pub write_one : Transaction Sender → Exec Conn IoError Bool
  write_one (bytes xs token) = write_all xs >> pure false
  write_one (frame f token) = write_to buf tcp f >> pure false
  write_one (client_changed flags token) = pure (bits.contains flags read_closed)
  write_one _ = pure false

  -- `write_loop`, up to the flush of the channel and the report at its end.
  unfoldable pub write_loop : List ((Conn → Conn) × Transaction Sender) → Exec Conn ⊥ Bool
  write_loop = write_rounds tcp write_one
