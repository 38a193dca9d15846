-- ===== src/Client/Written.antt =====
-- What the write loop of a client puts onto its stream.
use h2l.Base.{refl, sym, inl, Bool, false, List, append-nil, All}
use h2l.Crates.Bitflags.{Bitflags}
use h2l.Crates.BytesMut.{BytesMut}
use h2l.Crates.TcpStream.{TcpStream}
use h2l.Frame.Any.{write_to}
use h2l.Frame.Any.Wire.{frame_wire, write_to-frame_wire}
use h2l.Transaction.{
  Transaction, bytes, frame, client_changed, link_changed, new_link, server_changed,
}
use h2l.Client.Forward.{read_closed}
use h2l.Client.Write.{write_one, write_loop}
use h2l.Link.Written.{
  IsWritable, KeepsWritten, Writes, WritesAll, Sends-Writes, write_rounds-WritesAll,
}

module _ {Sender : Type 0} (bits : Bitflags) (buf : BytesMut) (tcp : TcpStream) where
  open tcp use {Conn, write_all, write_all_cases}

  -- What ends the write loop of a client: its reader was closed.
  abbrev pub client_ends : Transaction Sender → Bool
  client_ends (client_changed flags token) = bits.contains flags read_closed
  client_ends _ = false

  write_one-Writes :
      (tr : Transaction Sender) → IsWritable tr → Writes tcp (write_one bits buf tcp) client_ends tr
  unfolding write_one
  write_one-Writes (bytes xs token) v c =
      Sends-Writes tcp (write_all xs) false xs c (write_all_cases c xs)
  write_one-Writes (frame f token) v c =
      Sends-Writes tcp (write_to buf tcp f) false (frame_wire f) c
        (write_to-frame_wire buf tcp f c v)
  write_one-Writes (client_changed flags token) v c =
      inl (c, refl, sym (append-nil (tcp.written c)))
  write_one-Writes (link_changed flags token) v c = inl (c, refl, sym (append-nil (tcp.written c)))
  write_one-Writes (new_link link) v c = inl (c, refl, sym (append-nil (tcp.written c)))
  write_one-Writes (server_changed flags) v c = inl (c, refl, sym (append-nil (tcp.written c)))

  -- The write loop of a client, while the other tasks do not write: where the frames that it receives
  -- have numbers that fit, it wrote exactly the bytes and the layouts of the frames, in the order
  -- received and up to the first ClientChanged that contains READ_CLOSED, at which it ends; or the
  -- connection failed, which ends it.
  pub write_loop-outgoing_wire :
      (received : List ((Conn → Conn) × Transaction Sender)) (c : Conn)
      → All (λ r. KeepsWritten tcp r.0 × IsWritable r.1) received
      → WritesAll tcp (write_loop bits buf tcp) (write_one bits buf tcp) client_ends received c
  unfolding write_loop
  write_loop-outgoing_wire received c v =
      write_rounds-WritesAll tcp (write_one bits buf tcp) client_ends write_one-Writes received c v
