-- ===== src/Client/Handshake.antt =====
-- client.rs: how a client opens a connection.
use Prim.Native.String.{String}
use h2l.Base.{ℕ, ◌++◌, leb, if◌then◌else◌}
use h2l.Base.Outcome.{assert}
use h2l.Base.Exec.{Exec, raise, lift, convert, map_err, ◌>>=◌, ◌>>◌}
use h2l.Consts.{http_2_0_preface, http_2_0_settings}
use h2l.Crates.Bitflags.{Bitflags}
use h2l.Crates.BytesMut.{BytesMut}
use h2l.Crates.TcpStream.{TcpStream}
use h2l.Frame.Error
use h2l.Frame.Error.{IoError}
use h2l.Frame.Head
use h2l.Frame.Head.{Head, Kind, kind_eq}
use h2l.Frame.Settings
use h2l.Frame.Settings.{Settings}
use h2l.Link.Handshake.{zeros}

pub data HandshakeError : Type 0 where
  frame : Error.Error → HandshakeError
  unknown_protocol : HandshakeError
  io : IoError → HandshakeError

module _ (bits : Bitflags) (buf : BytesMut) (tcp : TcpStream) where
  open buf use {get_uint}
  open tcp use {Conn, read_exact, write_all}

  -- The `match` on the kind of the first frame.
  unfoldable pub read_settings : Head → ℕ → Exec Conn HandshakeError Settings
  read_settings head length =
      if kind_eq head.kind Kind.settings
      then (lift (assert (leb length 1024))
          >> (map_err io (read_exact length) >>= λ xs.
              lift (convert frame (Settings.load bits head xs))))
      else raise unknown_protocol

  -- The buffer has 1024 bytes, of which nine are read for the header.
  unfoldable pub handshake : Exec Conn HandshakeError Settings
  handshake = do
    map_err io (write_all http_2_0_preface)
    map_err io (write_all http_2_0_settings)
    first ← map_err io (read_exact 9)
    let buffer = first ++ zeros 1015
    head ← lift (convert frame (Head.parse buffer))
    read_settings head (get_uint buffer 3)

unfoldable pub from_frame_error : Error.Error → HandshakeError
from_frame_error val = frame val

unfoldable pub from_io_error : IoError → HandshakeError
from_io_error val = io val

-- `Display`, where `show` is that of an `io::Error`.
unfoldable pub display : (IoError → String) → HandshakeError → String
display show (frame e) = Error.display show e
display show unknown_protocol = "UnknownProtocol"
display show (io e) = show e
