-- ===== src/Frame/Any.antt =====
-- frame/mod.rs: the enum of the frames, and how one is written to a connection.
pub mod Wire
pub mod Layout
pub mod RoundTrip
use h2l.Base.{ℕ, List, length}
use h2l.Base.Outcome.{Outcome, ok, err, map}
use h2l.Base.Exec.{Exec, pure, lift, ◌>>=◌, ◌>>◌}
use h2l.Crates.BytesMut.{BytesMut}
use h2l.Crates.TcpStream.{TcpStream}
use h2l.Frame.Error.{Error, IoError}
use h2l.Frame.StreamId.{StreamId}
use h2l.Frame.Head
use h2l.Frame.Head.{Head}
use h2l.Frame.Data
use h2l.Frame.Data.{Data}
use h2l.Frame.Headers
use h2l.Frame.Headers.{Headers, Continuation}
use h2l.Frame.Priority
use h2l.Frame.Priority.{Priority}
use h2l.Frame.Reset
use h2l.Frame.Reset.{Reset}
use h2l.Frame.Settings
use h2l.Frame.Settings.{Settings}
use h2l.Frame.GoAway
use h2l.Frame.GoAway.{GoAway}
use h2l.Frame.WindowUpdate
use h2l.Frame.WindowUpdate.{WindowUpdate}
use h2l.Frame.BinCode
use h2l.Frame.BinCode.{BinCode}

pub data Frame : Type 0 where
  data_frame : Data → Frame
  headers : Headers → Frame
  priority : Priority → Frame
  reset : Reset → Frame
  settings : Settings → Frame
  go_away : GoAway → Frame
  window_update : WindowUpdate → Frame
  continuation : Continuation → Frame
  bin_code : BinCode → Frame
  unknown : Frame

unfoldable pub with_data : StreamId → List ℕ → Outcome Error Frame
with_data stream_id payload = map data_frame (Data.new stream_id payload)

unfoldable pub with_headers : StreamId → List ℕ → Frame
with_headers stream_id raw_data = headers (Headers.new stream_id raw_data)

module _ (buf : BytesMut) (tcp : TcpStream) where
  open buf use {Buffer, with_capacity, bytes}
  open tcp use {Conn, write_all}

  -- A frame that is encoded into a buffer of its own, and then written.
  unfoldable pub write_encoded :
      ℕ → (Buffer → Outcome IoError Buffer) → Exec Conn IoError (Unit {0})
  write_encoded capacity encode =
      lift (encode (with_capacity capacity)) >>= λ dst. write_all (bytes dst)

  -- `Head::write_to`.
  unfoldable pub write_head : Head → ℕ → Exec Conn IoError (Unit {0})
  write_head head payload_len = write_encoded 64 (Head.encode buf head payload_len)

  -- A frame whose payload is written from where it lies.
  unfoldable pub write_payload : Head → List ℕ → Exec Conn IoError (Unit {0})
  write_payload head payload = do write_head head (length payload); write_all payload

  -- `write_to` of each frame.
  abbrev write_data : Data → Exec Conn IoError (Unit {0})
  write_data d = write_payload (Data.head_of d) d.payload

  abbrev write_headers : Headers → Exec Conn IoError (Unit {0})
  write_headers h = write_payload (Headers.head_of h) h.raw_data

  abbrev write_priority : Priority → Exec Conn IoError (Unit {0})
  write_priority p = write_encoded 64 (Priority.encode buf p)

  abbrev write_reset : Reset → Exec Conn IoError (Unit {0})
  write_reset r = write_encoded 64 (Reset.encode buf r)

  abbrev write_settings : Settings → Exec Conn IoError (Unit {0})
  write_settings s = write_encoded 256 (Settings.encode buf s)

  abbrev write_go_away : GoAway → Exec Conn IoError (Unit {0})
  write_go_away g = write_encoded 64 (GoAway.encode buf g)

  abbrev write_window_update : WindowUpdate → Exec Conn IoError (Unit {0})
  write_window_update w = write_encoded 64 (WindowUpdate.encode buf w)

  abbrev write_continuation : Continuation → Exec Conn IoError (Unit {0})
  write_continuation c = write_payload (Headers.continuation_head c) c.raw_data

  abbrev write_bin_code : BinCode → Exec Conn IoError (Unit {0})
  write_bin_code b = write_payload (BinCode.head_of b) b.payload

  -- `Frame::write_to`.
  unfoldable pub write_to : Frame → Exec Conn IoError (Unit {0})
  write_to (data_frame d) = write_data d
  write_to (headers h) = write_headers h
  write_to (priority p) = write_priority p
  write_to (reset r) = write_reset r
  write_to (settings s) = write_settings s
  write_to (go_away g) = write_go_away g
  write_to (window_update w) = write_window_update w
  write_to (continuation c) = write_continuation c
  write_to (bin_code b) = write_bin_code b
  write_to unknown = pure tt
