-- ===== src/Client/Read.antt =====
-- client.rs: how a client takes frames off its stream. The loop is that of a link.
use h2l.Base.{ℕ, List, leb}
use h2l.Base.Outcome.{assert, map}
use h2l.Base.Exec.{Exec, pure, lift, ◌>>=◌, ◌>>◌}
use h2l.Crates.Bitflags.{Bitflags}
use h2l.Crates.BytesMut.{BytesMut}
use h2l.Crates.TcpStream.{TcpStream}
use h2l.Frame.Error.{Error}
use h2l.Frame.Head
use h2l.Frame.Head.{Head, Kind}
use h2l.Frame.Data
use h2l.Frame.Settings
use h2l.Frame.GoAway
use h2l.Frame.WindowUpdate
use h2l.Frame.Any.{Frame, data_frame, settings, go_away, window_update, unknown, with_headers}
use h2l.Link.Read.{End, read, read_rounds}

module _ (bits : Bitflags) (buf : BytesMut) (tcp : TcpStream) where
  open buf use {get_uint}
  open tcp use {Conn}

  unfoldable pub read_frame_head : Exec Conn Error (Head × ℕ)
  read_frame_head = do
    buffer ← read bits buf tcp 9
    head ← lift (Head.parse buffer)
    pure (head, get_uint buffer 3)

  -- The payload of a frame of another kind, which is dropped.
  unfoldable pub discard_unknown_frame : Head → ℕ → Exec Conn Error Frame
  discard_unknown_frame head length = do payload ← read bits buf tcp length; pure unknown

  unfoldable pub read_data_frame : Head → ℕ → Exec Conn Error Frame
  read_data_frame head length = do
    payload ← read bits buf tcp length
    lift (map data_frame (Data.load bits head payload))

  unfoldable pub read_headers_frame : Head → ℕ → Exec Conn Error Frame
  read_headers_frame head length = do
    payload ← read bits buf tcp length
    pure (with_headers head.stream_id payload)

  -- The buffer has 256 bytes; `buffer[0..length]` panics beyond.
  unfoldable pub read_settings_frame : Head → ℕ → Exec Conn Error Frame
  read_settings_frame head length = do
    lift (assert (leb length 256))
    payload ← read bits buf tcp length
    lift (map settings (Settings.load bits head payload))

  unfoldable pub read_go_away_frame : Head → ℕ → Exec Conn Error Frame
  read_go_away_frame head length = do
    payload ← read bits buf tcp length
    lift (map go_away (GoAway.load payload))

  -- Four bytes, whatever length the header says.
  unfoldable pub read_window_update_frame : Head → ℕ → Exec Conn Error Frame
  read_window_update_frame head length = do
    payload ← read bits buf tcp 4
    lift (map window_update (WindowUpdate.load head payload))

  -- The `match` on the kind in `read_loop`.
  unfoldable pub read_payload : Kind → Head → ℕ → Exec Conn Error Frame
  read_payload Kind.data_kind = read_data_frame
  read_payload Kind.headers = read_headers_frame
  read_payload Kind.settings = read_settings_frame
  read_payload Kind.go_away = read_go_away_frame
  read_payload Kind.window_update = read_window_update_frame
  read_payload _ = discard_unknown_frame

  -- One round of the loop, up to the frame.
  unfoldable pub read_frame : Exec Conn Error Frame
  read_frame = do (head, length) ← read_frame_head; read_payload head.kind head length

  unfoldable pub read_frames : ℕ → Conn → List Frame × (End × Conn)
  read_frames = read_rounds bits buf tcp read_frame
