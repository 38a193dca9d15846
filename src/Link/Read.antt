-- ===== src/Link/Read.antt =====
-- link.rs: how a link takes frames off its stream.
use h2l.Base.{ℕ, zero, suc, List, [], ◌∷◌, leb}
use h2l.Base.Outcome.{Outcome, ok, err, panic, assert, map}
use h2l.Base.Exec.{Exec, pure, lift, map_err, ◌>>=◌, ◌>>◌}
use h2l.Crates.Bitflags.{Bitflags}
use h2l.Crates.BytesMut.{BytesMut}
use h2l.Crates.TcpStream.{TcpStream}
use h2l.Frame.Error.{Error, io}
use h2l.Frame.Head
use h2l.Frame.Head.{Head, Kind}
use h2l.Frame.Settings
use h2l.Frame.GoAway
use h2l.Frame.WindowUpdate
use h2l.Frame.Any.{Frame, settings, go_away, window_update, with_data, with_headers}

-- How the loop of `read_loop` ends: by an error, which breaks it, or by a panic; `more` is no end of
-- the loop, but of the fuel.
pub data End : Type 0 where
  broken panicked more : End

module _ (bits : Bitflags) (buf : BytesMut) (tcp : TcpStream) where
  open buf use {get_uint}
  open tcp use {Conn, read_exact}

  -- `read_exact`, with its error as `FrameError::Io`.
  abbrev pub read : ℕ → Exec Conn Error (List ℕ)
  read n = map_err io (read_exact n)

  unfoldable pub read_frame_head : Exec Conn Error (Head × ℕ)
  read_frame_head = do
    buffer ← read 9
    head ← lift (Head.parse buffer)
    pure (head, get_uint buffer 3)

  unfoldable pub read_data_frame : Head → ℕ → Exec Conn Error Frame
  read_data_frame head length = do payload ← read length; lift (with_data head.stream_id payload)

  unfoldable pub read_headers_frame : Head → ℕ → Exec Conn Error Frame
  read_headers_frame head length = do
    payload ← read length
    pure (with_headers head.stream_id payload)

  -- The buffer has 256 bytes; `buffer[0..length]` panics beyond.
  unfoldable pub read_settings_frame : Head → ℕ → Exec Conn Error Frame
  read_settings_frame head length = do
    lift (assert (leb length 256))
    payload ← read length
    lift (map settings (Settings.load bits head payload))

  unfoldable pub read_go_away_frame : Head → ℕ → Exec Conn Error Frame
  read_go_away_frame head length = do
    payload ← read length
    lift (map go_away (GoAway.load payload))

  -- Four bytes, whatever length the header says.
  unfoldable pub read_window_update_frame : Head → ℕ → Exec Conn Error Frame
  read_window_update_frame head length = do
    payload ← read 4
    lift (map window_update (WindowUpdate.load head payload))

  -- The `match` on the kind in `read_loop`, where any other kind is `unreachable!()`.
  unfoldable pub read_payload : Kind → Head → ℕ → Exec Conn Error Frame
  read_payload Kind.data_kind = read_data_frame
  read_payload Kind.headers = read_headers_frame
  read_payload Kind.settings = read_settings_frame
  read_payload Kind.go_away = read_go_away_frame
  read_payload Kind.window_update = read_window_update_frame
  read_payload _ = λ head length. lift panic

  -- One round of the loop, up to the frame.
  unfoldable pub read_frame : Exec Conn Error Frame
  read_frame = do (head, length) ← read_frame_head; read_payload head.kind head length

  -- The `match` on the frame that was read: it is sent on, or the loop ends.
  unfoldable pub after_round :
      (Conn → List Frame × (End × Conn)) → Outcome Error Frame × Conn → List Frame × (End × Conn)
  after_round rest (ok frame, c) = (frame ∷ (rest c).0, (rest c).1)
  after_round rest (err e, c) = ([], (broken, c))
  after_round rest (panic, c) = ([], (panicked, c))

  -- `'outer: loop` over a round, with the frames that it sends on in order.
  unfoldable pub read_rounds : Exec Conn Error Frame → ℕ → Conn → List Frame × (End × Conn)
  unfolding after_round
  read_rounds round zero c = ([], (more, c))
  read_rounds round (suc fuel) c = after_round (read_rounds round fuel) (round c)

  unfoldable pub read_frames : ℕ → Conn → List Frame × (End × Conn)
  read_frames = read_rounds read_frame
