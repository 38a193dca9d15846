-- ===== src/Frame/Any/Layout.antt =====
-- The layouts of RFC 7540, section 4.1 and section 6, with their types, flags and streams by number, and
-- that of the kind of this program's own; and that `Frame::write_to` writes them.
use h2l.Base.{ℕ, List, [], ◌∷◌, ◌++◌, length}
use h2l.Base.Word.{be_bytes_3, be_bytes_4}
use h2l.Crates.BytesMut.{BytesMut}
use h2l.Crates.TcpStream.{TcpStream}
use h2l.Frame.Priority
use h2l.Frame.Reset
use h2l.Frame.Settings
use h2l.Frame.GoAway
use h2l.Frame.WindowUpdate
use h2l.Frame.Any.{
  Frame, data_frame, headers, priority, reset, settings, go_away, window_update, continuation,
  bin_code, unknown,
}

-- Three bytes of length, the type, the flags, four bytes of stream, and the payload.
abbrev laid_out : ℕ → ℕ → ℕ → List ℕ → List ℕ
laid_out type flags stream payload =
    be_bytes_3 (length payload) ++ (type ∷ flags ∷ be_bytes_4 stream) ++ payload

-- DATA, HEADERS, PRIORITY, RST_STREAM, SETTINGS, GOAWAY, WINDOW_UPDATE, CONTINUATION with END_HEADERS,
-- and BinCode.
abbrev pub layout : Frame → List ℕ
layout (data_frame d) = laid_out 0 d.flags d.stream_id.id d.payload
layout (headers h) = laid_out 1 h.flags h.stream_id.id h.raw_data
layout (priority p) = laid_out 2 0 p.stream_id.id (Priority.RoundTrip.payload_of p.dependency)
layout (reset r) = laid_out 3 0 r.stream_id.id (Reset.RoundTrip.payload_of r)
layout (settings s) = laid_out 4 s.flags 0 (Settings.Wire.payload_wire (Settings.Wire.items s))
layout (go_away g) = laid_out 7 0 0 (GoAway.RoundTrip.payload_of g)
layout (window_update w) = laid_out 8 0 w.stream_id.id (WindowUpdate.RoundTrip.payload_of w)
layout (continuation c) = laid_out 9 4 c.stream_id.id c.raw_data
layout (bin_code b) = laid_out 10 b.flags b.stream_id.id b.payload
layout unknown = []
