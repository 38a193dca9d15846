-- ===== src/Link/Receive.antt =====
-- A link reads back the frames that a peer wrote.
use h2l.Base.{ℕ, ◌<◌, ◌≤◌, ◌≡◌, ◌≢◌, refl, ap, ◌⊎◌, none, List, ◌++◌, arith, length, All, le→leb}
use h2l.Base.Outcome.{ok, map}
use h2l.Crates.Bitflags.{Bitflags}
use h2l.Crates.BytesMut.{BytesMut}
use h2l.Crates.TcpStream.{TcpStream}
use h2l.Frame.Data
use h2l.Frame.Headers
use h2l.Frame.Settings
use h2l.Frame.Settings.{Settings}
use h2l.Frame.GoAway
use h2l.Frame.WindowUpdate
use h2l.Frame.Any.{
  Frame, data_frame, headers, priority, reset, settings, go_away, window_update, continuation,
  bin_code, unknown, with_data, with_headers,
}
use h2l.Frame.Any.Wire.{frame_wire, IsSendable}
use h2l.Link.Read.{
  broken, read_frame_head, read_data_frame, read_headers_frame, read_settings_frame,
  read_go_away_frame, read_window_update_frame, read_payload, read_frame, read_frames,
}
use h2l.Link.Reads.{
  Reads, load-Reads, frame_read-Reads, read_rounds-stream_wire, stream_wire, all_received,
}

-- What a link makes of a frame: it drops the flags and the padding of DATA and the flags of HEADERS.
abbrev pub received : Frame → Frame
received (data_frame d) = data_frame (record d { flags = 0; pad_len = none })
received (headers h) = headers (record h { flags = 0 })
received f = f

-- The frames that a link reads: the five kinds of its `match`, a DATA frame of a stream other than
-- 0, and settings that are an ACK or within their ranges.
abbrev pub IsReadable : Frame → Type 0
IsReadable (data_frame d) = IsSendable (data_frame d) × (d.stream_id.id ≢ 0)
IsReadable (headers h) = IsSendable (headers h)
IsReadable (settings s) = IsSendable (settings s) × ((s ≡ Settings.ack) ⊎ Settings.Load.IsValid s)
IsReadable (go_away g) = IsSendable (go_away g)
IsReadable (window_update w) = IsSendable (window_update w)
IsReadable _ = ⊥

module _ (bits : Bitflags) (buf : BytesMut) (tcp : TcpStream) where
  open tcp use {Conn, incoming}

  -- A frame that the link reads, at the front of what is still to come, is read as the link receives
  -- it, and exactly its bytes are taken.
  pub read_frame-frame_wire :
      (f : Frame) (c : Conn) (rest : List ℕ)
      → IsReadable f
      → incoming c ≡ frame_wire f ++ rest
      → Reads bits buf tcp (read_frame bits buf tcp) c (received f) rest
  unfolding frame_wire read_payload read_frame read_frame_head
  read_frame-frame_wire (data_frame d) c rest (v, stream) h =
      frame_read-Reads bits buf tcp (read_payload bits buf tcp) (Data.head_of d) d.payload rest c
        (received (data_frame d)) v.0 (λ e. cc e) v.1 h
        λ c' i.
          unfold read_data_frame in
          load-Reads bits buf tcp d.payload rest (with_data d.stream_id) c' _ i
            (unfold with_data Data.new in ground arith)
  read_frame-frame_wire (headers k) c rest v h =
      frame_read-Reads bits buf tcp (read_payload bits buf tcp) (Headers.head_of k) k.raw_data rest
        c (received (headers k)) v.0 (λ e. cc e) v.1 h
        λ c' i.
          unfold read_headers_frame in
          load-Reads bits buf tcp k.raw_data rest (λ payload. ok (with_headers k.stream_id payload))
            c' _ i (unfold with_headers in refl)
  read_frame-frame_wire (settings s) c rest ((flags, sized), v) h =
      let payload = Settings.Wire.payload_wire (Settings.Wire.items s) in
      let short : length payload ≤ 36 =
        omega (arith, Settings.Wire.payload_len-wire s, Settings.Wire.payload_len-le s) in
      frame_read-Reads bits buf tcp (read_payload bits buf tcp) (Settings.head_of s) payload rest c
        (settings s) (record { flags_byte = flags; stream_31 = omega arith }) (λ e. cc e)
        (omega arith) h
        λ c' i.
          unfold read_settings_frame in
          rw (le→leb (length payload) 256 (omega arith)) (
            load-Reads bits buf tcp payload rest
              (λ p. map settings (Settings.load bits (Settings.head_of s) p)) c' _ i
              (ap (map settings) (Settings.RoundTrip.load_sent bits s v sized)))
  read_frame-frame_wire (go_away g) c rest v h =
      frame_read-Reads bits buf tcp (read_payload bits buf tcp) (GoAway.head_of g)
        (GoAway.RoundTrip.payload_of g) rest c (go_away g)
        (record { flags_byte = omega arith; stream_31 = omega arith }) (λ e. cc e) (omega arith) h
        λ c' i.
          unfold read_go_away_frame in
          load-Reads bits buf tcp (GoAway.RoundTrip.payload_of g) rest
            (λ p. map go_away (GoAway.load p)) c' _ i
            (ap (map go_away) (GoAway.RoundTrip.load-payload_of g v))
  read_frame-frame_wire (window_update w) c rest v h =
      frame_read-Reads bits buf tcp (read_payload bits buf tcp) (WindowUpdate.head_of w)
        (WindowUpdate.RoundTrip.payload_of w) rest c (window_update w)
        (record { flags_byte = omega arith; stream_31 = v.stream_31 }) (λ e. cc e) (omega arith) h
        λ c' i.
          unfold read_window_update_frame in
          load-Reads bits buf tcp (WindowUpdate.RoundTrip.payload_of w) rest
            (λ p. map window_update (WindowUpdate.load (WindowUpdate.head_of w) p)) c' _ i
            (ap (map window_update) (WindowUpdate.RoundTrip.load-payload_of w v))
  read_frame-frame_wire (priority p) c rest v h = absurd v
  read_frame-frame_wire (reset r) c rest v h = absurd v
  read_frame-frame_wire (continuation k) c rest v h = absurd v
  read_frame-frame_wire (bin_code b) c rest v h = absurd v
  read_frame-frame_wire unknown c rest v h = absurd v

  -- Where a peer wrote frames that the link reads, and then at most eight bytes more, the loop sends
  -- exactly these frames on, in order, as the link receives them, and breaks; one round more than
  -- there are frames is enough.
  pub read_frames-stream_wire :
      (fuel : ℕ) (fs : List Frame) (c : Conn) (tail : List ℕ)
      → All IsReadable fs
      → incoming c ≡ stream_wire fs ++ tail
      → length tail < 9
      → length fs < fuel
      → (c' : Conn) × (read_frames bits buf tcp fuel c ≡ (all_received received fs, (broken, c')))
  unfolding read_frames read_frame read_frame_head
  read_frames-stream_wire =
      read_rounds-stream_wire bits buf tcp (read_payload bits buf tcp) IsReadable received
        read_frame-frame_wire
