-- ===== src/Frame/Any/RoundTrip.antt =====
-- A frame of any kind that has a `load`, written to a connection and loaded again.
use h2l.Base.{ℕ, ◌<◌, ◌≡◌, ◌≢◌, refl, ap, ◌⊎◌, List, ◌++◌, length, arith}
use h2l.Base.Outcome.{Outcome, ok, panic, map}
use h2l.Crates.Bitflags.{Bitflags}
use h2l.Crates.BytesMut.{BytesMut}
use h2l.Crates.TcpStream.{TcpStream}
use h2l.Frame.Error.{Error}
use h2l.Frame.Head
use h2l.Frame.Head.{Head, Kind, kind_byte}
use h2l.Frame.Head.Wire.{wire, IsHead, parse-wire, get_uint-wire}
use h2l.Frame.Data
use h2l.Frame.Priority
use h2l.Frame.Reset
use h2l.Frame.Settings
use h2l.Frame.GoAway
use h2l.Frame.WindowUpdate
use h2l.Frame.Any.{
  Frame, data_frame, headers, priority, reset, settings, go_away, window_update, continuation,
  bin_code, unknown, write_to,
}
use h2l.Frame.Any.Wire.{frame_wire, IsSendable, Sends, write_to-frame_wire}

module _ (bits : Bitflags) where
  -- The `load` of the frames of a kind, where it has one.
  abbrev pub load_kind : Kind → Head → List ℕ → Outcome Error Frame
  load_kind Kind.data_kind head payload = map data_frame (Data.load bits head payload)
  load_kind Kind.priority head payload = map priority (Priority.load head payload)
  load_kind Kind.reset head payload = map reset (Reset.load head payload)
  load_kind Kind.settings head payload = map settings (Settings.load bits head payload)
  load_kind Kind.go_away head payload = map go_away (GoAway.load payload)
  load_kind Kind.window_update head payload = map window_update (WindowUpdate.load head payload)
  load_kind _ head payload = panic

  -- The frame can be sent, and what its `load` tests holds.
  abbrev pub IsLoadable : Frame → Type 0
  IsLoadable (data_frame d) = IsSendable (data_frame d) × Data.Laws.IsLoadable d
  IsLoadable (priority p) = IsSendable (priority p)
  IsLoadable (reset r) = IsSendable (reset r)
  IsLoadable (settings s) = IsSendable (settings s) × ((s ≡ Settings.ack) ⊎ Settings.Load.IsValid s)
  IsLoadable (go_away g) = IsSendable (go_away g)
  IsLoadable (window_update w) = IsSendable (window_update w)
  IsLoadable _ = ⊥

  module _ (buf : BytesMut) where
    -- These bytes are a header and a payload, of which `Head::parse` and the length field give the
    -- header and the length, and the `load` of its kind gives the frame.
    abbrev pub LoadsBack : Frame → List ℕ → Type 0
    LoadsBack f ws =
        (head : Head) × (payload : List ℕ) × (ws ≡ wire head (length payload) ++ payload)
        × (Head.parse ws ≡ ok head)
        × (buf.get_uint ws 3 ≡ length payload)
        × (load_kind head.kind head payload ≡ ok f)

    framed-LoadsBack :
        (f : Frame) (head : Head) (payload : List ℕ)
        → IsHead head
        → head.kind ≢ Kind.bin_code
        → length payload < 0x100_0000
        → load_kind head.kind head payload ≡ ok f
        → LoadsBack f (wire head (length payload) ++ payload)
    framed-LoadsBack f head payload v k n e = (
      head,
      payload,
      refl,
      parse-wire head (length payload) payload v k,
      get_uint-wire buf head (length payload) payload n,
      e,
    )

    frame_wire-LoadsBack : (f : Frame) → IsLoadable f → LoadsBack f (frame_wire f)
    unfolding frame_wire
    frame_wire-LoadsBack (data_frame d) (v, l) =
        framed-LoadsBack (data_frame d) (Data.head_of d) d.payload v.0 (λ e. cc e) v.1
          (ap (map data_frame) (Data.Laws.load-head_of bits d l))
    frame_wire-LoadsBack (priority p) v =
        framed-LoadsBack (priority p) (Priority.head_of p)
          (Priority.RoundTrip.payload_of p.dependency)
          (record { flags_byte = omega arith; stream_31 = v.stream_31 }) (λ e. cc e) (omega arith)
          (ap (map priority) (Priority.RoundTrip.load-payload_of p v))
    frame_wire-LoadsBack (reset r) v =
        framed-LoadsBack (reset r) (Reset.head_of r) (Reset.RoundTrip.payload_of r)
          (record { flags_byte = omega arith; stream_31 = v.stream_31 }) (λ e. cc e) (omega arith)
          (ap (map reset) (Reset.RoundTrip.load-payload_of r v))
    frame_wire-LoadsBack (settings s) ((flags, sized), v) =
        framed-LoadsBack (settings s) (Settings.head_of s)
          (Settings.Wire.payload_wire (Settings.Wire.items s))
          (record { flags_byte = flags; stream_31 = omega arith }) (λ e. cc e)
          (omega (arith, Settings.Wire.payload_len-wire s, Settings.Wire.payload_len-le s))
          (ap (map settings) (Settings.RoundTrip.load_sent bits s v sized))
    frame_wire-LoadsBack (go_away g) v =
        framed-LoadsBack (go_away g) (GoAway.head_of g) (GoAway.RoundTrip.payload_of g)
          (record { flags_byte = omega arith; stream_31 = omega arith }) (λ e. cc e) (omega arith)
          (ap (map go_away) (GoAway.RoundTrip.load-payload_of g v))
    frame_wire-LoadsBack (window_update w) v =
        framed-LoadsBack (window_update w) (WindowUpdate.head_of w)
          (WindowUpdate.RoundTrip.payload_of w)
          (record { flags_byte = omega arith; stream_31 = v.stream_31 }) (λ e. cc e) (omega arith)
          (ap (map window_update) (WindowUpdate.RoundTrip.load-payload_of w v))
    frame_wire-LoadsBack (headers h) v = absurd v
    frame_wire-LoadsBack (continuation h) v = absurd v
    frame_wire-LoadsBack (bin_code h) v = absurd v
    frame_wire-LoadsBack unknown v = absurd v

    IsLoadable-IsSendable : (f : Frame) → IsLoadable f → IsSendable f
    IsLoadable-IsSendable (data_frame d) v = v.0
    IsLoadable-IsSendable (priority p) v = v
    IsLoadable-IsSendable (reset r) v = v
    IsLoadable-IsSendable (settings s) v = v.0
    IsLoadable-IsSendable (go_away g) v = v
    IsLoadable-IsSendable (window_update w) v = v
    IsLoadable-IsSendable (headers h) v = absurd v
    IsLoadable-IsSendable (continuation h) v = absurd v
    IsLoadable-IsSendable (bin_code h) v = absurd v
    IsLoadable-IsSendable unknown v = absurd v

    -- A frame of any of the six kinds that have a `load`, with numbers that fit and within what that
    -- tests: `write_to` puts these bytes behind what was written, or the connection fails; and the
    -- bytes are a header and a payload, of which the header is parsed with the length of the payload
    -- and the `load` of the kind gives the frame as it was.
    pub load-write_to :
        (tcp : TcpStream) (f : Frame) (c : tcp.Conn)
        → IsLoadable f
        → (ws : List ℕ) × Sends tcp (write_to buf tcp f) c ws × LoadsBack f ws
    load-write_to tcp f c v = (
      frame_wire f,
      write_to-frame_wire buf tcp f c (IsLoadable-IsSendable f v),
      frame_wire-LoadsBack f v,
    )
