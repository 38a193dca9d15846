-- ===== src/Composition/Opening.antt =====
-- What a client writes when it opens a connection, at the link that accepts it.
use h2l.Base.{ℕ, suc, ◌<◌, ◌≡◌, refl, ap, ◌∙◌, some, List, ◌∷◌, ◌++◌, arith, length, All, drop}
use h2l.Base.Word.{unpack_octets_4}
use h2l.Base.Outcome.{ok, map}
use h2l.Consts.{http_2_0_preface, http_2_0_settings}
use h2l.Crates.Bitflags.{Bitflags}
use h2l.Crates.BytesMut.{BytesMut}
use h2l.Crates.Httparse.{Httparse}
use h2l.Crates.TcpStream.{TcpStream}
use h2l.Frame.Head.{kind_byte}
use h2l.Frame.Settings
use h2l.Frame.Settings.{Settings}
use h2l.Frame.Any.{Frame, settings}
use h2l.Link.Read.{
  broken, End, read_settings_frame, read_payload, read_frame_head, read_frame, read_frames,
}
use h2l.Link.Reads.{Reads, load-Reads, frame_read-Reads, read_rounds_ok, stream_wire, all_received}
use h2l.Link.Receive.{IsReadable, received, read_frames-stream_wire}
use h2l.Link.Handshake.{read_loop, after_handshake}
use h2l.Link.Opening.{handshake-preface}

-- The settings of every client: no push, a hundred streams, a window of 2^30 bytes.
abbrev pub opening_settings : Settings
opening_settings = record Settings.default {
  push = some 0;
  concurrent = some 100;
  window = some 0x4000_0000;
}

abbrev opening_payload : List ℕ
opening_payload = drop 9 http_2_0_settings

module _ (bits : Bitflags) where
  load-opening :
      Settings.load bits (Settings.head_of Settings.default) opening_payload ≡ ok opening_settings
  unfolding Settings.load_loop Settings.chunks Settings.load_setting Settings.accept unpack_octets_4
  load-opening =
      Settings.Load.load-load_loop bits (Settings.head_of Settings.default) opening_payload refl
        refl refl refl
      ∙ refl

module _ (bits : Bitflags) (buf : BytesMut) (http : Httparse) (tcp : TcpStream) where
  open tcp use {Conn, incoming}

  read_frame-opening :
      (c : Conn) (rest : List ℕ)
      → incoming c ≡ http_2_0_settings ++ rest
      → Reads bits buf tcp (read_frame bits buf tcp) c (settings opening_settings) rest
  unfolding read_frame read_frame_head read_payload read_settings_frame kind_byte
  read_frame-opening c rest h =
      frame_read-Reads bits buf tcp (read_payload bits buf tcp) (Settings.head_of Settings.default)
        opening_payload rest c (settings opening_settings)
        (record { flags_byte = omega arith; stream_31 = omega arith }) (λ e. cc e) (omega arith) h
        λ c' i.
          load-Reads bits buf tcp opening_payload rest
            (λ p. map settings (Settings.load bits (Settings.head_of Settings.default) p)) c' _ i
            (ap (map settings) (load-opening bits))

  -- A link, at the other end of a client that opened the connection and then wrote frames which the
  -- link reads, sends on the settings of the client and then exactly these frames, in order; what
  -- follows is at most eight bytes, and fuel of two more than there are frames is enough.
  pub read_loop-opening :
      (fuel : ℕ) (fs : List Frame) (c : Conn) (tail : List ℕ)
      → All IsReadable fs
      → incoming c ≡ http_2_0_preface ++ http_2_0_settings ++ stream_wire fs ++ tail
      → length tail < 9
      → length fs < fuel
      → (c' : Conn) × (read_loop bits buf http tcp (suc fuel) c
          ≡ (settings opening_settings ∷ all_received received fs, (broken, c')))
  unfolding read_loop after_handshake read_frames
  read_loop-opening fuel fs c tail v h ht hf =
      let (c1, e, i, w) =
        handshake-preface http tcp c (http_2_0_settings ++ stream_wire fs ++ tail) h in
      let (c2, q, i') = read_frame-opening c1 (stream_wire fs ++ tail) i in
      let (c3, r) = read_frames-stream_wire bits buf tcp fuel fs c2 tail v i' ht hf in
      (
        c3,
        rw e (
            read_rounds_ok bits buf tcp (read_frame bits buf tcp) fuel c1 c2
              (settings opening_settings) q
            ∙ ap (λ (p : List Frame × (End × Conn)). (settings opening_settings ∷ p.0, p.1)) r),
      )
