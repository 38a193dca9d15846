-- ===== src/Frame/Ping/RoundTrip.antt =====
-- What PING frames are loaded, and that one that was encoded is loaded again as it was.
use h2l.Base.{
  ℕ, ◌+◌, ◌/◌, ◌%◌, ◌≤◌, ◌==◌, ◌≡◌, ◌≢◌, refl, ap, ◌⊎◌, List, ◌++◌, length-append, arith, length,
}
use h2l.Base.Outcome.{ok, err}
use h2l.Base.Bits.{bit_and_low}
use h2l.Crates.BytesMut.{BytesMut, usize_max}
use h2l.Frame.Error.{invalid_stream_id, bad_frame_size}
use h2l.Frame.Head
use h2l.Frame.Head.{Head, Kind, kind_byte}
use h2l.Frame.Head.Wire
use h2l.Frame.Head.Wire.{Appends, Appends-bind}
use h2l.Frame.Ping.{Ping, head_of, encode, load}

-- Bit 0 of the flags is ACK; the others are ignored.
pub load_ping_cases :
    (head : Head) (bytes : List ℕ)
    → head.kind ≡ Kind.ping
    → ((head.stream_id.id ≢ 0) × (load head bytes ≡ err invalid_stream_id))
      ⊎ ((head.stream_id.id ≡ 0) × (length bytes ≢ 8) × (load head bytes ≡ err bad_frame_size))
      ⊎ ((head.stream_id.id ≡ 0)
          × (length bytes ≡ 8)
          × (load head bytes ≡ ok (record { ack = head.flags % 2 == 1; payload = bytes })))
unfolding load kind_byte
load_ping_cases head bytes k = ground (arith, bit_and_low 1 (head.flags / 2) (head.flags % 2))

load-payload : (p : Ping) → length p.payload ≡ 8 → load (head_of p) p.payload ≡ ok p
unfolding load kind_byte
load-payload p h = ground (arith)

module _ (buf : BytesMut) where
  open buf use {Buffer, bytes, bytes-put_slice}

  encode-wire :
      (p : Ping) (dst : Buffer)
      → length p.payload ≡ 8
      → length (bytes dst) + 17 ≤ usize_max
      → Appends buf dst (encode buf p dst) (Wire.wire (head_of p) 8 ++ p.payload)
  unfolding encode
  encode-wire p dst h room = rw h (
      Appends-bind buf dst (Head.encode buf (head_of p) 8 dst) _ (Wire.wire (head_of p) 8) p.payload
        (Wire.encode-wire buf (head_of p) 8 dst
          (record { flags_byte = ground arith; stream_31 = omega arith }) (omega arith)
          (omega arith))
        λ mid e. (
          _,
          refl,
          bytes-put_slice mid p.payload (
              let size : length (bytes mid) ≡ length (bytes dst ++ Wire.wire (head_of p) 8) =
                ap (λ (l : List ℕ). length l) e in
              omega (arith, size, length-append (bytes dst) (Wire.wire (head_of p) 8))),
        ))

  -- Where 17 bytes have room, a PING frame of eight bytes is written as a header and these bytes, and
  -- those are loaded as the frame.
  load-encode_ping :
      (p : Ping) (dst : Buffer)
      → length p.payload ≡ 8
      → length (bytes dst) + 17 ≤ usize_max
      → Appends buf dst (encode buf p dst) (Wire.wire (head_of p) 8 ++ p.payload)
        × (load (head_of p) p.payload ≡ ok p)
  load-encode_ping p dst h room = (encode-wire p dst h room, load-payload p h)
