-- ===== src/Frame/WindowUpdate/RoundTrip.antt =====
-- A WINDOW_UPDATE frame that was encoded is loaded again as it was.
use h2l.Base.{ℕ, ◌+◌, ◌<◌, ◌≤◌, ◌≡◌, List, [], ◌++◌, arith, length}
use h2l.Base.Word.{be_bytes_4, unpack_octets_4, unpack_octets_4-be_bytes}
use h2l.Base.Outcome.{ok}
use h2l.Base.Bits.{bit_and_clear_top}
use h2l.Crates.BytesMut.{BytesMut, usize_max}
use h2l.Frame.Head.{Head, kind_byte}
use h2l.Frame.Head.Wire
use h2l.Frame.Head.Wire.{Appends, Appends-header}
use h2l.Frame.WindowUpdate.{WindowUpdate, head_of, encode, load}

abbrev pub payload_of : WindowUpdate → List ℕ
payload_of w = be_bytes_4 w.size_increment

-- A stream identifier of 31 bits, and an increment of 31 bits that is not 0.
pub record IsValid (w : WindowUpdate) : Type 0 where
  pub stream_31 : w.stream_id.id < 0x8000_0000
  pub increment_31 : w.size_increment < 0x8000_0000
  pub increment_pos : 0 < w.size_increment

pub load-payload_of : (w : WindowUpdate) → IsValid w → load (head_of w) (payload_of w) ≡ ok w
unfolding load kind_byte
load-payload_of w v =
    ground (arith, unpack_octets_4-be_bytes w.size_increment [], bit_and_clear_top w.size_increment)

-- What `load` accepts has an increment of 31 bits that is not 0, and the stream of its header.
pub load_window_update_range :
    (head : Head) (payload : List ℕ) {w : WindowUpdate}
    → load head payload ≡ ok w
    → (0 < w.size_increment) × (w.size_increment < 0x8000_0000) × (w.stream_id ≡ head.stream_id)
unfolding load kind_byte
load_window_update_range head payload h =
    ground (arith, bit_and_clear_top (unpack_octets_4 payload 0))

module _ (buf : BytesMut) where
  open buf use {Buffer, bytes, bytes-put_u32}

  pub encode-wire :
      (w : WindowUpdate) (dst : Buffer)
      → IsValid w
      → length (bytes dst) + 9 ≤ usize_max
      → Appends buf dst (encode buf w dst) (Wire.wire (head_of w) 4 ++ payload_of w)
  unfolding encode
  encode-wire w dst v room =
      Appends-header buf dst (head_of w) 4 _ (payload_of w)
        (Wire.encode-wire buf (head_of w) 4 dst
          (record { flags_byte = omega arith; stream_31 = v.stream_31 }) (omega arith) room)
        λ mid. bytes-put_u32 mid w.size_increment (omega arith)

  -- Where nine bytes have room, a valid frame is written as a header and four bytes, and those are
  -- loaded as the frame.
  pub load-encode_window_update :
      (w : WindowUpdate) (dst : Buffer)
      → IsValid w
      → length (bytes dst) + 9 ≤ usize_max
      → Appends buf dst (encode buf w dst) (Wire.wire (head_of w) 4 ++ payload_of w)
        × (load (head_of w) (payload_of w) ≡ ok w)
  load-encode_window_update w dst v room = (encode-wire w dst v room, load-payload_of w v)
