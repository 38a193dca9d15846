-- ===== src/Frame/Reset/RoundTrip.antt =====
-- An RST_STREAM frame that was encoded is loaded again as it was.
use h2l.Base.{ℕ, ◌+◌, ◌<◌, ◌≤◌, ◌≡◌, List, [], ◌++◌, arith, length, IsU32}
use h2l.Base.Word.{be_bytes_4, unpack_octets_4-be_bytes}
use h2l.Base.Outcome.{ok}
use h2l.Crates.BytesMut.{BytesMut, usize_max}
use h2l.Frame.Head.Wire
use h2l.Frame.Head.Wire.{Appends, Appends-header}
use h2l.Frame.Reset.{Reset, head_of, encode, load}

abbrev pub payload_of : Reset → List ℕ
payload_of r = be_bytes_4 r.error_code.code

-- A stream identifier of 31 bits and an error code of 32.
pub record IsValid (r : Reset) : Type 0 where
  pub stream_31 : r.stream_id.id < 0x8000_0000
  pub code_32 : IsU32 r.error_code.code

pub load-payload_of : (r : Reset) → IsValid r → load (head_of r) (payload_of r) ≡ ok r
unfolding load
load-payload_of r v = ground (arith, unpack_octets_4-be_bytes r.error_code.code [])

module _ (buf : BytesMut) where
  open buf use {Buffer, bytes, bytes-put_u32}

  pub encode-wire :
      (r : Reset) (dst : Buffer)
      → IsValid r
      → length (bytes dst) + 9 ≤ usize_max
      → Appends buf dst (encode buf r dst) (Wire.wire (head_of r) 4 ++ payload_of r)
  unfolding encode
  encode-wire r dst v room =
      Appends-header buf dst (head_of r) 4 _ (payload_of r)
        (Wire.encode-wire buf (head_of r) 4 dst
          (record { flags_byte = omega arith; stream_31 = v.stream_31 }) (omega arith) room)
        λ mid. bytes-put_u32 mid r.error_code.code v.code_32

  -- Where nine bytes have room, a valid frame is written as a header and four bytes, and those are
  -- loaded as the frame.
  pub load-encode_reset :
      (r : Reset) (dst : Buffer)
      → IsValid r
      → length (bytes dst) + 9 ≤ usize_max
      → Appends buf dst (encode buf r dst) (Wire.wire (head_of r) 4 ++ payload_of r)
        × (load (head_of r) (payload_of r) ≡ ok r)
  load-encode_reset r dst v room = (encode-wire r dst v room, load-payload_of r v)
