-- ===== src/Frame/GoAway/RoundTrip.antt =====
-- A GOAWAY frame that was encoded is loaded again as it was.
use h2l.Base.{ℕ, ◌+◌, ◌<◌, ◌≤◌, ◌≡◌, List, [], ◌++◌, append_assoc, arith, length, IsU32}
use h2l.Base.Word.{be_bytes_4, unpack_octets_4-be_bytes_four}
use h2l.Base.Outcome.{ok}
use h2l.Crates.BytesMut.{BytesMut, usize_max}
use h2l.Frame.StreamId.Laws.{parse-be_bytes_31}
use h2l.Frame.Head.Wire
use h2l.Frame.Head.Wire.{Appends, Appends-header}
use h2l.Frame.GoAway.{GoAway, head_of, encode, load}

abbrev pub payload_of : GoAway → List ℕ
payload_of g = be_bytes_4 g.last_stream_id.id ++ be_bytes_4 g.error_code.code

-- A stream identifier of 31 bits and an error code of 32.
pub record IsValid (g : GoAway) : Type 0 where
  pub stream_31 : g.last_stream_id.id < 0x8000_0000
  pub code_32 : IsU32 g.error_code.code

load-append : (g : GoAway) (rest : List ℕ) → IsValid g → load (payload_of g ++ rest) ≡ ok g
unfolding load
load-append g rest v = ground (
  arith,
  parse-be_bytes_31 g.last_stream_id.id [],
  unpack_octets_4-be_bytes_four g.last_stream_id.id g.error_code.code rest,
)

pub load-payload_of : (g : GoAway) → IsValid g → load (payload_of g) ≡ ok g
load-payload_of g v = load-append g [] v

module _ (buf : BytesMut) where
  open buf use {Buffer, bytes, put_u32, bytes-put_u32}

  pub encode-wire :
      (g : GoAway) (dst : Buffer)
      → IsValid g
      → length (bytes dst) + 9 ≤ usize_max
      → Appends buf dst (encode buf g dst) (Wire.wire (head_of g) 8 ++ payload_of g)
  unfolding encode
  encode-wire g dst v room =
      Appends-header buf dst (head_of g) 8 _ (payload_of g)
        (Wire.encode-wire buf (head_of g) 8 dst
          (record { flags_byte = omega arith; stream_31 = omega arith }) (omega arith) room)
        λ mid. simp (
          bytes-put_u32 (put_u32 mid g.last_stream_id.id) g.error_code.code v.code_32,
          bytes-put_u32 mid g.last_stream_id.id (omega arith),
          append_assoc,
        )

  -- Where nine bytes have room, a valid frame is written as a header and eight bytes, and those,
  -- with any debug data behind them, are loaded as the frame.
  pub load-encode_go_away :
      (g : GoAway) (dst : Buffer) (debug : List ℕ)
      → IsValid g
      → length (bytes dst) + 9 ≤ usize_max
      → Appends buf dst (encode buf g dst) (Wire.wire (head_of g) 8 ++ payload_of g)
        × (load (payload_of g ++ debug) ≡ ok g)
  load-encode_go_away g dst debug v room = (encode-wire g dst v room, load-append g debug v)
