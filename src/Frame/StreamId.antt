-- ===== src/Frame/StreamId.antt =====
-- frame/stream_id.rs: 31-bit stream identifiers.
pub mod Laws
use h2l.Base.{
  ℕ, ◌+◌, ◌-◌, ◌*◌, ◌%◌, ◌<◌, Bool, true, not, ◌&&◌, List, bit_and, length, get_or, leb, ltb, ◌==◌,
  if◌then◌else◌,
}
use h2l.Base.Outcome.{Outcome, ok, err, assert, ◌>>=◌, ◌>>◌}
use h2l.Base.Word.{from_be_bytes}
use h2l.Frame.Error.{Error, IoError}

pub record StreamId : Type 0 where
  pub id : ℕ

pub data StreamIdOverflow : Type 0 where
  stream_id_overflow : StreamIdOverflow

abbrev pub u32_max : ℕ
u32_max = 0xffff_ffff

-- `1 << 31`, and `!STREAM_ID_MASK`.
abbrev pub stream_id_mask : ℕ
stream_id_mask = 0x8000_0000

abbrev pub stream_id_low : ℕ
stream_id_low = u32_max - stream_id_mask

-- `StreamId::MAX`, that is `u32::MAX >> 1`.
abbrev pub max : StreamId
max = record { id = 0x7fff_ffff }

abbrev pub zero : StreamId
zero = record { id = 0 }

-- The identifier and the reserved bit, from the first four bytes. A shorter slice panics.
unfoldable pub parse : List ℕ → Outcome Error (StreamId × Bool)
parse buf = do
  assert (leb 4 (length buf))
  let unpacked = from_be_bytes (get_or buf 0 0) (get_or buf 1 0) (get_or buf 2 0) (get_or buf 3 0)
  let flag = bit_and unpacked stream_id_mask == stream_id_mask
  ok (record { id = bit_and unpacked stream_id_low }, flag)

unfoldable pub is_client_initiated : StreamId → Bool
is_client_initiated s = not (s.id == 0) && s.id % 2 == 1

unfoldable pub is_server_initiated : StreamId → Bool
is_server_initiated s = not (s.id == 0) && s.id % 2 == 0

abbrev pub is_zero : StreamId → Bool
is_zero s = s.id == 0

-- The addition on a `u32` panics on overflow.
unfoldable pub next_id : StreamId → Outcome StreamIdOverflow StreamId
next_id s = do
  assert (leb (s.id + 2) u32_max)
  if ltb max.id (s.id + 2) then err stream_id_overflow else ok (record { id = s.id + 2 })

-- `From<u32>`: the top bit must be clear.
unfoldable pub from_u32 : ℕ → Outcome IoError StreamId
from_u32 src = do assert (bit_and src stream_id_mask == 0); ok (record { id = src })

-- `From<StreamId> for u32`.
abbrev pub to_u32 : StreamId → ℕ
to_u32 s = s.id
