-- ===== src/Frame/Head.antt =====
-- frame/head.rs: the nine bytes before every payload.
pub mod Wire
use h2l.Base.{ℕ, ◌+◌, ◌<◌, Bool, List, length, get_or, drop, leb, ◌==◌, if◌then◌else◌}
use h2l.Base.Outcome.{Outcome, ok, assert, ◌>>=◌, ◌>>◌}
use h2l.Crates.BytesMut.{BytesMut}
use h2l.Frame.Error.{Error, IoError}
use h2l.Frame.StreamId
use h2l.Frame.StreamId.{StreamId}

-- frame/consts.rs.
abbrev pub header_len : ℕ
header_len = 9

pub data Kind : Type 0 where
  data_kind headers priority reset settings push_promise ping go_away window_update : Kind
  continuation bin_code unknown : Kind

-- The flags of `Flags`, by their bits.
abbrev pub end_stream : ℕ
end_stream = 0x1

abbrev pub end_headers : ℕ
end_headers = 0x4

abbrev pub padded : ℕ
padded = 0x8

-- `From<usize> for Kind`, which the conversions from `u8`, `u16` and `u32` go through.
unfoldable pub kind_from : ℕ → Kind
kind_from val =
    if val == 0
    then data_kind
    else if val == 1
    then headers
    else if val == 2
    then priority
    else if val == 3
    then reset
    else if val == 4
    then settings
    else if val == 5
    then push_promise
    else if val == 6
    then ping
    else if val == 7
    then go_away
    else if val == 8
    then window_update
    else if val == 9
    then continuation
    else unknown

-- `kind as u8`: the discriminants of the enum.
unfoldable pub kind_byte : Kind → ℕ
kind_byte data_kind = 0
kind_byte headers = 1
kind_byte priority = 2
kind_byte reset = 3
kind_byte settings = 4
kind_byte push_promise = 5
kind_byte ping = 6
kind_byte go_away = 7
kind_byte window_update = 8
kind_byte continuation = 9
kind_byte bin_code = 10
kind_byte unknown = 11

-- The derived `PartialEq`.
abbrev pub kind_eq : Kind → Kind → Bool
kind_eq a b = kind_byte a == kind_byte b

pub record Head : Type 0 where
  pub kind : Kind
  pub flags : ℕ
  pub stream_id : StreamId

-- `Head::parse`; a slice of fewer than nine bytes panics.
unfoldable pub parse : List ℕ → Outcome Error Head
parse header = do
  assert (leb 5 (length header))
  (stream_id, _) ← StreamId.parse (drop 5 header)
  ok (record {
    kind = kind_from (get_or header 3 0);
    flags = get_or header 4 0;
    stream_id = stream_id;
  })

module _ (buf : BytesMut) where
  open buf use {Buffer, remaining_mut, put_u8, put_u32, put_uint}

  -- The assertion is a `debug_assert!`.
  unfoldable pub encode : Head → ℕ → Buffer → Outcome IoError Buffer
  encode head payload_len dst = do
    assert (leb header_len (remaining_mut dst))
    let dst = put_uint dst payload_len 3
    let dst = put_u8 dst (kind_byte head.kind)
    let dst = put_u8 dst head.flags
    ok (put_u32 dst (StreamId.to_u32 head.stream_id))
