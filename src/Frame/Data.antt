-- ===== src/Frame/Data.antt =====
-- frame/data.rs: the DATA frame. A payload of type `Arc<dyn AsRef<[u8]>>` is the bytes that it
-- derefs to.
pub mod Laws
use h2l.Base.{
  ℕ, ◌%◌, Bool, true, false, not, Option, none, some, List, [], length, get_or, leb, ◌==◌,
  if◌then◌else◌,
}
use h2l.Base.Outcome.{Outcome, ok, err, assert, ◌>>=◌, ◌>>◌}
use h2l.Crates.Bitflags.{Bitflags}
use h2l.Frame.Error.{Error, invalid_stream_id, too_much_padding}
use h2l.Frame.StreamId
use h2l.Frame.StreamId.{StreamId}
use h2l.Frame.Head.{Head, Kind}

-- `DataFlags`: its two flags and their union.
abbrev pub end_stream : ℕ
end_stream = 0x1

abbrev pub padded : ℕ
padded = 0x8

abbrev pub all_flags : ℕ
all_flags = 0x9

pub record Data : Type 0 where
  pub stream_id : StreamId
  pub payload : List ℕ
  pub flags : ℕ
  pub pad_len : Option ℕ

unfoldable pub new : StreamId → List ℕ → Outcome Error Data
new stream_id payload = do
  assert (not (StreamId.is_zero stream_id))
  ok (record { stream_id = stream_id; payload = payload; flags = 0; pad_len = none })

-- The first byte must be less than the length of the whole payload.
unfoldable pub check_padding : List ℕ → Outcome Error ℕ
check_padding payload =
    if length payload == 0
    then err too_much_padding
    else if leb (length payload) (get_or payload 0 0)
    then err too_much_padding
    else ok (get_or payload 0 0 % 0x100)

abbrev pub head_of : Data → Head
head_of d = record { kind = Kind.data_kind; flags = d.flags; stream_id = d.stream_id }

module _ (bits : Bitflags) where
  open bits use {from_bits_truncate, intersects, insert, remove}

  abbrev pub is_padded : ℕ → Bool
  is_padded flags = intersects flags padded

  unfoldable pub is_end_stream : Data → Bool
  is_end_stream d = intersects d.flags end_stream

  unfoldable pub set_end_stream : Data → Bool → Data
  set_end_stream d val = record d {
    flags = if val then insert d.flags end_stream else remove d.flags end_stream;
  }

  -- `let pad_len = if flags.is_padded() { … } else { None }`.
  unfoldable pub load_padding : ℕ → List ℕ → Outcome Error (Option ℕ)
  load_padding flags payload =
      if is_padded flags then (check_padding payload >>= λ len. ok (some len)) else ok none

  unfoldable pub load : Head → List ℕ → Outcome Error Data
  load head payload =
      let flags = from_bits_truncate all_flags head.flags in
      if StreamId.is_zero head.stream_id
      then err invalid_stream_id
      else (load_padding flags payload >>= λ pad_len. ok (record {
        stream_id = head.stream_id;
        payload = payload;
        flags = flags;
        pad_len = pad_len;
      }))
