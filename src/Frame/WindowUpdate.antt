-- ===== src/Frame/WindowUpdate.antt =====
-- frame/window_update.rs: the WINDOW_UPDATE frame.
pub mod RoundTrip
use h2l.Base.{ℕ, ◌-◌, List, bit_and, length, not, ◌==◌, if◌then◌else◌}
use h2l.Base.Outcome.{Outcome, ok, err, assert, ◌>>=◌, ◌>>◌}
use h2l.Base.Word.{unpack_octets_4}
use h2l.Crates.BytesMut.{BytesMut}
use h2l.Frame.Error.{Error, IoError, bad_frame_size, invalid_window_update_value}
use h2l.Frame.StreamId.{StreamId, u32_max}
use h2l.Frame.Head
use h2l.Frame.Head.{Head, Kind, kind_eq}

-- `1 << 31`.
abbrev pub size_increment_mask : ℕ
size_increment_mask = 0x8000_0000

pub record WindowUpdate : Type 0 where
  pub stream_id : StreamId
  pub size_increment : ℕ

unfoldable pub load : Head → List ℕ → Outcome Error WindowUpdate
load head payload = do
  assert (kind_eq head.kind Kind.window_update)
  if not (length payload == 4) then err bad_frame_size else do
    let size_increment = bit_and (unpack_octets_4 payload 0) (u32_max - size_increment_mask)
    if size_increment == 0
        then err invalid_window_update_value
        else ok (record { stream_id = head.stream_id; size_increment = size_increment })

abbrev pub head_of : WindowUpdate → Head
head_of w = record { kind = Kind.window_update; flags = 0; stream_id = w.stream_id }

module _ (buf : BytesMut) where
  open buf use {Buffer, put_u32}

  unfoldable pub encode : WindowUpdate → Buffer → Outcome IoError Buffer
  encode w dst = do dst ← Head.encode buf (head_of w) 4 dst; ok (put_u32 dst w.size_increment)
