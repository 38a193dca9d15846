-- ===== src/Frame/Ping.antt =====
-- frame/ping.rs: the PING frame, which frame/mod.rs leaves out of the build. `head.flag()` stands for
-- the method `flags` of a header.
pub mod RoundTrip
use h2l.Base.{ℕ, ◌==◌, Bool, true, false, not, List, [], ◌∷◌, length, bit_and, if◌then◌else◌}
use h2l.Base.Outcome.{Outcome, ok, err, assert, ◌>>=◌, ◌>>◌}
use h2l.Crates.BytesMut.{BytesMut}
use h2l.Frame.Error.{Error, IoError, bad_frame_size, invalid_stream_id}
use h2l.Frame.StreamId
use h2l.Frame.Head
use h2l.Frame.Head.{Head, Kind, kind_eq}

abbrev pub ack_flag : ℕ
ack_flag = 0x1

-- Of eight bytes.
pub record Ping : Type 0 where
  pub ack : Bool
  pub payload : List ℕ

abbrev pub shutdown_payload : List ℕ
shutdown_payload = 0x0b ∷ 0x7b ∷ 0xa2 ∷ 0xf0 ∷ 0x8b ∷ 0x9b ∷ 0xfe ∷ 0x54 ∷ []

abbrev pub user_payload : List ℕ
user_payload = 0x3b ∷ 0x7c ∷ 0xdb ∷ 0x7a ∷ 0x0b ∷ 0x87 ∷ 0x16 ∷ 0xb4 ∷ []

unfoldable pub new : List ℕ → Ping
new payload = record { ack = false; payload = payload }

unfoldable pub pong : List ℕ → Ping
pong payload = record { ack = true; payload = payload }

unfoldable pub load : Head → List ℕ → Outcome Error Ping
load head bytes = do
  assert (kind_eq head.kind Kind.ping)
  if not (StreamId.is_zero head.stream_id)
      then err invalid_stream_id
      else if not (length bytes == 8)
      then err bad_frame_size
      else ok (record { ack = not (bit_and head.flags ack_flag == 0); payload = bytes })

abbrev pub head_of : Ping → Head
head_of p = record {
  kind = Kind.ping;
  flags = if p.ack then ack_flag else 0;
  stream_id = StreamId.zero;
}

module _ (buf : BytesMut) where
  open buf use {Buffer, put_slice}

  unfoldable pub encode : Ping → Buffer → Outcome IoError Buffer
  encode p dst = do
    dst ← Head.encode buf (head_of p) (length p.payload) dst
    ok (put_slice dst p.payload)
