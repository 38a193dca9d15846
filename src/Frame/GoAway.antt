-- ===== src/Frame/GoAway.antt =====
-- frame/go_away.rs: the GOAWAY frame.
pub mod RoundTrip
use h2l.Base.{ℕ, List, length, take, ltb, ◌==◌, if◌then◌else◌}
use h2l.Base.Outcome.{Outcome, ok, err, ◌>>=◌}
use h2l.Base.Word.{unpack_octets_4}
use h2l.Crates.BytesMut.{BytesMut}
use h2l.Frame.Error.{Error, IoError, bad_frame_size}
use h2l.Frame.Reason.{Reason}
use h2l.Frame.StreamId
use h2l.Frame.StreamId.{StreamId}
use h2l.Frame.Head
use h2l.Frame.Head.{Head, Kind}

pub record GoAway : Type 0 where
  pub last_stream_id : StreamId
  pub error_code : Reason

-- The load takes no header, and ignores what follows the first eight bytes.
unfoldable pub load : List ℕ → Outcome Error GoAway
load payload =
    if ltb (length payload) 8
    then err bad_frame_size
    else (StreamId.parse (take 4 payload) >>= λ parsed. ok (record {
      last_stream_id = parsed.0;
      error_code = record { code = unpack_octets_4 payload 4 };
    }))

abbrev pub head_of : GoAway → Head
head_of g = record { kind = Kind.go_away; flags = 0; stream_id = StreamId.zero }

module _ (buf : BytesMut) where
  open buf use {Buffer, put_u32}

  unfoldable pub encode : GoAway → Buffer → Outcome IoError Buffer
  encode g dst = do
    dst ← Head.encode buf (head_of g) 8 dst
    ok (put_u32 (put_u32 dst (StreamId.to_u32 g.last_stream_id)) g.error_code.code)
