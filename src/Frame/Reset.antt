-- ===== src/Frame/Reset.antt =====
-- frame/reset.rs: the RST_STREAM frame.
pub mod RoundTrip
use h2l.Base.{ℕ, List, length, not, ◌==◌, if◌then◌else◌}
use h2l.Base.Outcome.{Outcome, ok, err, ◌>>=◌}
use h2l.Base.Word.{unpack_octets_4}
use h2l.Crates.BytesMut.{BytesMut}
use h2l.Frame.Error.{Error, IoError, invalid_payload_length}
use h2l.Frame.Reason.{Reason}
use h2l.Frame.StreamId.{StreamId}
use h2l.Frame.Head
use h2l.Frame.Head.{Head, Kind}

pub record Reset : Type 0 where
  pub stream_id : StreamId
  pub error_code : Reason

unfoldable pub load : Head → List ℕ → Outcome Error Reset
load head payload =
    if not (length payload == 4)
    then err invalid_payload_length
    else ok (record {
      stream_id = head.stream_id;
      error_code = record { code = unpack_octets_4 payload 0 };
    })

abbrev pub head_of : Reset → Head
head_of r = record { kind = Kind.reset; flags = 0; stream_id = r.stream_id }

module _ (buf : BytesMut) where
  open buf use {Buffer, put_u32}

  unfoldable pub encode : Reset → Buffer → Outcome IoError Buffer
  encode r dst = do dst ← Head.encode buf (head_of r) 4 dst; ok (put_u32 dst r.error_code.code)
