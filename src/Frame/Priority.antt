-- ===== src/Frame/Priority.antt =====
-- frame/priority.rs: the PRIORITY frame.
pub mod RoundTrip
pub mod Cases
use h2l.Base.{ℕ, Bool, not, List, bit_or, length, get_or, take, ◌==◌, if◌then◌else◌}
use h2l.Base.Outcome.{Outcome, ok, err, ◌>>=◌}
use h2l.Crates.BytesMut.{BytesMut}
use h2l.Frame.Error.{Error, IoError, invalid_payload_length, invalid_dependency_id}
use h2l.Frame.StreamId
use h2l.Frame.StreamId.{StreamId}
use h2l.Frame.Head
use h2l.Frame.Head.{Head, Kind}

pub record StreamDependency : Type 0 where
  pub dependency_id : StreamId
  pub weight : ℕ
  pub is_exclusive : Bool

pub record Priority : Type 0 where
  pub stream_id : StreamId
  pub dependency : StreamDependency

-- `StreamDependency::load`.
unfoldable pub load_dependency : List ℕ → Outcome Error StreamDependency
load_dependency src =
    if not (length src == 5)
    then err invalid_payload_length
    else (StreamId.parse (take 4 src) >>= λ parsed.
        ok (record { dependency_id = parsed.0; weight = get_or src 4 0; is_exclusive = parsed.1 }))

unfoldable pub load : Head → List ℕ → Outcome Error Priority
load head payload = do
  dependency ← load_dependency payload
  if dependency.dependency_id.id == head.stream_id.id
      then err invalid_dependency_id
      else ok (record { stream_id = head.stream_id; dependency = dependency })

abbrev pub head_of : Priority → Head
head_of p = record { kind = Kind.priority; flags = 0; stream_id = p.stream_id }

module _ (buf : BytesMut) where
  open buf use {Buffer, put_u8, put_u32}

  -- `StreamDependency::encode`.
  unfoldable pub encode_dependency : StreamDependency → Buffer → Buffer
  encode_dependency d dst =
      let stream_id = StreamId.to_u32 d.dependency_id in
      let word = if d.is_exclusive then bit_or stream_id 0x8000_0000 else stream_id in
      put_u8 (put_u32 dst word) d.weight

  unfoldable pub encode : Priority → Buffer → Outcome IoError Buffer
  encode p dst = do dst ← Head.encode buf (head_of p) 5 dst; ok (encode_dependency p.dependency dst)
