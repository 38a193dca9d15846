-- ===== src/Frame/Priority/RoundTrip.antt =====
-- A PRIORITY frame that was encoded is loaded again as it was.
use h2l.Base.{
  ℕ, ◌+◌, ◌*◌, ◌<◌, ◌≤◌, ◌≡◌, ◌≢◌, List, [], ◌∷◌, ◌++◌, append_assoc, arith, length, IsByte,
  if◌then◌else◌, bit_or,
}
use h2l.Base.Word.{be_bytes_4}
use h2l.Base.Outcome.{ok, err}
use h2l.Base.Bits.{bit_or_low_high}
use h2l.Crates.BytesMut.{BytesMut, usize_max}
use h2l.Frame.Error.{invalid_dependency_id}
use h2l.Frame.StreamId.Laws.{parse-be_bytes}
use h2l.Frame.Head.{Head}
use h2l.Frame.Head.Wire
use h2l.Frame.Head.Wire.{Appends, Appends-header}
use h2l.Frame.Priority.{
  StreamDependency, Priority, load_dependency, encode_dependency, head_of, encode, load,
}

-- The identifier with the exclusive bit above it.
abbrev word_of : StreamDependency → ℕ
word_of d = d.dependency_id.id + (if d.is_exclusive then 1 else 0) * 0x8000_0000

abbrev pub payload_of : StreamDependency → List ℕ
payload_of d = be_bytes_4 (word_of d) ++ (d.weight ∷ [])

-- Two identifiers of 31 bits that differ, and a weight of 8.
pub record IsValid (p : Priority) : Type 0 where
  pub stream_31 : p.stream_id.id < 0x8000_0000
  pub dependency_31 : p.dependency.dependency_id.id < 0x8000_0000
  pub weight_8 : IsByte p.dependency.weight
  pub not_self : p.dependency.dependency_id.id ≢ p.stream_id.id

pub load_dependency-payload_of :
    (d : StreamDependency)
    → d.dependency_id.id < 0x8000_0000
    → load_dependency (payload_of d) ≡ ok d
unfolding load_dependency
load_dependency-payload_of d h =
    ground (arith, parse-be_bytes d.dependency_id.id (if d.is_exclusive then 1 else 0) [])

pub load-payload_of : (p : Priority) → IsValid p → load (head_of p) (payload_of p.dependency) ≡ ok p
unfolding load
load-payload_of p v = ground (arith, load_dependency-payload_of p.dependency)

-- A payload that names, in 31 bits, the stream of its own header as the one to depend on is refused,
-- whatever its weight and its exclusive bit.
pub load_self :
    (head : Head) (d : StreamDependency)
    → d.dependency_id.id < 0x8000_0000
    → d.dependency_id.id ≡ head.stream_id.id
    → load head (payload_of d) ≡ err invalid_dependency_id
unfolding load
load_self head d h e = ground (arith, load_dependency-payload_of d)

module _ (buf : BytesMut) where
  open buf use {Buffer, bytes, put_u32, bytes-put_u32, bytes-put_u8}

  encode_dependency-wire :
      (d : StreamDependency) (dst : Buffer)
      → d.dependency_id.id < 0x8000_0000
      → IsByte d.weight
      → bytes (encode_dependency buf d dst) ≡ bytes dst ++ payload_of d
  unfolding encode_dependency
  encode_dependency-wire d dst h hw =
      let word =
        if d.is_exclusive then bit_or d.dependency_id.id 0x8000_0000 else d.dependency_id.id in
      let eq : word ≡ word_of d = ground (arith, bit_or_low_high 31 1 d.dependency_id.id) in
      rw (encode_dependency, eq)
        (simp (
          bytes-put_u8 (put_u32 dst (word_of d)) d.weight hw,
          bytes-put_u32 dst (word_of d) (ground arith),
          append_assoc,
        ))

  pub encode-wire :
      (p : Priority) (dst : Buffer)
      → IsValid p
      → length (bytes dst) + 9 ≤ usize_max
      → Appends buf dst (encode buf p dst) (Wire.wire (head_of p) 5 ++ payload_of p.dependency)
  unfolding encode
  encode-wire p dst v room =
      Appends-header buf dst (head_of p) 5 _ (payload_of p.dependency)
        (Wire.encode-wire buf (head_of p) 5 dst
          (record { flags_byte = omega arith; stream_31 = v.stream_31 }) (omega arith) room)
        λ mid. encode_dependency-wire p.dependency mid v.dependency_31 v.weight_8

  -- Where nine bytes have room, a valid frame is written as a header and five bytes, and those are
  -- loaded as the frame.
  pub load-encode_priority :
      (p : Priority) (dst : Buffer)
      → IsValid p
      → length (bytes dst) + 9 ≤ usize_max
      → Appends buf dst (encode buf p dst) (Wire.wire (head_of p) 5 ++ payload_of p.dependency)
        × (load (head_of p) (payload_of p.dependency) ≡ ok p)
  load-encode_priority p dst v room = (encode-wire p dst v room, load-payload_of p v)
