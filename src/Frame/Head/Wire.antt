-- ===== src/Frame/Head/Wire.antt =====
-- The layout of a frame header: three bytes of length, the kind, the flags, four bytes of stream.
use h2l.Base.{
  ℕ, ◌+◌, ◌/◌, ◌%◌, ◌<◌, ◌≤◌, ◌≡◌, ◌≢◌, refl, List, ◌∷◌, ◌++◌, append_assoc, arith, length, IsByte,
}
use h2l.Base.Word.{be_bytes_3, be_bytes_4}
use h2l.Base.Outcome.{Outcome, ok, ◌>>=◌}
use h2l.Crates.BytesMut.{BytesMut, usize_max}
use h2l.Frame.Error.{IoError}
use h2l.Frame.StreamId.Laws.{parse-be_bytes_31}
use h2l.Frame.Head.{Head, Kind, kind_from, kind_byte, parse, encode}

abbrev pub wire : Head → ℕ → List ℕ
wire head payload_len =
    be_bytes_3 payload_len ++ (kind_byte head.kind ∷ head.flags ∷ be_bytes_4 head.stream_id.id)

-- The flags are a `u8`, and the identifier has 31 bits.
pub record IsHead (head : Head) : Type 0 where
  pub flags_byte : IsByte head.flags
  pub stream_31 : head.stream_id.id < 0x8000_0000

kind_byte-lt : (k : Kind) → kind_byte k < 12
unfolding kind_byte
kind_byte-lt Kind.data_kind = omega arith
kind_byte-lt _ = omega arith

kind_from-kind_byte : (k : Kind) → k ≢ Kind.bin_code → kind_from (kind_byte k) ≡ k
unfolding kind_from kind_byte
kind_from-kind_byte Kind.data_kind h = refl
kind_from-kind_byte Kind.bin_code h = absurd (h refl)
kind_from-kind_byte _ h = refl

-- The layout of a header whose flags fit a byte and whose stream fits 31 bits is parsed back as the
-- header, whatever bytes follow, unless its kind is the one that `Kind::from` lacks.
pub parse-wire :
    (head : Head) (n : ℕ) (rest : List ℕ)
    → IsHead head
    → head.kind ≢ Kind.bin_code
    → parse (wire head n ++ rest) ≡ ok head
unfolding parse
parse-wire head n rest v k =
    ground (arith, parse-be_bytes_31 head.stream_id.id rest, kind_from-kind_byte head.kind)

-- The effect of an encoder: it returns, and it has appended these bytes.
abbrev pub Appends : (buf : BytesMut) → buf.Buffer → Outcome IoError buf.Buffer → List ℕ → Type 0
Appends buf dst run written =
    (out : buf.Buffer) × (run ≡ ok out) × (buf.bytes out ≡ buf.bytes dst ++ written)

-- An encoder that appends after another one that succeeded.
pub Appends-bind :
    (buf : BytesMut) (dst : buf.Buffer) (m : Outcome IoError buf.Buffer)
    (f : buf.Buffer → Outcome IoError buf.Buffer) (xs ys : List ℕ)
    → Appends buf dst m xs
    → ((mid : buf.Buffer) → buf.bytes mid ≡ buf.bytes dst ++ xs → Appends buf mid (f mid) ys)
    → Appends buf dst (m >>= f) (xs ++ ys)
Appends-bind buf dst m f xs ys (mid, e, bs) step =
    let (out, e', bs') = step mid bs in (out, rw e e', rw (bs', bs, append_assoc))

-- An encoder that appends after the header.
pub Appends-header :
    (buf : BytesMut) (dst : buf.Buffer) (head : Head) (n : ℕ) (f : buf.Buffer → buf.Buffer)
    (payload : List ℕ)
    → Appends buf dst (encode buf head n dst) (wire head n)
    → ((mid : buf.Buffer) → buf.bytes (f mid) ≡ buf.bytes mid ++ payload)
    → Appends buf dst (encode buf head n dst >>= λ mid. ok (f mid)) (wire head n ++ payload)
Appends-header buf dst head n f payload a step =
    Appends-bind buf dst (encode buf head n dst) (λ mid. ok (f mid)) (wire head n) payload a
      λ mid _. (f mid, refl, step mid)

module _ (buf : BytesMut) where
  open buf use {
    Buffer, bytes, get_uint, get_uint_three, remaining_mut, remaining_mut_room, put_u8, put_u32,
    put_uint, bytes-put_u8, bytes-put_u32, bytes-put_uint,
  }

  -- Where nine bytes have room, the encoder appends the layout.
  pub encode-wire :
      (head : Head) (n : ℕ) (dst : Buffer)
      → IsHead head
      → n < 0x100_0000
      → length (bytes dst) + 9 ≤ usize_max
      → Appends buf dst (encode buf head n dst) (wire head n)
  unfolding encode
  encode-wire head n dst v hn room =
      let d1 = put_uint dst n 3 in
      let d2 = put_u8 d1 (kind_byte head.kind) in
      let d3 = put_u8 d2 head.flags in
      let d4 = put_u32 d3 head.stream_id.id in
      (
        d4,
        ground (arith, remaining_mut_room dst 9),
        simp (
          bytes-put_u32 d3 head.stream_id.id (omega arith),
          bytes-put_u8 d2 head.flags v.flags_byte,
          bytes-put_u8 d1 (kind_byte head.kind) (omega (arith, kind_byte-lt head.kind)),
          bytes-put_uint dst n hn,
          append_assoc,
        ),
      )

  -- The length that `get_uint(3)` reads from a header.
  pub get_uint-wire :
      (head : Head) (n : ℕ) (rest : List ℕ) → n < 0x100_0000 → get_uint (wire head n ++ rest) 3 ≡ n
  get_uint-wire head n rest h =
      omega (arith, get_uint_three (n / 0x1_0000) (n / 0x100 % 0x100) (n % 0x100))
