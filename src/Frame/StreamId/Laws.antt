-- ===== src/Frame/StreamId/Laws.antt =====
-- What parsing, stepping and converting identifiers give.
use h2l.Base.{
  ℕ, ◌+◌, ◌*◌, ◌/◌, ◌%◌, ◌<◌, ◌≤◌, ◌≡◌, ◌≢◌, false, List, ◌∷◌, ◌++◌, arith, leb, ◌==◌, IsByte, ◌⊎◌,
  inl, inr,
}
use native.Mathlib.Decide.{dec_le}
use h2l.Base.Bits.{bit_and_top, bit_and_clear_top}
use h2l.Base.Word.{from_be_bytes, be_bytes_4, from_be_bytes-be_bytes_4}
use h2l.Base.Outcome.{ok, err}
use h2l.Frame.StreamId.{
  StreamId, stream_id_overflow, max, parse, next_id, is_client_initiated, is_server_initiated,
}

-- The word of four bytes without its top bit, and the top bit.
pub parse_word :
    (a b c d : ℕ) (rest : List ℕ)
    → IsByte a
    → IsByte b
    → IsByte c
    → IsByte d
    → parse (a ∷ b ∷ c ∷ d ∷ rest)
      ≡ ok (
        record { id = from_be_bytes a b c d % 0x8000_0000 },
        leb 0x8000_0000 (from_be_bytes a b c d),
      )
unfolding parse
parse_word a b c d rest ha hb hc hd =
    ground (arith, bit_and_top (from_be_bytes a b c d), bit_and_clear_top (from_be_bytes a b c d))

-- A number of 31 bits and a flag, written as a big-endian word with the flag in the top bit, are
-- read back, whatever bytes follow.
pub parse-be_bytes :
    (n top : ℕ) (rest : List ℕ)
    → n < 0x8000_0000
    → top < 2
    → parse (be_bytes_4 (n + top * 0x8000_0000) ++ rest) ≡ ok (record { id = n }, top == 1)
parse-be_bytes n top rest h ht =
    let w = n + top * 0x8000_0000 in
    ground (
      arith,
      parse_word (w / 0x100_0000) (w / 0x1_0000 % 0x100) (w / 0x100 % 0x100) (w % 0x100) rest,
      from_be_bytes-be_bytes_4 w,
    )

pub parse-be_bytes_31 :
    (n : ℕ) (rest : List ℕ)
    → n < 0x8000_0000
    → parse (be_bytes_4 n ++ rest) ≡ ok (record { id = n }, false)
parse-be_bytes_31 n rest h = ground (
  arith,
  parse_word (n / 0x100_0000) (n / 0x1_0000 % 0x100) (n / 0x100 % 0x100) (n % 0x100) rest,
  from_be_bytes-be_bytes_4 n,
)

-- For an identifier other than 0, up to the maximum, `next_id` never panics. It fails exactly where
-- the next identifier exceeds the maximum, and else gives a larger one of the same initiator, within
-- the maximum.
pub next_id_lem :
    (s : StreamId)
    → s.id ≢ 0
    → s.id ≤ max.id
    → ((next_id s ≡ err stream_id_overflow) × (max.id < s.id + 2))
      ⊎ ((t : StreamId) × (next_id s ≡ ok t)
          × (s.id < t.id)
          × (t.id ≤ max.id)
          × (is_client_initiated t ≡ is_client_initiated s)
          × (is_server_initiated t ≡ is_server_initiated s))
unfolding next_id is_client_initiated is_server_initiated
next_id_lem s nz h = elim (dec_le (s.id + 2) max.id) [
  | yes fits ↦
      inr (
        record { id = s.id + 2 },
        ground arith,
        omega arith,
        omega arith,
        ground arith,
        ground arith,
      )
  | no over ↦ inl (ground arith, omega arith)
]
