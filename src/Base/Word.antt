-- ===== src/Base/Word.antt =====
-- Big-endian words: `u32::from_be_bytes`, the macro `unpack_octets_4!`, and the layout of what the
-- encoders write.
use Prim.Native.Nat.{ℕ, ◌+◌, ◌*◌, ◌/◌, ◌%◌, ◌^◌, ◌<◌, bit_or}
use mathlib.Core.Path.{◌≡◌}
use mathlib.Core.List.{List, [], ◌∷◌, ◌++◌}
use native.Mathlib.Omega.{arith}
use h2l.Base.Lists.{get_or, IsByte}
use h2l.Base.Bits.{bit_or_high_low}

-- `n.to_be_bytes()` of a `u16` and of a `u32`.
abbrev pub be_bytes_2 : ℕ → List ℕ
be_bytes_2 n = n / 0x100 ∷ n % 0x100 ∷ []

-- The three low bytes.
abbrev pub be_bytes_3 : ℕ → List ℕ
be_bytes_3 n = n / 0x1_0000 ∷ n / 0x100 % 0x100 ∷ n % 0x100 ∷ []

abbrev pub be_bytes_4 : ℕ → List ℕ
be_bytes_4 n = n / 0x100_0000 ∷ n / 0x1_0000 % 0x100 ∷ n / 0x100 % 0x100 ∷ n % 0x100 ∷ []

-- `u32::from_be_bytes`.
abbrev pub from_be_bytes : ℕ → ℕ → ℕ → ℕ → ℕ
from_be_bytes a b c d = a * 0x100_0000 + b * 0x1_0000 + c * 0x100 + d

-- `x << k` on a `u32`.
abbrev shl : ℕ → ℕ → ℕ
shl x k = x * 2 ^ k % 2 ^ 32

-- The four bytes at an offset, as one `u32`. The callers have checked the length.
unfoldable pub unpack_octets_4 : List ℕ → ℕ → ℕ
unpack_octets_4 buf offset =
    bit_or
      (bit_or (bit_or (shl (get_or buf (offset + 0) 0) 24) (shl (get_or buf (offset + 1) 0) 16))
        (shl (get_or buf (offset + 2) 0) 8))
      (shl (get_or buf (offset + 3) 0) 0)

or_octets :
    (a b c d : ℕ)
    → IsByte a
    → IsByte b
    → IsByte c
    → IsByte d
    → bit_or (bit_or (bit_or (shl a 24) (shl b 16)) (shl c 8)) (shl d 0) ≡ from_be_bytes a b c d
or_octets a b c d ha hb hc hd = ground (
  arith,
  bit_or_high_low 24 a (b * 0x1_0000),
  bit_or_high_low 16 (a * 0x100 + b) (c * 0x100),
  bit_or_high_low 8 ((a * 0x100 + b) * 0x100 + c) d,
)

pub from_be_bytes-be_bytes_4 :
    (n : ℕ)
    → from_be_bytes (n / 0x100_0000) (n / 0x1_0000 % 0x100) (n / 0x100 % 0x100) (n % 0x100) ≡ n
from_be_bytes-be_bytes_4 n = omega arith

-- The macro at offset 0, and at offsets 2 and 4, of a string of bytes.
pub unpack_octets_4-zero :
    (a b c d : ℕ) (rest : List ℕ)
    → IsByte a
    → IsByte b
    → IsByte c
    → IsByte d
    → unpack_octets_4 (a ∷ b ∷ c ∷ d ∷ rest) 0 ≡ from_be_bytes a b c d
unfolding unpack_octets_4
unpack_octets_4-zero a b c d rest ha hb hc hd = or_octets a b c d ha hb hc hd

pub unpack_octets_4_two :
    (x y a b c d : ℕ) (rest : List ℕ)
    → IsByte a
    → IsByte b
    → IsByte c
    → IsByte d
    → unpack_octets_4 (x ∷ y ∷ a ∷ b ∷ c ∷ d ∷ rest) 2 ≡ from_be_bytes a b c d
unfolding unpack_octets_4
unpack_octets_4_two x y a b c d rest ha hb hc hd = or_octets a b c d ha hb hc hd

pub unpack_octets_4_four :
    (w x y z a b c d : ℕ) (rest : List ℕ)
    → IsByte a
    → IsByte b
    → IsByte c
    → IsByte d
    → unpack_octets_4 (w ∷ x ∷ y ∷ z ∷ a ∷ b ∷ c ∷ d ∷ rest) 4 ≡ from_be_bytes a b c d
unfolding unpack_octets_4
unpack_octets_4_four w x y z a b c d rest ha hb hc hd = or_octets a b c d ha hb hc hd

-- The macro reads back a word that was written, at offset 0 and behind another word.
pub unpack_octets_4-be_bytes :
    (n : ℕ) (rest : List ℕ) → n < 0x1_0000_0000 → unpack_octets_4 (be_bytes_4 n ++ rest) 0 ≡ n
unpack_octets_4-be_bytes n rest h = ground (
  arith,
  unpack_octets_4-zero (n / 0x100_0000) (n / 0x1_0000 % 0x100) (n / 0x100 % 0x100) (n % 0x100) rest,
  from_be_bytes-be_bytes_4 n,
)

pub unpack_octets_4-be_bytes_four :
    (m n : ℕ) (rest : List ℕ)
    → n < 0x1_0000_0000
    → unpack_octets_4 (be_bytes_4 m ++ (be_bytes_4 n ++ rest)) 4 ≡ n
unpack_octets_4-be_bytes_four m n rest h = ground (
  arith,
  unpack_octets_4_four (m / 0x100_0000) (m / 0x1_0000 % 0x100) (m / 0x100 % 0x100) (m % 0x100)
      (n / 0x100_0000) (n / 0x1_0000 % 0x100) (n / 0x100 % 0x100) (n % 0x100) rest,
  from_be_bytes-be_bytes_4 n,
)
