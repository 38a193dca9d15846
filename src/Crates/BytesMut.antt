-- ===== src/Crates/BytesMut.antt =====
-- The package `bytes`: the growable buffer `BytesMut`, the writers of the trait `BufMut` on it, and
-- `get_uint` of the trait `Buf` on a slice. Writers append in network byte order.
use h2l.Base.{ℕ, ◌+◌, ◌*◌, ◌<◌, ◌≤◌, ◌≡◌, List, [], ◌∷◌, ◌++◌, length, IsByte}
use h2l.Base.Word.{be_bytes_2, be_bytes_3, be_bytes_4}

abbrev pub usize_max : ℕ
usize_max = 0xffff_ffff_ffff_ffff

pub record BytesMut : Type 1 where
  pub Buffer : Type 0
  pub with_capacity : ℕ → Buffer
  -- What `&buffer[..]` reads.
  pub bytes : Buffer → List ℕ
  pub remaining_mut : Buffer → ℕ
  pub put_u8 : Buffer → ℕ → Buffer
  pub put_u16 : Buffer → ℕ → Buffer
  pub put_u32 : Buffer → ℕ → Buffer
  -- A number and how many bytes to write of it.
  pub put_uint : Buffer → ℕ → ℕ → Buffer
  pub put_slice : Buffer → List ℕ → Buffer
  pub get_uint : List ℕ → ℕ → ℕ
  pub bytes-with_capacity : (n : ℕ) → bytes (with_capacity n) ≡ []
  -- A buffer grows as needed, up to the largest `usize`.
  pub remaining_mut_room :
      (b : Buffer) (n : ℕ) → length (bytes b) + n ≤ usize_max → n ≤ remaining_mut b
  pub bytes-put_u8 : (b : Buffer) (n : ℕ) → n < 0x100 → bytes (put_u8 b n) ≡ bytes b ++ (n ∷ [])
  pub bytes-put_u16 :
      (b : Buffer) (n : ℕ) → n < 0x1_0000 → bytes (put_u16 b n) ≡ bytes b ++ be_bytes_2 n
  pub bytes-put_u32 :
      (b : Buffer) (n : ℕ) → n < 0x1_0000_0000 → bytes (put_u32 b n) ≡ bytes b ++ be_bytes_4 n
  pub bytes-put_uint :
      (b : Buffer) (n : ℕ) → n < 0x100_0000 → bytes (put_uint b n 3) ≡ bytes b ++ be_bytes_3 n
  pub bytes-put_slice :
      (b : Buffer) (xs : List ℕ)
      → length (bytes b) + length xs ≤ usize_max
      → bytes (put_slice b xs) ≡ bytes b ++ xs
  pub get_uint_three :
      (x y z : ℕ) (rest : List ℕ)
      → IsByte x
      → IsByte y
      → IsByte z
      → get_uint (x ∷ y ∷ z ∷ rest) 3 ≡ x * 0x1_0000 + y * 0x100 + z
