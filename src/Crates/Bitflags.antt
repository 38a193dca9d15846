-- ===== src/Crates/Bitflags.antt =====
-- The package `bitflags`. A value of a flags type is its field `bits`; the operations that the
-- macro `bitflags!` declares are the same for every flags type, up to the union of its flags.
use h2l.Base.{ℕ, ◌≡◌, refl, Bool, not, bit_and, bit_or, bit_xor, ◌==◌}

pub record Bitflags : Type 0 where
  -- `T::from_bits_truncate(bits)`, with `T::all()` first.
  pub from_bits_truncate : ℕ → ℕ → ℕ
  pub intersects : ℕ → ℕ → Bool
  pub contains : ℕ → ℕ → Bool
  pub insert : ℕ → ℕ → ℕ
  pub remove : ℕ → ℕ → ℕ
  -- The operator `|`.
  pub union : ℕ → ℕ → ℕ
  pub from_bits_truncate_bits : (all bits : ℕ) → from_bits_truncate all bits ≡ bit_and bits all
  pub intersects_bits : (a b : ℕ) → intersects a b ≡ not (bit_and a b == 0)
  pub contains_bits : (a b : ℕ) → contains a b ≡ (bit_and a b == b)
  pub insert_bits : (a b : ℕ) → insert a b ≡ bit_or a b
  pub remove_bits : (a b : ℕ) → remove a b ≡ bit_xor a (bit_and a b)
  pub union_bits : (a b : ℕ) → union a b ≡ bit_or a b

-- The operations by their own laws.
abbrev pub plain_bits : Bitflags
plain_bits = record {
  from_bits_truncate = λ all bits. bit_and bits all;
  intersects = λ a b. not (bit_and a b == 0);
  contains = λ a b. bit_and a b == b;
  insert = λ a b. bit_or a b;
  remove = λ a b. bit_xor a (bit_and a b);
  union = λ a b. bit_or a b;
  from_bits_truncate_bits = λ all bits. refl;
  intersects_bits = λ a b. refl;
  contains_bits = λ a b. refl;
  insert_bits = λ a b. refl;
  remove_bits = λ a b. refl;
  union_bits = λ a b. refl;
}
