-- ===== src/Client/Marks.antt =====
-- client.rs: what adding and removing flags leaves, as arithmetic on the six bits that are kept.
use h2l.Base.{ℕ, ◌+◌, ◌*◌, ◌/◌, ◌%◌, ◌==◌, ◌≡◌, refl, bit_and, bit_or, bit_xor, arith}
use h2l.Base.Bits.{bit_and_low}
use h2l.Base.Tables.{same_below, same_below→eq}
use h2l.Crates.Bitflags.{Bitflags}
use h2l.Client.Forward.{all_flags, mantain_loop_exited, read_closed, write_closed}
use h2l.Client.Flags.{
  handshaked, reconnected, read_write_closed, loaded_flags, add_flags, remove_flags,
}

bit_and-all_flags : (raw : ℕ) → bit_and raw all_flags ≡ raw % 64
bit_and-all_flags raw = ground (arith, bit_and_low 6 (raw / 64) (raw % 64))

module _ (bits : Bitflags) where
  open bits use {contains, from_bits_truncate_bits, union_bits, remove_bits, contains_bits}

  pub loaded_flags-low : (raw : ℕ) → loaded_flags bits raw ≡ raw % 64
  loaded_flags-low raw = rw (from_bits_truncate_bits all_flags raw) (bit_and-all_flags raw)

  pub add_flags-handshaked :
      (raw : ℕ) → add_flags bits handshaked raw ≡ raw % 64 / 8 * 8 + 4 + raw % 4
  unfolding add_flags same_below
  add_flags-handshaked raw =
      let table =
        same_below→eq (λ n. bit_or n handshaked) (λ n. n / 8 * 8 + 4 + n % 4) 64 (raw % 64)
          (omega arith) refl in
      rw (union_bits (loaded_flags bits raw) handshaked, loaded_flags-low raw)
        (omega (arith, table))

  pub add_flags-reconnected : (raw : ℕ) → add_flags bits reconnected raw ≡ 32 + raw % 32
  unfolding add_flags same_below
  add_flags-reconnected raw =
      let table =
        same_below→eq (λ n. bit_or n reconnected) (λ n. 32 + n % 32) 64 (raw % 64) (omega arith)
          refl in
      rw (union_bits (loaded_flags bits raw) reconnected, loaded_flags-low raw)
        (omega (arith, table))

  pub add_flags-exited : (raw : ℕ) → add_flags bits mantain_loop_exited raw ≡ raw % 64 / 2 * 2 + 1
  unfolding add_flags same_below
  add_flags-exited raw =
      let table =
        same_below→eq (λ n. bit_or n mantain_loop_exited) (λ n. n / 2 * 2 + 1) 64 (raw % 64)
          (omega arith) refl in
      rw (union_bits (loaded_flags bits raw) mantain_loop_exited, loaded_flags-low raw)
        (omega (arith, table))

  pub remove_flags-closed :
      (raw : ℕ) → remove_flags bits read_write_closed raw ≡ raw % 64 / 32 * 32 + raw % 8
  unfolding remove_flags same_below
  remove_flags-closed raw =
      let table =
        same_below→eq (λ n. bit_xor n (bit_and n read_write_closed)) (λ n. n / 32 * 32 + n % 8) 64
          (raw % 64) (omega arith) refl in
      rw (remove_bits (loaded_flags bits raw) read_write_closed, loaded_flags-low raw)
        (omega (arith, table))

  pub contains-exited :
      (raw : ℕ) → contains (loaded_flags bits raw) mantain_loop_exited ≡ (raw % 2 == 1)
  unfolding same_below
  contains-exited raw =
      let table =
        same_below→eq (λ n. bit_and n mantain_loop_exited) (λ n. n % 2) 64 (raw % 64) (omega arith)
          refl in
      rw (contains_bits (loaded_flags bits raw) mantain_loop_exited, loaded_flags-low raw)
        (ground (arith, table))

  pub add_flags-read_closed :
      (raw : ℕ) → add_flags bits read_closed raw ≡ raw % 64 / 16 * 16 + 8 + raw % 8
  unfolding add_flags same_below
  add_flags-read_closed raw =
      let table =
        same_below→eq (λ n. bit_or n read_closed) (λ n. n / 16 * 16 + 8 + n % 8) 64 (raw % 64)
          (omega arith) refl in
      rw (union_bits (loaded_flags bits raw) read_closed, loaded_flags-low raw)
        (omega (arith, table))

  pub add_flags-write_closed :
      (raw : ℕ) → add_flags bits write_closed raw ≡ raw % 64 / 32 * 32 + 16 + raw % 16
  unfolding add_flags same_below
  add_flags-write_closed raw =
      let table =
        same_below→eq (λ n. bit_or n write_closed) (λ n. n / 32 * 32 + 16 + n % 16) 64 (raw % 64)
          (omega arith) refl in
      rw (union_bits (loaded_flags bits raw) write_closed, loaded_flags-low raw)
        (omega (arith, table))
