-- ===== src/Client/Sides.antt =====
-- client.rs: which side of a connection the flags of a client say is closed.
use h2l.Base.{ℕ, ◌*◌, ◌/◌, ◌%◌, ◌==◌, ◌≡◌, refl, true, false, arith, bit_and}
use h2l.Base.Tables.{same_below, same_below→eq}
use h2l.Crates.Bitflags.{Bitflags}
use h2l.Client.Forward.{read_closed, write_closed, mantain_loop_exited}
use h2l.Client.Flags.{loaded_flags, add_flags}
use h2l.Client.Marks.{loaded_flags-low, add_flags-read_closed, add_flags-write_closed}
use h2l.Client.Announced.{unmarked}

module _ (bits : Bitflags) where
  open bits use {contains, contains_bits}

  -- Flags with one side closed, of a client whose mantain loop has not ended.
  abbrev pub SaysClosed : ℕ → ℕ → Type 0
  SaysClosed side v = (contains v side ≡ true) × (contains v mantain_loop_exited ≡ false)

  pub contains-read_closed :
      (raw : ℕ) → contains (loaded_flags bits raw) read_closed ≡ (raw / 8 % 2 == 1)
  unfolding same_below
  contains-read_closed raw =
      let table =
        same_below→eq (λ n. bit_and n read_closed) (λ n. n / 8 % 2 * 8) 64 (raw % 64) (omega arith)
          refl in
      rw (contains_bits (loaded_flags bits raw) read_closed, loaded_flags-low bits raw)
        (ground (arith, table))

  pub contains-write_closed :
      (raw : ℕ) → contains (loaded_flags bits raw) write_closed ≡ (raw / 16 % 2 == 1)
  unfolding same_below
  contains-write_closed raw =
      let table =
        same_below→eq (λ n. bit_and n write_closed) (λ n. n / 16 % 2 * 16) 64 (raw % 64)
          (omega arith) refl in
      rw (contains_bits (loaded_flags bits raw) write_closed, loaded_flags-low bits raw)
        (ground (arith, table))

  pub reader-SaysClosed :
      (raw : ℕ)
      → raw % 4 ≡ 0
      → SaysClosed read_closed (loaded_flags bits (add_flags bits read_closed raw))
  reader-SaysClosed raw h = (
    rw (contains-read_closed (add_flags bits read_closed raw), add_flags-read_closed bits raw)
        (ground arith),
    unmarked bits (add_flags bits read_closed raw)
        (rw (add_flags-read_closed bits raw) (omega arith)),
  )

  pub writer-SaysClosed :
      (raw : ℕ)
      → raw % 4 ≡ 0
      → SaysClosed write_closed (loaded_flags bits (add_flags bits write_closed raw))
  writer-SaysClosed raw h = (
    rw (contains-write_closed (add_flags bits write_closed raw), add_flags-write_closed bits raw)
        (ground arith),
    unmarked bits (add_flags bits write_closed raw)
        (rw (add_flags-write_closed bits raw) (omega arith)),
  )
