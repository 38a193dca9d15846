-- ===== src/Client/Flags.antt =====
-- client.rs: the flags of a client.
use h2l.Base.{ℕ, ◌==◌, ◌||◌, Bool}
use h2l.Crates.Bitflags.{Bitflags}
use h2l.Client.Forward.{all_flags}

abbrev pub forward_loop_exited : ℕ
forward_loop_exited = 0x2

abbrev pub handshaked : ℕ
handshaked = 0x4

abbrev pub reconnected : ℕ
reconnected = 0x20

abbrev pub read_write_closed : ℕ
read_write_closed = 0x18

module _ (bits : Bitflags) where
  open bits use {from_bits_truncate, union, remove}

  -- What `flags` makes of the atomic number.
  abbrev pub loaded_flags : ℕ → ℕ
  loaded_flags raw = from_bits_truncate all_flags raw

  -- What `add_flags`, `remove_flags`, `clear_flags` and `set_flags` store.
  unfoldable pub add_flags : ℕ → ℕ → ℕ
  add_flags val raw = union (loaded_flags raw) val

  unfoldable pub remove_flags : ℕ → ℕ → ℕ
  remove_flags val raw = remove (loaded_flags raw) val

  unfoldable pub clear_flags : ℕ → ℕ
  clear_flags raw = 0

  unfoldable pub set_flags : ℕ → ℕ → ℕ
  set_flags val raw = val

  unfoldable pub is_newly_handshaked : ℕ → Bool
  is_newly_handshaked flags = flags == handshaked || flags == union handshaked reconnected
