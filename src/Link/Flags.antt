-- ===== src/Link/Flags.antt =====
-- link.rs: the flags of a link, an atomic number that both of its tasks read and write, by
-- number.
use h2l.Base.{ℕ, ◌==◌, if◌then◌else◌}
use h2l.Crates.Bitflags.{Bitflags}
use h2l.Server.Forward.{read_closed, write_closed, read_write_closed, attached, detached}

-- `flags`: a number that is none of these is NONE.
unfoldable pub flags : ℕ → ℕ
flags raw =
    if raw == 0x1
    then read_closed
    else if raw == 0x2
    then write_closed
    else if raw == 0x3
    then read_write_closed
    else if raw == 0x4
    then attached
    else if raw == 0x8
    then detached
    else 0

-- What `add_flags`, `clear_flags` and `set_flags` store.
unfoldable pub add_flags : Bitflags → ℕ → ℕ → ℕ
add_flags bits val raw = bits.union (flags raw) val

unfoldable pub clear_flags : ℕ → ℕ
clear_flags raw = 0

unfoldable pub set_flags : ℕ → ℕ → ℕ
set_flags val raw = val
