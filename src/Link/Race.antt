-- ===== src/Link/Race.antt =====
-- link.rs: the two tasks of a link at their ends, where each adds its flag by `add_flags`, which loads
-- and stores in two steps, and then loads the flags for its report; in any order.
use h2l.Base.{ℕ}
use h2l.Crates.Bitflags.{Bitflags}
use h2l.Server.Forward.{read_closed, write_closed}
use h2l.Link.Flags.{flags}

-- Where a task stands: in its loop; in `add_flags` with the flags loaded; with its flag stored; with
-- the flags reported.
pub data Pc : Type 0 where
  running added : Pc
  loaded : ℕ → Pc
  reported : ℕ → Pc

-- One step of a task with the flag `val`, on the atomic flags.
pub data Move (bits : Bitflags) (val raw : ℕ) : Pc → ℕ → Pc → Type 0 where
  load : Move bits val raw running raw (loaded (flags raw))
  store : {v : ℕ} → Move bits val raw (loaded v) (bits.union v val) added
  report : Move bits val raw added raw (reported (flags raw))

pub record State : Type 0 where
  pub raw : ℕ
  pub reader : Pc
  pub writer : Pc

pub data Step (bits : Bitflags) (s : State) : State → Type 0 where
  read_step :
      {raw : ℕ} {pc : Pc}
      → Move bits read_closed s.raw s.reader raw pc
      → Step bits s (record s { raw = raw; reader = pc })
  write_step :
      {raw : ℕ} {pc : Pc}
      → Move bits write_closed s.raw s.writer raw pc
      → Step bits s (record s { raw = raw; writer = pc })

abbrev pub init : State
init = record { raw = 0; reader = running; writer = running }

pub data Reach (bits : Bitflags) : State → Type 0 where
  start : Reach bits init
  later : {s t : State} → Reach bits s → Step bits s t → Reach bits t
