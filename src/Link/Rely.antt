-- ===== src/Link/Rely.antt =====
-- What one task of a link can rely on while the other comes to its end, whether or not their two calls
-- of `add_flags` overlap.
use h2l.Base.{ℕ, ◌≡◌, refl, ◌⊎◌, arith}
use h2l.Crates.Bitflags.{Bitflags}
use h2l.Server.Forward.{read_closed, write_closed, read_write_closed}
use h2l.Link.Flags.{flags}
use h2l.Link.Reports.{stored}
use h2l.Link.Race.{
  Pc, running, added, loaded, reported, Move, load, store, report, State, Step, read_step,
  write_step, Reach, start, later,
}

-- The flags, and what a task has loaded of them, where the task has not stored its own flag: the
-- flag of the other task, if that has stored it.
abbrev Unmarked : ℕ → ℕ → Pc → Pc → Type 0
Unmarked val raw running other = raw ≡ stored val other
Unmarked val raw (loaded v) other = (raw ≡ stored val other) × ((v ≡ 0) ⊎ (v ≡ stored val other))
Unmarked val raw added other = Unit {0}
Unmarked val raw (reported v) other = Unit {0}

-- One of the two is closed, or both.
abbrev pub IsClosed : ℕ → Type 0
IsClosed v = (v ≡ read_closed) ⊎ (v ≡ write_closed) ⊎ (v ≡ read_write_closed)

-- Behind the store the flags say that something is closed, and so does the report.
abbrev Closed : ℕ → Pc → Type 0
Closed raw added = IsClosed raw
Closed raw (reported v) = IsClosed raw × IsClosed v
Closed raw _ = Unit {0}

pub record Relies (s : State) : Type 0 where
  pub reads : Unmarked write_closed s.raw s.reader s.writer
  pub writes : Unmarked read_closed s.raw s.writer s.reader
  reader_closed : Closed s.raw s.reader
  writer_closed : Closed s.raw s.writer

module _ (bits : Bitflags) where
  open bits use {union_bits}

  read_step-Relies :
      (raw : ℕ) (reader writer : Pc) {raw' : ℕ} {pc : Pc}
      → Move bits read_closed raw reader raw' pc
      → Relies (record { raw = raw; reader = reader; writer = writer })
      → Relies (record { raw = raw'; reader = pc; writer = writer })
  unfolding flags
  read_step-Relies raw running running load h = ground (arith, union_bits 0 1, union_bits 2 1)
  read_step-Relies raw running added load h = ground (arith, union_bits 0 1, union_bits 2 1)
  read_step-Relies raw running (loaded w) load h = ground (arith, union_bits 0 1, union_bits 2 1)
  read_step-Relies raw running (reported n) load h = ground (arith, union_bits 0 1, union_bits 2 1)
  read_step-Relies raw (loaded v) running store h = ground (arith, union_bits 0 1, union_bits 2 1)
  read_step-Relies raw (loaded v) added store h = ground (arith, union_bits 0 1, union_bits 2 1)
  read_step-Relies raw (loaded v) (loaded w) store h =
      ground (arith, union_bits 0 1, union_bits 2 1)
  read_step-Relies raw (loaded v) (reported n) store h =
      ground (arith, union_bits 0 1, union_bits 2 1)
  read_step-Relies raw added running report h = ground (arith, union_bits 0 1, union_bits 2 1)
  read_step-Relies raw added added report h = ground (arith, union_bits 0 1, union_bits 2 1)
  read_step-Relies raw added (loaded w) report h = ground (arith, union_bits 0 1, union_bits 2 1)
  read_step-Relies raw added (reported n) report h = ground (arith, union_bits 0 1, union_bits 2 1)
  read_step-Relies raw (reported n) writer m h = elim m [ ]

  write_step-Relies :
      (raw : ℕ) (reader writer : Pc) {raw' : ℕ} {pc : Pc}
      → Move bits write_closed raw writer raw' pc
      → Relies (record { raw = raw; reader = reader; writer = writer })
      → Relies (record { raw = raw'; reader = reader; writer = pc })
  unfolding flags
  write_step-Relies raw running running load h = ground (arith, union_bits 0 2, union_bits 1 2)
  write_step-Relies raw added running load h = ground (arith, union_bits 0 2, union_bits 1 2)
  write_step-Relies raw (loaded w) running load h = ground (arith, union_bits 0 2, union_bits 1 2)
  write_step-Relies raw (reported n) running load h = ground (arith, union_bits 0 2, union_bits 1 2)
  write_step-Relies raw running (loaded v) store h = ground (arith, union_bits 0 2, union_bits 1 2)
  write_step-Relies raw added (loaded v) store h = ground (arith, union_bits 0 2, union_bits 1 2)
  write_step-Relies raw (loaded w) (loaded v) store h =
      ground (arith, union_bits 0 2, union_bits 1 2)
  write_step-Relies raw (reported n) (loaded v) store h =
      ground (arith, union_bits 0 2, union_bits 1 2)
  write_step-Relies raw running added report h = ground (arith, union_bits 0 2, union_bits 1 2)
  write_step-Relies raw added added report h = ground (arith, union_bits 0 2, union_bits 1 2)
  write_step-Relies raw (loaded w) added report h = ground (arith, union_bits 0 2, union_bits 1 2)
  write_step-Relies raw (reported n) added report h = ground (arith, union_bits 0 2, union_bits 1 2)
  write_step-Relies raw reader (reported n) m h = elim m [ ]

  Step-Relies : {s t : State} → Step bits s t → Relies s → Relies t
  Step-Relies {s} (read_step m) h = read_step-Relies s.raw s.reader s.writer m h
  Step-Relies {s} (write_step m) h = write_step-Relies s.raw s.reader s.writer m h

  -- In every state that the two tasks reach, in any order, also where their calls of `add_flags`
  -- overlap: as long as a task has not stored its own flag, the flags are the flag of the other task,
  -- where that has stored it, or none, and so is what the task has loaded; and behind its store the flags
  -- and its report say READ_CLOSED, WRITE_CLOSED or READ_WRITE_CLOSED.
  pub Reach-Relies : {s : State} → Reach bits s → Relies s
  Reach-Relies start = record {
    reads = refl;
    writes = refl;
    reader_closed = tt;
    writer_closed = tt;
  }
  Reach-Relies (later r st) = Step-Relies st (Reach-Relies r)
