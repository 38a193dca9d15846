-- ===== src/Link/Reports.antt =====
-- What the two tasks of a link report when they end.
use h2l.Base.{ℕ, ◌+◌, ◌≡◌, refl, ◌⊎◌, arith}
use h2l.Crates.Bitflags.{Bitflags}
use h2l.Server.Forward.{read_closed, write_closed, read_write_closed}
use h2l.Link.Flags.{flags}
use h2l.Link.Race.{
  Pc, running, added, loaded, reported, Move, load, store, report, State, Step, read_step,
  write_step, Reach, start, later,
}

-- The flag of a task, once it is stored.
abbrev pub stored : ℕ → Pc → ℕ
stored val running = 0
stored val (loaded v) = 0
stored val added = val
stored val (reported n) = val

-- What a task has loaded is still so.
abbrev pub UpToDate : ℕ → Pc → Type 0
UpToDate raw (loaded v) = v ≡ raw
UpToDate raw _ = Unit {0}

-- Both tasks have loaded and not stored yet.
abbrev pub Overlap : Pc → Pc → Type 0
Overlap (loaded v) (loaded w) = Unit {0}
Overlap _ _ = ⊥

-- At no time so far did the two calls of `add_flags` overlap.
abbrev pub NoOverlap : (bits : Bitflags) (s : State) → Reach bits s → Type 0
NoOverlap bits s start = Unit {0}
NoOverlap bits t (later {s = s} r st) = NoOverlap bits s r × (Overlap t.reader t.writer → ⊥)

-- A report says that both sides are closed, where both tasks have reported.
abbrev pub LastReport : Pc → Pc → Type 0
LastReport (reported m) (reported n) = (m ≡ read_write_closed) ⊎ (n ≡ read_write_closed)
LastReport _ _ = Unit {0}

pub record IsSound (s : State) : Type 0 where
  pub sum : s.raw ≡ stored read_closed s.reader + stored write_closed s.writer
  pub read_view : UpToDate s.raw s.reader
  pub write_view : UpToDate s.raw s.writer
  pub last : LastReport s.reader s.writer

module _ (bits : Bitflags) where
  open bits use {union, union_bits}

  read_step-IsSound :
      (raw : ℕ) (reader writer : Pc) {raw' : ℕ} {pc : Pc}
      → (Overlap reader writer → ⊥)
      → Move bits read_closed raw reader raw' pc
      → IsSound (record { raw = raw; reader = reader; writer = writer })
      → IsSound (record { raw = raw'; reader = pc; writer = writer })
  unfolding flags
  read_step-IsSound raw running running apart load h =
      ground (arith, union_bits 0 1, union_bits 2 1)
  read_step-IsSound raw running added apart load h = ground (arith, union_bits 0 1, union_bits 2 1)
  read_step-IsSound raw running (loaded w) apart load h =
      ground (arith, union_bits 0 1, union_bits 2 1)
  read_step-IsSound raw running (reported n) apart load h =
      ground (arith, union_bits 0 1, union_bits 2 1)
  read_step-IsSound raw (loaded v) running apart store h =
      ground (arith, union_bits 0 1, union_bits 2 1)
  read_step-IsSound raw (loaded v) added apart store h =
      ground (arith, union_bits 0 1, union_bits 2 1)
  read_step-IsSound raw (loaded v) (loaded w) apart store h = absurd (apart tt)
  read_step-IsSound raw (loaded v) (reported n) apart store h =
      ground (arith, union_bits 0 1, union_bits 2 1)
  read_step-IsSound raw added running apart report h =
      ground (arith, union_bits 0 1, union_bits 2 1)
  read_step-IsSound raw added added apart report h = ground (arith, union_bits 0 1, union_bits 2 1)
  read_step-IsSound raw added (loaded w) apart report h =
      ground (arith, union_bits 0 1, union_bits 2 1)
  read_step-IsSound raw added (reported n) apart report h =
      ground (arith, union_bits 0 1, union_bits 2 1)
  read_step-IsSound raw (reported n) writer apart m h = elim m [ ]

  write_step-IsSound :
      (raw : ℕ) (reader writer : Pc) {raw' : ℕ} {pc : Pc}
      → (Overlap reader writer → ⊥)
      → Move bits write_closed raw writer raw' pc
      → IsSound (record { raw = raw; reader = reader; writer = writer })
      → IsSound (record { raw = raw'; reader = reader; writer = pc })
  unfolding flags
  write_step-IsSound raw running running apart load h =
      ground (arith, union_bits 0 2, union_bits 1 2)
  write_step-IsSound raw added running apart load h = ground (arith, union_bits 0 2, union_bits 1 2)
  write_step-IsSound raw (loaded w) running apart load h =
      ground (arith, union_bits 0 2, union_bits 1 2)
  write_step-IsSound raw (reported n) running apart load h =
      ground (arith, union_bits 0 2, union_bits 1 2)
  write_step-IsSound raw running (loaded v) apart store h =
      ground (arith, union_bits 0 2, union_bits 1 2)
  write_step-IsSound raw added (loaded v) apart store h =
      ground (arith, union_bits 0 2, union_bits 1 2)
  write_step-IsSound raw (loaded w) (loaded v) apart store h = absurd (apart tt)
  write_step-IsSound raw (reported n) (loaded v) apart store h =
      ground (arith, union_bits 0 2, union_bits 1 2)
  write_step-IsSound raw running added apart report h =
      ground (arith, union_bits 0 2, union_bits 1 2)
  write_step-IsSound raw added added apart report h = ground (arith, union_bits 0 2, union_bits 1 2)
  write_step-IsSound raw (loaded w) added apart report h =
      ground (arith, union_bits 0 2, union_bits 1 2)
  write_step-IsSound raw (reported n) added apart report h =
      ground (arith, union_bits 0 2, union_bits 1 2)
  write_step-IsSound raw running (reported n) apart m h = elim m [ ]
  write_step-IsSound raw added (reported n) apart m h = elim m [ ]
  write_step-IsSound raw (loaded w) (reported n) apart m h = elim m [ ]
  write_step-IsSound raw (reported k) (reported n) apart m h = elim m [ ]

  Step-IsSound :
      {s t : State} → Step bits s t → (Overlap s.reader s.writer → ⊥) → IsSound s → IsSound t
  Step-IsSound {s} (read_step m) apart h = read_step-IsSound s.raw s.reader s.writer apart m h
  Step-IsSound {s} (write_step m) apart h = write_step-IsSound s.raw s.reader s.writer apart m h

  NoOverlap-apart :
      {s : State} (r : Reach bits s) → NoOverlap bits s r → Overlap s.reader s.writer → ⊥
  NoOverlap-apart start h o = o
  NoOverlap-apart (later r st) h o = h.1 o

  -- In every state that the two tasks reach, in any order, if their two calls of `add_flags` did not
  -- overlap: the flags are the sum of those stored, and once both tasks have reported, one of the
  -- reports is READ_WRITE_CLOSED.
  pub Reach-IsSound : {s : State} (r : Reach bits s) → NoOverlap bits s r → IsSound s
  Reach-IsSound start h = record { sum = refl; read_view = tt; write_view = tt; last = tt }
  Reach-IsSound (later r st) h = Step-IsSound st (NoOverlap-apart r h.0) (Reach-IsSound r h.0)
