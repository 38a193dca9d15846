-- ===== src/Tests/Queues.antt =====
-- Channels in memory: what the package promises can be had.
use h2l.Base.{
  ℕ, ◌==◌, ==→eq, if◌then◌else◌, Bool-cases, ltb, ◌≡◌, refl, ◌⊎◌, inl, inr, List, [], ◌∷◌, ◌++◌,
  Bool, length, arith,
}
use h2l.Base.Outcome.{ok, err}
use h2l.Base.Exec.{Exec}
use h2l.Crates.Channel.{Channel, TrySendError, full}
use h2l.Transaction.{Transaction}

-- Channels named by numbers, each of which holds at most 1024 messages.
abbrev pub Queues : Type 0
Queues = ℕ → List (Transaction ℕ)

abbrev pub put : ℕ → Transaction ℕ → Queues → Queues
put tx x w other = if tx == other then w other ++ (x ∷ []) else w other

abbrev pub has_room : Queues → ℕ → Bool
has_room w tx = ltb (length (w tx)) 1024

abbrev pub try_put : ℕ → Transaction ℕ → Exec Queues TrySendError (Unit {0})
try_put tx x w = if has_room w tx then (ok tt, put tx x w) else (err full, w)

pub put_same : (tx : ℕ) (x : Transaction ℕ) (w : Queues) → put tx x w tx ≡ w tx ++ (x ∷ [])
put_same tx x w = ground arith

pub try_put_cases :
    (tx : ℕ) (x : Transaction ℕ) (w : Queues)
    → ((w' : Queues) × (try_put tx x w ≡ (ok tt, w')) × (w' tx ≡ w tx ++ (x ∷ [])))
      ⊎ ((e : TrySendError) × (try_put tx x w ≡ (err e, w)))
try_put_cases tx x w = elim (Bool-cases (has_room w tx)) [
  | inl e ↦ inl (put tx x w, rw e refl, put_same tx x w)
  | inr e ↦ inr (full, rw e refl)
]

pub try_put_others :
    (tx other : ℕ)
    → (tx ≡ other) ⊎ ((x : Transaction ℕ) (w : Queues) → (try_put tx x w).1 other ≡ w other)
try_put_others tx other = elim (Bool-cases (tx == other)) [
  | inl e ↦ inl (==→eq tx other e)
  | inr e ↦ inr (λ x w. elim (Bool-cases (has_room w tx)) [
    | inl room ↦ rw (room, e) refl
    | inr over ↦ rw over refl
  ])
]

abbrev pub queues : Channel ℕ (Transaction ℕ)
queues = record {
  World = Queues;
  try_send = try_put;
  send = λ tx x w. (ok tt, put tx x w);
  sent = λ w tx. w tx;
  try_send_cases = try_put_cases;
  try_send_others = try_put_others;
}
