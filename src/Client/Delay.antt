-- ===== src/Client/Delay.antt =====
-- client.rs: `delay_until_exit_loop`, how a client waits before it connects again.
use h2l.Base.{
  ℕ, zero, suc, ◌+◌, ◌*◌, ◌<◌, ◌≤◌, ◌≡◌, refl, ◌⊎◌, inl, inr, Option, none, some, Bool, true, false,
  not, ◌&&◌, ltb, ◌==◌, ==→eq, if◌then◌else◌, Bool-cases, arith,
}

-- `RECONNECT_DELAY_MS`.
abbrev pub reconnect_delay_ms : ℕ
reconnect_delay_ms = 3000

-- In each round the loop reads whether to exit, and how many milliseconds have elapsed; `none` when
-- the fuel runs out, and else the rounds in which it slept.
unfoldable pub delay_until_exit_loop : (ℕ → Bool) → (ℕ → ℕ) → ℕ → ℕ → ℕ → Option ℕ
delay_until_exit_loop is_exit_loop elapsed delay zero n = none
delay_until_exit_loop is_exit_loop elapsed delay (suc fuel) n =
    let rest = delay_until_exit_loop is_exit_loop elapsed delay fuel (suc n) in
    if not (is_exit_loop n) && ltb (elapsed n) delay then rest else some n

module _ (is_exit_loop : ℕ → Bool) (elapsed : ℕ → ℕ) (delay : ℕ) where
  -- The loop sleeps until this round, and no longer.
  abbrev pub Waits : ℕ → ℕ → Type 0
  Waits n m =
      (40 * m < delay + 40)
      × ((is_exit_loop m ≡ true) ⊎ (delay ≤ elapsed m))
      × ((k : ℕ) → n ≤ k → k < m → (is_exit_loop k ≡ false) × (elapsed k < delay))

  waits :
      (fuel n : ℕ)
      → ((k : ℕ) → elapsed k + 40 ≤ elapsed (suc k))
      → 40 * n ≤ elapsed n
      → 40 * n < delay + 40
      → delay + 40 ≤ 40 * (n + fuel)
      → (m : ℕ) × (delay_until_exit_loop is_exit_loop elapsed delay fuel n ≡ some m) × Waits n m
  unfolding delay_until_exit_loop
  waits zero n sleeps old near enough = absurd (omega arith)
  waits (suc fuel) n sleeps old near enough = elim (Bool-cases (is_exit_loop n)) [
    | inl e ↦ (n, rw e refl, (near, inl e, λ k h h'. absurd (omega arith)))
    | inr e ↦ elim (Bool-cases (ltb (elapsed n) delay)) [
      | inr e' ↦ (n, rw (e, e') refl, (near, inr (ground arith), λ k h h'. absurd (omega arith)))
      | inl e' ↦
          let before : elapsed n < delay = ground arith in
          let (m, q, (small, why, all)) =
            waits fuel (suc n) sleeps (omega (arith, sleeps n)) (omega arith) (omega arith) in
          (
            m,
            rw (e, e') q,
            (
              small,
              why,
              λ k h h'. elim (Bool-cases (n == k)) [
                | inl same ↦ let same' : n ≡ k = ==→eq n k same in rw (← same') (e, before)
                | inr other ↦ all k (ground arith) h'
              ],
            ),
          )
    ]
  ]

-- If a sleep takes at least 40 milliseconds: the wait ends, behind fewer rounds than one more than
-- the delay has times 40 milliseconds; it ends in the first round in which it finds that the client is
-- to exit or that the delay has elapsed, and in no earlier one.
pub delay_until_exit_loop-Waits :
    (is_exit_loop : ℕ → Bool) (elapsed : ℕ → ℕ) (delay fuel : ℕ)
    → ((k : ℕ) → elapsed k + 40 ≤ elapsed (suc k))
    → delay + 40 ≤ 40 * fuel
    → (m : ℕ) × (delay_until_exit_loop is_exit_loop elapsed delay fuel 0 ≡ some m)
      × Waits is_exit_loop elapsed delay 0 m
delay_until_exit_loop-Waits is_exit_loop elapsed delay fuel sleeps enough =
    waits is_exit_loop elapsed delay fuel 0 sleeps (omega arith) (omega arith) (omega arith)
