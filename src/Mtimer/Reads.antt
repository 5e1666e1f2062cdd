-- ===== src/Mtimer/Reads.antt =====
-- The two halves of a read belong together.
use embed_template.Prelude.{
  ℕ, ◌+◌, ◌*◌, ◌/◌, ◌%◌, ◌^◌, ◌≤◌, ◌<◌, ◌≡◌, ◌≢◌, ap, arith, true, false, ◌==◌, some, Bool-cases,
  inl, inr, ==_iff,
}
use embed_template.Mtimer.{Mtime, get_timestamp}

-- What the machine timer does: it counts up, and by less than 2 ^ 32 during the six accesses of
-- two rounds.
pub record Counts (mtime : Mtime) : Type 0 where
  pub rises : (at : ℕ) → mtime at ≤ mtime (at + 1)
  pub slow : (at : ℕ) → mtime (at + 5) < mtime at + 2 ^ 32

module _ (mtime : Mtime) (c : Counts mtime) where
  between : (at : ℕ) → (mtime at ≤ mtime (at + 1)) × (mtime (at + 1) ≤ mtime (at + 2))
  between at =
      let shift : mtime (at + 1 + 1) ≡ mtime (at + 2) = ap mtime (omega arith) in
      (c.rises at, omega (arith, c.rises (at + 1), shift))

  -- Where the high half is the same before and after, the low half belongs to it.
  whole :
      (at : ℕ)
      → (mtime at / 2 ^ 32 == mtime (at + 2) / 2 ^ 32) ≡ true
      → mtime at / 2 ^ 32 * 2 ^ 32 + mtime (at + 1) % 2 ^ 32 ≡ mtime (at + 1)
  whole at same =
      omega (arith, between at, (==_iff (mtime at / 2 ^ 32) (mtime (at + 2) / 2 ^ 32)).0 same)

  -- The high half changes once in two rounds at most.
  second_round :
      (at : ℕ)
      → (mtime at / 2 ^ 32 == mtime (at + 2) / 2 ^ 32) ≡ false
      → (mtime (at + 3) / 2 ^ 32 == mtime (at + 3 + 2) / 2 ^ 32) ≡ true
  second_round at torn =
      let last : mtime (at + 3 + 2) ≡ mtime (at + 5) = ap mtime (omega arith) in
      let next : mtime (at + 2 + 1) ≡ mtime (at + 3) = ap mtime (omega arith) in
      let ne : mtime at / 2 ^ 32 ≢ mtime (at + 2) / 2 ^ 32 = λ e. absurd (ground arith) in
      (==_iff _ _).1
        (omega (arith, last, next, ne, between at, c.rises (at + 2), between (at + 3), c.slow at))

  -- A read ends in its second round at the latest, and gives the count of the timer at an instant
  -- between its first access and its last one: never the halves of two counts.
  pub get_timestamp_lem :
      (at : ℕ)
      → (i end : ℕ) × (get_timestamp 2 mtime at ≡ some (mtime i, end))
        × (at < i)
        × (i < end)
        × (end ≤ at + 6)
  unfolding get_timestamp
  get_timestamp_lem at = elim (Bool-cases (mtime at / 2 ^ 32 == mtime (at + 2) / 2 ^ 32)) [
    | inl first ↦
        (at + 1, at + 3, rw (first, whole at first), omega arith, omega arith, omega arith)
    | inr torn ↦
        let second = second_round at torn in
        (
          at + 3 + 1,
          at + 3 + 3,
          rw (torn, second, whole (at + 3) second),
          omega arith,
          omega arith,
          omega arith,
        )
  ]
