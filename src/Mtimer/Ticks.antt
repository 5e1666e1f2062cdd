-- ===== src/Mtimer/Ticks.antt =====
-- The tick: when it is due, and what it counts.
use embed_template.Prelude.{
  ℕ, zero, suc, ◌+◌, ◌-◌, ◌*◌, ◌%◌, ◌^◌, ◌≤◌, ◌<◌, ◌≡◌, ◌∙◌, refl, ap, ap₂, arith, bit_and, Bool,
  true, false, ◌==◌, if◌then◌else◌, ◌||◌, List, [], ◌∷◌, some, Bool-cases, inl, inr, ==_iff,
}
use mathlib.Core.Bool.{or_assoc}
use embed_template.Prelude.Bits.{bit_and_mask}
use embed_template.Mtimer.Reads.{Counts, get_timestamp_lem}
use embed_template.Mtimer.{
  Mtime, init_systick, get_timestamp48, get_timestamp64, Timer, written, course, write_all,
  arm_writes, rearm_writes, systick_handler,
}

-- Every value is `limit` or more.
abbrev pub AtLeast : ℕ → List ℕ → Type 0
AtLeast limit [] = Unit {0}
AtLeast limit (c ∷ cs) = (limit ≤ c) × AtLeast limit cs

-- The writes of init_systick end at the tick that is wanted, and no value of MTIMECMP on the way
-- is before it, as long as it is in the lower 2 ^ 64 - 2 ^ 32 counts.
pub arm_writes-course :
    (next cmp : ℕ)
    → next < 2 ^ 64 - 2 ^ 32
    → (write_all (arm_writes next) cmp ≡ next) × AtLeast next (course (arm_writes next) cmp)
unfolding write_all arm_writes written course
arm_writes-course next cmp h = (omega arith, (omega arith, (omega arith, (omega arith, tt))))

rearm_writes-all : (next cmp : ℕ) → next < 2 ^ 64 → write_all (rearm_writes next) cmp ≡ next
unfolding write_all rearm_writes written
rearm_writes-all next cmp h = omega arith

-- The handler, `n` times.
unfoldable pub handlers : ℕ → ℕ → Timer → Timer
handlers interval zero t = t
handlers interval (suc n) t = handlers interval n (systick_handler interval t)

-- Whether a multiple of 1024 is met in `n` ticks from `ticks` on.
unfoldable pub meets : ℕ → ℕ → Bool
meets ticks zero = false
meets ticks (suc n) = ((ticks + 1) % 1024 == 0) || meets (ticks + 1) n

or_none : (b : Bool) → b ≡ (b || false)
or_none true = refl
or_none false = refl

meets_congr : (a b n : ℕ) → a % 1024 ≡ b % 1024 → meets a n ≡ meets b n
unfolding meets
meets_congr a b zero e = refl
meets_congr a b (suc n) e =
    let next : (a + 1) % 1024 ≡ (b + 1) % 1024 = omega arith in
    ap₂ (λ r m. (r == 0) || m) next (meets_congr (a + 1) (b + 1) n next)

-- One call of the handler.
systick_handler-eq :
    (interval : ℕ) (t : Timer)
    → ((systick_handler interval t).mtimecmp ≡ (t.mtimecmp + interval) % 2 ^ 64)
      × ((systick_handler interval t).system_ticks ≡ (t.system_ticks + 1) % 2 ^ 32)
      × ((systick_handler interval t).sys_tick ≡ (t.sys_tick || (t.system_ticks + 1) % 1024 == 0))
unfolding systick_handler
systick_handler-eq interval t =
    let ticks = (t.system_ticks + 1) % 2 ^ 32 in
    let low_bits : bit_and ticks 1023 ≡ (t.system_ticks + 1) % 1024 =
      bit_and_mask 10 ticks ∙ omega arith in
    (
      rearm_writes-all ((t.mtimecmp + interval) % 2 ^ 64) t.mtimecmp (omega arith),
      refl,
      rw low_bits (event ((t.system_ticks + 1) % 1024 == 0) t.sys_tick),
    )
  where
    event : (b was : Bool) → (if b then true else was) ≡ (was || b)
    event true true = refl
    event true false = refl
    event false true = refl
    event false false = refl

-- After `n` interrupts MTIMECMP is `n` intervals on and the ticks are `n` more, both as far as
-- they fit, and the event is set exactly if it was, or one of these ticks is a multiple of 1024.
pub handlers-eq :
    (interval n : ℕ) (t : Timer)
    → t.mtimecmp < 2 ^ 64
    → t.system_ticks < 2 ^ 32
    → ((handlers interval n t).mtimecmp ≡ (t.mtimecmp + n * interval) % 2 ^ 64)
      × ((handlers interval n t).system_ticks ≡ (t.system_ticks + n) % 2 ^ 32)
      × ((handlers interval n t).sys_tick ≡ (t.sys_tick || meets t.system_ticks n))
unfolding handlers meets
handlers-eq interval zero t c s = (omega arith, omega arith, or_none t.sys_tick)
handlers-eq interval (suc n) t c s =
    let t' = systick_handler interval t in
    let (cmp, ticks, event) = systick_handler-eq interval t in
    let (cmps, all, events) =
      handlers-eq interval n t' (omega (arith, cmp)) (omega (arith, ticks)) in
    let more : suc n * interval ≡ n * interval + interval = grind arith in
    (
      omega (arith, cmps, cmp, more),
      omega (arith, all, ticks),
      events
          ∙ ap₂ (λ a b. a || b) event
              (meets_congr t'.system_ticks (t.system_ticks + 1) n (omega (arith, ticks)))
          ∙ or_assoc t.sys_tick ((t.system_ticks + 1) % 1024 == 0) (meets (t.system_ticks + 1) n),
    )

rises_to : (mtime : Mtime) (c : Counts mtime) (at i : ℕ) → at ≤ i → mtime at ≤ mtime i
rises_to mtime c at zero h = omega (arith, ap mtime (at_zero at h))
  where
    at_zero : (a : ℕ) → a ≤ 0 → a ≡ 0
    at_zero a h = omega arith
rises_to mtime c at (suc i) h = elim (Bool-cases (at == suc i)) [
  | inl same ↦ omega (arith, ap mtime ((==_iff at (suc i)).0 same))
  | inr other ↦
      let next : mtime (i + 1) ≡ mtime (suc i) = ap mtime (omega arith) in
      omega (arith, rises_to mtime c at i (ground arith), c.rises i, next)
]

-- The first tick after init_systick, for a timer below 2 ^ 48 with the boot time behind it, is
-- due when the count since boot reaches an interval more than it is, which MTIMECMP compares with
-- the count since reset: with a boot time of an interval or more it is due before the call ends.
pub init_systick-early :
    (interval : ℕ) (mtime : Mtime) (c : Counts mtime) (at : ℕ) (t : Timer)
    → ((i : ℕ) → mtime i < 2 ^ 48)
    → interval < 2 ^ 48
    → t.boot_ts ≤ mtime at
    → (t' : Timer) × (i end : ℕ) × (init_systick interval mtime at t ≡ some (t', end))
      × (at < i)
      × (i < end)
      × (t'.mtimecmp + t.boot_ts ≡ mtime i + interval)
      × (interval ≤ t.boot_ts → t'.mtimecmp ≤ mtime i)
unfolding init_systick get_timestamp48 get_timestamp64
init_systick-early interval mtime c at t bound small behind =
    let (i, end, read, after, before, within) = get_timestamp_lem mtime c at in
    let rises = rises_to mtime c at i (omega arith) in
    let ts : (mtime i + (2 ^ 64 - t.boot_ts)) % 2 ^ 64 % 2 ^ 48 ≡ mtime i - t.boot_ts =
      omega (arith, bound i, behind, rises) in
    let read64 : get_timestamp64 mtime at t
        ≡ some ((mtime i + (2 ^ 64 - t.boot_ts)) % 2 ^ 64, end) =
      rw (read, get_timestamp64) in
    let read48 : get_timestamp48 mtime at t ≡ some (mtime i - t.boot_ts, end) =
      rw (read64, get_timestamp48, ts) in
    let armed =
      (arm_writes-course (mtime i - t.boot_ts + interval) t.mtimecmp (omega (arith, bound i))).0 in
    (
      record t { mtimecmp = mtime i - t.boot_ts + interval },
      i,
      end,
      rw (read48, init_systick, armed),
      after,
      before,
      omega (arith, rises),
      λ h. omega (arith, rises),
    )
