-- ===== src/Clock/Track.antt =====
-- The total of the cycles against the true one, across roll-overs of the counter.
use embed_template.Prelude.{
  ℕ, ◌+◌, ◌-◌, ◌*◌, ◌/◌, ◌%◌, ◌^◌, ◌≤◌, ◌<◌, ◌≡◌, ◌∙◌, ap, ap₂, refl, sym, arith, List, [], ◌∷◌,
}
use mathlib.Core.Path.{subst}
use native.Mathlib.Nat.{
  mul-le-mul_left, mul-le-mul_right, mul_assoc, mul_right_comm, mul_comm, add-mul, mul-add,
  lt-mul-div-succ, div-mul-le_self,
}
use embed_template.Clock.{Clock, init_timestamp, update, now_us, get_timestamp}

-- The clock has seen `t` cycles since the counter was reset.
pub record Saw (t : ℕ) (c : Clock) : Type 0 where
  pub last : c.last_cycles ≡ t % 2 ^ 32
  pub total : c.total_cycles ≡ t

-- A call at `t` cycles: the counter shows the low 32 bits.
abbrev pub call_at : ℕ → Clock → Clock
call_at t c = (get_timestamp (t % 2 ^ 32) c).1

-- The calls come in order, each less than 2 ^ 32 cycles after the one before.
pub data Spaced : ℕ → List ℕ → ℕ → Type 0 where
  no_call : (t : ℕ) → Spaced t [] t
  next_call :
      {t u v : ℕ} {ts : List ℕ}
      → t ≤ u
      → u < t + 2 ^ 32
      → u < 2 ^ 64
      → Spaced u ts v
      → Spaced t (u ∷ ts) v

unfoldable pub calls : List ℕ → Clock → Clock
calls [] c = c
calls (t ∷ ts) c = calls ts (call_at t c)

call-Saw :
    (t u : ℕ) (c : Clock) → t ≤ u → u < t + 2 ^ 32 → u < 2 ^ 64 → Saw t c → Saw u (call_at u c)
unfolding get_timestamp update
call-Saw t u c h k l v = record { last = refl; total = omega (arith, v.last, v.total) }

-- However often the 32-bit counter rolls over, after any calls that are less than 2 ^ 32 cycles
-- apart the total is the true number of cycles at the last call.
pub calls-Saw : {t v : ℕ} {ts : List ℕ} (c : Clock) → Spaced t ts v → Saw t c → Saw v (calls ts c)
unfolding calls
calls-Saw c (no_call t) s = s
calls-Saw {t} c (next_call {u = u} h k l r) s = calls-Saw (call_at u c) r (call-Saw t u c h k l s)

-- A call that has loaded the counter at `t` and is interrupted before its update by a call at a
-- later `u`, less than 2 ^ 32 cycles after it, adds a whole roll-over: the total is 2 ^ 32 + `t`,
-- past the true number of cycles.
pub interrupted_call :
    (s t u : ℕ) (c : Clock)
    → Saw s c
    → s ≤ t
    → t < u
    → u < s + 2 ^ 32
    → u < 2 ^ 63
    → let late = update (t % 2 ^ 32) (call_at u c) in
      (late.total_cycles ≡ t + 2 ^ 32) × (u < late.total_cycles)
unfolding get_timestamp update
interrupted_call s t u c v h k l m = ground (arith, v.last, v.total)

-- The product is cut to 64 bits before the shift, so the time falls back to 0 once it reaches
-- 2 ^ 32 microseconds, about 72 minutes: a call whose product has passed 2 ^ 64 by less than one
-- microsecond reads less than the state before it, whose product had not.
pub time_goes_back :
    (t u : ℕ) (c : Clock)
    → Saw t c
    → t ≤ u
    → u < t + 2 ^ 32
    → u < 2 ^ 64
    → 2 ^ 32 ≤ t * c.ticks_to_us
    → t * c.ticks_to_us < 2 ^ 64
    → 2 ^ 64 ≤ u * c.ticks_to_us
    → u * c.ticks_to_us < 2 ^ 64 + 2 ^ 32
    → now_us (call_at u c) < now_us c
unfolding now_us get_timestamp update
time_goes_back t u c v h k l a b d e =
    let before = ap (λ n. n * c.ticks_to_us) v.total in
    let after = ap (λ n. n * c.ticks_to_us) (call-Saw t u c h k l v).total in
    ground (arith, before, after)

-- A call while the product fits 64 bits.
timestamp-eq :
    (t u : ℕ) (c : Clock)
    → Saw t c
    → t ≤ u
    → u < t + 2 ^ 32
    → u < 2 ^ 64
    → u * c.ticks_to_us < 2 ^ 64
    → c.boot_ts ≤ u * c.ticks_to_us / 2 ^ 32
    → (get_timestamp (u % 2 ^ 32) c).0 ≡ u * c.ticks_to_us / 2 ^ 32 - c.boot_ts
unfolding get_timestamp now_us update
timestamp-eq t u c v h k l p q =
    let e = ap (λ n. n * c.ticks_to_us) (call-Saw t u c h k l v).total in ground (arith, e)

-- The calls leave what the initialisation has set.
calls-kept :
    (ts : List ℕ) (c : Clock)
    → ((calls ts c).ticks_to_us ≡ c.ticks_to_us) × ((calls ts c).boot_ts ≡ c.boot_ts)
unfolding calls get_timestamp update
calls-kept [] c = (refl, refl)
calls-kept (t ∷ ts) c = calls-kept ts (call_at t c)

init_timestamp-Saw : (hz s : ℕ) → s < 2 ^ 32 → Saw s (init_timestamp hz s)
unfolding init_timestamp
init_timestamp-Saw hz s h = record { last = omega arith; total = refl }

Spaced-le : {t v : ℕ} {ts : List ℕ} → Spaced t ts v → t ≤ v
Spaced-le (no_call t) = omega arith
Spaced-le (next_call h k l r) = omega (arith, Spaced-le r)

-- The difference of two times against the cycles between them: `k` units of 2 ^ -32 microseconds
-- make a cycle.
difference :
    (s d k : ℕ)
    → let r = (s + d) * k / 2 ^ 32 - s * k / 2 ^ 32 in
      (r * 2 ^ 32 < d * k + 2 ^ 32)
      × (d * k < (r + 1) * 2 ^ 32)
      × (s * k / 2 ^ 32 ≤ (s + d) * k / 2 ^ 32)
difference s d k = let split : (s + d) * k ≡ s * k + d * k = add-mul s d k in omega (arith, split)

-- The same with the factor of a counter of `hz` cycles in a second.
scaled :
    (hz d k r : ℕ)
    → 0 < hz
    → k * hz ≤ 1000000 * 2 ^ 32
    → 1000000 * 2 ^ 32 < (k + 1) * hz
    → r * 2 ^ 32 < d * k + 2 ^ 32
    → d * k < (r + 1) * 2 ^ 32
    → (r * hz ≤ d * 1000000 + hz) × (d * 1000000 * 2 ^ 32 ≤ ((r + 1) * 2 ^ 32 + d) * hz)
scaled hz d k r pos low high above below =
    let m₁ : (r * 2 ^ 32) * hz ≤ (d * k + 2 ^ 32) * hz = mul-le-mul_right hz (omega arith) in
    let m₂ : d * (k * hz) ≤ d * (1000000 * 2 ^ 32) = mul-le-mul_left d low in
    let m₃ : (d * k) * hz ≤ ((r + 1) * 2 ^ 32) * hz = mul-le-mul_right hz (omega arith) in
    let m₄ : d * (1000000 * 2 ^ 32) ≤ d * ((k + 1) * hz) = mul-le-mul_left d (omega arith) in
    let e₁ : (r * 2 ^ 32) * hz ≡ (r * hz) * 2 ^ 32 = mul_right_comm r (2 ^ 32) hz in
    let e₂ : (d * k + 2 ^ 32) * hz ≡ d * (k * hz) + 2 ^ 32 * hz =
      add-mul (d * k) (2 ^ 32) hz ∙ ap (λ x. x + 2 ^ 32 * hz) (mul_assoc d k hz) in
    let e₃ : (d * k) * hz ≡ d * (k * hz) = mul_assoc d k hz in
    let e₄ : ((r + 1) * 2 ^ 32) * hz ≡ (r * hz) * 2 ^ 32 + 2 ^ 32 * hz =
      ap (λ x. x * hz) {x = (r + 1) * 2 ^ 32} {y = r * 2 ^ 32 + 2 ^ 32} (omega arith)
      ∙ add-mul (r * 2 ^ 32) (2 ^ 32) hz
      ∙ ap (λ x. x + 2 ^ 32 * hz) e₁ in
    let e₅ : d * ((k + 1) * hz) ≡ d * (k * hz) + d * hz =
      ap (λ x. d * x) {x = (k + 1) * hz} {y = k * hz + hz} (omega arith) ∙ mul-add d (k * hz) hz in
    let e₆ : ((r + 1) * 2 ^ 32 + d) * hz ≡ ((r + 1) * 2 ^ 32) * hz + d * hz =
      add-mul ((r + 1) * 2 ^ 32) d hz in
    (omega (arith, m₁, m₂, e₁, e₂), omega (arith, m₃, m₄, e₃, e₄, e₅, e₆))

-- The clock is initialised at `s` cycles of a counter of `hz` cycles in a second, and called in
-- order up to `t` cycles, each call less than 2 ^ 32 cycles after the one before. Then a call
-- `d` cycles after the initialisation returns, as long as the product of the cycles and the factor
-- fits 64 bits, the microseconds of these cycles: at most one more, and less by no more than one
-- and one for every 2 ^ 32 cycles.
pub timestamp_exact :
    (hz s t d : ℕ) (ts : List ℕ)
    → 0 < hz
    → s < 2 ^ 32
    → Spaced s ts t
    → t ≤ s + d
    → s + d < t + 2 ^ 32
    → s + d < 2 ^ 64
    → (s + d) * (1000000 * 2 ^ 32 / hz) < 2 ^ 64
    → let r = (get_timestamp ((s + d) % 2 ^ 32) (calls ts (init_timestamp hz s))).0 in
      (r * hz ≤ d * 1000000 + hz) × (d * 1000000 * 2 ^ 32 ≤ ((r + 1) * 2 ^ 32 + d) * hz)
unfolding init_timestamp
timestamp_exact hz s t d ts pos small calls_before le near wide fits =
    let k = 1000000 * 2 ^ 32 / hz in
    let c₀ = init_timestamp hz s in
    let c = calls ts c₀ in
    let saw = calls-Saw c₀ calls_before (init_timestamp-Saw hz s small) in
    let (factor, boot) = calls-kept ts c₀ in
    let (above, below, later) = difference s d k in
    let u = s + d in
    let factor' : c.ticks_to_us ≡ k = factor in
    let product = ap (λ f. u * f / 2 ^ 32) factor' in
    let start : s * k ≤ u * k = mul-le-mul_right k (omega arith) in
    let boot' : c.boot_ts ≡ s * k / 2 ^ 32 = boot ∙ omega (arith, start, fits) in
    let p = subst (λ f. u * f < 2 ^ 64) (sym factor') fits in
    let q : c.boot_ts ≤ u * c.ticks_to_us / 2 ^ 32 = omega (arith, product, boot', later) in
    let result : (get_timestamp ((s + d) % 2 ^ 32) c).0 ≡ (s + d) * k / 2 ^ 32 - s * k / 2 ^ 32 =
      timestamp-eq t u c saw le near wide p q ∙ ap₂ (λ a b. a - b) product boot' in
    subst (λ r. (r * hz ≤ d * 1000000 + hz) × (d * 1000000 * 2 ^ 32 ≤ ((r + 1) * 2 ^ 32 + d) * hz))
      (sym result)
      (scaled hz d k ((s + d) * k / 2 ^ 32 - s * k / 2 ^ 32) pos
        (div-mul-le_self (1000000 * 2 ^ 32) hz)
        (subst (λ x. 1000000 * 2 ^ 32 < x) (mul_comm hz (k + 1))
          (lt-mul-div-succ (1000000 * 2 ^ 32) pos))
        above below)
