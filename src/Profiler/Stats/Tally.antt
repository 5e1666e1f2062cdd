-- ===== src/Profiler/Stats/Tally.antt =====
-- The totals of a function are those of the times of its calls.
use embed_template.Prelude.{
  ℕ, ◌+◌, ◌-◌, ◌%◌, ◌^◌, ◌≤◌, ◌≡◌, refl, arith, min, max, Bool, not, leb, ◌==◌, ◌&&◌, if◌then◌else◌,
  List, [], ◌∷◌, length, Bool-cases, inl, inr,
}
use embed_template.Profiler.Hooks.Chains.{Call}
use embed_template.Profiler.Stats.{Totals, no_totals, add_sample}
use embed_template.Profiler.Stats.Walk.{tally}

-- A call that has returned, at times that count.
unfoldable pub has_returned : ℕ → Call → Bool
has_returned i c =
    c.func == i && (not (c.entered == 0) && (not (c.left == 0) && leb c.entered c.left))

-- How long the calls of a function took that have returned, the newest one first.
unfoldable pub durations : ℕ → List Call → List ℕ
durations i [] = []
durations i (c ∷ cs) =
    if has_returned i c then (c.left - c.entered) ∷ durations i cs else durations i cs

unfoldable pub total_of : List ℕ → ℕ
total_of [] = 0
total_of (d ∷ ds) = d + total_of ds

unfoldable pub longest : List ℕ → ℕ
longest [] = 0
longest (d ∷ ds) = max d (longest ds)

unfoldable pub shortest : List ℕ → ℕ
shortest [] = 2 ^ 64 - 1
shortest (d ∷ ds) = min d (shortest ds)

length-durations : (i : ℕ) (cs : List Call) → length (durations i cs) ≤ length cs
unfolding durations
length-durations i [] = omega arith
length-durations i (c ∷ cs) = ground (arith, length-durations i cs)

-- When the oldest such call began, and when the newest one ended.
unfoldable pub began : ℕ → List Call → ℕ
began i [] = 0
began i (c ∷ cs) =
    if has_returned i c && length (durations i cs) == 0 then c.entered else began i cs

unfoldable pub ended : ℕ → List Call → ℕ
ended i [] = 0
ended i (c ∷ cs) = if has_returned i c then c.left else ended i cs

abbrev pub times : ℕ → List Call → Totals
times i cs = record {
  total_duration = total_of (durations i cs) % 2 ^ 64;
  max_duration = longest (durations i cs);
  min_duration = shortest (durations i cs);
  sample_count = length (durations i cs);
  ts_first = began i cs;
  ts_last = ended i cs;
}

-- The loop's totals over up to 1024 calls: the sum of the durations on 64 bits, the longest and
-- the shortest of them, how many there are, and the first and the last time.
pub tally-times : (i : ℕ) (cs : List Call) → length cs ≤ 1024 → tally i cs no_totals ≡ times i cs
unfolding tally add_sample has_returned durations total_of longest shortest began ended
tally-times i [] small = refl
tally-times i (c ∷ cs) small =
    let rest = tally-times i cs (omega arith) in
    elim (Bool-cases (c.func == i)) [
      | inr other ↦ rw (other, rest)
      | inl same ↦
          elim (Bool-cases (not (c.entered == 0) && (not (c.left == 0) && leb c.entered c.left))) [
            | inr open_call ↦ rw (same, rest, open_call)
            | inl returned ↦ rw (same, rest, returned) (ground (arith, length-durations i cs))
          ]
    ]
