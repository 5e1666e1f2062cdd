-- ===== src/Profiler/Record.antt =====
-- The profiler as a list of calls: those of the listed functions are recorded in order until 1024
-- are taken, and are reported once. An exit ends the newest call of its function, and a fetch of an
-- empty list refuses further calls, as in the code.
pub mod Invariant
pub mod Begin
pub mod Finish
pub mod Report
pub mod Refine
use embed_template.Prelude.{
  ℕ, zero, suc, Bool, true, false, not, ltb, leb, ◌&&◌, ◌==◌, min, if◌then◌else◌, List, [], ◌∷◌,
  length, get_or, Option, some, none,
}
use embed_template.Profiler.{Target, num_functions, max_prof_samples}
use embed_template.Profiler.Seed.Perfect.{index_from}
use embed_template.Profiler.Hooks.Chains.{Call, leave}
use embed_template.Profiler.Stats.{ProfStats, no_totals, stats_of}
use embed_template.Profiler.Stats.Walk.{tally}

-- The calls taken, the newest one first, and whether more are refused.
pub record CallLog : Type 0 where
  pub calls : List Call
  pub stopped : Bool

abbrev pub begin : ℕ → ℕ → CallLog → CallLog
begin i ts l =
    if l.stopped
    then l
    else if ltb (length l.calls) max_prof_samples
    then record l { calls = record { func = i; entered = ts; left = 0 } ∷ l.calls }
    else record l { stopped = true }

abbrev pub finish : ℕ → ℕ → CallLog → CallLog
finish i ts l = if l.stopped then l else record l { calls = leave i ts l.calls }

-- An address that is not listed is ignored.
abbrev pub listed : Target → ℕ → (ℕ → CallLog → CallLog) → CallLog → CallLog
listed t func_addr op l = elim (index_from 0 func_addr t.func_list) [ none ↦ l | some i ↦ op i l ]

-- The functions from place `i` on with a call that has returned, for `n` places.
unfoldable pub report : Target → List Call → ℕ → ℕ → List ProfStats
report t cs zero i = []
report t cs (suc n) i =
    let a = tally i cs no_totals in
    let rest = report t cs n (suc i) in
    if ltb 0 a.sample_count then stats_of (get_or t.func_list i 0) a ∷ rest else rest

-- A report takes the calls away; one of no calls refuses further calls.
abbrev pub fetch : Target → ℕ → CallLog → CallLog × List ProfStats
fetch t count l =
    if not l.stopped && length l.calls == 0
    then (record { calls = []; stopped = true }, [])
    else (record { calls = []; stopped = false }, report t l.calls (min count (num_functions t)) 0)
