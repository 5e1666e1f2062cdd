-- ===== src/Mtimer/Tests.antt =====
-- The theorems on the machine timer at concrete counts.
use embed_template.Prelude.{ℕ, ◌≤◌, ◌<◌, ◌≡◌, refl, arith, min, false, some}
use embed_template.Mtimer.{Mtime, Timer, write_all, course, arm_writes, get_timestamp}
use embed_template.Mtimer.Reads.{Counts, get_timestamp_lem}
use embed_template.Mtimer.Ticks.{AtLeast, arm_writes-course}

-- A timer that stops at 2 ^ 40.
abbrev counter : Mtime
counter i = min i 1099511627776

counter-Counts : Counts counter
counter-Counts = record { rises = λ i. omega arith; slow = λ i. omega arith }

abbrev at_boot : Timer
at_boot = record { boot_ts = 20000; mtimecmp = 0; system_ticks = 1020; sys_tick = false }

get_timestamp_lem_example :
    (i end : ℕ) × (get_timestamp 2 counter 4294967294 ≡ some (counter i, end))
    × (4294967294 < i)
    × (i < end)
    × (end ≤ 4294967300)
get_timestamp_lem_example = get_timestamp_lem counter counter-Counts 4294967294

-- The high half changes between the accesses of the first round.
get_timestamp-second : get_timestamp 2 counter 4294967294 ≡ some (4294967298, 4294967300)
unfolding get_timestamp
get_timestamp-second = refl

arm_writes-course_example :
    (write_all (arm_writes 5000000000) 7 ≡ 5000000000)
    × AtLeast 5000000000 (course (arm_writes 5000000000) 7)
arm_writes-course_example = arm_writes-course 5000000000 7 (omega arith)
