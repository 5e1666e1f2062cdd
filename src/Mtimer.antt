-- ===== src/Mtimer.antt =====
-- port/riscv/gd32vf103/time.c: timestamps and the tick from the 64-bit machine timer, which is
-- read and written by halves. The timer is hardware: `mtime` gives its value at each access.
pub mod Reads
pub mod Ticks
mod Tests
use embed_template.Prelude.{
  ℕ, zero, suc, ◌+◌, ◌-◌, ◌*◌, ◌/◌, ◌%◌, ◌^◌, bit_and, bit_or, Bool, true, false, ◌==◌,
  if◌then◌else◌, List, [], ◌∷◌, Option, some, none,
}

-- The count of the timer at each instant; one access is made at an instant.
abbrev pub Mtime : Type 0
Mtime = ℕ → ℕ

-- TICK_INTERVAL with TARGET_GD32VF103_HW, and of the virtual targets.
abbrev pub tick_interval_hw : ℕ
tick_interval_hw = 108000000 / 4000 / 1000

abbrev pub tick_interval_virt : ℕ
tick_interval_virt = 10000

-- A write to a half of MTIMECMP.
pub data Write : Type 0 where
  low : ℕ → Write
  high : ℕ → Write

-- The statics of the file, MTIMECMP, and whether EVT_SYS_TICK is set.
pub record Timer : Type 0 where
  pub boot_ts : ℕ
  pub mtimecmp : ℕ
  pub system_ticks : ℕ
  pub sys_tick : Bool

-- MTIMECMP after a write.
unfoldable pub written : Write → ℕ → ℕ
written (low v) cmp = cmp / 2 ^ 32 * 2 ^ 32 + v % 2 ^ 32
written (high v) cmp = v % 2 ^ 32 * 2 ^ 32 + cmp % 2 ^ 32

-- The values that MTIMECMP takes, one for each write.
unfoldable pub course : List Write → ℕ → List ℕ
course [] cmp = []
course (w ∷ ws) cmp = written w cmp ∷ course ws (written w cmp)

unfoldable pub write_all : List Write → ℕ → ℕ
write_all [] cmp = cmp
write_all (w ∷ ws) cmp = write_all ws (written w cmp)

-- The loop from instant `at` on, with fuel: the value, and the instant behind it.
unfoldable pub get_timestamp : ℕ → Mtime → ℕ → Option (ℕ × ℕ)
get_timestamp zero mtime at = none
get_timestamp (suc fuel) mtime at =
    let hi = mtime at / 2 ^ 32 in
    let lo = mtime (at + 1) % 2 ^ 32 in
    let again = get_timestamp fuel mtime (at + 3) in
    if hi == mtime (at + 2) / 2 ^ 32 then some (hi * 2 ^ 32 + lo, at + 3) else again

-- Two rounds are enough.
unfoldable pub init_timestamp : Mtime → ℕ → Timer → Option (Timer × ℕ)
init_timestamp mtime at t = elim (get_timestamp 2 mtime at) [
  | none ↦ none
  | some (now, at') ↦ some (record t { boot_ts = now }, at')
]

-- `now - boot_ts` on 64 bits
unfoldable pub get_timestamp64 : Mtime → ℕ → Timer → Option (ℕ × ℕ)
get_timestamp64 mtime at t = elim (get_timestamp 2 mtime at) [
  | none ↦ none
  | some (now, at') ↦ some ((now + (2 ^ 64 - t.boot_ts)) % 2 ^ 64, at')
]

unfoldable pub get_timestamp48 : Mtime → ℕ → Timer → Option (ℕ × ℕ)
get_timestamp48 mtime at t = elim (get_timestamp64 mtime at t) [
  | none ↦ none
  | some (ts, at') ↦ some (ts % 2 ^ 48, at')
]

-- The writes of init_systick.
unfoldable pub arm_writes : ℕ → List Write
arm_writes next = high 0xFFFFFFFF ∷ low next ∷ high (next / 2 ^ 32) ∷ []

-- init_systick, where it is not initialized yet.
unfoldable pub init_systick : ℕ → Mtime → ℕ → Timer → Option (Timer × ℕ)
init_systick interval mtime at t = elim (get_timestamp48 mtime at t) [
  | none ↦ none
  | some (ts, at') ↦
      some (record t { mtimecmp = write_all (arm_writes (ts + interval)) t.mtimecmp }, at')
]

-- The writes of SysTick_Handler.
unfoldable pub rearm_writes : ℕ → List Write
rearm_writes next_tick = low next_tick ∷ high (next_tick / 2 ^ 32) ∷ []

unfoldable pub systick_handler : ℕ → Timer → Timer
systick_handler interval t =
    let next_tick = (t.mtimecmp + interval) % 2 ^ 64 in
    let ticks = (t.system_ticks + 1) % 2 ^ 32 in
    record t {
      mtimecmp = write_all (rearm_writes next_tick) t.mtimecmp;
      system_ticks = ticks;
      sys_tick = if bit_and ticks (1024 - 1) == 0 then true else t.sys_tick;
    }
