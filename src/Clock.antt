-- ===== src/Clock.antt =====
-- port/arm/cortex-m/time.c: timestamps from a 32-bit cycle counter. The counter is hardware: its
-- value is an argument. A call has two stages, the load of the counter with interrupts enabled
-- and the update of the statics with interrupts disabled.
pub mod Track
mod Tests
use embed_template.Prelude.{ℕ, ◌+◌, ◌-◌, ◌*◌, ◌/◌, ◌%◌, ◌^◌, List, [], ◌∷◌}

-- The statics of the file.
pub record Clock : Type 0 where
  pub last_cycles : ℕ
  pub total_cycles : ℕ
  pub ticks_to_us : ℕ
  pub boot_ts : ℕ

-- `init_timestamp` once the counter runs at `timer_hz` and shows `cycles`.
unfoldable pub init_timestamp : ℕ → ℕ → Clock
init_timestamp timer_hz cycles =
    let k = 1000000 * 2 ^ 32 / timer_hz in
    record {
      last_cycles = cycles;
      total_cycles = cycles;
      ticks_to_us = k;
      boot_ts = cycles * k % 2 ^ 64 / 2 ^ 32;
    }

-- The stage with interrupts disabled.
unfoldable pub update : ℕ → Clock → Clock
update cycles c =
    let delta = (cycles + (2 ^ 32 - c.last_cycles)) % 2 ^ 32 in
    record c { total_cycles = (c.total_cycles + delta) % 2 ^ 64; last_cycles = cycles }

unfoldable pub now_us : Clock → ℕ
now_us c = c.total_cycles * c.ticks_to_us % 2 ^ 64 / 2 ^ 32

unfoldable pub get_timestamp : ℕ → Clock → ℕ × Clock
get_timestamp cycles c =
    let c' = update cycles c in ((now_us c' + (2 ^ 64 - c'.boot_ts)) % 2 ^ 64, c')

unfoldable pub get_timestamp48 : ℕ → Clock → ℕ × Clock
get_timestamp48 cycles c = let (ts, c') = get_timestamp cycles c in (ts % 2 ^ 48, c')
