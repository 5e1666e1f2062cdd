-- ===== src/Sim.antt =====
-- port/freertos_sim.c: the simulated thermal system. Its data and constants; the children model
-- the configuration, the temperature regulation, the hardware simulator, the two tasks, and the
-- commands that start, suspend and pause them.
pub mod Config
pub mod Regulation
pub mod Hardware
pub mod System
pub mod Modes
mod Tests
use embed_template.Prelude.{
  arith, ◌≡◌, ◌||◌, ℕ, ◌+◌, ◌*◌, ◌^◌, Bool, List, get_or, not, bit_and, bit_or, ◌==◌,
}
use embed_template.Prelude.Bits.{bit, bit_and_test, bit-or, bit-two_pow}
use embed_template.Prelude.Int.{ℤ}

-- Milliseconds, permille, ... as in the source; all but the ambient temperature are `uint16_t`.
pub record PhyState : Type 0 where
  pub ramp_time_s : ℕ
  pub thermal_mass : ℕ
  pub board_conduct : ℕ
  pub heater_power : ℕ
  pub sensor_latency_ms : ℕ
  pub ambient_temp_mc : ℤ

-- All `int16_t`.
pub record SimState : Type 0 where
  pub energy_balance : ℤ
  pub net_heat_power : ℤ
  pub cooling_power : ℤ

-- `temp_ctrl_t`, with the bits of `ctrl_status_u` first.
pub record TempCtrl : Type 0 where
  pub alarm_triggered : Bool
  pub is_heating : Bool
  pub is_cooldown : Bool
  pub is_critical : Bool
  pub time_window : ℕ
  pub max_temp : ℤ

pub record UnitStatus : Type 0 where
  pub is_heater_failed : Bool
  pub is_fan1_failed : Bool
  pub is_fan2_failed : Bool

pub record SimCtx : Type 0 where
  pub phy : PhyState
  pub reg : TempCtrl
  pub state : SimState
  pub status : UnitStatus
  pub temp_mc : ℤ
  pub mask : ℕ

pub record TempCtrlCfg : Type 0 where
  pub temp_target : ℕ
  pub temp_critical : ℕ
  pub temp_cooldown : ℕ
  pub temp_hysteresis : ℕ

pub record TempRegCfg : Type 0 where
  pub ctrl : TempCtrlCfg
  pub mask : ℕ

-- The statics `sim_ctx` and `sim_cfg`.
pub record Sim : Type 0 where
  pub ctx : SimCtx
  pub cfg : TempRegCfg

-- `mask & (1 << k)`
unfoldable pub has : ℕ → ℕ → Bool
has mask k = not (bit_and mask (2 ^ k) == 0)

-- `mask | (1 << k)`
unfoldable pub with_bit : ℕ → ℕ → ℕ
with_bit mask k = bit_or mask (2 ^ k)

pub has-bit : (mask k : ℕ) → has mask k ≡ bit mask k
unfolding has
has-bit mask k = ground (arith, bit_and_test k mask)

pub has-with_bit : (mask j k : ℕ) → has (with_bit mask j) k ≡ ((j == k) || has mask k)
unfolding with_bit
has-with_bit mask j k =
    ground (
      arith,
      has-bit (bit_or mask (2 ^ j)) k,
      has-bit mask k,
      bit-or mask (2 ^ j) k,
      bit-two_pow j k,
    )

-- A `stream_t` block (common/include/pack.h): its eight bytes, lowest address first. The ports
-- are little-endian, so `u16[i]` has its low byte at `u8[2 * i]`.
abbrev pub Stream : Type 0
Stream = List ℕ

abbrev pub u8_at : Stream → ℕ → ℕ
u8_at s i = get_or s i 0

abbrev pub u16_at : Stream → ℕ → ℕ
u16_at s i = u8_at s (2 * i) + 256 * u8_at s (2 * i + 1)
