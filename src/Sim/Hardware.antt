-- ===== src/Sim/Hardware.antt =====
-- `vHardwareSimTask`: one millisecond of the simulated hardware, cut at the comments of the loop
-- body. Log calls are left out. A signal or notification to the control task sets `notified`.
-- The divisions are by the conductance and the thermal mass, which a started simulation keeps
-- above 0; the sums that are not stored to `int16_t` fit an `int32_t`.
pub mod Stages
pub mod Physics
pub mod Overflow
pub mod Deadline
pub mod Wake
use embed_template.Prelude.{
  ℕ, zero, suc, ◌+◌, ◌-◌, ◌*◌, ◌/◌, ◌%◌, ◌^◌, Bool, true, false, not, ◌&&◌, ◌||◌, if◌then◌else◌,
  ltb, leb, ◌==◌, bit_and,
}
use embed_template.Prelude.Int.{ℤ, pos, negsuc, ◌+ℤ◌, ◌-ℤ◌, ltb_ℤ, leb_ℤ, div_ℤ, to_int16, pos_part}
use embed_template.Gpio.Regs.{GpioCtrl, field, put, or_field}
use embed_template.Sim.{PhyState, SimState, UnitStatus, SimCtx, Sim}
use embed_template.Sim.Config.{sensor_offset}
use embed_template.Sim.Regulation.{Plant, with_gpio}

-- The task's view: the plant, its local `ms_counter`, and whether it has woken the control task.
pub record Board : Type 0 where
  pub plant : Plant
  pub ms_counter : ℕ
  pub notified : Bool

abbrev pub with_ctx : SimCtx → Plant → Plant
with_ctx ctx p = record p { sim = record { ctx = ctx; cfg = p.sim.cfg } }

-- `gpio->out.f.pin_out & 0x01`, and so on.
abbrev pub output : GpioCtrl → ℕ → Bool
output gpio pin = not (bit_and (field 0 8 gpio.out) (2 ^ pin) == 0)

-- Simulate Fan 1 failure
fail_fan1 : ℕ → SimCtx → SimCtx
fail_fan1 ms_counter c =
    if (ms_counter == c.phy.sensor_latency_ms)
      && (not (c.reg.time_window == 0) && bit_and c.reg.time_window 1023 == 0)
    then record c { status = record (c.status) { is_fan1_failed = not c.status.is_fan1_failed } }
    else c

-- ACTIVE HEATING
unfoldable pub net_heat_power : GpioCtrl → SimCtx → ℤ
net_heat_power gpio c =
    if (output gpio 0 || c.status.is_fan1_failed) && not c.status.is_heater_failed
    then to_int16 (pos 0 +ℤ pos c.phy.heater_power)
    else pos 0

-- ACTIVE COOLING
unfoldable pub fan1_power : GpioCtrl → SimCtx → ℤ
fan1_power gpio c =
    if output gpio 1 && not c.status.is_fan1_failed
    then to_int16 (pos 0 +ℤ pos (c.phy.heater_power * 3 / 2))
    else pos 0

unfoldable pub fans_power : GpioCtrl → SimCtx → ℤ
fans_power gpio c =
    if output gpio 2 && not c.status.is_fan2_failed
    then to_int16 (fan1_power gpio c +ℤ pos (c.phy.heater_power * 4))
    else fan1_power gpio c

-- PASSIVE COOLING
unfoldable pub cooling_power : GpioCtrl → SimCtx → ℤ
cooling_power gpio c =
    to_int16 (fans_power gpio c +ℤ div_ℤ (c.temp_mc -ℤ c.phy.ambient_temp_mc) c.phy.board_conduct)

-- APPLY PHYSICS, and the limits of the sensor.
abbrev pub limit : ℤ → ℤ → ℤ
limit ambient t =
    let capped = (if ltb_ℤ (pos 215000) t then pos 215000 else t) in
    if ltb_ℤ capped ambient then ambient else capped

unfoldable pub apply_physics : GpioCtrl → SimCtx → SimCtx
apply_physics gpio c =
    let energy = to_int16 (net_heat_power gpio c -ℤ cooling_power gpio c) in
    record c {
      state = record {
        net_heat_power = net_heat_power gpio c;
        cooling_power = cooling_power gpio c;
        energy_balance = energy;
      };
      temp_mc = limit c.phy.ambient_temp_mc (c.temp_mc +ℤ div_ℤ energy c.phy.thermal_mass);
    }

-- The sensor's byte, and the input register with it.
unfoldable pub sensor_value : ℤ → ℤ
sensor_value temp_mc =
    let temp = div_ℤ temp_mc 1000 +ℤ pos sensor_offset in
    let capped = (if ltb_ℤ (pos 255) temp then pos 255 else temp) in
    if ltb_ℤ capped (pos 0) then pos 0 else capped

update_sensor : Plant → Plant
update_sensor p =
    with_gpio
      (record (p.gpio) {
        in_reg = put 0 8 (pos_part (sensor_value p.sim.ctx.temp_mc)) p.gpio.in_reg;
      })
      p

-- ALARM, with `done` in the second component.
raise_alarm : Board → Board × Bool
raise_alarm b =
    let p = b.plant in
    let gpio = p.gpio in
    let ctrl = p.sim.cfg.ctrl in
    if leb_ℤ (pos (1000 * (ctrl.temp_target + ctrl.temp_hysteresis + 10))) p.sim.ctx.temp_mc
    then (if not (bit_and (field 0 16 gpio.int_en) (2 ^ 8) == 0)
          && (bit_and (field 0 16 gpio.int_sts) (2 ^ 8) == 0)
        then (
          record {
            plant =
                with_gpio
                  (record gpio {
                    in_reg = put 8 1 1 gpio.in_reg;
                    int_sts = or_field 16 (2 ^ 8) gpio.int_sts;
                  })
                  p;
            ms_counter =
                (if ltb (p.sim.ctx.phy.sensor_latency_ms / 2) b.ms_counter
                  then 0
                  else b.ms_counter);
            notified = true;
          },
          true,
        )
        else (b, false))
    else (record b { plant = with_gpio (record gpio { in_reg = put 8 1 0 gpio.in_reg }) p }, false)

-- SENSOR: wake the control task every `sensor_latency_ms`.
wake_control : Board × Bool → Board
wake_control (b, done) =
    if leb b.plant.sim.ctx.phy.sensor_latency_ms b.ms_counter && not done
    then record b { ms_counter = 0; notified = true }
    else b

-- WATCHDOG
unfoldable pub run_watchdog : Plant → Plant
run_watchdog p =
    let gpio = p.gpio in
    if not (field 8 1 gpio.wdt_cfg == 0)
    then (if ltb 0 (field 0 8 gpio.wdt_val)
        then with_gpio (record gpio { wdt_val = put 0 8 (field 0 8 gpio.wdt_val - 1) gpio.wdt_val })
            p
        else with_gpio (record gpio { out = put 0 8 2 gpio.out }) p)
    else p

count_ms : Board → ℕ
count_ms b = (b.ms_counter + 1) % 2 ^ 32

pub simulate : Board → Plant
unfolding fail_fan1 count_ms update_sensor
simulate b =
    let p = b.plant in
    update_sensor (with_ctx (apply_physics p.gpio (fail_fan1 (count_ms b) p.sim.ctx)) p)

pub tick : Board → Board
unfolding simulate raise_alarm wake_control
tick b =
    let alarmed = raise_alarm (record b { plant = simulate b; ms_counter = count_ms b }) in
    let woken = wake_control alarmed in record woken { plant = run_watchdog woken.plant }

-- `n` milliseconds in which the control task does not run.
pub ticks : ℕ → Board → Board
ticks zero b = b
ticks (suc n) b = ticks n (tick b)
