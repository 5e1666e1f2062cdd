-- ===== src/Sim/Regulation.antt =====
-- `run_temperature_regulation`: one pass of the control task over the statics and the registers.
-- Each block of the C function is a function here; a block that may return early gives `true`
-- beside the state when it does. Log calls are left out.
pub mod Safety
pub mod Modes
pub mod Frame
use embed_template.Prelude.{ℕ, ◌+◌, ◌%◌, ◌^◌, Bool, true, false, not, ◌&&◌, ◌||◌, if◌then◌else◌}
use embed_template.Prelude.Int.{ℤ, pos, sub_ℕ, ltb_ℤ, leb_ℤ}
use embed_template.Gpio.Regs.{GpioCtrl}
use embed_template.Gpio.{
  gpio_get_all_in_pins, gpio_set_out_pin, gpio_clear_out_pin, gpio_is_alarm, gpio_clear_interrupt,
}
use embed_template.Sim.{SimCtx, TempCtrl, Sim}
use embed_template.Sim.Config.{sensor_offset}

-- `sim_ctx`, `sim_cfg` and the simulated registers.
pub record Plant : Type 0 where
  pub sim : Sim
  pub gpio : GpioCtrl

abbrev pub with_reg : TempCtrl → Plant → Plant
with_reg reg p = record p {
  sim = record { ctx = record (p.sim.ctx) { reg = reg }; cfg = p.sim.cfg };
}

abbrev pub with_gpio : GpioCtrl → Plant → Plant
with_gpio gpio p = record p { gpio = gpio }

-- `int16_t temp`: a byte less 40 fits.
unfoldable pub sensed : GpioCtrl → ℤ
sensed gpio = sub_ℕ (gpio_get_all_in_pins gpio) sensor_offset

observe : ℤ → Plant → Plant
observe temp p =
    let reg = p.sim.ctx.reg in
    with_reg
      (record reg {
        max_temp = (if ltb_ℤ reg.max_temp temp then temp else reg.max_temp);
        time_window = (reg.time_window + 1) % 2 ^ 32;
      })
      p

enter_critical : Plant → Plant
enter_critical p =
    if not p.sim.ctx.reg.is_critical
    then with_gpio (gpio_clear_out_pin (gpio_set_out_pin p.gpio 2) 0)
        (with_reg (record (p.sim.ctx.reg) { is_critical = true }) p)
    else p

check_critical : ℤ → Plant → Bool × Plant
unfolding enter_critical
check_critical temp p =
    if ltb_ℤ (pos p.sim.cfg.ctrl.temp_critical) temp || p.sim.ctx.reg.is_critical
    then (let q = enter_critical p in
        if ltb_ℤ temp (pos q.sim.cfg.ctrl.temp_cooldown)
        then (
          false,
          with_gpio (gpio_clear_out_pin q.gpio 2)
              (with_reg (record (q.sim.ctx.reg) { is_critical = false }) q),
        )
        else (true, q))
    else (false, p)

check_alarm : Plant → Plant
check_alarm p =
    if gpio_is_alarm p.gpio && not p.sim.ctx.reg.is_cooldown
    then with_reg (record (p.sim.ctx.reg) { is_cooldown = true }) p
    else p

-- The temperature below which heating starts: `temp_target - temp_hysteresis` as an `int`.
abbrev pub heat_below : Sim → ℤ
heat_below s = sub_ℕ s.cfg.ctrl.temp_target s.cfg.ctrl.temp_hysteresis

-- The alarm is over: acknowledge it, and take up heating at once if it is cold enough.
leave_cooldown : ℤ → Plant → Plant
leave_cooldown temp p =
    let acked =
      with_gpio (gpio_clear_interrupt p.gpio 8)
        (with_reg (record (p.sim.ctx.reg) { is_cooldown = false }) p) in
    let warm =
      (if ltb_ℤ temp (heat_below p.sim)
        then with_gpio (gpio_clear_out_pin acked.gpio 1)
            (with_reg (record (acked.sim.ctx.reg) { is_heating = true }) acked)
        else acked) in
    with_reg (record (warm.sim.ctx.reg) { max_temp = temp }) warm

check_cooldown : ℤ → Plant → Bool × Plant
unfolding leave_cooldown
check_cooldown temp p =
    if p.sim.ctx.reg.is_cooldown
    then if ltb_ℤ temp (pos p.sim.cfg.ctrl.temp_cooldown)
      then (false, leave_cooldown temp p)
      else (let cooled =
            (if not p.sim.ctx.status.is_fan1_failed
              then with_gpio (gpio_set_out_pin p.gpio 1) p
              else p) in
          (true, with_gpio (gpio_clear_out_pin cooled.gpio 0) cooled))
    else (false, p)

choose_heating : ℤ → Plant → Plant
choose_heating temp p =
    if ltb_ℤ temp (heat_below p.sim)
    then with_reg (record (p.sim.ctx.reg) { is_heating = true }) p
    else if leb_ℤ (pos p.sim.cfg.ctrl.temp_target) temp
    then with_reg (record (p.sim.ctx.reg) { is_heating = false }) p
    else p

drive_outputs : ℤ → Plant → Plant
drive_outputs temp p =
    let status = p.sim.ctx.status in
    if p.sim.ctx.reg.is_heating && not status.is_heater_failed
    then with_gpio (gpio_clear_out_pin (gpio_set_out_pin p.gpio 0) 1) p
    else let off = gpio_clear_out_pin p.gpio 0 in
      if ltb_ℤ (pos (p.sim.cfg.ctrl.temp_target + 3)) temp && not status.is_fan1_failed
      then with_gpio (gpio_set_out_pin off 1) p
      else with_gpio (gpio_clear_out_pin off 1) p

-- What follows the two checks.
regulate_normal : ℤ → Plant → Plant
regulate_normal temp p = drive_outputs temp (choose_heating temp p)

regulate_cooled : ℤ → Plant → Plant
regulate_cooled temp p =
    let (returned, q) = check_cooldown temp (check_alarm p) in
    if returned then q else regulate_normal temp q

regulate_at : ℤ → Plant → Plant
regulate_at temp p =
    let (returned, q) = check_critical temp (observe temp p) in
    if returned then q else regulate_cooled temp q

pub run_temperature_regulation : Plant → Plant
unfolding regulate_at
run_temperature_regulation p = regulate_at (sensed p.gpio) p
