-- ===== src/Sim/Regulation/Modes.antt =====
-- What a pass of the regulation does in each mode.
use embed_template.Prelude.{◌+◌, ◌≡◌, ◌≤◌, Bool, true, false, not, ◌&&◌, arith, if◌then◌else◌}
use embed_template.Prelude.Int.{ℤ, pos, ◌<ℤ◌, ◌≤ℤ◌, ltb_ℤ, leb_ℤ}
use embed_template.Gpio.{gpio_is_alarm}
use embed_template.Gpio.Pins.{
  gpio_set_out_pin_bits, gpio_clear_out_pin_bits, gpio_get_all_in_pins-lt,
}
use embed_template.Sim.Regulation.{
  Plant, heat_below, sensed, observe, check_critical, check_alarm, check_cooldown, choose_heating,
  drive_outputs, regulate_normal, regulate_cooled, run_temperature_regulation,
}
use embed_template.Sim.Regulation.Safety.{heater_on, fan1_on, fan2_on}

-- Emergency: a pass that finds the temperature above critical, outside emergency cooling and not
-- below the cooldown temperature, enters emergency cooling with the second fan on and the heater
-- off. While emergency cooling lasts and the temperature has not fallen below the cooldown
-- temperature, a pass changes no register and stays in it.
pub emergency_cooling :
    (p : Plant)
    → pos p.sim.cfg.ctrl.temp_cooldown ≤ℤ sensed p.gpio
    → (pos p.sim.cfg.ctrl.temp_critical <ℤ sensed p.gpio
        → p.sim.ctx.reg.is_critical ≡ false
        → ((run_temperature_regulation p).sim.ctx.reg.is_critical ≡ true)
          × (fan2_on (run_temperature_regulation p).gpio ≡ true)
          × (heater_on (run_temperature_regulation p).gpio ≡ false))
      × (p.sim.ctx.reg.is_critical ≡ true
          → ((run_temperature_regulation p).sim.ctx.reg.is_critical ≡ true)
            × ((run_temperature_regulation p).gpio ≡ p.gpio))
unfolding run_temperature_regulation check_critical observe
emergency_cooling p warm =
    (λ hot nc. grind (arith, gpio_set_out_pin_bits, gpio_clear_out_pin_bits), λ c. ground arith)

-- The sensor reads at most 215 degrees, so a critical temperature of 215 or more, which the
-- configuration accepts up to 250, is never passed: emergency cooling is never entered.
pub critical_unreachable :
    (p : Plant)
    → 215 ≤ p.sim.cfg.ctrl.temp_critical
    → p.sim.ctx.reg.is_critical ≡ false
    → (run_temperature_regulation p).sim.ctx.reg.is_critical ≡ false
unfolding run_temperature_regulation check_critical observe regulate_cooled check_cooldown
    check_alarm regulate_normal choose_heating drive_outputs sensed
critical_unreachable p high nc = ground (arith, gpio_get_all_in_pins-lt p.gpio)

-- The alarm: a pass outside emergency cooling that sees the alarm, at a temperature between the
-- cooldown and the critical one, is in cooldown afterwards, with the heater off and the first fan
-- on unless it has failed.
pub alarm_cooldown :
    (p : Plant)
    → p.sim.ctx.reg.is_critical ≡ false
    → gpio_is_alarm p.gpio ≡ true
    → sensed p.gpio ≤ℤ pos p.sim.cfg.ctrl.temp_critical
    → pos p.sim.cfg.ctrl.temp_cooldown ≤ℤ sensed p.gpio
    → ((run_temperature_regulation p).sim.ctx.reg.is_cooldown ≡ true)
      × (heater_on (run_temperature_regulation p).gpio ≡ false)
      × (p.sim.ctx.status.is_fan1_failed ≡ false
          → fan1_on (run_temperature_regulation p).gpio ≡ true)
unfolding run_temperature_regulation check_critical observe regulate_cooled check_cooldown
    check_alarm
alarm_cooldown p nc alarm cool warm = (
  ground arith,
  grind (arith, gpio_set_out_pin_bits, gpio_clear_out_pin_bits),
  λ ok. grind (arith, gpio_set_out_pin_bits, gpio_clear_out_pin_bits),
)

-- The heating decision: below the band on, from the target on off, inside the band as before.
abbrev pub heating_next : ℤ → Plant → Bool
heating_next temp p =
    if ltb_ℤ temp (heat_below p.sim)
    then true
    else if leb_ℤ (pos p.sim.cfg.ctrl.temp_target) temp
    then false
    else p.sim.ctx.reg.is_heating

passes_through :
    (p : Plant)
    → p.sim.ctx.reg.is_critical ≡ false
    → p.sim.ctx.reg.is_cooldown ≡ false
    → gpio_is_alarm p.gpio ≡ false
    → sensed p.gpio ≤ℤ pos p.sim.cfg.ctrl.temp_critical
    → run_temperature_regulation p ≡ regulate_normal (sensed p.gpio) (observe (sensed p.gpio) p)
unfolding run_temperature_regulation check_critical observe regulate_cooled check_cooldown
    check_alarm
passes_through p nc nd na cool = ground arith

driven :
    (temp : ℤ) (p : Plant)
    → let heater = p.sim.ctx.reg.is_heating && not p.sim.ctx.status.is_heater_failed in
      ((drive_outputs temp p).sim ≡ p.sim)
      × (heater_on (drive_outputs temp p).gpio ≡ heater)
      × (fan1_on (drive_outputs temp p).gpio ≡ (
          not heater
          && (ltb_ℤ (pos (p.sim.cfg.ctrl.temp_target + 3)) temp
              && not p.sim.ctx.status.is_fan1_failed)))
      × (fan2_on (drive_outputs temp p).gpio ≡ fan2_on p.gpio)
unfolding drive_outputs
driven temp p = grind (arith, gpio_set_out_pin_bits, gpio_clear_out_pin_bits)

chosen :
    (temp : ℤ) (p : Plant)
    → ((choose_heating temp p).sim.ctx.reg.is_heating ≡ heating_next temp p)
      × ((choose_heating temp p).sim.ctx.status ≡ p.sim.ctx.status)
      × ((choose_heating temp p).sim.cfg ≡ p.sim.cfg)
      × ((choose_heating temp p).gpio ≡ p.gpio)
unfolding choose_heating
chosen temp p = ground arith

-- Normal operation (no emergency, no cooldown, no alarm, not above critical): the heating mode
-- follows the hysteresis band, the heater follows the mode unless it has failed, and the first
-- fan runs exactly if the heater is off, the temperature is more than 3 above the target, and
-- the fan has not failed; the second fan is left as it was.
pub normal_operation :
    (p : Plant)
    → p.sim.ctx.reg.is_critical ≡ false
    → p.sim.ctx.reg.is_cooldown ≡ false
    → gpio_is_alarm p.gpio ≡ false
    → sensed p.gpio ≤ℤ pos p.sim.cfg.ctrl.temp_critical
    → let q = run_temperature_regulation p in
      let temp = sensed p.gpio in
      let heater = heating_next temp p && not p.sim.ctx.status.is_heater_failed in
      (q.sim.ctx.reg.is_heating ≡ heating_next temp p)
      × (heater_on q.gpio ≡ heater)
      × (fan1_on q.gpio ≡ (
          not heater
          && (ltb_ℤ (pos (p.sim.cfg.ctrl.temp_target + 3)) temp
              && not p.sim.ctx.status.is_fan1_failed)))
      × (fan2_on q.gpio ≡ fan2_on p.gpio)
unfolding regulate_normal observe
normal_operation p nc nd na cool =
    let temp = sensed p.gpio in
    let o = observe temp p in
    rw (passes_through p nc nd na cool)
      (ground (arith, chosen temp o, driven temp (choose_heating temp o)))
