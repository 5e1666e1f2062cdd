-- ===== src/Sim/Hardware/Physics.antt =====
-- The simulated temperature stays in its limits and is what the sensor shows; the outputs change
-- only when the watchdog fires.
use embed_template.Prelude.{◌%◌, ◌≡◌, true, false, arith, ap, ◌∙◌, sym, inl, inr, ◌⊎◌}
use embed_template.Prelude.Bits.{bit}
use embed_template.Prelude.Int.{ℤ, pos, negsuc, ◌≤ℤ◌, div_ℤ, ◌+ℤ◌, pos_part}
use embed_template.Gpio.Regs.{GpioCtrl, field}
use embed_template.Gpio.{gpio_get_all_in_pins}
use embed_template.Sim.Config.Set.{ambient_ok}
use embed_template.Sim.Regulation.Safety.{fan2_on}
use embed_template.Sim.Regulation.{sensed}
use embed_template.Sim.Regulation.Safety.{IsSafe, heater_on, fan1_on}
use embed_template.Sim.Hardware.{Board, sensor_value, tick}
use embed_template.Sim.Hardware.Stages.{safety_word, simulate-lem, Outputs, tick-stages}

sensed_exact :
    (g : GpioCtrl) (t : ℤ)
    → negsuc 39999 ≤ℤ t
    → t ≤ℤ pos 215000
    → field 0 8 g.in_reg ≡ pos_part (sensor_value t) % 256
    → sensed g ≡ div_ℤ t 1000
unfolding sensed gpio_get_all_in_pins div_ℤ ◌+ℤ◌ sensor_value
sensed_exact g (pos n) lo hi e = ground arith
sensed_exact g (negsuc n) lo hi e = ground arith

-- With an ambient temperature in its range, every millisecond ends with the temperature between
-- the ambient one and 215 degrees, and the control task reads it in full degrees, rounded
-- towards 0. The physical parameters and the configuration stay as they were.
pub tick_temperature :
    (b : Board)
    → ambient_ok b.plant.sim.ctx.phy.ambient_temp_mc ≡ true
    → let q = (tick b).plant in
      (b.plant.sim.ctx.phy.ambient_temp_mc ≤ℤ q.sim.ctx.temp_mc)
      × (q.sim.ctx.temp_mc ≤ℤ pos 215000)
      × (sensed q.gpio ≡ div_ℤ q.sim.ctx.temp_mc 1000)
      × (q.sim.ctx.phy ≡ b.plant.sim.ctx.phy)
      × (q.sim.cfg ≡ b.plant.sim.cfg)
tick_temperature b h =
    let m = simulate-lem b in
    let k = (tick-stages b).0 in
    let a = b.plant.sim.ctx.phy.ambient_temp_mc in
    let t = (tick b).plant.sim.ctx.temp_mc in
    let lims : (a ≤ℤ t) × (t ≤ℤ pos 215000) = (rw k.temp (m.5 (ground (arith, h)))) in
    (
      lims.0,
      lims.1,
      sensed_exact (tick b).plant.gpio t (ground (arith, h, lims.0)) lims.1
          (k.pins ∙ m.4 ∙ ap (λ v. pos_part (sensor_value v) % 256) (sym k.temp)),
      k.phy ∙ m.1,
      k.cfg ∙ m.0,
    )

-- The hardware never leads from a safe state to an unsafe one: it leaves the outputs as they
-- are, or its watchdog turns the heater and the second fan off and the first fan on.
pub tick-IsSafe :
    (b : Board)
    → IsSafe b.plant
    → IsSafe (tick b).plant
      × ((tick b).plant.gpio.out ≡ b.plant.gpio.out
          ⊎ (heater_on (tick b).plant.gpio ≡ false)
            × (fan1_on (tick b).plant.gpio ≡ true)
            × (fan2_on (tick b).plant.gpio ≡ false))
unfolding Outputs
tick-IsSafe b v =
    let r : (tick b).plant.sim.ctx.reg ≡ b.plant.sim.ctx.reg =
      (tick-stages b).0.reg ∙ (simulate-lem b).2 in
    let w = safety_word b.plant.gpio.out in
    elim (tick-stages b).1 [
      | inl e ↦ (
        record {
          critical_off = λ c. (rw e (v.critical_off (sym (ap (λ t. t.is_critical) r) ∙ c)));
          cooldown_off = λ c. (rw e (v.cooldown_off (sym (ap (λ t. t.is_cooldown) r) ∙ c)));
          exclusive = rw e v.exclusive;
        },
        inl e,
      )
      | inr e ↦ (
        record {
          critical_off = λ c. (rw e w.0);
          cooldown_off = λ c. (rw e w.0);
          exclusive = ground (arith, ap (λ o. bit o 0) e, w.0);
        },
        inr (rw e (w.0, w.1, w.2)),
      )
    ]
