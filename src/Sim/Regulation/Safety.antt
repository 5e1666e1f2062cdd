-- ===== src/Sim/Regulation/Safety.antt =====
-- The interlocks that the regulation keeps.
use embed_template.Prelude.{
  ap, sym, ◌≡◌, ◌∙◌, Bool, true, false, not, ◌&&◌, arith, Bool-cases, inl, inr,
}
use embed_template.Prelude.Bits.{bit}
use embed_template.Prelude.Int.{ℤ, pos, ◌<ℤ◌}
use embed_template.Gpio.Regs.{GpioCtrl}
use embed_template.Gpio.Pins.{gpio_set_out_pin_bits, gpio_clear_out_pin_bits}
use embed_template.Sim.Regulation.{
  Plant, sensed, observe, check_critical, check_alarm, check_cooldown, choose_heating,
  drive_outputs, regulate_normal, regulate_cooled, run_temperature_regulation,
}

abbrev pub heater_on : GpioCtrl → Bool
heater_on g = bit g.out 0

abbrev pub fan1_on : GpioCtrl → Bool
fan1_on g = bit g.out 1

abbrev pub fan2_on : GpioCtrl → Bool
fan2_on g = bit g.out 2

-- In emergency cooling and in the cooldown after an alarm the heater is off, and the heater and
-- the first fan never work against each other.
pub record IsSafe (p : Plant) : Type 0 where
  pub critical_off : p.sim.ctx.reg.is_critical ≡ true → heater_on p.gpio ≡ false
  pub cooldown_off : p.sim.ctx.reg.is_cooldown ≡ true → heater_on p.gpio ≡ false
  pub exclusive : heater_on p.gpio && fan1_on p.gpio ≡ false

-- What one pass at a temperature guarantees of its result.
pub record IsRegulated (temp : ℤ) (p q : Plant) : Type 0 where
  pub safe : IsSafe q
  pub heater_below_target :
      heater_on q.gpio ≡ true
      → (temp <ℤ pos p.sim.cfg.ctrl.temp_target) × (p.sim.ctx.status.is_heater_failed ≡ false)
  pub same_cfg : q.sim.cfg ≡ p.sim.cfg
  pub same_phy : q.sim.ctx.phy ≡ p.sim.ctx.phy
  pub same_status : q.sim.ctx.status ≡ p.sim.ctx.status

drive_outputs-heater :
    (temp : ℤ) (p : Plant)
    → (heater_on (drive_outputs temp p).gpio
        ≡ (p.sim.ctx.reg.is_heating && not p.sim.ctx.status.is_heater_failed))
      × (heater_on (drive_outputs temp p).gpio && fan1_on (drive_outputs temp p).gpio ≡ false)
      × ((drive_outputs temp p).sim ≡ p.sim)
unfolding drive_outputs
drive_outputs-heater temp p = grind (arith, gpio_set_out_pin_bits, gpio_clear_out_pin_bits)

choose_heating-lem :
    (temp : ℤ) (p : Plant)
    → ((choose_heating temp p).sim.ctx.reg.is_heating ≡ true
        → temp <ℤ pos p.sim.cfg.ctrl.temp_target)
      × ((choose_heating temp p).sim.ctx.reg.is_critical ≡ p.sim.ctx.reg.is_critical)
      × ((choose_heating temp p).sim.ctx.reg.is_cooldown ≡ p.sim.ctx.reg.is_cooldown)
      × ((choose_heating temp p).sim.cfg ≡ p.sim.cfg)
      × ((choose_heating temp p).sim.ctx.phy ≡ p.sim.ctx.phy)
      × ((choose_heating temp p).sim.ctx.status ≡ p.sim.ctx.status)
unfolding choose_heating
choose_heating-lem temp p = ground arith

regulate_normal-IsRegulated :
    (temp : ℤ) (p : Plant)
    → p.sim.ctx.reg.is_critical ≡ false
    → p.sim.ctx.reg.is_cooldown ≡ false
    → IsRegulated temp p (regulate_normal temp p)
unfolding regulate_normal
regulate_normal-IsRegulated temp p nc nd =
    let q = choose_heating temp p in
    ground (arith, choose_heating-lem temp p, drive_outputs-heater temp q)

-- What a check leaves behind: on an early return the pass is over, otherwise it goes on.
record Checked (temp : ℤ) (p : Plant) (r : Bool × Plant) : Type 0 where
  returns : r.0 ≡ true → IsRegulated temp p r.1
  goes_on :
      r.0 ≡ false
      → (r.1.sim.ctx.reg.is_critical ≡ false)
        × (r.1.sim.ctx.reg.is_cooldown ≡ false)
        × (r.1.sim.cfg ≡ p.sim.cfg)
        × (r.1.sim.ctx.phy ≡ p.sim.ctx.phy)
        × (r.1.sim.ctx.status ≡ p.sim.ctx.status)

check_cooldown-Checked :
    (temp : ℤ) (p : Plant)
    → p.sim.ctx.reg.is_critical ≡ false
    → Checked temp p (check_cooldown temp (check_alarm p))
unfolding check_cooldown check_alarm
check_cooldown-Checked temp p nc = record {
  returns = λ e. grind (arith, gpio_set_out_pin_bits, gpio_clear_out_pin_bits);
  goes_on = λ e. ground arith;
}

-- A pass that goes on from a state with the same settings is a pass from the first one.
IsRegulated-trans :
    {temp : ℤ} {p q r : Plant}
    → q.sim.cfg ≡ p.sim.cfg
    → q.sim.ctx.phy ≡ p.sim.ctx.phy
    → q.sim.ctx.status ≡ p.sim.ctx.status
    → IsRegulated temp q r
    → IsRegulated temp p r
IsRegulated-trans c h s v = record {
  safe = v.safe;
  heater_below_target = λ on. (
    ground (arith, ap (λ t. t.ctrl.temp_target) c, v.heater_below_target on),
    sym (ap (λ t. t.is_heater_failed) s) ∙ (v.heater_below_target on).1,
  );
  same_cfg = v.same_cfg ∙ c;
  same_phy = v.same_phy ∙ h;
  same_status = v.same_status ∙ s;
}

regulate_cooled-IsRegulated :
    (temp : ℤ) (p : Plant)
    → p.sim.ctx.reg.is_critical ≡ false
    → IsRegulated temp p (regulate_cooled temp p)
unfolding regulate_cooled
regulate_cooled-IsRegulated temp p nc =
    let r = check_cooldown temp (check_alarm p) in
    let v = check_cooldown-Checked temp p nc in
    elim (Bool-cases r.0) [
      | inl e ↦ rw e (v.returns e)
      | inr e ↦ rw e (
          let g = v.goes_on e in
          IsRegulated-trans g.2 g.3 g.4 (regulate_normal-IsRegulated temp r.1 g.0 g.1))
    ]

check_critical-lem :
    (temp : ℤ) (p : Plant)
    → IsSafe p
    → ((check_critical temp (observe temp p)).0 ≡ true
        → IsRegulated temp p (check_critical temp (observe temp p)).1)
      × ((check_critical temp (observe temp p)).0 ≡ false
          → ((check_critical temp (observe temp p)).1.sim.ctx.reg.is_critical ≡ false)
            × ((check_critical temp (observe temp p)).1.sim.cfg ≡ p.sim.cfg)
            × ((check_critical temp (observe temp p)).1.sim.ctx.phy ≡ p.sim.ctx.phy)
            × ((check_critical temp (observe temp p)).1.sim.ctx.status ≡ p.sim.ctx.status))
unfolding check_critical observe
check_critical-lem temp p v =
    (λ e. grind (arith, gpio_set_out_pin_bits, gpio_clear_out_pin_bits), λ e. ground arith)

-- From a safe state every pass of `run_temperature_regulation` leads to a safe state: in
-- emergency cooling and in the cooldown after an alarm the heater is off, and heater and first
-- fan are not on together. The heater is on only below the target temperature and if it has not
-- failed. The configuration, the physics and the unit status are not touched.
pub run_temperature_regulation-IsRegulated :
    (p : Plant) → IsSafe p → IsRegulated (sensed p.gpio) p (run_temperature_regulation p)
unfolding run_temperature_regulation
run_temperature_regulation-IsRegulated p v =
    let temp = sensed p.gpio in
    let r = check_critical temp (observe temp p) in
    let k = check_critical-lem temp p v in
    elim (Bool-cases r.0) [
      | inl e ↦ rw e (k.0 e)
      | inr e ↦ rw e (
          let g = k.1 e in IsRegulated-trans g.1 g.2 g.3 (regulate_cooled-IsRegulated temp r.1 g.0))
    ]
