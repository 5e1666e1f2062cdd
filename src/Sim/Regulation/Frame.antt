-- ===== src/Sim/Regulation/Frame.antt =====
-- What the regulation leaves alone: the watchdog's registers and the physics.
use embed_template.Prelude.{◌≡◌, ◌∙◌, arith, Bool-cases, inl, inr}
use embed_template.Prelude.Int.{ℤ}
use embed_template.Gpio.{gpio_set_out_pin, gpio_clear_out_pin, gpio_clear_interrupt}
use embed_template.Sim.Regulation.{
  Plant, sensed, observe, check_critical, check_alarm, check_cooldown, choose_heating,
  drive_outputs, regulate_normal, regulate_cooled, run_temperature_regulation,
}

pub record Spares (p q : Plant) : Type 0 where
  pub cfg : q.gpio.wdt_cfg ≡ p.gpio.wdt_cfg
  pub val : q.gpio.wdt_val ≡ p.gpio.wdt_val
  pub reload : q.gpio.wdt_reload ≡ p.gpio.wdt_reload
  pub phy : q.sim.ctx.phy ≡ p.sim.ctx.phy

Spares-trans : {p q r : Plant} → Spares p q → Spares q r → Spares p r
Spares-trans v w = record {
  cfg = w.cfg ∙ v.cfg;
  val = w.val ∙ v.val;
  reload = w.reload ∙ v.reload;
  phy = w.phy ∙ v.phy;
}

normal-Spares : (t : ℤ) (p : Plant) → Spares p (regulate_normal t p)
unfolding regulate_normal drive_outputs choose_heating gpio_set_out_pin gpio_clear_out_pin
normal-Spares t p = record {
  cfg = ground arith;
  val = ground arith;
  reload = ground arith;
  phy = ground arith;
}

cooldown-Spares : (t : ℤ) (p : Plant) → Spares p (check_cooldown t (check_alarm p)).1
unfolding check_cooldown check_alarm gpio_set_out_pin gpio_clear_out_pin gpio_clear_interrupt
cooldown-Spares t p = record {
  cfg = ground arith;
  val = ground arith;
  reload = ground arith;
  phy = ground arith;
}

critical-Spares : (t : ℤ) (p : Plant) → Spares p (check_critical t (observe t p)).1
unfolding check_critical observe gpio_set_out_pin gpio_clear_out_pin
critical-Spares t p = record {
  cfg = ground arith;
  val = ground arith;
  reload = ground arith;
  phy = ground arith;
}

cooled-Spares : (t : ℤ) (p : Plant) → Spares p (regulate_cooled t p)
unfolding regulate_cooled
cooled-Spares t p =
    let r = check_cooldown t (check_alarm p) in
    elim (Bool-cases r.0) [
      | inl e ↦ rw e (cooldown-Spares t p)
      | inr e ↦ rw e (Spares-trans (cooldown-Spares t p) (normal-Spares t r.1))
    ]

pub regulation-Spares : (p : Plant) → Spares p (run_temperature_regulation p)
unfolding run_temperature_regulation
regulation-Spares p =
    let t = sensed p.gpio in
    let r = check_critical t (observe t p) in
    elim (Bool-cases r.0) [
      | inl e ↦ rw e (critical-Spares t p)
      | inr e ↦ rw e (Spares-trans (critical-Spares t p) (cooled-Spares t r.1))
    ]
