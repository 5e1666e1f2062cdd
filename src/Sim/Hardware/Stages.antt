-- ===== src/Sim/Hardware/Stages.antt =====
-- What each stage of a tick changes and what it leaves.
use embed_template.Prelude.{
  ℕ, ◌%◌, ◌≡◌, ◌<◌, refl, Bool, true, false, arith, ap, ◌∙◌, inl, inr, ◌⊎◌,
}
use embed_template.Prelude.Bits.{bit}
use embed_template.Prelude.Int.{ℤ, pos, negsuc, ◌≤ℤ◌, div_ℤ, ◌+ℤ◌, ◌-ℤ◌, pos_part, to_int16}
use embed_template.Gpio.Regs.{GpioCtrl, field, put}
use embed_template.Sim.{SimCtx}
use embed_template.Sim.Regulation.{Plant}
use embed_template.Sim.Hardware.{
  Board, fail_fan1, apply_physics, limit, sensor_value, update_sensor, raise_alarm, wake_control,
  run_watchdog, count_ms, simulate, tick, net_heat_power, cooling_power,
}

limit_bounds :
    (ambient t : ℤ)
    → ambient ≤ℤ pos 215000
    → (ambient ≤ℤ limit ambient t) × (limit ambient t ≤ℤ pos 215000)
limit_bounds ambient t h = ground arith

fail_fan1-same :
    (ms : ℕ) (c : SimCtx)
    → ((fail_fan1 ms c).phy ≡ c.phy)
      × ((fail_fan1 ms c).reg ≡ c.reg)
      × ((fail_fan1 ms c).temp_mc ≡ c.temp_mc)
      × ((fail_fan1 ms c).mask ≡ c.mask)
unfolding fail_fan1
fail_fan1-same ms c = ground arith

-- From the ambient temperature up to the limit of the sensor, the byte is exact.
sensor_exact :
    (t : ℤ)
    → negsuc 9999 ≤ℤ t
    → t ≤ℤ pos 215000
    → (sensor_value t ≡ div_ℤ t 1000 +ℤ pos 40) × (pos_part (sensor_value t) < 256)
unfolding sensor_value div_ℤ ◌+ℤ◌
sensor_exact (pos n) lo hi = ground arith
sensor_exact (negsuc n) lo hi = ground arith

-- What a stage of the tick leaves as it was.
pub record Keeps (p q : Plant) : Type 0 where
  pub cfg : q.sim.cfg ≡ p.sim.cfg
  pub phy : q.sim.ctx.phy ≡ p.sim.ctx.phy
  pub reg : q.sim.ctx.reg ≡ p.sim.ctx.reg
  pub temp : q.sim.ctx.temp_mc ≡ p.sim.ctx.temp_mc
  pub pins : field 0 8 q.gpio.in_reg ≡ field 0 8 p.gpio.in_reg

raise_alarm-Keeps :
    (b : Board)
    → Keeps b.plant (raise_alarm b).0.plant × ((raise_alarm b).0.plant.gpio.out ≡ b.plant.gpio.out)
unfolding raise_alarm
raise_alarm-Keeps b = ground arith

wake_control-same : (r : Board × Bool) → (wake_control r).plant ≡ r.0.plant
unfolding wake_control
wake_control-same (b, done) = ground arith

run_watchdog-Keeps :
    (p : Plant)
    → Keeps p (run_watchdog p)
      × ((run_watchdog p).gpio.out ≡ p.gpio.out ⊎ (run_watchdog p).gpio.out ≡ put 0 8 2 p.gpio.out)
unfolding run_watchdog
run_watchdog-Keeps p = ground arith

low_field : (v r : ℕ) → field 0 8 (put 0 8 v r) ≡ v % 256
low_field v r = omega arith

pub safety_word :
    (r : ℕ)
    → (bit (put 0 8 2 r) 0 ≡ false) × (bit (put 0 8 2 r) 1 ≡ true) × (bit (put 0 8 2 r) 2 ≡ false)
unfolding bit
safety_word r = ground arith

apply_physics-limits :
    (gpio : GpioCtrl) (c : SimCtx)
    → c.phy.ambient_temp_mc ≤ℤ pos 215000
    → (c.phy.ambient_temp_mc ≤ℤ (apply_physics gpio c).temp_mc)
      × ((apply_physics gpio c).temp_mc ≤ℤ pos 215000)
unfolding apply_physics
apply_physics-limits gpio c h =
    limit_bounds c.phy.ambient_temp_mc
      (c.temp_mc
        +ℤ div_ℤ (to_int16 (net_heat_power gpio c -ℤ cooling_power gpio c)) c.phy.thermal_mass)
      h

limits_at :
    (a o t : ℤ)
    → a ≡ o
    → (a ≤ℤ pos 215000 → (a ≤ℤ t) × (t ≤ℤ pos 215000))
    → o ≤ℤ pos 215000
    → (o ≤ℤ t) × (t ≤ℤ pos 215000)
limits_at a o t e f h = ground (arith, f)

pub simulate-lem :
    (b : Board)
    → let c = b.plant.sim.ctx in
      let q = simulate b in
      (q.sim.cfg ≡ b.plant.sim.cfg)
      × (q.sim.ctx.phy ≡ c.phy)
      × (q.sim.ctx.reg ≡ c.reg)
      × (q.gpio.out ≡ b.plant.gpio.out)
      × (field 0 8 q.gpio.in_reg ≡ pos_part (sensor_value q.sim.ctx.temp_mc) % 256)
      × (c.phy.ambient_temp_mc ≤ℤ pos 215000
          → (c.phy.ambient_temp_mc ≤ℤ q.sim.ctx.temp_mc) × (q.sim.ctx.temp_mc ≤ℤ pos 215000))
unfolding simulate update_sensor apply_physics
simulate-lem b =
    let c = fail_fan1 (count_ms b) b.plant.sim.ctx in
    let s = fail_fan1-same (count_ms b) b.plant.sim.ctx in
    (
      refl,
      s.0,
      s.1,
      refl,
      low_field (pos_part (sensor_value (apply_physics b.plant.gpio c).temp_mc))
          b.plant.gpio.in_reg,
      limits_at c.phy.ambient_temp_mc b.plant.sim.ctx.phy.ambient_temp_mc
          (apply_physics b.plant.gpio c).temp_mc (ap (λ t. t.ambient_temp_mc) s.0)
          (apply_physics-limits b.plant.gpio c),
    )

Keeps-trans : {p q r : Plant} → Keeps p q → Keeps q r → Keeps p r
Keeps-trans v w = record {
  cfg = w.cfg ∙ v.cfg;
  phy = w.phy ∙ v.phy;
  reg = w.reg ∙ v.reg;
  temp = w.temp ∙ v.temp;
  pins = w.pins ∙ v.pins;
}

-- What a tick may do to the outputs: nothing, or the safety word of the watchdog.
unfoldable pub Outputs : ℕ → ℕ → Type 0
Outputs m o = (o ≡ m) ⊎ (o ≡ put 0 8 2 m)

Outputs-at : {m n o : ℕ} → n ≡ m → (o ≡ n) ⊎ (o ≡ put 0 8 2 n) → Outputs m o
unfolding Outputs
Outputs-at e (inl h) = inl (h ∙ e)
Outputs-at e (inr h) = inr (h ∙ ap (put 0 8 2) e)

-- The stages of a tick together.
pub tick-stages :
    (b : Board)
    → Keeps (simulate b) (tick b).plant × Outputs b.plant.gpio.out (tick b).plant.gpio.out
unfolding tick Outputs
tick-stages b =
    let s : Board = record b { plant = simulate b; ms_counter = count_ms b } in
    let a = raise_alarm-Keeps s in
    let w = wake_control-same (raise_alarm s) in
    let d = run_watchdog-Keeps (wake_control (raise_alarm s)).plant in
    let o = a.1 ∙ (simulate-lem b).3 in
    let v : Keeps s.plant (wake_control (raise_alarm s)).plant = (rw w a.0) in
    let u : (wake_control (raise_alarm s)).plant.gpio.out ≡ b.plant.gpio.out = (rw w o) in
    (Keeps-trans v d.0, Outputs-at u d.1)
