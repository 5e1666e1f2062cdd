-- ===== src/Sim/Hardware/Deadline.antt =====
-- The simulated watchdog over any number of milliseconds without `gpio_wdt_kick`.
use embed_template.Prelude.{
  ℕ, zero, suc, ◌-◌, ◌≡◌, ◌≤◌, ◌<◌, refl, Bool, true, false, not, ◌==◌, arith, ap, ◌∙◌,
}
use embed_template.Prelude.Bits.{bit}
use embed_template.Gpio.Regs.{GpioCtrl, field}
use embed_template.Sim.Regulation.{Plant}
use embed_template.Sim.Regulation.Safety.{heater_on, fan1_on, fan2_on}
use embed_template.Sim.Hardware.{
  Board, update_sensor, raise_alarm, wake_control, run_watchdog, count_ms, simulate, tick, ticks,
}

-- The registers that the watchdog works on.
record Wdt (p q : Plant) : Type 0 where
  cfg : q.gpio.wdt_cfg ≡ p.gpio.wdt_cfg
  val : q.gpio.wdt_val ≡ p.gpio.wdt_val
  out : q.gpio.out ≡ p.gpio.out

simulate-Wdt : (b : Board) → Wdt b.plant (simulate b)
unfolding simulate update_sensor
simulate-Wdt b = record { cfg = refl; val = refl; out = refl }

alarm-Wdt : (b : Board) → Wdt b.plant (wake_control (raise_alarm b)).plant
unfolding raise_alarm wake_control
alarm-Wdt b = record { cfg = ground arith; val = ground arith; out = ground arith }

before-Wdt :
    (b : Board)
    → Wdt b.plant
        (wake_control
          (raise_alarm (record b { plant = simulate b; ms_counter = count_ms b }))).plant
before-Wdt b =
    let s : Board = record b { plant = simulate b; ms_counter = count_ms b } in
    let v = simulate-Wdt b in
    let w = alarm-Wdt s in record { cfg = w.cfg ∙ v.cfg; val = w.val ∙ v.val; out = w.out ∙ v.out }

abbrev pub enabled : GpioCtrl → Bool
enabled g = not (field 8 1 g.wdt_cfg == 0)

abbrev pub timer : GpioCtrl → ℕ
timer g = field 0 8 g.wdt_val

abbrev pub IsForced : GpioCtrl → Type 0
IsForced g = (heater_on g ≡ false) × (fan1_on g ≡ true) × (fan2_on g ≡ false)

-- One run of the watchdog block.
run_watchdog-lem :
    (p : Plant)
    → enabled p.gpio ≡ true
    → let g = (run_watchdog p).gpio in
      (g.wdt_cfg ≡ p.gpio.wdt_cfg)
      × (timer g ≡ timer p.gpio - 1)
      × (0 < timer p.gpio → g.out ≡ p.gpio.out)
      × (timer p.gpio ≡ 0 → IsForced g)
unfolding run_watchdog bit
run_watchdog-lem p h = ground arith

pub tick-Wdt :
    (b : Board)
    → enabled b.plant.gpio ≡ true
    → let g = (tick b).plant.gpio in
      (enabled g ≡ true)
      × (timer g ≡ timer b.plant.gpio - 1)
      × (0 < timer b.plant.gpio → g.out ≡ b.plant.gpio.out)
      × (timer b.plant.gpio ≡ 0 → IsForced g)
unfolding tick
tick-Wdt b h =
    let w = before-Wdt b in
    let s : Board = record b { plant = simulate b; ms_counter = count_ms b } in
    let p : Plant = (wake_control (raise_alarm s)).plant in
    let t : timer p.gpio ≡ timer b.plant.gpio = (ap (λ v. field 0 8 v) w.val) in
    let e : enabled p.gpio ≡ enabled b.plant.gpio = (ap (λ v. not (field 8 1 v == 0)) w.cfg) in
    let r = run_watchdog-lem p (e ∙ h) in
    (
      ap (λ v. not (field 8 1 v == 0)) r.0 ∙ e ∙ h,
      r.1 ∙ ap (λ v. v - 1) t,
      λ l. r.2 (rw t l) ∙ w.out,
      λ z. r.3 (t ∙ z),
    )

-- Without a kick an enabled watchdog acts on time and not before: as long as its timer has not
-- run out, the outputs stay as they were, and from the millisecond after that on the heater and
-- the second fan are off and the first fan is on.
pub watchdog_deadline :
    (n : ℕ) (b : Board)
    → enabled b.plant.gpio ≡ true
    → (n ≤ timer b.plant.gpio → (ticks n b).plant.gpio.out ≡ b.plant.gpio.out)
      × (timer b.plant.gpio < n → IsForced (ticks n b).plant.gpio)
unfolding ticks
watchdog_deadline zero b h = (λ l. refl, λ l. ground arith)
watchdog_deadline (suc zero) b h = let t = tick-Wdt b h in (λ l. t.2 l, λ l. t.3 (ground arith))
watchdog_deadline (suc (suc n)) b h =
    let t = tick-Wdt b h in
    let r = watchdog_deadline (suc n) (tick b) t.0 in
    (λ l. r.0 (ground (arith, t.1)) ∙ t.2 (ground arith), λ l. r.1 (ground (arith, t.1)))
