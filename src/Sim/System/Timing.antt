-- ===== src/Sim/System/Timing.antt =====
-- The sensor's period against the watchdog's: a control task that runs when it is notified always
-- comes in time.
use embed_template.Prelude.{ℕ, ◌+◌, ◌<◌, ◌≤◌, ◌≡◌, ◌∙◌, ap, true, false, not, ◌==◌, arith}
use embed_template.Gpio.Regs.{GpioCtrl, field}
use embed_template.Gpio.{gpio_wdt_kick}
use embed_template.Sim.Config.{latency_ok}
use embed_template.Sim.Regulation.{run_temperature_regulation}
use embed_template.Sim.Regulation.Frame.{regulation-Spares}
use embed_template.Sim.Hardware.{Board, tick}
use embed_template.Sim.Hardware.Deadline.{enabled, timer, tick-Wdt}
use embed_template.Sim.Hardware.Wake.{latency, tick-wake}
use embed_template.Sim.System.{
  control_pass, prompt_hardware, prompt_control, PromptReach, prompt_here, prompt_then,
}

abbrev pub reload : GpioCtrl → ℕ
reload g = field 0 8 g.wdt_reload

-- The watchdog runs with its 150 ms, and while the control task sleeps its timer has at least
-- 100 ms more than the next sensor period.
pub record IsTimed (b : Board) : Type 0 where
  pub on : enabled b.plant.gpio ≡ true
  pub period : reload b.plant.gpio ≡ 150
  pub latency_ok : latency_ok (latency b) ≡ true
  pub counter : b.ms_counter < latency b
  pub slack : b.notified ≡ false → latency b + 100 ≤ timer b.plant.gpio + b.ms_counter

kick-lem :
    (g : GpioCtrl)
    → enabled g ≡ true
    → (enabled (gpio_wdt_kick g) ≡ true)
      × (reload (gpio_wdt_kick g) ≡ reload g)
      × (timer (gpio_wdt_kick g) ≡ reload g)
unfolding gpio_wdt_kick
kick-lem g h = ground arith

control-IsTimed : (b : Board) → IsTimed b → IsTimed (control_pass b)
unfolding control_pass
control-IsTimed b v =
    let s = regulation-Spares b.plant in
    let g = (run_temperature_regulation b.plant).gpio in
    let k = kick-lem g (ap (λ t. not (field 8 1 t == 0)) s.cfg ∙ v.on) in
    let r : reload g ≡ 150 = (ap (λ t. field 0 8 t) s.reload ∙ v.period) in
    let e : latency (control_pass b) ≡ latency b = (ap (λ t. t.sensor_latency_ms) s.phy) in
    record {
      on = k.0;
      period = k.1 ∙ r;
      latency_ok = ap latency_ok e ∙ v.latency_ok;
      counter = ground (arith, e, v.counter);
      slack = λ n. ground (arith, e, k.2, r, v.latency_ok);
    }

tick-IsTimed : (b : Board) → b.notified ≡ false → IsTimed b → IsTimed (tick b)
tick-IsTimed b n v =
    let t = tick-wake b (ground (arith, v.latency_ok)) (ground (arith, v.counter, v.latency_ok)) in
    let w = tick-Wdt b v.on in
    let e : latency (tick b) ≡ latency b = (ap (λ p. p.sensor_latency_ms) t.3) in
    record {
      on = w.0;
      period = ap (λ r. field 0 8 r) t.4 ∙ v.period;
      latency_ok = ap latency_ok e ∙ v.latency_ok;
      counter = ground (arith, t.0, e);
      slack = λ f. ground (arith, e, w.1, t.2 f, v.slack n, v.counter);
    }

PromptReach-IsTimed : {a b : Board} → IsTimed a → PromptReach a b → IsTimed b
PromptReach-IsTimed v (prompt_here a) = v
PromptReach-IsTimed v (prompt_then r (prompt_hardware b n)) =
    tick-IsTimed b n (PromptReach-IsTimed v r)
PromptReach-IsTimed v (prompt_then r (prompt_control b n)) =
    control-IsTimed b (PromptReach-IsTimed v r)

-- With the watchdog at 150 ms and a sensor latency in its range, a control task that runs as
-- soon as it is notified is never overtaken by the watchdog: in every state so reached in which
-- the control task sleeps, the next millisecond leaves the outputs as the regulation set them.
pub watchdog_never_fires :
    {a b : Board}
    → IsTimed a
    → PromptReach a b
    → b.notified ≡ false
    → (tick b).plant.gpio.out ≡ b.plant.gpio.out
watchdog_never_fires {b = b} v r n =
    let t = PromptReach-IsTimed v r in (tick-Wdt b t.on).2 (ground (arith, t.slack n, t.counter))
