-- ===== src/Sim/Hardware/Wake.antt =====
-- When the hardware wakes the control task.
use embed_template.Prelude.{
  ℕ, zero, suc, ◌+◌, ◌<◌, ◌≤◌, ◌≡◌, ◌∙◌, ap, true, false, arith, refl, Bool-cases, inl, inr,
}
use embed_template.Sim.Config.{latency_ok}
use embed_template.Sim.Regulation.{Plant}
use embed_template.Sim.Hardware.{
  Board, fail_fan1, apply_physics, update_sensor, raise_alarm, wake_control, run_watchdog, count_ms,
  simulate, tick, ticks,
}

abbrev pub latency : Board → ℕ
latency b = b.plant.sim.ctx.phy.sensor_latency_ms

simulate-same :
    (b : Board)
    → ((simulate b).sim.ctx.phy ≡ b.plant.sim.ctx.phy)
      × ((simulate b).gpio.wdt_reload ≡ b.plant.gpio.wdt_reload)
unfolding simulate update_sensor fail_fan1 apply_physics
simulate-same b = (ground arith, refl)

wake-lem :
    (b : Board)
    → 0 < latency b
    → let c = wake_control (raise_alarm b) in
      (c.ms_counter < latency b)
      × (b.notified ≡ true → c.notified ≡ true)
      × (c.notified ≡ false → c.ms_counter ≡ b.ms_counter)
      × (c.plant.sim.ctx.phy ≡ b.plant.sim.ctx.phy)
      × (c.plant.gpio.wdt_reload ≡ b.plant.gpio.wdt_reload)
unfolding raise_alarm wake_control
wake-lem b h = ground arith

watchdog-same :
    (p : Plant)
    → ((run_watchdog p).sim ≡ p.sim) × ((run_watchdog p).gpio.wdt_reload ≡ p.gpio.wdt_reload)
unfolding run_watchdog
watchdog-same p = ground arith

-- One millisecond on the counter and the notification.
pub tick-wake :
    (b : Board)
    → 0 < latency b
    → b.ms_counter < 1000
    → ((tick b).ms_counter < latency b)
      × (b.notified ≡ true → (tick b).notified ≡ true)
      × ((tick b).notified ≡ false → (tick b).ms_counter ≡ b.ms_counter + 1)
      × ((tick b).plant.sim.ctx.phy ≡ b.plant.sim.ctx.phy)
      × ((tick b).plant.gpio.wdt_reload ≡ b.plant.gpio.wdt_reload)
unfolding tick count_ms
tick-wake b h l =
    let s : Board = record b { plant = simulate b; ms_counter = count_ms b } in
    let m = simulate-same b in
    let e : latency s ≡ latency b = (ap (λ t. t.sensor_latency_ms) m.0) in
    let w = wake-lem s (ground (arith, h, e)) in
    let d = watchdog-same (wake_control (raise_alarm s)).plant in
    (
      ground (arith, w.0, e),
      w.1,
      λ n. w.2 n ∙ omega arith,
      ap (λ t. t.ctx.phy) d.0 ∙ w.3 ∙ m.0,
      d.1 ∙ w.4 ∙ m.1,
    )

ticks-notified :
    (n : ℕ) (b : Board)
    → latency_ok (latency b) ≡ true
    → b.ms_counter < latency b
    → b.notified ≡ true
    → (ticks n b).notified ≡ true
unfolding ticks
ticks-notified zero b h l n = n
ticks-notified (suc k) b h l n =
    let t = tick-wake b (ground (arith, h)) (ground (arith, h)) in
    let e : latency (tick b) ≡ latency b = (ap (λ p. p.sensor_latency_ms) t.3) in
    ticks-notified k (tick b) (ap latency_ok e ∙ h) (ground (arith, t.0, e)) (t.1 n)

-- With a sensor latency in its range, the control task is notified at the latest when the
-- counter of milliseconds would reach the latency, whatever the alarm and the watchdog do.
pub ticks-awakes :
    (n : ℕ) (b : Board)
    → latency_ok (latency b) ≡ true
    → b.ms_counter < latency b
    → latency b ≤ b.ms_counter + n
    → (ticks n b).notified ≡ true
unfolding ticks
ticks-awakes zero b h l k = ground arith
ticks-awakes (suc n) b h l k =
    let t = tick-wake b (ground (arith, h)) (ground (arith, h)) in
    let e : latency (tick b) ≡ latency b = (ap (λ p. p.sensor_latency_ms) t.3) in
    let ok = ap latency_ok e ∙ h in
    elim (Bool-cases (tick b).notified) [
      | inl y ↦ ticks-notified n (tick b) ok (ground (arith, t.0, e)) y
      | inr f ↦ ticks-awakes n (tick b) ok (ground (arith, t.0, e)) (ground (arith, e, t.2 f, k))
    ]
