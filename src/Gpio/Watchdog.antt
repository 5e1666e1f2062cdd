-- ===== src/Gpio/Watchdog.antt =====
-- The watchdog: its period, and what a kick does.
use embed_template.Prelude.{ℕ, ◌+◌, ◌*◌, ◌/◌, ◌<◌, ◌≤◌, ◌≡◌, arith, ltb, ◌==◌, if◌then◌else◌}
use embed_template.Gpio.Regs.{GpioCtrl, field}
use embed_template.Gpio.{gpio_wdt_setup, gpio_wdt_kick}

-- Milliseconds for one tick, by the prescaler: 0 is 1 ms, 1 is 10 ms, 2 is 100 ms (the register
-- description's comment on the field).
abbrev pub tick_ms : ℕ → ℕ
tick_ms prescale = if prescale == 0 then 1 else if prescale == 1 then 10 else 100

-- The time from a full timer to 0.
abbrev pub period_ms : GpioCtrl → ℕ
period_ms regs = field 0 8 regs.wdt_reload * tick_ms (field 0 2 regs.wdt_cfg)

-- For a timeout below 2560 ms `gpio_wdt_setup` enables the watchdog with a full timer, and its
-- period is the timeout, rounded down to 10 ms from 255 ms on.
pub gpio_wdt_setup_period :
    (regs : GpioCtrl) (timeout_ms : ℕ)
    → timeout_ms < 2560
    → let r = gpio_wdt_setup regs timeout_ms in
      (period_ms r ≡ (if ltb timeout_ms 255 then timeout_ms else timeout_ms / 10 * 10))
      × (field 0 8 r.wdt_val ≡ field 0 8 r.wdt_reload)
      × (field 8 1 r.wdt_cfg ≡ 1)
unfolding gpio_wdt_setup
gpio_wdt_setup_period regs timeout_ms h = ground arith

-- The reload field has 8 bits, so whatever the timeout the period stays below 2560 ms: a longer
-- timeout is cut short.
pub gpio_wdt_setup_cut :
    (regs : GpioCtrl) (timeout_ms : ℕ)
    → 2560 ≤ timeout_ms
    → period_ms (gpio_wdt_setup regs timeout_ms) + 10 ≤ timeout_ms
unfolding gpio_wdt_setup
gpio_wdt_setup_cut regs timeout_ms h = ground arith

-- A kick refills the timer of an enabled watchdog from the reload field, and does nothing to a
-- disabled one; it changes no other register and not the reserved bits of the timer's.
pub gpio_wdt_kick_lem :
    (regs : GpioCtrl)
    → (field 8 1 regs.wdt_cfg ≡ 0 → gpio_wdt_kick regs ≡ regs)
      × (field 8 1 regs.wdt_cfg ≡ 1
          → (field 0 8 (gpio_wdt_kick regs).wdt_val ≡ field 0 8 regs.wdt_reload)
            × ((gpio_wdt_kick regs).wdt_val / 256 ≡ regs.wdt_val / 256)
            × (gpio_wdt_kick regs ≡ record regs { wdt_val = (gpio_wdt_kick regs).wdt_val }))
unfolding gpio_wdt_kick
gpio_wdt_kick_lem regs = (λ off. ground arith, λ on. ground arith)
