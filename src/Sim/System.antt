-- ===== src/Sim/System.antt =====
-- `vGPIOControlTask`, and the two tasks together: any interleaving of the hardware's milliseconds
-- and the passes of the control task. A millisecond and a pass are each taken as one step.
pub mod Interlocks
pub mod Timing
pub mod Boot
use embed_template.Prelude.{ℕ, Bool, true, false, ◌≡◌}
use embed_template.Gpio.Regs.{GpioCtrl}
use embed_template.Gpio.{
  gpio_init_controller, gpio_init_pin, gpio_init_pin_mask, gpio_configure_interrupt,
  gpio_clear_interrupt, gpio_wdt_setup, gpio_wdt_kick,
}
use embed_template.Sim.Regulation.{Plant, with_gpio, run_temperature_regulation}
use embed_template.Sim.Hardware.{Board, tick}

-- What the task does before its loop.
unfoldable pub control_init : GpioCtrl → GpioCtrl
control_init gpio =
    let known = gpio_init_controller gpio in
    let heater = gpio_init_pin known 0 true in
    let cooler = gpio_init_pin heater 1 true in
    let emergency = gpio_init_pin cooler 2 true in
    let alarm = gpio_init_pin emergency 8 false in
    let sensor = gpio_init_pin_mask alarm 0xFF false in
    gpio_wdt_setup (gpio_clear_interrupt (gpio_configure_interrupt sensor 8 false) 8) 150

-- One pass of its loop, which takes the notification.
unfoldable pub control_pass : Board → Board
control_pass b =
    let q = run_temperature_regulation b.plant in
    record b { plant = with_gpio (gpio_wdt_kick q.gpio) q; notified = false }

pub data Step : Board → Board → Type 0 where
  hardware : (b : Board) → Step b (tick b)
  control : (b : Board) → b.notified ≡ true → Step b (control_pass b)

pub data Reach : Board → Board → Type 0 where
  here : (b : Board) → Reach b b
  then_step : {a b c : Board} → Reach a b → Step b c → Reach a c

-- The schedule in which the control task, once notified, makes its pass before the next
-- millisecond.
pub data PromptStep : Board → Board → Type 0 where
  prompt_hardware : (b : Board) → b.notified ≡ false → PromptStep b (tick b)
  prompt_control : (b : Board) → b.notified ≡ true → PromptStep b (control_pass b)

pub data PromptReach : Board → Board → Type 0 where
  prompt_here : (b : Board) → PromptReach b b
  prompt_then : {a b c : Board} → PromptReach a b → PromptStep b c → PromptReach a c
