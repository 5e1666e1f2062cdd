-- ===== src/Sim/System/Boot.antt =====
-- What the control task's initialisation leaves in the registers.
use embed_template.Prelude.{ap, ◌≡◌, ◌∙◌, true, false, arith}
use embed_template.Prelude.Bits.{bit}
use embed_template.Gpio.Regs.{GpioCtrl, field}
use embed_template.Gpio.{
  gpio_init_controller, gpio_init_pin, gpio_init_pin_mask, gpio_configure_interrupt, gpio_wdt_setup,
}
use embed_template.Gpio.Pins.{gpio_init_pin_mask_bits}
use embed_template.Gpio.Irq.{gpio_clear_interrupt_frame}
use embed_template.Sim.Hardware.Deadline.{enabled, timer}
use embed_template.Sim.System.{control_init}
use embed_template.Sim.System.Timing.{reload}

-- Whatever the registers were, the initialisation of the control task leaves an enabled watchdog
-- with a period and a full timer of 150 ms.
pub control_init_watchdog :
    (g : GpioCtrl)
    → (enabled (control_init g) ≡ true)
      × (reload (control_init g) ≡ 150)
      × (timer (control_init g) ≡ 150)
      × (field 0 2 (control_init g).wdt_cfg ≡ 0)
unfolding control_init gpio_wdt_setup
control_init_watchdog g = ground arith

-- What is configured before the interrupt.
abbrev pins_init : GpioCtrl → GpioCtrl
pins_init g =
    let known = gpio_init_controller g in
    let outs = gpio_init_pin (gpio_init_pin (gpio_init_pin known 0 true) 1 true) 2 true in
    gpio_init_pin outs 8 false

control_init-dir :
    (g : GpioCtrl) → (control_init g).dir ≡ (gpio_init_pin_mask (pins_init g) 255 false).dir
unfolding control_init gpio_wdt_setup gpio_configure_interrupt
control_init-dir g =
    ap (λ t. t.dir)
      (gpio_clear_interrupt_frame
        (gpio_configure_interrupt (gpio_init_pin_mask (pins_init g) 255 false) 8 false) 8)

-- The pins of the heater and the two fans, which the initialisation first makes outputs, are
-- inputs at its end: the mask 0xFF of the sensor's pins takes them in again.
pub control_init_inputs :
    (g : GpioCtrl)
    → (bit (control_init g).dir 0 ≡ false)
      × (bit (control_init g).dir 1 ≡ false)
      × (bit (control_init g).dir 2 ≡ false)
unfolding bit
control_init_inputs g =
    let d = control_init-dir g in
    (
      ap (λ t. bit t 0) d ∙ gpio_init_pin_mask_bits (pins_init g) 255 false 0 (omega arith),
      ap (λ t. bit t 1) d ∙ gpio_init_pin_mask_bits (pins_init g) 255 false 1 (omega arith),
      ap (λ t. bit t 2) d ∙ gpio_init_pin_mask_bits (pins_init g) 255 false 2 (omega arith),
    )
