-- ===== src/Gpio/Tests.antt =====
-- The theorems on the GPIO driver at concrete registers.
use embed_template.Prelude.{◌≡◌, arith, false}
use embed_template.Prelude.Bits.{bit}
use embed_template.Gpio.Regs.{GpioCtrl}
use embed_template.Gpio.{gpio_clear_interrupt, gpio_clear_interrupts_mask}
use embed_template.Gpio.Irq.{gpio_clear_interrupt_clears_all}

-- Pins 0 and 2 driven high, two interrupts pending, the watchdog running with 20 ticks left.
abbrev busy : GpioCtrl
busy = record {
  dir = 7;
  out = 5;
  in_reg = 0x141;
  set = 0;
  clr = 0;
  int_en = 0x100;
  int_sts = 0x102;
  int_type = 0;
  int_pol = 2;
  wdt_cfg = 0x100;
  wdt_val = 20;
  wdt_reload = 150;
}

-- Clearing pin 1 clears the pending alarm, bit 8, too.
gpio_clear_interrupt_clears_all_example :
    (bit (gpio_clear_interrupt busy 1).int_sts 8 ≡ false)
    × (bit (gpio_clear_interrupts_mask busy 2).int_sts 8 ≡ false)
gpio_clear_interrupt_clears_all_example =
    gpio_clear_interrupt_clears_all busy 1 2 8 (omega arith) (omega arith) (omega arith)
