-- ===== src/Gpio.antt =====
-- src/drivers/gpio/gpio.c: the GPIO driver, in the build without USE_HW, where the registers are
-- plain memory (the thermal simulation and the unit tests run it so). A driver function takes the
-- register block and returns the new one, beside its result where it has one. Log calls are left
-- out. `1 << pin` is `2 ^ pin`; C leaves a shift by more than 30 undefined, and the theorems
-- keep to smaller pins where the value matters.
pub mod Regs
pub mod Pins
pub mod Irq
pub mod Watchdog
mod Tests
use Regs.{GpioCtrl, field, put, or_field, and_not_field}
use embed_template.Prelude.{
  ℕ, ◌/◌, ◌%◌, ◌^◌, Bool, true, false, not, ◌||◌, Option, some, bit_and, ltb, ◌==◌, if◌then◌else◌,
}
use embed_template.Prelude.Bits.{bit_not}

-- The base address that the driver keeps in `regs`.
pub gpio_set_regs : ℕ → Option ℕ → Option ℕ
gpio_set_regs base_addr regs = some base_addr

pub gpio_get_regs : Option ℕ → Option ℕ
gpio_get_regs regs = regs

unfoldable pub gpio_init_pin : GpioCtrl → ℕ → Bool → GpioCtrl
gpio_init_pin regs pin is_output =
    if is_output
    then record regs { dir = or_field 8 (2 ^ pin) regs.dir }
    else record regs { dir = and_not_field 8 (2 ^ pin) regs.dir }

unfoldable pub gpio_init_pin_mask : GpioCtrl → ℕ → Bool → GpioCtrl
gpio_init_pin_mask regs pending_mask is_output =
    if is_output
    then record regs { dir = or_field 8 pending_mask regs.dir }
    else record regs { dir = and_not_field 8 pending_mask regs.dir }

unfoldable pub gpio_set_out_pin : GpioCtrl → ℕ → GpioCtrl
gpio_set_out_pin regs pin =
    let written = record regs { set = put 0 8 (2 ^ pin) regs.set } in
    if bit_and (field 0 8 written.out) (2 ^ pin) == 0
    then record written { out = or_field 8 (2 ^ pin) written.out }
    else written

unfoldable pub gpio_clear_out_pin : GpioCtrl → ℕ → GpioCtrl
gpio_clear_out_pin regs pin =
    let written = record regs { clr = put 0 8 (2 ^ pin) regs.clr } in
    if not (bit_and (field 0 8 written.out) (2 ^ pin) == 0)
    then record written { out = and_not_field 8 (2 ^ pin) written.out }
    else written

unfoldable pub gpio_read_in_pin : GpioCtrl → ℕ → Bool
gpio_read_in_pin regs pin = not (bit_and regs.in_reg (2 ^ pin) == 0)

unfoldable pub gpio_get_all_in_pins : GpioCtrl → ℕ
gpio_get_all_in_pins regs = field 0 8 regs.in_reg % 2 ^ 8

unfoldable pub gpio_is_alarm : GpioCtrl → Bool
gpio_is_alarm regs =
    not (field 8 1 regs.in_reg == 0) || not (bit_and (field 0 16 regs.int_sts) (2 ^ 8) == 0)

unfoldable pub gpio_enable_interrupt : GpioCtrl → ℕ → ℕ → GpioCtrl
gpio_enable_interrupt regs pin type =
    let typed =
      (if not (type == 0)
        then record regs { int_type = or_field 16 (2 ^ pin) regs.int_type }
        else record regs { int_type = and_not_field 16 (2 ^ pin) regs.int_type }) in
    record typed { int_en = or_field 16 (2 ^ pin) typed.int_en }

-- `int_sts.f.status = mask`, and, if any bit of the mask reads back, `int_sts.all &= ~mask`.
clear_status : GpioCtrl → ℕ → GpioCtrl
clear_status regs mask =
    let written = record regs { int_sts = put 0 16 mask regs.int_sts } in
    if not (bit_and (field 0 16 written.int_sts) mask == 0)
    then record written { int_sts = bit_and written.int_sts (bit_not 32 mask) }
    else written

unfoldable pub gpio_get_and_clear_irq_status : GpioCtrl → ℕ × GpioCtrl
unfolding clear_status
gpio_get_and_clear_irq_status regs =
    let status = field 0 16 regs.int_sts in (status % 2 ^ 8, clear_status regs status)

unfoldable pub gpio_set_interrupt_polarity : GpioCtrl → ℕ → Bool → GpioCtrl
gpio_set_interrupt_polarity regs pin active_low =
    if active_low
    then record regs { int_pol = or_field 16 (2 ^ pin) regs.int_pol }
    else record regs { int_pol = and_not_field 16 (2 ^ pin) regs.int_pol }

unfoldable pub gpio_clear_interrupt : GpioCtrl → ℕ → GpioCtrl
unfolding clear_status
gpio_clear_interrupt regs pin = clear_status regs (2 ^ pin)

unfoldable pub gpio_clear_interrupts_mask : GpioCtrl → ℕ → GpioCtrl
unfolding clear_status
gpio_clear_interrupts_mask regs pending_mask = clear_status regs pending_mask

unfoldable pub gpio_init_controller : GpioCtrl → GpioCtrl
gpio_init_controller regs =
    let quiet = record regs {
      dir = put 0 8 0 regs.dir;
      int_en = put 0 16 0 regs.int_en;
      int_sts = 0xFFFF;
    } in
    let cleared =
      (if not (field 0 16 quiet.int_sts == 0)
        then record quiet { int_sts = bit_and quiet.int_sts (bit_not 32 0xFFFF) }
        else quiet) in
    record cleared {
      int_pol = put 0 16 0 cleared.int_pol;
      int_type = put 0 16 0 cleared.int_type;
      wdt_val = put 0 8 0 cleared.wdt_val;
      wdt_reload = put 0 8 0 cleared.wdt_reload;
      wdt_cfg = put 8 1 0 (put 0 2 0 cleared.wdt_cfg);
    }

unfoldable pub gpio_configure_interrupt : GpioCtrl → ℕ → Bool → GpioCtrl
gpio_configure_interrupt regs pin active_low =
    let polar =
      (if active_low
        then record regs { int_pol = or_field 16 (2 ^ pin) regs.int_pol }
        else record regs { int_pol = and_not_field 16 (2 ^ pin) regs.int_pol }) in
    record polar { int_en = or_field 16 (2 ^ pin) polar.int_en }

unfoldable pub gpio_wdt_setup : GpioCtrl → ℕ → GpioCtrl
gpio_wdt_setup regs timeout_ms =
    let timed =
      (if ltb timeout_ms 255
        then record regs {
          wdt_cfg = put 0 2 0 regs.wdt_cfg;
          wdt_reload = put 0 8 (timeout_ms % 2 ^ 8) regs.wdt_reload;
        }
        else record regs {
          wdt_cfg = put 0 2 1 regs.wdt_cfg;
          wdt_reload = put 0 8 (timeout_ms / 10 % 2 ^ 8) regs.wdt_reload;
        }) in
    record timed {
      wdt_val = put 0 8 (field 0 8 timed.wdt_reload) timed.wdt_val;
      wdt_cfg = put 8 1 1 timed.wdt_cfg;
    }

unfoldable pub gpio_wdt_kick : GpioCtrl → GpioCtrl
gpio_wdt_kick regs =
    if field 8 1 regs.wdt_cfg == 0
    then regs
    else record regs { wdt_val = put 0 8 (field 0 8 regs.wdt_reload) regs.wdt_val }
