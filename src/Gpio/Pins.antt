-- ===== src/Gpio/Pins.antt =====
-- Directions, outputs and inputs: what each driver call does to each bit of each register.
use embed_template.Prelude.{
  ℕ, ◌^◌, ◌<◌, ◌≤◌, ◌≡◌, arith, Bool, false, ◌&&◌, ◌||◌, ltb, ◌==◌, if◌then◌else◌,
}
use embed_template.Prelude.Bits.{bit, bit-two_pow, bit_and_test}
use native.Mathlib.Nat.{pow-le-pow_right}
use embed_template.Gpio.Regs.{GpioCtrl, put, bit-or_field, bit-and_not_field, field_test}
use embed_template.Gpio.{
  gpio_init_pin, gpio_init_pin_mask, gpio_set_out_pin, gpio_clear_out_pin, gpio_read_in_pin,
  gpio_get_all_in_pins,
}

-- A pin that `1 << pin` can name in an `int`.
pub two_pow-lt : (pin : ℕ) → pin < 31 → 2 ^ pin < 2 ^ 32
two_pow-lt pin h =
    let le : 2 ^ pin ≤ 2 ^ 31 = pow-le-pow_right {n = 2} (omega arith) {j = 31} (omega arith) in
    omega arith

-- `gpio_init_pin` sets the direction bit of its pin, if the pin is one of the eight, and leaves
-- every other bit of the direction register alone.
pub gpio_init_pin_bits :
    (regs : GpioCtrl) (pin : ℕ) (is_output : Bool) (k : ℕ)
    → pin < 31
    → bit (gpio_init_pin regs pin is_output).dir k
      ≡ (if (pin == k) && ltb k 8 then is_output else bit regs.dir k)
unfolding gpio_init_pin
gpio_init_pin_bits regs pin is_output k h = ground (
  arith,
  bit-or_field 8 (2 ^ pin) regs.dir k,
  bit-and_not_field 8 (2 ^ pin) regs.dir k (omega arith) (two_pow-lt pin h),
  bit-two_pow pin k,
)

-- `gpio_init_pin_mask` gives the direction to exactly the pins of the mask below 8.
pub gpio_init_pin_mask_bits :
    (regs : GpioCtrl) (mask : ℕ) (is_output : Bool) (k : ℕ)
    → mask < 2 ^ 16
    → bit (gpio_init_pin_mask regs mask is_output).dir k
      ≡ (if bit mask k && ltb k 8 then is_output else bit regs.dir k)
unfolding gpio_init_pin_mask
gpio_init_pin_mask_bits regs mask is_output k h = ground (
  arith,
  bit-or_field 8 mask regs.dir k,
  bit-and_not_field 8 mask regs.dir k (omega arith) (omega arith),
)

-- After `gpio_set_out_pin` the output of the pin is high, and every other bit of the output
-- register is as it was; a pin from 8 on changes no output.
pub gpio_set_out_pin_bits :
    (regs : GpioCtrl) (pin k : ℕ)
    → bit (gpio_set_out_pin regs pin).out k ≡ ((pin == k) && ltb k 8 || bit regs.out k)
unfolding gpio_set_out_pin
gpio_set_out_pin_bits regs pin k =
    ground
      (arith, field_test 8 pin regs.out, bit-or_field 8 (2 ^ pin) regs.out k, bit-two_pow pin k)

-- After `gpio_clear_out_pin` the output of the pin is low, and every other bit of the output
-- register is as it was; a pin from 8 on changes no output.
pub gpio_clear_out_pin_bits :
    (regs : GpioCtrl) (pin k : ℕ)
    → pin < 31
    → bit (gpio_clear_out_pin regs pin).out k
      ≡ (if (pin == k) && ltb k 8 then false else bit regs.out k)
unfolding gpio_clear_out_pin
gpio_clear_out_pin_bits regs pin k h = ground (
  arith,
  field_test 8 pin regs.out,
  bit-and_not_field 8 (2 ^ pin) regs.out k (omega arith) (two_pow-lt pin h),
  bit-two_pow pin k,
)

-- The two output calls touch the output register and their own trigger register, and no other.
pub out_pin_frame :
    (regs : GpioCtrl) (pin : ℕ)
    → (gpio_set_out_pin regs pin
        ≡ record regs { set = put 0 8 (2 ^ pin) regs.set; out = (gpio_set_out_pin regs pin).out })
      × (gpio_clear_out_pin regs pin ≡ record regs {
        clr = put 0 8 (2 ^ pin) regs.clr;
        out = (gpio_clear_out_pin regs pin).out;
      })
unfolding gpio_set_out_pin gpio_clear_out_pin
out_pin_frame regs pin = ground arith

-- `gpio_read_in_pin` reads the pin's bit of the input register, the alarm's included.
pub gpio_read_in_pin_lem :
    (regs : GpioCtrl) (pin : ℕ) → gpio_read_in_pin regs pin ≡ bit regs.in_reg pin
unfolding gpio_read_in_pin
gpio_read_in_pin_lem regs pin = ground (arith, bit_and_test pin regs.in_reg)

pub gpio_get_all_in_pins-lt : (regs : GpioCtrl) → gpio_get_all_in_pins regs < 256
unfolding gpio_get_all_in_pins
gpio_get_all_in_pins-lt regs = omega arith
