-- ===== src/Gpio/Irq.antt =====
-- Interrupt enable, type, polarity and status. The status register is write-1-to-clear on the
-- chip; in this build a store to it is a plain store, which the driver follows by a read back.
use embed_template.Prelude.{
  ℕ, ◌/◌, ◌^◌, ◌<◌, ◌≤◌, ◌≡◌, ◌∙◌, ap, arith, Bool, false, not, ◌&&◌, ◌||◌, bit_and, ltb, ◌==◌,
  if◌then◌else◌, Bool-cases, inl, inr, ==_iff,
}
use embed_template.Prelude.Bits.{
  bit, bit_not, bit-mod, bit-zero, bit-two_pow, bit-and, bit-not, bit_of_lt, put_low, bit-put_low,
}
use native.Mathlib.Nat.{pow-le-pow_right}
use embed_template.Gpio.Regs.{
  GpioCtrl, field, put, field_bits, field_test, bit-or_field, bit-and_not_field,
}
use embed_template.Gpio.Pins.{two_pow-lt}
use embed_template.Gpio.{
  gpio_enable_interrupt, gpio_configure_interrupt, clear_status, gpio_get_and_clear_irq_status,
  gpio_clear_interrupt, gpio_clear_interrupts_mask, gpio_init_controller, gpio_is_alarm,
}

-- `gpio_enable_interrupt` enables its pin, gives it the edge type for a type that is not 0 and
-- the level type for 0, and changes no other bit of the two registers.
pub gpio_enable_interrupt_bits :
    (regs : GpioCtrl) (pin type k : ℕ)
    → pin < 16
    → (bit (gpio_enable_interrupt regs pin type).int_en k ≡ ((pin == k) || bit regs.int_en k))
      × (bit (gpio_enable_interrupt regs pin type).int_type k
          ≡ (if pin == k then not (type == 0) else bit regs.int_type k))
unfolding gpio_enable_interrupt
gpio_enable_interrupt_bits regs pin type k h = ground (
  arith,
  bit-or_field 16 (2 ^ pin) regs.int_en k,
  bit-or_field 16 (2 ^ pin) regs.int_type k,
  bit-and_not_field 16 (2 ^ pin) regs.int_type k (omega arith) (two_pow-lt pin (omega arith)),
  bit-two_pow pin k,
)

-- `gpio_configure_interrupt` enables its pin with the polarity asked for, and changes no other
-- bit of the enable and polarity registers.
pub gpio_configure_interrupt_bits :
    (regs : GpioCtrl) (pin : ℕ) (active_low : Bool) (k : ℕ)
    → pin < 16
    → (bit (gpio_configure_interrupt regs pin active_low).int_en k
        ≡ ((pin == k) || bit regs.int_en k))
      × (bit (gpio_configure_interrupt regs pin active_low).int_pol k
          ≡ (if pin == k then active_low else bit regs.int_pol k))
unfolding gpio_configure_interrupt
gpio_configure_interrupt_bits regs pin active_low k h = ground (
  arith,
  bit-or_field 16 (2 ^ pin) regs.int_en k,
  bit-or_field 16 (2 ^ pin) regs.int_pol k,
  bit-and_not_field 16 (2 ^ pin) regs.int_pol k (omega arith) (two_pow-lt pin (omega arith)),
  bit-two_pow pin k,
)

two_pow-lt_16 : (pin : ℕ) → pin < 16 → 2 ^ pin < 2 ^ 16
two_pow-lt_16 pin h =
    let le : 2 ^ pin ≤ 2 ^ 15 = pow-le-pow_right {n = 2} (omega arith) {j = 15} (omega arith) in
    omega arith

status_stored : (mask r : ℕ) → put 0 16 mask r ≡ put_low 16 mask r
unfolding put_low
status_stored mask r = omega arith

stored_bits : (mask r k : ℕ) → bit (put 0 16 mask r) k ≡ (if ltb k 16 then bit mask k else bit r k)
stored_bits mask r k = ap (λ t. bit t k) (status_stored mask r) ∙ bit-put_low 16 mask r k

-- If nothing of the mask reads back, the mask had no bit to store.
unread_bits :
    (mask r k : ℕ) → bit_and (field 0 16 (put 0 16 mask r)) mask ≡ 0 → k < 16 → bit mask k ≡ false
unread_bits mask r k e h = ground (
  arith,
  bit-zero k,
  ap (λ t. bit t k) e,
  bit-and (field 0 16 (put 0 16 mask r)) mask k,
  field_bits 16 (put 0 16 mask r) k,
  stored_bits mask r k,
)

clear_status_bits :
    (regs : GpioCtrl) (mask k : ℕ)
    → mask < 2 ^ 16
    → regs.int_sts < 2 ^ 32
    → bit (clear_status regs mask).int_sts k ≡ (if ltb k 16 then false else bit regs.int_sts k)
unfolding clear_status
clear_status_bits regs mask k hm hr =
    elim (Bool-cases (bit_and (field 0 16 (put 0 16 mask regs.int_sts)) mask == 0)) [
      | inl e ↦ rw e (
          ground (
            arith,
            stored_bits mask regs.int_sts k,
            unread_bits mask regs.int_sts k ((==_iff _ 0).0 e),
          ))
      | inr e ↦ rw e (
          ground (
            arith,
            bit-and (put 0 16 mask regs.int_sts) (bit_not 32 mask) k,
            stored_bits mask regs.int_sts k,
            bit-not 32 mask k,
            bit_of_lt 16 mask k hm,
            bit_of_lt 32 regs.int_sts k hr,
          ))
    ]

-- In this build each of the two clearing calls leaves no interrupt pending: the store overwrites
-- the pending bits of all the other pins too. The reserved upper half keeps its bits.
pub gpio_clear_interrupt_clears_all :
    (regs : GpioCtrl) (pin mask k : ℕ)
    → pin < 16
    → mask < 2 ^ 16
    → regs.int_sts < 2 ^ 32
    → (bit (gpio_clear_interrupt regs pin).int_sts k
        ≡ (if ltb k 16 then false else bit regs.int_sts k))
      × (bit (gpio_clear_interrupts_mask regs mask).int_sts k
          ≡ (if ltb k 16 then false else bit regs.int_sts k))
unfolding gpio_clear_interrupt gpio_clear_interrupts_mask
gpio_clear_interrupt_clears_all regs pin mask k hp hm hr = (
  clear_status_bits regs (2 ^ pin) k (two_pow-lt_16 pin hp) hr,
  clear_status_bits regs mask k hm hr,
)

-- `gpio_get_and_clear_irq_status` clears every pending interrupt, and returns the low eight of
-- the sixteen status bits that it cleared.
pub gpio_get_and_clear_irq_status_lem :
    (regs : GpioCtrl) (k : ℕ)
    → regs.int_sts < 2 ^ 32
    → (bit (gpio_get_and_clear_irq_status regs).0 k ≡ (ltb k 8 && bit regs.int_sts k))
      × (bit (gpio_get_and_clear_irq_status regs).1.int_sts k
          ≡ (if ltb k 16 then false else bit regs.int_sts k))
unfolding gpio_get_and_clear_irq_status
gpio_get_and_clear_irq_status_lem regs k hr = (
  ground (arith, bit-mod (field 0 16 regs.int_sts) 8 k, field_bits 16 regs.int_sts k),
  clear_status_bits regs (field 0 16 regs.int_sts) k (omega arith) hr,
)

alarm_bit : (r : ℕ) → (field 8 1 r == 0) ≡ not (bit r 8)
unfolding bit
alarm_bit r = ground arith

-- The alarm (pin 8) is seen by `gpio_is_alarm` exactly if its input bit or its latched status bit
-- is set.
pub gpio_is_alarm_lem :
    (regs : GpioCtrl) → gpio_is_alarm regs ≡ (bit regs.in_reg 8 || bit regs.int_sts 8)
unfolding gpio_is_alarm
gpio_is_alarm_lem regs = ground (arith, alarm_bit regs.in_reg, field_test 16 8 regs.int_sts)

-- `gpio_init_controller`, from any contents: every pin an input, no interrupt enabled or pending,
-- level type, active high, the watchdog stopped with timer and reload 0; inputs and outputs are
-- left as they were, and the reserved bits of the direction register too.
pub gpio_init_controller_safe :
    (regs : GpioCtrl)
    → let r = gpio_init_controller regs in
      (field 0 8 r.dir ≡ 0)
      × (field 0 16 r.int_en ≡ 0)
      × (r.int_sts ≡ 0)
      × (field 0 16 r.int_pol ≡ 0)
      × (field 0 16 r.int_type ≡ 0)
      × (field 8 1 r.wdt_cfg ≡ 0)
      × (field 0 2 r.wdt_cfg ≡ 0)
      × (field 0 8 r.wdt_val ≡ 0)
      × (field 0 8 r.wdt_reload ≡ 0)
      × (r.in_reg ≡ regs.in_reg)
      × (r.out ≡ regs.out)
      × (r.dir / 256 ≡ regs.dir / 256)
unfolding gpio_init_controller
gpio_init_controller_safe regs = omega arith

-- Acknowledging an interrupt changes no register but the status.
pub gpio_clear_interrupt_frame :
    (regs : GpioCtrl) (pin : ℕ)
    → gpio_clear_interrupt regs pin
      ≡ record regs { int_sts = (gpio_clear_interrupt regs pin).int_sts }
unfolding gpio_clear_interrupt
gpio_clear_interrupt_frame regs pin = ground arith
