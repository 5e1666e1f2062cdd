-- ===== src/Irq/Gic.antt =====
-- port/arm/cortex-a/gic.c, the lines of the interrupt controller and its dispatch. What a write
-- to an enable register does is that of the hardware: each one in it enables or disables a line.
use embed_template.Prelude.{
  ℕ, ◌/◌, ◌%◌, ◌^◌, ◌≡◌, refl, ap, arith, bit_and, Bool, true, false, not, ltb, leb, ◌&&◌, ◌||◌,
  ◌==◌, if◌then◌else◌, Bool-cases, inl, inr,
}
use embed_template.Prelude.Bits.{bit, bit-two_pow, bit_and_mask}
use embed_template.Irq.{IrqTable, Outcome, fault, call_handler}

abbrev pub gic_max_irq_id : ℕ
gic_max_irq_id = 255

pub record Gicd : Type 0 where
  pub priority_of : ℕ → ℕ
  pub target_of : ℕ → ℕ
  pub enabled : ℕ → Bool

-- A write to GICD_ISENABLER or GICD_ICENABLER of row `n`.
unfoldable pub set_enable : ℕ → ℕ → Gicd → Gicd
set_enable n value g = record g {
  enabled = λ i. (i / 32 == n && bit value (i % 32)) || g.enabled i;
}

unfoldable pub clear_enable : ℕ → ℕ → Gicd → Gicd
clear_enable n value g = record g {
  enabled = λ i. not (i / 32 == n && bit value (i % 32)) && g.enabled i;
}

-- The result tells 0 from -1.
unfoldable pub gic_enable_interrupt : ℕ → ℕ → Gicd → Gicd × Bool
gic_enable_interrupt irq_id priority g =
    let routed = record g {
      priority_of = λ i. if irq_id == i then priority else g.priority_of i;
      target_of = λ i. if irq_id == i then 1 else g.target_of i;
    } in
    if ltb gic_max_irq_id irq_id
    then (g, false)
    else (set_enable (irq_id / 2 ^ 5) (2 ^ bit_and irq_id 31) routed, true)

unfoldable pub gic_disable_interrupt : ℕ → Gicd → Gicd × Bool
gic_disable_interrupt irq_id g =
    if ltb gic_max_irq_id irq_id
    then (g, false)
    else (clear_enable (irq_id / 2 ^ 5) (2 ^ bit_and irq_id 31) g, true)

-- The lookup table has 256 places.
unfoldable pub gic_dispatch_interrupt : Bool → ℕ → IrqTable → Outcome
gic_dispatch_interrupt safe irq_id t =
    if leb irq_id gic_max_irq_id then call_handler safe irq_id t else fault

-- What is called, and what is written to GICC_EOIR and GICC_DIR.
unfoldable pub application_irq_handler : Bool → ℕ → IrqTable → Outcome × ℕ × ℕ
application_irq_handler safe iar t =
    let irq_id = bit_and iar 0x3FF in (gic_dispatch_interrupt safe irq_id t, irq_id, iar)

own_line :
    (i irq_id : ℕ) → (i / 32 == irq_id / 32 && bit (2 ^ (irq_id % 32)) (i % 32)) ≡ (irq_id == i)
own_line i irq_id = ground (arith, bit-two_pow (irq_id % 32) (i % 32))

-- Enabling an interrupt up to 255 enables its own line and no other, with its priority and for
-- the first core; disabling it disables its own line and no other; above 255 both fail and change
-- nothing.
pub gic_enable_interrupt_lem :
    (irq_id priority : ℕ) (g : Gicd)
    → let (on, on_ok) = gic_enable_interrupt irq_id priority g in
      let (off, off_ok) = gic_disable_interrupt irq_id g in
      ((i : ℕ)
        → (on.enabled i ≡ ((leb irq_id 255 && irq_id == i) || g.enabled i))
          × (on.priority_of i
              ≡ (if leb irq_id 255 && irq_id == i then priority else g.priority_of i))
          × (on.target_of i ≡ (if leb irq_id 255 && irq_id == i then 1 else g.target_of i))
          × (off.enabled i ≡ (not (leb irq_id 255 && irq_id == i) && g.enabled i)))
      × (on_ok ≡ leb irq_id 255)
      × (off_ok ≡ leb irq_id 255)
unfolding gic_enable_interrupt gic_disable_interrupt set_enable clear_enable
gic_enable_interrupt_lem irq_id priority g = elim (Bool-cases (ltb 255 irq_id)) [
  | inl large ↦
      let refused : leb irq_id 255 ≡ false = ground arith in
      rw (large, refused) (λ i. (refl, refl, refl, refl), refl, refl)
  | inr small ↦
      let fits : leb irq_id 255 ≡ true = ground arith in
      rw (small, fits, bit_and_mask 5 irq_id)
        (
          λ i. (
            ap (λ b. b || g.enabled i) (own_line i irq_id),
            refl,
            refl,
            ap (λ b. not b && g.enabled i) (own_line i irq_id),
          ),
          refl,
          refl,
        )
]
