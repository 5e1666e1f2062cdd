-- ===== src/Irq/Tests.antt =====
-- Concrete inputs of the properties of the interrupt tables.
use embed_template.Prelude.{
  ℕ, ◌^◌, ◌≡◌, refl, arith, true, false, not, leb, ◌&&◌, ◌||◌, ◌==◌, if◌then◌else◌, List, [], ◌∷◌,
  Option, some, none,
}
use embed_template.Irq.{IrqTable, init_table, call_handler}
use embed_template.Irq.Table.{
  no_handlers, register_all, enter, enter_all, expected, call_handler-register_all,
}
use embed_template.Irq.Gic.{
  Gicd, gic_max_irq_id, gic_enable_interrupt, gic_disable_interrupt, gic_enable_interrupt_lem,
}
use embed_template.Irq.Apic.{
  Masks, apic_enable_interrupt, apic_disable_interrupt, masked, apic_enable_interrupt-masked,
}

abbrev some_table : IrqTable
some_table = record { irq_handler_table = λ i. some i; irq_lookup_table = λ i. i; irq_count = 9 }

-- The second registration of interrupt 40 replaces the first, and one without a handler and one
-- for interrupt 300 are refused.
abbrev registrations : List (ℕ × Option ℕ)
registrations = (40, some 7) ∷ (41, none) ∷ (300, some 5) ∷ (40, some 8) ∷ []

call_handler-register_all_example :
    let (t', oks) =
      register_all gic_max_irq_id registrations (init_table gic_max_irq_id some_table) in
    let (r', oks') = enter_all gic_max_irq_id registrations no_handlers in
    (call_handler true 40 t' ≡ expected true (r'.handler_of 40)) × (oks ≡ oks')
call_handler-register_all_example =
    call_handler-register_all true gic_max_irq_id registrations some_table 40 (omega arith)

last_registered : (enter_all gic_max_irq_id registrations no_handlers).0.handler_of 40 ≡ some 8
unfolding enter_all enter
last_registered = refl

abbrev quiet : Gicd
quiet = record { priority_of = λ i. 0; target_of = λ i. 0; enabled = λ i. false }

gic_enable_interrupt_lem_example :
    let (on, on_ok) = gic_enable_interrupt 33 160 quiet in
    let (off, off_ok) = gic_disable_interrupt 33 quiet in
    ((i : ℕ)
      → (on.enabled i ≡ ((leb 33 255 && 33 == i) || quiet.enabled i))
        × (on.priority_of i ≡ (if leb 33 255 && 33 == i then 160 else quiet.priority_of i))
        × (on.target_of i ≡ (if leb 33 255 && 33 == i then 1 else quiet.target_of i))
        × (off.enabled i ≡ (not (leb 33 255 && 33 == i) && quiet.enabled i)))
    × (on_ok ≡ leb 33 255)
    × (off_ok ≡ leb 33 255)
gic_enable_interrupt_lem_example = gic_enable_interrupt_lem 33 160 quiet

abbrev all_masked : Masks
all_masked = record { pic1_data = 255; pic2_data = 255; lvt_timer = 2 ^ 16 }

apic_enable_interrupt-masked_example :
    (masked (apic_enable_interrupt 12 all_masked).0 12 ≡ (masked all_masked 12 && not (12 == 12)))
    × (masked (apic_disable_interrupt 12 all_masked).0 12 ≡ (masked all_masked 12 || 12 == 12))
apic_enable_interrupt-masked_example =
    apic_enable_interrupt-masked 12 12 all_masked (omega arith) (omega arith)
