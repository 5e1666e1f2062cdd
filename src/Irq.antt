-- ===== src/Irq.antt =====
-- The dispatch of interrupts, which port/arm/cortex-a/gic.c and port/x86/x86-virt/apic.c keep in
-- the same tables: the handlers in the order of their registration, and for each interrupt the
-- place of its handler. A handler is a number, and no handler the null pointer.
pub mod Table
pub mod Gic
pub mod Apic
mod Tests
use embed_template.Prelude.{
  ℕ, ◌+◌, Bool, true, false, ltb, leb, ◌&&◌, ◌==◌, if◌then◌else◌, Option, some, none,
}

abbrev pub max_irqs : ℕ
max_irqs = 32

-- GIC_NULL_INDEX and NULL_INDEX
abbrev pub null_index : ℕ
null_index = 0xFF

pub record IrqTable : Type 0 where
  pub irq_handler_table : ℕ → Option ℕ
  pub irq_lookup_table : ℕ → ℕ
  pub irq_count : ℕ

-- A handler is called, none is, or the call goes through a null pointer or from outside a table.
pub data Outcome : Type 0 where
  called : ℕ → Outcome
  ignored : Outcome
  fault : Outcome

-- The loops of init_gic and init_apic, with the largest interrupt.
unfoldable pub init_table : ℕ → IrqTable → IrqTable
init_table max_irq_id t = record {
  irq_count = 0;
  irq_lookup_table = λ i. if leb i max_irq_id then null_index else t.irq_lookup_table i;
  irq_handler_table = λ i. if ltb i max_irqs then none else t.irq_handler_table i;
}

-- gic_register_interrupt and apic_register_interrupt; the result tells 0 from -1.
unfoldable pub register_interrupt : ℕ → ℕ → Option ℕ → IrqTable → IrqTable × Bool
register_interrupt max_irq_id irq_id none t = (t, false)
register_interrupt max_irq_id irq_id (some handler) t =
    let idx = t.irq_count in
    if ltb max_irq_id irq_id then (t, false) else if leb max_irqs idx then (t, false) else (
      record {
        irq_count = idx + 1;
        irq_handler_table = λ i. if idx == i then some handler else t.irq_handler_table i;
        irq_lookup_table = λ i. if irq_id == i then idx else t.irq_lookup_table i;
      },
      true,
    )

abbrev call : Option ℕ → Outcome → Outcome
call (some handler) otherwise = called handler
call none otherwise = otherwise

-- The call through the tables, with ENABLE_SEFETY_CHECK and without.
unfoldable pub call_handler : Bool → ℕ → IrqTable → Outcome
call_handler true irq_id t =
    let idx = t.irq_lookup_table irq_id in
    if ltb idx t.irq_count then call (t.irq_handler_table idx) ignored else ignored
call_handler false irq_id t =
    let idx = t.irq_lookup_table irq_id in
    if ltb idx max_irqs then call (t.irq_handler_table idx) fault else fault
