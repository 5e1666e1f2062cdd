-- ===== src/Irq/Apic.antt =====
-- port/x86/x86-virt/apic.c: the masks of the two legacy controllers and of the local timer, and
-- the dispatch.
use embed_template.Prelude.{
  ℕ, ◌+◌, ◌-◌, ◌%◌, ◌^◌, ◌<◌, ◌≡◌, arith, bit_and, bit_or, Bool, true, false, not, ltb, leb, ◌&&◌,
  ◌||◌, ◌==◌, if◌then◌else◌, List, [], ◌∷◌, ◌++◌, Bool-cases, inl, inr,
}
use embed_template.Prelude.Bits.{bit, bit_not, bit-and, bit-or, bit-not, bit-mod, bit-two_pow}
use native.Mathlib.Nat.{pow-le-pow_right}
use embed_template.Irq.{IrqTable, Outcome, ignored, call_handler}

abbrev pub x86_irq_vector_base : ℕ
x86_irq_vector_base = 0x30

abbrev pub msi_irq_vector_base : ℕ
msi_irq_vector_base = 0x30 + 16

abbrev pub apic_max_irq_id : ℕ
apic_max_irq_id = 16 + 8

abbrev pub lapic_timer_irq_id : ℕ
lapic_timer_irq_id = 15

-- PIC1_DATA, PIC2_DATA and LAPIC_LVT_TIMER, which read back what was written.
pub record Masks : Type 0 where
  pub pic1_data : ℕ
  pub pic2_data : ℕ
  pub lvt_timer : ℕ

-- The result tells 0 from -1.
unfoldable pub apic_enable_interrupt : ℕ → Masks → Masks × Bool
apic_enable_interrupt irq_id p =
    if ltb apic_max_irq_id irq_id
    then (p, false)
    else if irq_id == lapic_timer_irq_id
    then (record p { lvt_timer = bit_and p.lvt_timer (bit_not 32 (2 ^ 16)) }, true)
    else if ltb irq_id 8
    then (record p { pic1_data = bit_and p.pic1_data (bit_not 32 (2 ^ irq_id)) % 2 ^ 8 }, true)
    else (
      record p { pic2_data = bit_and p.pic2_data (bit_not 32 (2 ^ (irq_id - 8))) % 2 ^ 8 },
      true,
    )

unfoldable pub apic_disable_interrupt : ℕ → Masks → Masks × Bool
apic_disable_interrupt irq_id p =
    if ltb apic_max_irq_id irq_id
    then (p, false)
    else if irq_id == lapic_timer_irq_id
    then (record p { lvt_timer = bit_or p.lvt_timer (2 ^ 16) }, true)
    else if ltb irq_id 8
    then (record p { pic1_data = bit_or p.pic1_data (2 ^ irq_id) % 2 ^ 8 }, true)
    else (record p { pic2_data = bit_or p.pic2_data (2 ^ (irq_id - 8)) % 2 ^ 8 }, true)

-- An end of interrupt.
pub data Eoi : Type 0 where
  pic1 : Eoi
  pic2 : Eoi
  lapic : Eoi

-- What is called, and the ends of interrupt that are signalled.
unfoldable pub apic_dispatch_interrupt : Bool → ℕ → IrqTable → Outcome × List Eoi
apic_dispatch_interrupt safe vector_id t =
    let irq_id = vector_id - x86_irq_vector_base in
    let outcome =
      if leb x86_irq_vector_base vector_id
      then if leb irq_id apic_max_irq_id then call_handler safe irq_id t else ignored
      else ignored in
    let legacy =
      if leb x86_irq_vector_base vector_id && ltb vector_id msi_irq_vector_base
      then (if leb (x86_irq_vector_base + 8) vector_id then pic2 ∷ [] else []) ++ pic1 ∷ []
      else [] in
    (outcome, legacy ++ lapic ∷ [])

-- Whether a line of the two controllers is masked, and the timer, in place of line 15.
unfoldable pub masked : Masks → ℕ → Bool
masked p i =
    if i == 15
    then bit p.lvt_timer 16
    else if ltb i 8
    then bit p.pic1_data i
    else bit p.pic2_data (i - 8)

small_power : (k : ℕ) → k < 32 → 2 ^ k < 2 ^ 32
small_power k h =
    omega (arith, pow-le-pow_right {n = 2} (omega arith) {i = k} {j = 31} (omega arith))

cleared :
    (x k i : ℕ)
    → k < 32
    → i < 32
    → bit (bit_and x (bit_not 32 (2 ^ k))) i ≡ (bit x i && not (k == i))
cleared x k i hk hi = ground (
  arith,
  bit-and x (bit_not 32 (2 ^ k)) i,
  bit-not 32 (2 ^ k) i (small_power k hk),
  bit-two_pow k i,
)

cleared_byte :
    (x k i : ℕ)
    → k < 8
    → i < 8
    → bit (bit_and x (bit_not 32 (2 ^ k)) % 2 ^ 8) i ≡ (bit x i && not (k == i))
cleared_byte x k i hk hi =
    ground (
      arith,
      bit-mod (bit_and x (bit_not 32 (2 ^ k))) 8 i,
      cleared x k i (omega arith) (omega arith),
    )

set_byte : (x k i : ℕ) → i < 8 → bit (bit_or x (2 ^ k) % 2 ^ 8) i ≡ (bit x i || k == i)
set_byte x k i hi =
    ground (arith, bit-mod (bit_or x (2 ^ k)) 8 i, bit-or x (2 ^ k) i, bit-two_pow k i)

-- Enabling an interrupt below 16 clears its own mask and no other, and disabling it sets its own
-- and no other.
pub apic_enable_interrupt-masked :
    (irq_id i : ℕ) (p : Masks)
    → irq_id < 16
    → i < 16
    → (masked (apic_enable_interrupt irq_id p).0 i ≡ (masked p i && not (irq_id == i)))
      × (masked (apic_disable_interrupt irq_id p).0 i ≡ (masked p i || irq_id == i))
unfolding apic_enable_interrupt apic_disable_interrupt masked
apic_enable_interrupt-masked irq_id i p below j =
    let ok : ltb 24 irq_id ≡ false = ground arith in
    elim (Bool-cases (irq_id == 15)) [
      | inl timer ↦
          rw (ok, timer)
            (
              ground (arith, cleared p.lvt_timer 16 16 (omega arith) (omega arith)),
              ground (arith, bit-or p.lvt_timer (2 ^ 16) 16, bit-two_pow 16 16),
            )
      | inr line ↦ elim (Bool-cases (ltb irq_id 8)) [
        | inl low ↦
            rw (ok, line, low)
              (
                ground (arith, cleared_byte p.pic1_data irq_id i),
                ground (arith, set_byte p.pic1_data irq_id i),
              )
        | inr high ↦
            rw (ok, line, high)
              (
                ground (arith, cleared_byte p.pic2_data (irq_id - 8) (i - 8)),
                ground (arith, set_byte p.pic2_data (irq_id - 8) (i - 8)),
              )
      ]
    ]
