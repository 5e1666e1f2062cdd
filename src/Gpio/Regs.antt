-- ===== src/Gpio/Regs.antt =====
-- src/drivers/include/regs/gpio_demo_regs.h: the register block. Each union is the 32-bit word
-- `all`, and its bit-fields are cut out of it: the compiler lays them out from bit 0 up.
use embed_template.Prelude.{
  ℕ, ◌+◌, ◌*◌, ◌/◌, ◌%◌, ◌^◌, ◌<◌, ◌≤◌, ◌==◌, ◌≡◌, arith, bit_and, bit_or, ltb, if◌then◌else◌, not,
  ◌&&◌, ◌||◌, ◌∙◌, ap,
}
use embed_template.Prelude.Bits.{
  bit, bit_not, bit-or, bit-and, bit-not, bit-mod, bit_and_test, put_low, bit-put_low,
}

pub record GpioCtrl : Type 0 where
  pub dir : ℕ
  pub out : ℕ
  pub in_reg : ℕ
  pub set : ℕ
  pub clr : ℕ
  pub int_en : ℕ
  pub int_sts : ℕ
  pub int_type : ℕ
  pub int_pol : ℕ
  pub wdt_cfg : ℕ
  pub wdt_val : ℕ
  pub wdt_reload : ℕ

-- Read the bit-field of `width` bits at bit `pos`.
abbrev pub field : ℕ → ℕ → ℕ → ℕ
field pos width all = all / 2 ^ pos % 2 ^ width

-- Store to that bit-field; the other bits keep their values.
abbrev pub put : ℕ → ℕ → ℕ → ℕ → ℕ
put pos width v all =
    all / 2 ^ (pos + width) * 2 ^ (pos + width) + v % 2 ^ width * 2 ^ pos + all % 2 ^ pos

-- `f |= mask` on the bit-field at bit 0.
unfoldable pub or_field : ℕ → ℕ → ℕ → ℕ
or_field width mask all = put_low width (bit_or (field 0 width all) mask) all

-- `f &= ~mask` on the bit-field at bit 0; `~` is taken on 32 bits.
unfoldable pub and_not_field : ℕ → ℕ → ℕ → ℕ
and_not_field width mask all = put_low width (bit_and (field 0 width all) (bit_not 32 mask)) all

pub field_bits : (w r k : ℕ) → bit (field 0 w r) k ≡ (ltb k w && bit r k)
field_bits w r k = ap (λ t. bit (t % 2 ^ w) k) (omega arith) ∙ bit-mod r w k

-- `f |= mask` sets the bits of the mask that lie in the field, and no other.
pub bit-or_field :
    (w m r k : ℕ) → bit (or_field w m r) k ≡ (if ltb k w then bit r k || bit m k else bit r k)
unfolding or_field
bit-or_field w m r k =
    ground (
      arith,
      bit-put_low w (bit_or (field 0 w r) m) r k,
      bit-or (field 0 w r) m k,
      field_bits w r k,
    )

-- `f &= ~mask` clears the bits of the mask that lie in the field, and no other.
pub bit-and_not_field :
    (w m r k : ℕ)
    → w ≤ 32
    → m < 2 ^ 32
    → bit (and_not_field w m r) k ≡ (if ltb k w then bit r k && not (bit m k) else bit r k)
unfolding and_not_field
bit-and_not_field w m r k hw hm = ground (
  arith,
  bit-put_low w (bit_and (field 0 w r) (bit_not 32 m)) r k,
  bit-and (field 0 w r) (bit_not 32 m) k,
  field_bits w r k,
  bit-not 32 m k hm,
)

-- A test of a field against a mask with one bit.
pub field_test : (w p r : ℕ) → (bit_and (field 0 w r) (2 ^ p) == 0) ≡ not (ltb p w && bit r p)
field_test w p r = bit_and_test p (field 0 w r) ∙ ap not (field_bits w r p)
