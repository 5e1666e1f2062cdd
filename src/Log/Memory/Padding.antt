-- ===== src/Log/Memory/Padding.antt =====
-- The zeros behind an entry.
use embed_template.Prelude.{
  ℕ, zero, suc, ◌+◌, ◌-◌, ◌%◌, ◌≤◌, ◌<◌, ◌≡◌, ◌∙◌, refl, ap, arith, leb, le→ltb, Bool-cases, inl,
  inr, bit_and,
}
use mathlib.Core.Path.{fun_ext}
use embed_template.Prelude.Bits.{bit_and_mask}
use embed_template.Log.Memory.{
  Memory, store_zero, zero_rest, zero_double, zero_align, aligned_zero_padding,
}

zero_zero :
    (m n : ℕ) (ring : Memory) (d : ℕ)
    → store_zero n (store_zero m ring d) (d + m) ≡ store_zero (m + n) ring d
unfolding store_zero
zero_zero m n ring d = fun_ext (λ i. ground arith)

zero_rest-eq : (ring : Memory) (hid n : ℕ) → n < 4 → zero_rest ring hid n ≡ store_zero n ring hid
unfolding zero_rest store_zero
zero_rest-eq ring hid n h = fun_ext (λ i. ground arith)

zero_double-eq :
    (ring : Memory) (hid n : ℕ) → n < 8 → zero_double ring hid n ≡ store_zero n ring hid
unfolding zero_double
zero_double-eq ring hid n h = elim (Bool-cases (leb 4 n)) [
  | inl four ↦ rw four (
      zero_rest-eq (store_zero 4 ring hid) (hid + 4) (n - 4) (omega arith)
      ∙ zero_zero 4 (n - 4) ring hid
      ∙ ap (λ t. store_zero t ring hid) (ground arith))
  | inr less ↦ rw less (zero_rest-eq ring hid n (ground arith))
]

zero_align-eq : (ring : Memory) (hid n : ℕ) → n < 4 → zero_align ring hid n ≡ store_zero n ring hid
unfolding zero_align store_zero
zero_align-eq ring hid zero h = fun_ext (λ i. ground arith)
zero_align-eq ring hid (suc zero) h = refl
zero_align-eq ring hid (suc (suc zero)) h = refl
zero_align-eq ring hid (suc (suc (suc zero))) h = fun_ext (λ i. ground arith)
zero_align-eq ring hid (suc (suc (suc (suc n)))) h = absurd (omega arith)

-- Up to seven zeros that end within the ring, as the padding up to a multiple of 8 does: exactly
-- the bytes of the padding are cleared, with whatever words the alignment allows.
pub aligned_zero_padding-eq :
    (ring : Memory) (end_pos pad_len : ℕ)
    → pad_len < 8
    → end_pos % 4096 + pad_len ≤ 4096
    → aligned_zero_padding ring end_pos pad_len ≡ store_zero pad_len ring (end_pos % 4096)
unfolding aligned_zero_padding
aligned_zero_padding-eq ring end_pos pad_len short fits =
    let at : bit_and end_pos 4095 ≡ end_pos % 4096 = bit_and_mask 12 end_pos in
    let hid = end_pos % 4096 in
    let align = bit_and (4 - bit_and hid 3) 3 in
    let few : align < 4 = omega (arith, bit_and_mask 2 (4 - bit_and hid 3)) in
    rw (at, aligned_zero_padding)
      (rw (le→ltb 4096 (hid + pad_len) fits) (elim (Bool-cases (leb align pad_len)) [
        | inl room ↦ rw room (
            ap (λ t. zero_double t (hid + align) (pad_len - align))
              (zero_align-eq ring hid align few)
            ∙ zero_double-eq (store_zero align ring hid) (hid + align) (pad_len - align)
                (omega arith)
            ∙ zero_zero align (pad_len - align) ring hid
            ∙ ap (λ t. store_zero t ring hid) (ground arith))
        | inr tight ↦ rw tight (zero_double-eq ring hid pad_len short)
      ]))
