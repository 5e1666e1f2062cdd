-- ===== src/Pci/Config/Offset.antt =====
-- Where a register lies in the ECAM window, and that no two registers share a place.
use embed_template.Prelude.{ℕ, ◌+◌, ◌*◌, ◌/◌, ◌^◌, ◌<◌, ◌≡◌, ap, ◌∙◌, arith, bit_and, bit_or}
use embed_template.Prelude.Bits.Fields.{bit_or_fields, bit_and_high}
use embed_template.Pci.Config.{address_offset}

fields_sum :
    (b d f r : ℕ)
    → d < 32
    → f < 8
    → r < 4096
    → bit_or (bit_or (bit_or (b * 2 ^ 20) (d * 2 ^ 15)) (f * 2 ^ 12)) r
      ≡ b * 2 ^ 20 + d * 2 ^ 15 + f * 2 ^ 12 + r
fields_sum b d f r hd hf hr =
    let one : bit_or (b * 2 ^ 20) (d * 2 ^ 15) ≡ (b * 32 + d) * 2 ^ 15 =
      bit_or_fields 20 b (d * 2 ^ 15) (omega arith) ∙ omega arith in
    let two : bit_or ((b * 32 + d) * 2 ^ 15) (f * 2 ^ 12) ≡ ((b * 32 + d) * 8 + f) * 2 ^ 12 =
      bit_or_fields 15 (b * 32 + d) (f * 2 ^ 12) (omega arith) ∙ omega arith in
    ap (λ t. bit_or (bit_or t (f * 2 ^ 12)) r) one
    ∙ ap (λ t. bit_or t r) two
    ∙ bit_or_fields 12 ((b * 32 + d) * 8 + f) r (omega arith)
    ∙ omega arith

-- The register at `offset` of a function: the place that the PCI-SIG formula gives, with the
-- offset rounded down to a dword.
pub address_offset_lem :
    (bus dev func offset : ℕ)
    → dev < 32
    → func < 8
    → offset < 4096
    → address_offset 0xFFC bus dev func offset
      ≡ bus * 2 ^ 20 + dev * 2 ^ 15 + func * 2 ^ 12 + offset / 4 * 4
unfolding address_offset
address_offset_lem bus dev func offset hd hf ho =
    let dword : bit_and offset 0xFFC ≡ offset / 4 * 4 =
      bit_and_high 12 2 offset (omega arith) ∙ omega arith in
    ap (λ t. bit_or (bit_or (bit_or (bus * 2 ^ 20) (dev * 2 ^ 15)) (func * 2 ^ 12)) t) dword
    ∙ fields_sum bus dev func (offset / 4 * 4) hd hf (omega arith)

-- Two accesses meet in the ECAM window only if they are to the same dword of the same function.
pub address_offset-inj :
    (b d f o b' d' f' o' : ℕ)
    → d < 32
    → d' < 32
    → f < 8
    → f' < 8
    → o < 4096
    → o' < 4096
    → address_offset 0xFFC b d f o ≡ address_offset 0xFFC b' d' f' o'
    → (b ≡ b') × (d ≡ d') × (f ≡ f') × (o / 4 ≡ o' / 4)
address_offset-inj b d f o b' d' f' o' hd hd' hf hf' ho ho' e =
    let sums : b * 2 ^ 20 + d * 2 ^ 15 + f * 2 ^ 12 + o / 4 * 4
        ≡ b' * 2 ^ 20 + d' * 2 ^ 15 + f' * 2 ^ 12 + o' / 4 * 4 =
      omega (
        arith,
        e,
        address_offset_lem b d f o hd hf ho,
        address_offset_lem b' d' f' o' hd' hf' ho',
      ) in
    (omega arith, omega arith, omega arith, omega arith)
