-- ===== src/Cli/Tokens/Scan.antt =====
-- The loop over the spaces of a mask is a loop over the places of the line.
use embed_template.Prelude.{
  ℕ, zero, suc, ◌+◌, ◌-◌, ◌*◌, ◌^◌, ◌≤◌, ◌<◌, ◌≡◌, ◌∙◌, refl, ap, sym, arith, bit_and, true, false,
  ◌&&◌, ltb, leb, ◌==◌, if◌then◌else◌, List, get_or, Bool-cases, inl, inr, ==_ne, ==_iff, ltb→lt,
}
use embed_template.Prelude.Bits.{bit, bit_ext, bit-zero, bit_and-le}
use embed_template.Prelude.Bits.Lowest.{lowest_bit, lowest_bit_lem, bit-clear}
use embed_template.Cli.Tokens.{Tokens, take_space, take_spaces}

-- The loop over the spaces, place by place.
unfoldable pub scan : List ℕ → ℕ → ℕ → Tokens → Tokens
scan str zero i t = t
scan str (suc n) i t =
    let taken = take_space i t in
    let after = scan str n (suc i) taken in
    let skipped = scan str n (suc i) t in
    if get_or str i 0 == 32 then if leb 4 taken.num_tkns then taken else after else skipped

pub take_spaces-none : (fuel len i : ℕ) (t : Tokens) → take_spaces fuel len i 0 t ≡ t
unfolding take_spaces
take_spaces-none zero len i t = refl
take_spaces-none (suc fuel) len i t = refl

-- A mask whose lowest one is at `i`.
lowest_bit-eq :
    (mask i : ℕ)
    → mask < 2 ^ 32
    → bit mask i ≡ true
    → ((k : ℕ) → k < i → bit mask k ≡ false)
    → (0 < mask) × (lowest_bit 32 mask ≡ i)
lowest_bit-eq mask i narrow here below =
    let pos : 0 < mask = elim (Bool-cases (mask == 0)) [
      | inl none ↦ absurd (cc (sym here ∙ ap (λ m. bit m i) ((==_iff mask 0).0 none) ∙ bit-zero i))
      | inr some ↦ ground arith
    ] in
    let (one, zeros) = lowest_bit_lem 32 mask narrow pos in
    let low = lowest_bit 32 mask in
    (
      pos,
      elim (Bool-cases (ltb i low)) [
        | inl above ↦ absurd (cc (sym here ∙ zeros i (ltb→lt i low above)))
        | inr le ↦ elim (Bool-cases (ltb low i)) [
          | inl under ↦ absurd (cc (sym one ∙ below low (ltb→lt low i under)))
          | inr ge ↦ ground arith
        ]
      ],
    )

not_leb : (i len : ℕ) → i < len → leb len i ≡ false
not_leb i len h = ground arith

take_spaces-suc :
    (fuel i len mask : ℕ) (t : Tokens)
    → 0 < mask
    → lowest_bit 32 mask ≡ i
    → i < len
    → take_spaces (suc fuel) len 0 mask t ≡ (
        if leb 4 (take_space i t).num_tkns
        then take_space i t
        else take_spaces fuel len 0 (bit_and mask (mask - 1)) (take_space i t))
unfolding take_spaces
take_spaces-suc fuel i len mask t pos low lt =
    let idx : 0 * 32 + lowest_bit 32 mask ≡ i = omega (arith, low) in
    rw (==_ne mask 0 (omega arith), idx, (not_leb i len lt))

not_here :
    (str : List ℕ) (i k len : ℕ)
    → (get_or str i 0 == 32) ≡ false
    → (leb i k && (ltb k len && get_or str k 0 == 32))
      ≡ (leb (suc i) k && (ltb k len && get_or str k 0 == 32))
not_here str i k len letter = elim (Bool-cases (i == k)) [
  | inl same ↦
      let there : (get_or str k 0 == 32) ≡ false =
        ap (λ j. get_or str j 0 == 32) (sym ((==_iff i k).0 same)) ∙ letter in
      ground (arith, there)
  | inr other ↦ ground arith
]

-- The rest of the loop, where the mask has the spaces of the text from `i` on.
pub take_spaces-scan :
    (str : List ℕ) (n fuel i len mask : ℕ) (t : Tokens)
    → n < fuel
    → i + n ≡ len
    → len ≤ 32
    → mask < 2 ^ 32
    → ((k : ℕ) → k < 32 → bit mask k ≡ (leb i k && (ltb k len && get_or str k 0 == 32)))
    → take_spaces fuel len 0 mask t ≡ scan str n i t
unfolding scan
take_spaces-scan str zero fuel i len mask t f e small narrow bits =
    let cleared : mask ≡ 0 =
      bit_ext 32 mask 0 narrow (omega arith) (λ k h. bits k h ∙ ground (arith, bit-zero k)) in
    ap (λ m. take_spaces fuel len 0 m t) cleared ∙ take_spaces-none fuel len 0 t
take_spaces-scan str (suc n) zero i len mask t f e small narrow bits = absurd (omega arith)
take_spaces-scan str (suc n) (suc fuel) i len mask t f e small narrow bits =
    elim (Bool-cases (get_or str i 0 == 32)) [
      | inr letter ↦
          let later : (k : ℕ)
              → k < 32
              → bit mask k ≡ (leb (suc i) k && (ltb k len && get_or str k 0 == 32)) =
            λ k h. bits k h ∙ not_here str i k len letter in
          rw letter (
            take_spaces-scan str n (suc fuel) (suc i) len mask t (omega arith) (omega arith) small
              narrow later)
      | inl space ↦
          let here : bit mask i ≡ true = bits i (omega arith) ∙ ground arith in
          let (pos, low) =
            lowest_bit-eq mask i narrow here (λ k h. bits k (omega arith) ∙ ground arith) in
          let mask' = bit_and mask (mask - 1) in
          let later : (k : ℕ)
              → k < 32
              → bit mask' k ≡ (leb (suc i) k && (ltb k len && get_or str k 0 == 32)) =
            λ k h. bit-clear 32 mask k narrow pos ∙ rw low (ground (arith, bits k h)) in
          rw (take_spaces-suc fuel i len mask t pos low (omega arith), space)
            (ap (λ r. if leb 4 (take_space i t).num_tkns then take_space i t else r)
              (take_spaces-scan str n fuel (suc i) len mask' (take_space i t) (omega arith)
                (omega arith) small (omega (arith, bit_and-le 32 mask (mask - 1) narrow)) later))
    ]
