-- ===== src/Cli/Line.antt =====
-- The editor against the line that was typed.
use embed_template.Prelude.{
  ℕ, zero, suc, ◌-◌, ◌/◌, ◌^◌, ◌≤◌, ◌<◌, ◌≡◌, ◌≢◌, ◌∙◌, refl, ap, ap₂, arith, bit_and, bit_or, ◌&&◌,
  ltb, ◌==◌, List, [], ◌∷◌, get_or, set, length, length-set, get_or-set_self, get_or-set_ne,
  Bool-cases, inl, inr,
}
use embed_template.Prelude.Bits.{
  bit, bit_not, bit-or, bit-and, bit-not, bit-two_pow, bit_and_mask, bit_or-lt, bit_and-le,
}
use native.Mathlib.Nat.{pow-le-pow_right}
use embed_template.Cli.{Editor, cli_clear_last_char, cli_receive_char, bit_of}

-- The buffer and the bitmap are in order: in the first word, a bit is set where a space was typed,
-- and at no other place. The other words are zero.
pub record IsEditor (e : Editor) : Type 0 where
  pub room : e.rx_count ≤ 12
  pub buffer : length e.rx_buf ≡ 12
  pub words : length e.rx_bitmap ≡ 4
  pub spaces :
      (i : ℕ)
      → i < 32
      → bit (get_or e.rx_bitmap 0 0) i ≡ (ltb i e.rx_count && get_or e.rx_buf i 0 == 32)
  pub narrow : get_or e.rx_bitmap 0 0 < 2 ^ 32
  pub others : (k : ℕ) → 0 < k → get_or e.rx_bitmap k 0 ≡ 0

-- The first `n` characters of the buffer, the last one first.
unfoldable pub typed : ℕ → List ℕ → List ℕ
typed zero buf = []
typed (suc n) buf = get_or buf n 0 ∷ typed n buf

pub typed-set : (n i c : ℕ) (buf : List ℕ) → n ≤ i → typed n (set buf i c) ≡ typed n buf
unfolding typed
typed-set zero i c buf h = refl
typed-set (suc n) i c buf h =
    ap₂ (λ x xs. x ∷ xs) (get_or-set_ne buf i n c 0 (λ e. omega arith))
      (typed-set n i c buf (omega arith))

-- The place of a character in the bitmap: its own bit of the first word.
first_word : (n : ℕ) → n < 12 → (n / 32 ≡ 0) × (bit_of n ≡ 2 ^ n) × (2 ^ n < 2 ^ 32)
first_word n h = (
  omega arith,
  ap (λ t. 2 ^ t) (bit_and_mask 5 n ∙ omega arith),
  omega (arith, pow-le-pow_right {n = 2} (omega arith) {i = n} {j = 12} (omega arith)),
)

pub clear-IsEditor : (e : Editor) → IsEditor e → IsEditor (cli_clear_last_char e).0
unfolding cli_clear_last_char
clear-IsEditor e v = elim (Bool-cases (ltb 0 e.rx_count)) [
  | inr none_typed ↦ rw none_typed v
  | inl some_typed ↦
      let n = e.rx_count - 1 in
      let (word, place, small) = first_word n (ground (arith, v.room)) in
      let w = get_or e.rx_bitmap 0 0 in
      let stored =
        get_or-set_self e.rx_bitmap 0 (bit_and w (bit_not 32 (2 ^ n))) 0 (omega (arith, v.words)) in
      rw some_typed (
        rw (word, place)
          (record {
            room = ground (arith, v.room);
            buffer = v.buffer;
            words = length-set e.rx_bitmap 0 _ ∙ v.words;
            spaces = λ i h.
                ap (λ t. bit t i) stored
                ∙ ground (
                  arith,
                  bit-and w (bit_not 32 (2 ^ n)) i,
                  bit-not 32 (2 ^ n) i small,
                  bit-two_pow n i,
                  v.spaces i h,
                );
            narrow = omega (arith, stored, bit_and-le 32 w (bit_not 32 (2 ^ n)) v.narrow);
            others = λ k h. get_or-set_ne e.rx_bitmap 0 k _ 0 (λ eq. omega arith) ∙ v.others k h;
          }))
]

pub receive-IsEditor : (c : ℕ) (e : Editor) → IsEditor e → IsEditor (cli_receive_char c e).0
unfolding cli_receive_char
receive-IsEditor c e v = elim (Bool-cases (ltb e.rx_count 12)) [
  | inr full ↦ rw full v
  | inl room ↦
      let n = e.rx_count in
      let (word, place, small) = first_word n (ground arith) in
      let w = get_or e.rx_bitmap 0 0 in
      let put = get_or-set_self e.rx_buf n c 0 (ground (arith, v.buffer)) in
      let unput = λ (i : ℕ) (ne : n ≢ i). get_or-set_ne e.rx_buf n i c 0 ne in
      let stored = get_or-set_self e.rx_bitmap 0 (bit_or w (2 ^ n)) 0 (omega (arith, v.words)) in
      rw room (
        rw (word, place)
          (elim (Bool-cases (c == 32)) [
            | inl space ↦ rw space (record {
              room = ground arith;
              buffer = length-set e.rx_buf n c ∙ v.buffer;
              words = length-set e.rx_bitmap 0 _ ∙ v.words;
              spaces = λ i h.
                  ap (λ t. bit t i) stored
                  ∙ ground (arith, bit-or w (2 ^ n) i, bit-two_pow n i, v.spaces i h, put, unput i);
              narrow = omega (arith, stored, bit_or-lt 32 w (2 ^ n) v.narrow small);
              others = λ k h. get_or-set_ne e.rx_bitmap 0 k _ 0 (λ eq. omega arith) ∙ v.others k h;
            })
            | inr letter ↦ rw letter (record {
              room = ground arith;
              buffer = length-set e.rx_buf n c ∙ v.buffer;
              words = v.words;
              spaces = λ i h. ground (arith, v.spaces i h, put, unput i);
              narrow = v.narrow;
              others = v.others;
            })
          ]))
]
