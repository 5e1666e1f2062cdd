-- ===== src/Log/Memory/Copies.antt =====
-- The copy by words against the copy byte by byte.
use embed_template.Prelude.{
  ℕ, zero, suc, ◌+◌, ◌-◌, ◌*◌, ◌≤◌, ◌<◌, ◌≡◌, ◌∙◌, refl, ap, arith, leb, Bool-cases, inl, inr,
}
use mathlib.Core.Path.{fun_ext}
use embed_template.Log.Memory.{Memory, move, copy_byte, copy_half, copy_rest, copy_words, copy_u64}

-- Two moves side by side are one.
move-move :
    (m n : ℕ) (source : Memory) (s : ℕ) (target : Memory) (d : ℕ)
    → move n source (s + m) (move m source s target d) (d + m) ≡ move (m + n) source s target d
unfolding move
move-move m n source s target d = fun_ext (λ i. ground arith)

-- A word and then the remaining bytes.
pub word-move :
    (m : ℕ) (source : Memory) (s : ℕ) (target : Memory) (d len : ℕ)
    → m ≤ len
    → move (len - m) source (s + m) (move m source s target d) (d + m) ≡ move len source s target d
word-move m source s target d len h =
    move-move m (len - m) source s target d ∙ ap (λ n. move n source s target d) (omega arith)

copy_byte-eq :
    (source : Memory) (s : ℕ) (target : Memory) (d len : ℕ)
    → len < 2
    → copy_byte source s target d len ≡ move len source s target d
unfolding copy_byte move
copy_byte-eq source s target d zero h = fun_ext (λ i. ground arith)
copy_byte-eq source s target d (suc zero) h = refl
copy_byte-eq source s target d (suc (suc len)) h = absurd (omega arith)

copy_half-eq :
    (source : Memory) (s : ℕ) (target : Memory) (d len : ℕ)
    → len < 4
    → copy_half source s target d len ≡ move len source s target d
unfolding copy_half
copy_half-eq source s target d len h = elim (Bool-cases (leb 2 len)) [
  | inl two ↦ rw two (
      copy_byte-eq source (s + 2) (move 2 source s target d) (d + 2) (len - 2) (ground arith)
      ∙ word-move 2 source s target d len (ground arith))
  | inr less ↦ rw less (copy_byte-eq source s target d len (ground arith))
]

copy_rest-eq :
    (source : Memory) (s : ℕ) (target : Memory) (d len : ℕ)
    → len < 8
    → copy_rest source s target d len ≡ move len source s target d
unfolding copy_rest
copy_rest-eq source s target d len h = elim (Bool-cases (leb 4 len)) [
  | inl four ↦ rw four (
      copy_half-eq source (s + 4) (move 4 source s target d) (d + 4) (len - 4) (ground arith)
      ∙ word-move 4 source s target d len (ground arith))
  | inr less ↦ rw less (copy_half-eq source s target d len (ground arith))
]

copy_words-eq :
    (fuel : ℕ) (source : Memory) (s : ℕ) (target : Memory) (d len : ℕ)
    → len ≤ 8 * fuel
    → copy_words fuel source s target d len ≡ move len source s target d
unfolding copy_words
copy_words-eq zero source s target d len h = copy_rest-eq source s target d len (omega arith)
copy_words-eq (suc fuel) source s target d len h = elim (Bool-cases (leb 8 len)) [
  | inl eight ↦
      rw (eight, copy_words)
        (copy_words-eq fuel source (s + 8) (move 8 source s target d) (d + 8) (len - 8)
            (omega arith)
          ∙ word-move 8 source s target d len (ground arith))
  | inr less ↦ rw (less, copy_words) (copy_rest-eq source s target d len (ground arith))
]

-- The copy by words of 8, 4, 2 and 1 bytes is the copy of `len` bytes: those bytes and no others
-- are stored, whatever the length.
pub copy_u64-eq :
    (source : Memory) (s : ℕ) (target : Memory) (d len : ℕ)
    → copy_u64 source s target d len ≡ move len source s target d
unfolding copy_u64
copy_u64-eq source s target d len = copy_words-eq len source s target d len (omega arith)
