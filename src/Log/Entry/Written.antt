-- ===== src/Log/Entry/Written.antt =====
-- The bytes of the ring after an entry is written.
use embed_template.Prelude.{
  ℕ, ◌+◌, ◌-◌, ◌%◌, ◌≤◌, ◌<◌, ◌≡◌, ◌∙◌, ap, arith, ltb, leb, ◌&&◌, ◌==◌, if◌then◌else◌, Bool-cases,
  inl, inr, bit_and,
}
use embed_template.Prelude.Bits.{bit_and_mask}
use embed_template.Log.Memory.{Memory, move, store_zero, copy_to_ring, aligned_zero_padding}
use embed_template.Log.Memory.Copies.{word-move}
use embed_template.Log.Memory.Ring.{behind, copy_to_ring-at}
use embed_template.Log.Memory.Padding.{aligned_zero_padding-eq}
use embed_template.Log.Entry.{
  Header, header_bytes, tot_size, pad_size, log_tag_seal, store_header, store_first, store_rest,
  seal, write_entry,
}

behind-add : (pos c i : ℕ) → c ≤ 4096 → behind (pos + c) i ≡ (behind pos i + (4096 - c)) % 4096
behind-add pos c i h = omega arith

-- The ring with `n` bytes of a buffer from `s` on stored `c` bytes behind a position, round the
-- end of the ring.
abbrev pub placed : Memory → ℕ → ℕ → ℕ → Memory → ℕ → Memory
placed ring pos c n source s i =
    let b = behind pos i in
    if ltb i 4096 && (leb c b && ltb b (c + n)) then source (s + (b - c)) else ring i

-- A move that ends within the ring.
move-at :
    (n : ℕ) (source : Memory) (s : ℕ) (ring : Memory) (pos c i : ℕ)
    → pos % 4096 + c + n ≤ 4096
    → move n source s ring (pos % 4096 + c) i ≡ placed ring pos c n source s i
unfolding move
move-at n source s ring pos c i h = ground arith

copy-at :
    (n : ℕ) (source : Memory) (s : ℕ) (ring : Memory) (pos c i : ℕ)
    → c + n ≤ 4096
    → copy_to_ring ring (pos + c) source s n i ≡ placed ring pos c n source s i
copy-at n source s ring pos c i h =
    copy_to_ring-at ring (pos + c) source s n i (omega arith)
    ∙ ground (arith, behind-add pos c i (omega arith))

store_header-at :
    (ring : Memory) (pos : ℕ) (h : Header) (i : ℕ)
    → store_header ring pos h i ≡ placed ring pos 0 12 (header_bytes h) 0 i
unfolding store_header
store_header-at ring pos h i =
    let at : bit_and pos 4095 ≡ pos % 4096 = bit_and_mask 12 pos in
    let bytes = header_bytes h in
    rw (at, store_header)
      (elim (Bool-cases (leb (pos % 4096) 4084)) [
        | inl linear ↦ rw linear (
            ap (λ t. t i) (word-move 8 bytes 0 ring (pos % 4096) 12 (omega arith))
            ∙ ap (λ t. move 12 bytes 0 ring t i) (omega arith)
            ∙ move-at 12 bytes 0 ring pos 0 i (ground arith))
        | inr round ↦ rw round (
            ap (λ t. copy_to_ring ring t bytes 0 12 i) (omega arith)
            ∙ copy-at 12 bytes 0 ring pos 0 i (omega arith))
      ])

store_first-at :
    (ring : Memory) (pos : ℕ) (buf : Memory) (len i : ℕ)
    → 0 < len
    → len < 256
    → store_first ring pos buf len i ≡ placed ring pos 12 4 buf 0 i
unfolding store_first
store_first-at ring pos buf len i some_bytes short =
    let at : bit_and pos 4095 ≡ pos % 4096 = bit_and_mask 12 pos in
    rw (at, store_first)
      (elim (Bool-cases (leb (pos % 4096) (4096 - tot_size len))) [
        | inl linear ↦ rw linear (move-at 4 buf 0 ring pos 12 i (ground arith))
        | inr no_room ↦ rw no_room (elim (Bool-cases (leb (pos % 4096) 4080)) [
          | inl linear ↦ rw linear (move-at 4 buf 0 ring pos 12 i (ground arith))
          | inr round ↦ rw round (copy-at 4 buf 0 ring pos 12 i (omega arith))
        ])
      ])

store_rest-at :
    (ring : Memory) (pos : ℕ) (buf : Memory) (len i : ℕ)
    → len < 256
    → store_rest ring pos buf len i ≡ placed ring pos 16 (len - 4) buf 4 i
unfolding store_rest
store_rest-at ring pos buf len i short = elim (Bool-cases (ltb 4 len)) [
  | inl more ↦ rw more (
      ap (λ t. copy_to_ring ring t buf 4 (len - 4) i) (omega arith)
      ∙ copy-at (len - 4) buf 4 ring pos 16 i (omega arith))
  | inr few ↦ rw few (ground arith)
]

zero-at :
    (n : ℕ) (ring : Memory) (pos c i : ℕ)
    → c < 4096
    → c + n ≤ 4096
    → (pos + c) % 4096 + n ≤ 4096
    → store_zero n ring ((pos + c) % 4096) i ≡ placed ring pos c n (λ k. 0) 0 i
unfolding store_zero
zero-at n ring pos c i small sum fits = ground (arith, behind-add pos c i (omega arith))

padding-at :
    (ring : Memory) (pos len i : ℕ)
    → pos % 8 ≡ 0
    → len < 256
    → aligned_zero_padding ring (pos + 12 + len) (pad_size len) i
      ≡ placed ring pos (12 + len) (pad_size len) (λ k. 0) 0 i
unfolding store_zero
padding-at ring pos len i whole short =
    ap (λ t. t i)
      (aligned_zero_padding-eq ring (pos + 12 + len) (pad_size len) (omega arith) (omega arith))
    ∙ ap (λ t. store_zero (pad_size len) ring (t % 4096) i) (omega arith)
    ∙ zero-at (pad_size len) ring pos (12 + len) i (omega arith) (omega arith) (omega arith)

seal-at :
    (ring : Memory) (pos i : ℕ) → seal ring pos i ≡ placed ring pos 0 1 (λ k. log_tag_seal) 0 i
unfolding seal
seal-at ring pos i = ground (arith, bit_and_mask 12 pos)

-- The byte of an entry that lies `k` bytes behind its start.
unfoldable pub entry_byte : Header → Memory → ℕ → ℕ
entry_byte h buf k =
    if k == 0
    then log_tag_seal
    else if ltb k 12
    then header_bytes h k
    else if ltb k (12 + h.len)
    then buf (k - 12)
    else 0

-- An entry of 1 to 255 bytes at a multiple of 8: its bytes are the sealed header, the payload and
-- the zeros up to the next multiple of 8, round the end of the ring, and no other byte of the ring
-- and no byte past it is changed.
pub write_entry-at :
    (ring : Memory) (pos : ℕ) (h : Header) (buf : Memory) (i : ℕ)
    → pos % 8 ≡ 0
    → 0 < h.len
    → h.len < 256
    → h.pad ≡ pad_size h.len
    → write_entry ring pos h buf i ≡ (
        if ltb i 4096 && ltb (behind pos i) (tot_size h.len)
        then entry_byte h buf (behind pos i)
        else ring i)
unfolding write_entry entry_byte
write_entry-at ring pos h buf i whole some_bytes short padded =
    let ring₁ = store_header ring pos h in
    let ring₂ = store_first ring₁ pos buf h.len in
    let ring₃ = store_rest ring₂ pos buf h.len in
    let ring₄ = aligned_zero_padding ring₃ (pos + 12 + h.len) (pad_size h.len) in
    ap (λ t. seal (aligned_zero_padding ring₃ (pos + 12 + h.len) t) pos i) padded
    ∙ ground (
      arith,
      seal-at ring₄ pos i,
      padding-at ring₃ pos h.len i whole short,
      store_rest-at ring₂ pos buf h.len i short,
      store_first-at ring₁ pos buf h.len i some_bytes short,
      store_header-at ring pos h i,
    )
