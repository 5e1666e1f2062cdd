-- ===== src/Log/Memory/Ring.antt =====
-- The ring: which bytes a copy in stores, and that a copy out gives them back.
use embed_template.Prelude.{
  ℕ, ◌+◌, ◌-◌, ◌%◌, ◌≤◌, ◌<◌, ◌≡◌, ◌∙◌, arith, ltb, leb, ◌&&◌, if◌then◌else◌, bit_and,
}
use embed_template.Prelude.Bits.{bit_and_mask}
use embed_template.Log.Memory.{Memory, move, copy_to_ring, copy_from_ring}
use embed_template.Log.Memory.Copies.{copy_u64-eq}

-- How far the byte at `i` lies behind a position, round the ring.
abbrev pub behind : ℕ → ℕ → ℕ
behind pos i = (i + 4096 - pos % 4096) % 4096

-- The parts of a copy that is split at the end of the ring.
split_in :
    (source : Memory) (s len hid : ℕ) (ring : Memory) (i : ℕ)
    → hid < 4096
    → len ≤ 4096
    → (if leb len (4096 - hid)
        then move len source s ring hid i
        else move
            (len - (4096 - hid))
            source
            (s + (4096 - hid))
            (move (4096 - hid) source s ring hid)
            0
            i)
      ≡ (if ltb i 4096 && ltb ((i + 4096 - hid) % 4096) len
          then source (s + (i + 4096 - hid) % 4096)
          else ring i)
unfolding move
split_in source s len hid ring i inside h = ground arith

split_out :
    (target : Memory) (d len tid : ℕ) (ring : Memory) (i : ℕ)
    → tid < 4096
    → len ≤ 4096
    → (if leb len (4096 - tid)
        then move len ring tid target d i
        else move
            (len - (4096 - tid))
            ring
            0
            (move (4096 - tid) ring tid target d)
            (d + (4096 - tid))
            i)
      ≡ (if leb d i && ltb i (d + len) then ring ((tid + (i - d)) % 4096) else target i)
unfolding move
split_out target d len tid ring i inside h = ground arith

-- A copy into the ring stores the bytes from its position on, round the end of the ring, and
-- nothing else: no other byte of the ring, and none past it.
pub copy_to_ring-at :
    (ring : Memory) (pos : ℕ) (source : Memory) (s len i : ℕ)
    → len ≤ 4096
    → copy_to_ring ring pos source s len i
      ≡ (if ltb i 4096 && ltb (behind pos i) len then source (s + behind pos i) else ring i)
unfolding copy_to_ring move
copy_to_ring-at ring pos source s len i h =
    let at : bit_and pos 4095 ≡ pos % 4096 = bit_and_mask 12 pos in
    rw (at, copy_to_ring)
      (simp copy_u64-eq (ground (arith, split_in source s len (pos % 4096) ring i (omega arith) h)))

-- A copy out of the ring takes its bytes from the position on, round the end of the ring.
pub copy_from_ring-at :
    (target : Memory) (d : ℕ) (ring : Memory) (pos len i : ℕ)
    → len ≤ 4096
    → copy_from_ring target d ring pos len i
      ≡ (if leb d i && ltb i (d + len) then ring ((pos + (i - d)) % 4096) else target i)
unfolding copy_from_ring move
copy_from_ring-at target d ring pos len i h =
    let at : bit_and pos 4095 ≡ pos % 4096 = bit_and_mask 12 pos in
    rw (at, copy_from_ring)
      (simp copy_u64-eq
        (ground (arith, split_out target d len (pos % 4096) ring i (omega arith) h)))

-- What is copied into the ring is read back from the same position, also round its end.
pub copy_from_ring-copy_to_ring :
    (ring : Memory) (pos : ℕ) (source : Memory) (s len : ℕ) (target : Memory) (d k : ℕ)
    → len ≤ 4096
    → k < len
    → copy_from_ring target d (copy_to_ring ring pos source s len) pos len (d + k) ≡ source (s + k)
copy_from_ring-copy_to_ring ring pos source s len target d k h lt =
    copy_from_ring-at target d (copy_to_ring ring pos source s len) pos len (d + k) h
    ∙ ground (arith, copy_to_ring-at ring pos source s len ((pos + k) % 4096) h)
