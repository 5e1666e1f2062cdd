-- ===== src/Log/Levels/Lookup.antt =====
-- A level that was set is read back, and no other is changed; what is out of range is refused.
use embed_template.Prelude.{
  refl, ℕ, Bool, ◌+◌, ◌-◌, ◌*◌, ◌%◌, ◌^◌, ◌<◌, ◌≡◌, ◌∙◌, arith, List, length, length-set, if_intro,
  get_or-set_self, get_or-set_ne, bit_and, if◌then◌else◌, ◌==◌, ◌&&◌, ltb, leb,
}
use native.Mathlib.Nat.{mod-lt}
use embed_template.Prelude.Int.{ℤ, pos, negsuc, ltb_ℤ, leb_ℤ}
use embed_template.Prelude.Bits.{bit_and_mask}
use embed_template.Prelude.Bits.Fields.{bit_or_fields}
use embed_template.Log.Levels.{to_unsigned, pack_id, log_set_level, log_get_level}

-- The remainder of an integer by `n`, from 0 on.
abbrev pub residue : ℕ → ℤ → ℕ
residue n (pos k) = k % n
residue n (negsuc k) = n - 1 - k % n

residue-domain : (d : ℤ) → bit_and (to_unsigned 16 d) 3 ≡ residue 4 d
residue-domain (pos n) = bit_and_mask 2 (n % 2 ^ 16) ∙ omega arith
residue-domain (negsuc n) = bit_and_mask 2 (2 ^ 16 - 1 - n % 2 ^ 16) ∙ omega arith

residue-entity : (e : ℤ) → bit_and (to_unsigned 8 e) 15 ≡ residue 16 e
residue-entity (pos n) = bit_and_mask 4 (n % 2 ^ 8) ∙ omega arith
residue-entity (negsuc n) = bit_and_mask 4 (2 ^ 8 - 1 - n % 2 ^ 8) ∙ omega arith

residue-lt : (n : ℕ) (d : ℤ) → 0 < n → residue n d < n
residue-lt n (pos k) h = mod-lt k h
residue-lt n (negsuc k) h = omega arith

-- The place of a domain and an entity among the 64 levels.
abbrev pub place : ℤ → ℤ → ℕ
place d e = residue 4 d * 16 + residue 16 e

pack_id-eq : (d e : ℤ) → pack_id d e ≡ place d e
unfolding pack_id
pack_id-eq d e =
    let small = residue-lt 16 e (omega arith) in
    rw (residue-domain d, residue-entity e)
      (bit_or_fields 4 (residue 4 d) (residue 16 e) (omega (arith, small)))

place-lt : (d e : ℤ) → place d e < 64
place-lt d e = omega (arith, residue-lt 4 d (omega arith), residue-lt 16 e (omega arith))

-- Whether the ids are taken: only the upper ends are tested.
abbrev pub in_range : ℤ → ℤ → Bool
in_range d e = ltb_ℤ d (pos 4) && ltb_ℤ e (pos 9)

-- The levels with whatever is asked. An id from 4 or 9 on reads as -1; a negative id is taken, and
-- stands for its remainder by 4 or 16, so that it has the place of another domain or entity. A
-- level is stored, as a byte, for ids that are taken and up to 50, negative levels included, and
-- is read back by all ids of the same place; what is refused changes no level.
pub log_get_level-log_set_level :
    (d e d' e' level : ℤ) (levels : List ℕ)
    → length levels ≡ 64
    → log_get_level d' e' (log_set_level d e level levels) ≡ (
        if in_range d' e'
        then if in_range d e && leb_ℤ level (pos 50) && place d e == place d' e'
          then pos (residue 256 level)
          else log_get_level d' e' levels
        else negsuc 0)
unfolding log_get_level log_set_level
log_get_level-log_set_level d e d' e' level levels size = ground (
  arith,
  pack_id-eq d e,
  pack_id-eq d' e',
  place-lt d e,
  get_or-set_self levels (place d e) (residue 256 level) 0,
  get_or-set_ne levels (place d e) (place d' e') (residue 256 level) 0,
)

place-natural : (d e : ℕ) → d < 4 → e < 9 → place (pos d) (pos e) ≡ d * 16 + e
place-natural d e hd he = omega arith

-- The same for ids and levels that are not negative.
pub get-set_natural :
    (d e d' e' level : ℕ) (levels : List ℕ)
    → length levels ≡ 64
    → log_get_level (pos d') (pos e') (log_set_level (pos d) (pos e) (pos level) levels) ≡ (
        if ltb d' 4 && ltb e' 9
        then if d == d' && (e == e' && leb level 50)
          then pos level
          else log_get_level (pos d') (pos e') levels
        else negsuc 0)
unfolding log_get_level
get-set_natural d e d' e' level levels size =
    log_get_level-log_set_level (pos d) (pos e) (pos d') (pos e') (pos level) levels size
    ∙ ground (arith, place-natural d e, place-natural d' e')

pub length-log_set_level :
    (did eid level : ℤ) (levels : List ℕ)
    → length (log_set_level did eid level levels) ≡ length levels
unfolding log_set_level
length-log_set_level did eid level levels =
    if_intro (ltb_ℤ did (pos 4) && (ltb_ℤ eid (pos 9) && leb_ℤ level (pos 50)))
      (λ (r : List ℕ). length r ≡ length levels)
      (length-set levels (pack_id did eid) (to_unsigned 8 level)) refl
