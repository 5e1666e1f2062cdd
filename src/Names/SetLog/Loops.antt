-- ===== src/Names/SetLog/Loops.antt =====
-- What the two loops of `set log` leave.
use embed_template.Prelude.{
  ℕ, zero, suc, ◌+◌, ◌≤◌, ◌<◌, ◌≡◌, ◌∙◌, refl, ap, arith, Bool, true, false, not, ltb, leb, ◌&&◌,
  ◌||◌, ◌==◌, if◌then◌else◌, List, length, Bool-cases, inl, inr,
}
use embed_template.Prelude.Int.{pos}
use embed_template.Log.Levels.{log_set_level, log_get_level}
use embed_template.Log.Levels.Lookup.{get-set_natural, length-log_set_level}
use embed_template.Names.SetLog.{set_entities, set_domains}

length-set_entities :
    (all : Bool) (eid level d rounds e : ℕ) (levels : List ℕ)
    → length (set_entities all eid level d rounds e levels) ≡ length levels
unfolding set_entities
length-set_entities all eid level d zero e levels = refl
length-set_entities all eid level d (suc rounds) e levels =
    elim (Bool-cases (not all && not (e == eid))) [
      | inl skip ↦ rw skip (length-set_entities all eid level d rounds (suc e) levels)
      | inr take ↦ rw take (
          length-set_entities all eid level d rounds (suc e) _
          ∙ length-log_set_level (pos d) (pos e) (pos level) levels)
    ]

-- One level, with another one or itself set.
get-one :
    (d e d' e' level : ℕ) (levels : List ℕ)
    → d' < 4
    → e' < 9
    → level ≤ 50
    → length levels ≡ 64
    → log_get_level (pos d') (pos e') (log_set_level (pos d) (pos e) (pos level) levels)
      ≡ (if d == d' && e == e' then pos level else log_get_level (pos d') (pos e') levels)
get-one d e d' e' level levels hd he hl size =
    ground (arith, get-set_natural d e d' e' level levels size)

set_entities-step :
    (all : Bool) (eid level d rounds e : ℕ) (levels : List ℕ) (skip : Bool)
    → (not all && not (e == eid)) ≡ skip
    → set_entities all eid level d (suc rounds) e levels
      ≡ set_entities all eid level d rounds
          (suc e)
          (if skip then levels else log_set_level (pos d) (pos e) (pos level) levels)
unfolding set_entities
set_entities-step all eid level d rounds e levels skip h =
    ap
      (λ (b : Bool).
        set_entities all eid level d rounds (suc e)
          (if b then levels else log_set_level (pos d) (pos e) (pos level) levels))
      h

set_entities-none :
    (all : Bool) (eid level d e : ℕ) (levels : List ℕ)
    → set_entities all eid level d 0 e levels ≡ levels
unfolding set_entities
set_entities-none all eid level d e levels = refl

-- The levels after the inner loop.
get-set_entities :
    (all : Bool) (eid level d rounds e d' e' : ℕ) (levels : List ℕ)
    → d' < 4
    → e' < 9
    → level ≤ 50
    → length levels ≡ 64
    → log_get_level (pos d') (pos e') (set_entities all eid level d rounds e levels) ≡ (
        if d == d' && (leb e e' && ltb e' (e + rounds)) && (all || e' == eid)
        then pos level
        else log_get_level (pos d') (pos e') levels)
get-set_entities all eid level d zero e d' e' levels hd he hl size =
    ap (log_get_level (pos d') (pos e')) (set_entities-none all eid level d e levels) ∙ ground arith
get-set_entities all eid level d (suc rounds) e d' e' levels hd he hl size =
    let now = log_set_level (pos d) (pos e) (pos level) levels in
    let get = log_get_level (pos d') (pos e') in
    elim (Bool-cases (not all && not (e == eid))) [
      | inl skip ↦
          ap get (set_entities-step all eid level d rounds e levels true skip)
          ∙ get-set_entities all eid level d rounds (suc e) d' e' levels hd he hl size
          ∙ ground (arith, skip)
      | inr take ↦
          ap get (set_entities-step all eid level d rounds e levels false take)
          ∙ get-set_entities all eid level d rounds (suc e) d' e' now hd he hl
              (length-log_set_level (pos d) (pos e) (pos level) levels ∙ size)
          ∙ ground (arith, take, get-one d e d' e' level levels hd he hl size)
    ]

set_domains-step :
    (alls : Bool) (did : ℕ) (alle : Bool) (eid level rounds d : ℕ) (levels : List ℕ) (skip : Bool)
    → (not alls && not (d == did)) ≡ skip
    → set_domains alls did alle eid level (suc rounds) d levels
      ≡ set_domains alls did alle eid level rounds
          (suc d)
          (if skip then levels else set_entities alle eid level d 9 0 levels)
unfolding set_domains
set_domains-step alls did alle eid level rounds d levels skip h =
    ap
      (λ (b : Bool).
        set_domains alls did alle eid level rounds (suc d)
          (if b then levels else set_entities alle eid level d 9 0 levels))
      h

set_domains-none :
    (alls : Bool) (did : ℕ) (alle : Bool) (eid level d : ℕ) (levels : List ℕ)
    → set_domains alls did alle eid level 0 d levels ≡ levels
unfolding set_domains
set_domains-none alls did alle eid level d levels = refl

-- The levels after both loops.
pub get-set_domains :
    (alls : Bool) (did : ℕ) (alle : Bool) (eid level rounds d d' e' : ℕ) (levels : List ℕ)
    → d' < 4
    → e' < 9
    → level ≤ 50
    → length levels ≡ 64
    → log_get_level (pos d') (pos e') (set_domains alls did alle eid level rounds d levels) ≡ (
        if (leb d d' && ltb d' (d + rounds)) && ((alls || d' == did) && (alle || e' == eid))
        then pos level
        else log_get_level (pos d') (pos e') levels)
get-set_domains alls did alle eid level zero d d' e' levels hd he hl size =
    ap (log_get_level (pos d') (pos e')) (set_domains-none alls did alle eid level d levels)
    ∙ ground arith
get-set_domains alls did alle eid level (suc rounds) d d' e' levels hd he hl size =
    let now = set_entities alle eid level d 9 0 levels in
    let get = log_get_level (pos d') (pos e') in
    elim (Bool-cases (not alls && not (d == did))) [
      | inl skip ↦
          ap get (set_domains-step alls did alle eid level rounds d levels true skip)
          ∙ get-set_domains alls did alle eid level rounds (suc d) d' e' levels hd he hl size
          ∙ ground (arith, skip)
      | inr take ↦
          ap get (set_domains-step alls did alle eid level rounds d levels false take)
          ∙ get-set_domains alls did alle eid level rounds (suc d) d' e' now hd he hl
              (length-set_entities alle eid level d 9 0 levels ∙ size)
          ∙ ground (arith, take, get-set_entities alle eid level d 9 0 d' e' levels hd he hl size)
    ]
