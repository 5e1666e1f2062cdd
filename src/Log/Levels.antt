-- ===== src/Log/Levels.antt =====
-- common/src/diagnostic/logging/log_infra.c, the levels of the domains and entities, and log_msg;
-- PACK_ID of common/include/log_marker.h.
pub mod Lookup
use embed_template.Prelude.{
  ℕ, ◌+◌, ◌-◌, ◌*◌, ◌%◌, ◌^◌, bit_and, bit_or, Bool, true, false, ltb, ◌&&◌, ◌==◌, if◌then◌else◌,
  List, get_or, set, Option, some, none,
}
use embed_template.Prelude.Int.{ℤ, pos, negsuc, ltb_ℤ, leb_ℤ}
use embed_template.Log.Memory.{Memory}
use embed_template.Log.Dispatch.{LogRing, log_dispatch}

abbrev pub max_domain : ℕ
max_domain = 4

abbrev pub max_entity : ℕ
max_entity = 9

abbrev pub max_log_level : ℕ
max_log_level = 50

-- The cast of an `int` to an unsigned type of `w` bits.
abbrev pub to_unsigned : ℕ → ℤ → ℕ
to_unsigned w (pos n) = n % 2 ^ w
to_unsigned w (negsuc n) = 2 ^ w - 1 - n % 2 ^ w

-- Two bits of domain and four of entity.
unfoldable pub pack_id : ℤ → ℤ → ℕ
pack_id dom ent = bit_or (bit_and (to_unsigned 16 dom) 3 * 2 ^ 4) (bit_and (to_unsigned 8 ent) 15)

pub log_set_level : ℤ → ℤ → ℤ → List ℕ → List ℕ
log_set_level did eid level levels =
    if ltb_ℤ did (pos max_domain) && (ltb_ℤ eid (pos max_entity) && leb_ℤ level (pos max_log_level))
    then set levels (pack_id did eid) (to_unsigned 8 level)
    else levels

pub log_get_level : ℤ → ℤ → List ℕ → ℤ
log_get_level did eid levels =
    if ltb_ℤ did (pos max_domain) && ltb_ℤ eid (pos max_entity)
    then pos (get_or levels (pack_id did eid) 0)
    else negsuc 0

-- A marker byte of the format: 0xff stands for 0.
abbrev marker : ℕ → ℕ
marker raw = if raw == 0xff then 0 else raw

-- `fmt` has the three marker bytes; the rest is the format, and `printed`, `buf` and `ts` are as
-- in log_dispatch.
pub log_msg : Memory → ℕ → Memory → ℕ → List ℕ → LogRing → Option LogRing
log_msg fmt printed buf ts levels r =
    let level = marker (fmt 0) in
    let domain = marker (fmt 1) in
    let entity = marker (fmt 2) in
    if ltb (get_or levels (pack_id (pos domain) (pos entity)) 0) level
    then some r
    else log_dispatch domain entity level printed buf ts r
