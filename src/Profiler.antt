-- ===== src/Profiler.antt =====
-- common/src/diagnostic/profiler/profiler.c and profiler_priv.h: the state of the profiler, the
-- hash of an address and the lookup of a function. POW2 is that of common/include/utils.h.
pub mod Seed
pub mod Hooks
pub mod Stats
pub mod Record
mod Tests
use Prim.Native.Nat.{bit_xor}
use embed_template.Prelude.{
  ℕ, zero, suc, ◌+◌, ◌-◌, ◌*◌, ◌/◌, ◌%◌, ◌^◌, bit_and, bit_or, Bool, true, false, not, ◌==◌,
  if◌then◌else◌, List, length, Option, some, none,
}

abbrev pub max_prof_samples : ℕ
max_prof_samples = 1024

-- PROF_NULL_INDEX, and PROF_STOP
abbrev pub prof_null_index : ℕ
prof_null_index = 0xFFFFFFFF

abbrev pub prof_stop_mark : ℕ
prof_stop_mark = 0xFFFFFFFF

-- What a build fixes: whether an address has 64 bits or 32, and the addresses of
-- PROF_FUNC_LIST.
pub record Target : Type 0 where
  pub wide : Bool
  pub func_list : List ℕ

-- The links of `exit` are not used, and are left out.
pub record Sample : Type 0 where
  pub entry_ts : ℕ
  pub entry_ll : ℕ
  pub exit_ts : ℕ

pub record Node : Type 0 where
  pub func_addr : ℕ
  pub head : ℕ
  pub tail : ℕ

-- The static variables; an array is a function of its index.
pub record Profiler : Type 0 where
  pub next_sample : ℕ
  pub prof_sample_pool : ℕ → Sample
  pub prof_seed : ℕ
  pub prof_table : ℕ → Node
  pub prof_lookaside_map : ℕ → ℕ
  pub prof_inuse_map : ℕ → ℕ

-- A store to an array.
abbrev pub store : {A : Type 0} → (ℕ → A) → ℕ → A → ℕ → A
store a i v j = if i == j then v else a j

abbrev pub num_functions : Target → ℕ
num_functions t = length t.func_list

-- The bits of a number below `2 ^ fuel`: `32 - __builtin_clz(n)`.
unfoldable pub bit_length : ℕ → ℕ → ℕ
bit_length zero n = 0
bit_length (suc fuel) n = if n == 0 then 0 else suc (bit_length fuel (n / 2))

-- MAP_SIZE is two to this power.
unfoldable pub map_bits : Target → ℕ
map_bits t = bit_length 32 (num_functions t * 4 - 1)

unfoldable pub map_size : Target → ℕ
map_size t = 2 ^ map_bits t

-- `h ^= h >> k; h *= m` on `w` bits, and without the product.
abbrev fold : ℕ → ℕ → ℕ
fold k h = bit_xor h (h / 2 ^ k)

abbrev scramble : ℕ → ℕ → ℕ → ℕ → ℕ
scramble w k m h = (fold k h * m) % 2 ^ w

unfoldable pub mix : Bool → ℕ → ℕ
mix true h = fold 33 (scramble 64 33 0xc4ceb9fe1a85ec53 (scramble 64 33 0xff51afd7ed558ccd h))
mix false h = fold 16 (scramble 32 13 0xc2b2ae35 (scramble 32 16 0x85ebca6b h))

unfoldable pub hash : Target → ℕ → ℕ → ℕ
hash t func_addr seed = bit_and (mix t.wide (bit_xor func_addr seed)) (map_size t - 1)

pub is_in_use : (ℕ → ℕ) → ℕ → Bool
is_in_use map idx = not (bit_and (map (idx / 2 ^ 5)) (2 ^ bit_and idx 31) == 0)

pub set_in_use : (ℕ → ℕ) → ℕ → ℕ → ℕ
set_in_use map idx = store map (idx / 2 ^ 5) (bit_or (map (idx / 2 ^ 5)) (2 ^ bit_and idx 31))

-- `none` for -1.
unfoldable pub get_func_node_index : Target → ℕ → Profiler → Option ℕ
get_func_node_index t func_addr p =
    let slot = hash t func_addr p.prof_seed in
    let tbl_idx = p.prof_lookaside_map slot in
    if is_in_use p.prof_inuse_map slot
    then if (p.prof_table tbl_idx).func_addr == func_addr then some tbl_idx else none
    else none
