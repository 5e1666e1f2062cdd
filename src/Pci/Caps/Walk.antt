-- ===== src/Pci/Caps/Walk.antt =====
-- The walk against a list of the capabilities.
use embed_template.Prelude.{ℕ, zero, suc, ◌<◌, ◌≡◌, ◌==◌, arith, if◌then◌else◌, List, [], ◌∷◌}
use embed_template.Pci.Data.{Ecam}
use embed_template.Pci.Caps.{
  cap_id, next_cap, find_from, pcie_find_capability, has_list, first_cap_ptr,
}

-- The offset of the first capability with the id, of a list of offsets and ids; 0 if there is none.
unfoldable pub first_cap : ℕ → List (ℕ × ℕ) → ℕ
first_cap id [] = 0
first_cap id ((offset, found) ∷ rest) = if found == id then offset else first_cap id rest

abbrev pub take : {A : Type 0} → ℕ → List A → List A
take zero xs = []
take (suc n) [] = []
take (suc n) (x ∷ xs) = x ∷ take n xs

module _ {S : Type 0} (ecam : Ecam S) (hw : S) (bus dev func : ℕ) where
  -- The hardware's list from a pointer on: the offsets and ids, ended by the null pointer.
  abbrev pub Linked : ℕ → List (ℕ × ℕ) → Type 0
  Linked ptr [] = ptr ≡ 0
  Linked ptr ((offset, id) ∷ rest) =
      (ptr ≡ offset)
      × (0 < offset)
      × (offset < 256)
      × (cap_id ecam hw bus dev func ptr ≡ id)
      × Linked (next_cap ecam hw bus dev func ptr) rest

  find_from-eq :
      (id n ptr : ℕ) (caps : List (ℕ × ℕ))
      → Linked ptr caps
      → find_from ecam hw bus dev func id (suc n) ptr ≡ first_cap id (take n caps)
  unfolding find_from first_cap
  find_from-eq id zero ptr caps l = ground arith
  find_from-eq id (suc n) ptr [] l = ground arith
  find_from-eq id (suc n) ptr ((offset, found) ∷ rest) (at, pos, small, is, l) =
      ground (arith, find_from-eq id n (next_cap ecam hw bus dev func ptr) rest l)

  -- The walk finds what a search of the list finds, as far as its first fifteen capabilities; a
  -- device without a list has none.
  pub pcie_find_capability_lem :
      (id : ℕ) (caps : List (ℕ × ℕ))
      → Linked (first_cap_ptr ecam hw bus dev func) caps
      → pcie_find_capability ecam hw bus dev func id
        ≡ (if has_list ecam hw bus dev func then first_cap id (take 15 caps) else 0)
  unfolding pcie_find_capability
  pcie_find_capability_lem id caps l =
      ground (arith, find_from-eq id 15 (first_cap_ptr ecam hw bus dev func) caps l)
