-- ===== src/Pci/Utils/Find.antt =====
-- The searches of the database find the first match, and miss only if there is none.
use embed_template.Prelude.{
  ℕ, zero, suc, ◌+◌, ◌≤◌, ◌<◌, ◌≡◌, arith, Option, some, none, Bool, true, false, Bool-cases, inl,
  inr, ℕ_discrete,
}
use mathlib.Core.Path.{subst}
use embed_template.Pci.Data.{Database, Device, device_at}
use embed_template.Pci.Utils.{find_device, pci_find_by_bdf, pci_find_by_id, has_bdf, has_id}

-- What a search of `n` devices from `i` on answers: the first one that passes the test.
abbrev pub IsFirst : (Device → Bool) → Database → ℕ → ℕ → Option ℕ → Type 0
IsFirst test db n i none = (j : ℕ) → i ≤ j → j < i + n → test (device_at db j) ≡ false
IsFirst test db n i (some k) =
    (i ≤ k)
    × (k < i + n)
    × (test (device_at db k) ≡ true)
    × ((j : ℕ) → i ≤ j → j < k → test (device_at db j) ≡ false)

later :
    (test : Device → Bool) (db : Database) (i j : ℕ)
    → test (device_at db i) ≡ false
    → i ≤ j
    → (suc i ≤ j → test (device_at db j) ≡ false)
    → test (device_at db j) ≡ false
later test db i j miss le h = elim (ℕ_discrete i j) [
  | yes e ↦ subst (λ t. test (device_at db t) ≡ false) e miss
  | no ne ↦ h (omega arith)
]

further :
    (test : Device → Bool) (db : Database) (n i : ℕ) (r : Option ℕ)
    → test (device_at db i) ≡ false
    → IsFirst test db n (suc i) r
    → IsFirst test db (suc n) i r
further test db n i none miss h =
    λ j le lt. later test db i j miss le (λ past. h j past (omega arith))
further test db n i (some k) miss (le, lt, hit, before) = (
  omega arith,
  omega arith,
  hit,
  λ j from to. later test db i j miss from (λ past. before j past to),
)

find_device-IsFirst :
    (test : Device → Bool) (db : Database) (n i : ℕ) → IsFirst test db n i (find_device test db n i)
unfolding find_device
find_device-IsFirst test db zero i = λ j le lt. absurd (omega arith)
find_device-IsFirst test db (suc n) i = elim (Bool-cases (test (device_at db i))) [
  | inl hit ↦ rw (hit, find_device) (omega arith, omega arith, hit, λ j le lt. absurd (omega arith))
  | inr miss ↦
      rw (miss, find_device)
        (further test db n i (find_device test db n (suc i)) miss
          (find_device-IsFirst test db n (suc i)))
]

-- Both searches return the first of the devices found that has the two ids, or that has the bus,
-- the slot and the function, and the null pointer only if no device found has them.
pub find-IsFirst :
    (db : Database) (vendor_id device_id bus dev func : ℕ)
    → IsFirst
        (has_id vendor_id device_id)
        db
        db.device_count
        0
        (pci_find_by_id vendor_id device_id db)
      × IsFirst (has_bdf bus dev func) db db.device_count 0 (pci_find_by_bdf bus dev func db)
unfolding pci_find_by_id pci_find_by_bdf
find-IsFirst db vendor_id device_id bus dev func = (
  find_device-IsFirst (has_id vendor_id device_id) db db.device_count 0,
  find_device-IsFirst (has_bdf bus dev func) db db.device_count 0,
)
