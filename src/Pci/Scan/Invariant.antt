-- ===== src/Pci/Scan/Invariant.antt =====
-- What the database holds after an enumeration, and that the enumeration returns.
use embed_template.Prelude.{
  ℕ, zero, suc, ◌+◌, ◌≤◌, ◌<◌, ◌≡◌, ◌∙◌, sym, refl, arith, List, [], ◌∷◌, length, get_or, set,
  length-set, get_or-set_self, get_or-set_ne, ℕ_discrete, false,
}
use mathlib.Core.Path.{subst}
use embed_template.Pci.Data.{
  Ecam, Pci, Device, Bridge, Database, device_at, bridge_at, no_device, no_bridge,
}
use embed_template.Pci.Bars.Rule.{probe_bars-Sized}
use embed_template.Pci.Scan.{add_endpoint, add_bridge, config_dword, is_absent, vendor_of, pci_scan}
use embed_template.Pci.Scan.Rule.{Ends, Keeps, pci_scan-Ends}

-- A function that answered, and its two arrays.
pub record IsEndpoint (d : Device) : Type 0 where
  pub kind : d.header_type ≡ 0
  pub on_bus : d.bus < 256
  pub in_slot : d.dev < 32
  pub in_dev : d.func < 8
  pub present : 0 < d.vendor_id
  pub answers : d.vendor_id < 0xFFFF

pub record IsBridge (b : Bridge) : Type 0 where
  pub kind : b.header_type ≡ 1
  pub on_bus : b.bus < 256
  pub in_slot : b.dev < 32
  pub in_dev : b.func < 8

pub record HasBars (d : Device) : Type 0 where
  pub sizes : length d.bar_size ≡ 6
  pub addresses : length d.bar_address ≡ 6

pub record IsDatabase (db : Database) : Type 0 where
  pub devices : db.device_count ≤ 32
  pub bridges : db.bridge_count ≤ 2
  pub device_slots : length db.device_info ≡ 32
  pub bridge_slots : length db.bridge_info ≡ 2
  pub has_bars : (i : ℕ) → HasBars (device_at db i)
  pub endpoints : (i : ℕ) → i < db.device_count → IsEndpoint (device_at db i)
  pub bridges_found : (i : ℕ) → i < db.bridge_count → IsBridge (bridge_at db i)

-- A property of every entry survives a write that has it.
pub every_set :
    {A : Type 0} (P : A → Type 0) (xs : List A) (n : ℕ) (v d : A)
    → P v
    → ((i : ℕ) → P (get_or xs i d))
    → (i : ℕ) → P (get_or (set xs n v) i d)
every_set P [] n v d pv h i = h i
every_set P (x ∷ xs) zero v d pv h zero = pv
every_set P (x ∷ xs) zero v d pv h (suc i) = h (suc i)
every_set P (x ∷ xs) (suc n) v d pv h zero = h zero
every_set P (x ∷ xs) (suc n) v d pv h (suc i) = every_set P xs n v d pv (λ j. h (suc j)) i

-- A property of the first `n` entries is one of the first `suc n` after a write at `n`.
pub first_set :
    {A : Type 0} (P : A → Type 0) (xs : List A) (n : ℕ) (v d : A)
    → P v
    → n < length xs
    → ((i : ℕ) → i < n → P (get_or xs i d))
    → (i : ℕ) → i < n + 1
    → P (get_or (set xs n v) i d)
first_set P xs n v d pv room h i lt = elim (ℕ_discrete n i) [
  | yes same ↦
      subst (λ t. P (get_or (set xs n v) t d)) same
        (subst P (sym (get_or-set_self xs n v d room)) pv)
  | no differ ↦ subst P (sym (get_or-set_ne xs n i v d differ)) (h i (omega arith))
]

vendor_bounds : (id : ℕ) → is_absent id ≡ false → (0 < vendor_of id) × (vendor_of id < 0xFFFF)
unfolding is_absent vendor_of
vendor_bounds id h = ground arith

endpoint-IsDatabase :
    (db : Database) (d : Device)
    → IsEndpoint d
    → HasBars d
    → db.device_count < 32
    → IsDatabase db
    → IsDatabase (record db {
      device_info = set db.device_info db.device_count d;
      device_count = db.device_count + 1;
    })
endpoint-IsDatabase db d ok bars room v = record {
  devices = omega arith;
  bridges = v.bridges;
  device_slots = length-set db.device_info db.device_count d ∙ v.device_slots;
  bridge_slots = v.bridge_slots;
  has_bars = every_set HasBars db.device_info db.device_count d no_device bars v.has_bars;
  endpoints =
      first_set IsEndpoint db.device_info db.device_count d no_device ok
        (omega (arith, v.device_slots)) v.endpoints;
  bridges_found = v.bridges_found;
}

bridge-IsDatabase :
    (db : Database) (b : Bridge)
    → IsBridge b
    → db.bridge_count < 2
    → IsDatabase db
    → IsDatabase (record db {
      bridge_info = set db.bridge_info db.bridge_count b;
      bridge_count = db.bridge_count + 1;
    })
bridge-IsDatabase db b ok room v = record {
  devices = v.devices;
  bridges = omega arith;
  device_slots = v.device_slots;
  bridge_slots = length-set db.bridge_info db.bridge_count b ∙ v.bridge_slots;
  has_bars = v.has_bars;
  endpoints = v.endpoints;
  bridges_found =
      first_set IsBridge db.bridge_info db.bridge_count b no_bridge ok
        (omega (arith, v.bridge_slots)) v.bridges_found;
}

flags-IsDatabase : (db : Database) (f : ℕ) → IsDatabase db → IsDatabase (record db { flags = f })
flags-IsDatabase db f v = record {
  devices = v.devices;
  bridges = v.bridges;
  device_slots = v.device_slots;
  bridge_slots = v.bridge_slots;
  has_bars = v.has_bars;
  endpoints = v.endpoints;
  bridges_found = v.bridges_found;
}

module _ {S : Type 0} (ecam : Ecam S) where
  keeps_IsDatabase : Keeps ecam (λ s. IsDatabase s.db)
  unfolding add_endpoint add_bridge
  keeps_IsDatabase = record {
    endpoint = λ bus dev func s on_bus in_slot in_dev room there leaf v.
        let id = config_dword ecam s bus dev func 0 in
        let entry = device_at s.db s.db.device_count in
        let old = v.has_bars s.db.device_count in
        let bars =
          probe_bars-Sized ecam bus dev func 6 0
            (record { hw = s.hw; bar_size = entry.bar_size; bar_address = entry.bar_address })
            (record { sizes = old.sizes; addresses = old.addresses }) in
        endpoint-IsDatabase s.db _
          (record {
            kind = refl;
            on_bus = on_bus;
            in_slot = in_slot;
            in_dev = in_dev;
            present = (vendor_bounds id there).0;
            answers = (vendor_bounds id there).1;
          })
          (record { sizes = bars.sizes; addresses = bars.addresses }) room v;
    bridge = λ bus dev func s on_bus in_slot in_dev room v.
        bridge-IsDatabase s.db _
          (record { kind = refl; on_bus = on_bus; in_slot = in_slot; in_dev = in_dev }) room v;
  }

  -- On any hardware, and from any valid database, an enumeration returns, and leaves at most 32
  -- devices and 2 bridges: the devices are endpoints that answered, each with its bus, slot and
  -- function in range and all 6 registers in its arrays, the bridges are bridges.
  pub pci_scan-IsDatabase :
      (bus : ℕ) (s : Pci S)
      → bus < 256
      → IsDatabase s.db
      → Ends (λ s'. IsDatabase s'.db) (pci_scan ecam bus s)
  pci_scan-IsDatabase =
      pci_scan-Ends ecam (λ s. IsDatabase s.db) keeps_IsDatabase
        (λ s f v. flags-IsDatabase s.db f v)
