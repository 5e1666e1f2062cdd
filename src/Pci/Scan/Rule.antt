-- ===== src/Pci/Scan/Rule.antt =====
-- A rule for the enumeration: it returns, since bus numbers go up along the recursion, and what
-- each new entry keeps holds at the end.
use embed_template.Prelude.{
  ℕ, zero, suc, ◌+◌, ◌≤◌, ◌<◌, ◌/◌, ◌^◌, ◌%◌, ◌≡◌, ltb, leb, ◌==◌, arith, Option, some, none, inl,
  inr, Bool-cases, if_intro, not, bit_and, bit_or, false, ltb→lt, ==_iff,
}
use embed_template.Pci.Data.{Ecam, Pci}
use embed_template.Pci.Scan.Rounds.{Flow, ◌>>=◌, next, returned, stuck, finish, resume}
use embed_template.Pci.Scan.{
  scan_bridge, scan_func, scan_funcs, scan_dev, scan_devs, do_pci_scan, secondary_of, config_dword,
  pci_scanned, mark_scanned, pci_scan, is_absent, add_endpoint, add_bridge, num_functions,
}

-- The call returns a state where `P` holds.
abbrev pub Ends : {S : Type 0} → (S → Type 0) → Option S → Type 0
Ends P (some s) = P s
Ends P none = ⊥

abbrev Holds : {S : Type 0} → (S → Type 0) → Flow S → Type 0
Holds P (next s) = P s
Holds P (returned s) = P s
Holds P stuck = ⊥

>>=-Holds :
    {S : Type 0} (P : S → Type 0) (m : Flow S) (f : S → Flow S)
    → ((s : S) → P s → Holds P (f s))
    → Holds P m
    → Holds P (m >>= f)
>>=-Holds P (next s) f k h = k s h
>>=-Holds P (returned s) f k h = h
>>=-Holds P stuck f k h = h

finish-Ends : {S : Type 0} (P : S → Type 0) (m : Flow S) → Holds P m → Ends P (finish m)
finish-Ends P (next s) h = h
finish-Ends P (returned s) h = h
finish-Ends P stuck h = h

resume-Holds : {S : Type 0} (P : S → Type 0) (r : Option S) → Ends P r → Holds P (resume r)
resume-Holds P (some s) h = h
resume-Holds P none h = h

-- What an entry is made from: a function of a bus that answers, with room for it left.
pub record Keeps {S : Type 0} (ecam : Ecam S) (P : Pci S → Type 0) : Type 0 where
  pub endpoint :
      (bus dev func : ℕ) (s : Pci S)
      → bus < 256
      → dev < 32
      → func < 8
      → s.db.device_count < 32
      → is_absent (config_dword ecam s bus dev func 0) ≡ false
      → config_dword ecam s bus dev func 0x0C / 2 ^ 16 % 2 ^ 7 ≡ 0
      → P s
      → P (add_endpoint ecam bus dev func (config_dword ecam s bus dev func 0) s)
  pub bridge :
      (bus dev func : ℕ) (s : Pci S)
      → bus < 256
      → dev < 32
      → func < 8
      → s.db.bridge_count < 2
      → P s
      → P (add_bridge ecam bus dev func (config_dword ecam s bus dev func 0) s)

module _ {S : Type 0} (ecam : Ecam S) (P : Pci S → Type 0) (keeps : Keeps ecam P)
    (scan : ℕ → Pci S → Option (Pci S)) (bus : ℕ) (on_bus : bus < 256)
    (deeper : (b : ℕ) (s : Pci S) → bus < b → b < 256 → P s → Ends P (scan b s)) where
  scan_bridge-Holds :
      (dev func : ℕ) (s : Pci S)
      → dev < 32
      → func < 8
      → P s
      → Holds P (scan_bridge ecam scan bus dev func (config_dword ecam s bus dev func 0) s)
  unfolding scan_bridge secondary_of
  scan_bridge-Holds dev func s hd hf h = elim (Bool-cases (leb 2 s.db.bridge_count)) [
    | inl full ↦ rw full h
    | inr room ↦
        let id = config_dword ecam s bus dev func 0 in
        let b = secondary_of ecam bus dev func s in
        let added = keeps.bridge bus dev func s on_bus hd hf (ground arith) h in
        rw room (elim (Bool-cases (ltb bus b)) [
          | inl up ↦ rw up (
              resume-Holds P (scan b (add_bridge ecam bus dev func id s)) (
                deeper b (add_bridge ecam bus dev func id s) (ltb→lt bus b up) (omega arith) added))
          | inr down ↦ rw down added
        ])
  ]

  scan_func-Holds :
      (dev func : ℕ) (s : Pci S)
      → dev < 32
      → func < 8
      → P s
      → Holds P (scan_func ecam scan bus dev func s)
  unfolding scan_func
  scan_func-Holds dev func s hd hf h =
      let hdr = config_dword ecam s bus dev func 0x0C / 2 ^ 16 % 2 ^ 7 in
      elim (Bool-cases (is_absent (config_dword ecam s bus dev func 0))) [
        | inl absent ↦ rw absent h
        | inr there ↦ rw there (elim (Bool-cases (leb 32 s.db.device_count)) [
          | inl full ↦ rw full h
          | inr room ↦ rw room (elim (Bool-cases (hdr == 0)) [
            | inl leaf ↦ rw leaf (
                keeps.endpoint bus dev func s on_bus hd hf (ground arith) there
                  ((==_iff hdr 0).0 leaf) h)
            | inr other ↦
                rw other (if_intro (hdr == 1) (Holds P) (scan_bridge-Holds dev func s hd hf h) h)
          ])
        ])
      ]

  scan_funcs-Holds :
      (n dev func : ℕ) (s : Pci S)
      → dev < 32
      → func + n ≤ 8
      → P s
      → Holds P (scan_funcs ecam scan bus dev n func s)
  unfolding scan_funcs
  scan_funcs-Holds zero dev func s hd hf h = h
  scan_funcs-Holds (suc n) dev func s hd hf h =
      >>=-Holds P (scan_func ecam scan bus dev func s) (scan_funcs ecam scan bus dev n (suc func))
        (λ s' h'. scan_funcs-Holds n dev (suc func) s' hd (omega arith) h')
        (scan_func-Holds dev func s hd (omega arith) h)

  num_functions-le : (dev : ℕ) (s : Pci S) → num_functions ecam bus dev s ≤ 8
  unfolding num_functions
  num_functions-le dev s = ground arith

  scan_dev-Holds : (dev : ℕ) (s : Pci S) → dev < 32 → P s → Holds P (scan_dev ecam scan bus dev s)
  unfolding scan_dev
  scan_dev-Holds dev s hd h = if_intro (is_absent (config_dword ecam s bus dev 0 0)) (Holds P) h (
      scan_funcs-Holds (num_functions ecam bus dev s) dev 0 s hd
        (omega (arith, num_functions-le dev s)) h)

  scan_devs-Holds :
      (n dev : ℕ) (s : Pci S) → dev + n ≤ 32 → P s → Holds P (scan_devs ecam scan bus n dev s)
  unfolding scan_devs
  scan_devs-Holds zero dev s hd h = h
  scan_devs-Holds (suc n) dev s hd h =
      >>=-Holds P (scan_dev ecam scan bus dev s) (scan_devs ecam scan bus n (suc dev))
        (λ s' h'. scan_devs-Holds n (suc dev) s' (omega arith) h')
        (scan_dev-Holds dev s (omega arith) h)

-- Once the fuel covers the buses up to the last one, 255, the enumeration returns.
pub do_pci_scan-Ends :
    {S : Type 0} (ecam : Ecam S) (P : Pci S → Type 0)
    → Keeps ecam P
    → (fuel bus : ℕ) (s : Pci S) → bus < 256
    → 256 ≤ bus + fuel
    → P s
    → Ends P (do_pci_scan ecam fuel bus s)
unfolding do_pci_scan
do_pci_scan-Ends ecam P keeps zero bus s on_bus enough h = absurd (omega arith)
do_pci_scan-Ends ecam P keeps (suc fuel) bus s on_bus enough h =
    finish-Ends P (scan_devs ecam (do_pci_scan ecam fuel) bus 32 0 s) (
      scan_devs-Holds ecam P keeps (do_pci_scan ecam fuel) bus on_bus
        (λ b s' lt top h'. do_pci_scan-Ends ecam P keeps fuel b s' top (omega arith) h') 32 0 s
        (omega arith) h)

mark_scanned-Ends :
    {S : Type 0} (ecam : Ecam S) (P : Pci S → Type 0)
    → ((s : Pci S) (f : ℕ) → P s → P (record s { db = record s.db { flags = f } }))
    → (r : Option (Pci S)) → Ends P r
    → Ends P (mark_scanned ecam r)
unfolding mark_scanned
mark_scanned-Ends ecam P flagged none h = h
mark_scanned-Ends ecam P flagged (some s) h = flagged s (bit_or s.db.flags pci_scanned) h

pub pci_scan-Ends :
    {S : Type 0} (ecam : Ecam S) (P : Pci S → Type 0)
    → Keeps ecam P
    → ((s : Pci S) (f : ℕ) → P s → P (record s { db = record s.db { flags = f } }))
    → (bus : ℕ) (s : Pci S) → bus < 256
    → P s
    → Ends P (pci_scan ecam bus s)
unfolding pci_scan
pci_scan-Ends ecam P keeps flagged bus s on_bus h =
    if_intro (not (bit_and s.db.flags pci_scanned == 0)) (Ends P) h (
      mark_scanned-Ends ecam P flagged (do_pci_scan ecam 256 bus s)
        (do_pci_scan-Ends ecam P keeps 256 bus s on_bus (omega arith) h))
