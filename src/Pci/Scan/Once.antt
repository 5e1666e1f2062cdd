-- ===== src/Pci/Scan/Once.antt =====
-- The flag that keeps the enumeration from running twice.
use embed_template.Prelude.{
  ℕ, ◌≡◌, ◌==◌, ◌∙◌, ap, arith, bit_and, bit_or, some, none, Option, false, Bool-cases, inl, inr,
}
use mathlib.Core.Path.{subst}
use embed_template.Prelude.Bits.{bit_and_test, bit-or, bit-two_pow}
use embed_template.Pci.Data.{Ecam, Pci}
use embed_template.Pci.Scan.{pci_scan, mark_scanned, pci_scanned, do_pci_scan}

flag_set : (f : ℕ) → (bit_and (bit_or f pci_scanned) pci_scanned == 0) ≡ false
flag_set f =
    bit_and_test 15 (bit_or f pci_scanned)
    ∙ ground (arith, bit-or f pci_scanned 15, bit-two_pow 15 15)

module _ {S : Type 0} (ecam : Ecam S) where
  skips :
      (bus : ℕ) (s : Pci S)
      → (bit_and s.db.flags pci_scanned == 0) ≡ false
      → pci_scan ecam bus s ≡ some s
  unfolding pci_scan
  skips bus s set = rw set

  mark_scanned-skips :
      (bus : ℕ) (r : Option (Pci S)) {s : Pci S}
      → mark_scanned ecam r ≡ some s
      → pci_scan ecam bus s ≡ some s
  unfolding mark_scanned
  mark_scanned-skips bus none e = cc
  mark_scanned-skips bus (some t) {s} e =
      skips bus s (ap (λ t. bit_and t pci_scanned == 0) (flags_of e) ∙ flag_set t.db.flags)
    where
      flags_of : {a b : Pci S} → some a ≡ some b → b.db.flags ≡ a.db.flags
      flags_of e = cc

  -- After an enumeration that returned, another one of any bus changes nothing: neither the
  -- database, however the hardware has changed, nor the hardware.
  pub pci_scan-twice :
      (bus bus' : ℕ) (s : Pci S) {s' : Pci S}
      → pci_scan ecam bus s ≡ some s'
      → pci_scan ecam bus' s' ≡ some s'
  unfolding pci_scan
  pci_scan-twice bus bus' s {s'} e = elim (Bool-cases (bit_and s.db.flags pci_scanned == 0)) [
    | inl new ↦ mark_scanned-skips bus' (do_pci_scan ecam 256 bus s) (rw new at e)
    | inr set ↦
        let same : s ≡ s' = cc (rw set at e) in
        subst (λ t. pci_scan ecam bus' t ≡ some t) same (skips bus' s set)
  ]
