-- ===== src/Pci/Bars/Restore.antt =====
-- The probing of the registers leaves the configuration space as it was, on hardware that
-- documents its base address registers as PCI does.
use embed_template.Prelude.{
  ℕ, zero, suc, ◌+◌, ◌%◌, ◌^◌, ◌<◌, ◌≡◌, ◌≢◌, ap, sym, refl, ◌∙◌, arith, ltb, Bool-cases, ◌&&◌, inl,
  inr, ℕ_discrete,
}
use mathlib.Core.Path.{subst}
use embed_template.Pci.Data.{Ecam}
use embed_template.Pci.Bars.Rule.{probe_bars_rule}
use embed_template.Pci.Config.{address_offset}
use embed_template.Pci.Config.Offset.{address_offset-inj}
use embed_template.Pci.Bars.{
  Bars, read_bar, write_bar, all_ones, bar_offset, no_more_bars, skip_bar, probe_pair, probe_single,
  probe_bar, probe_bars, no_memory, is_64bit,
}

-- What PCI documents of a base address register: it holds the bits written that it implements,
-- `settle`, the others are fixed, and a store to it changes no other register.
pub record BarLaws {S : Type 0} (ecam : Ecam S) (IsBar : ℕ → Type 0) (settle : ℕ → ℕ → ℕ)
    : Type 0 where
  pub stored : (hw : S) (a v : ℕ) → IsBar a → ecam.load32 (ecam.store32 hw a v) a ≡ settle a v
  pub settled : (hw : S) (a : ℕ) → IsBar a → settle a (ecam.load32 hw a) ≡ ecam.load32 hw a
  pub kept :
      (hw : S) (a b v : ℕ)
      → IsBar a
      → a ≢ b
      → ecam.load32 (ecam.store32 hw a v) b ≡ ecam.load32 hw b

-- Every register reads the same.
abbrev pub Same : {S : Type 0} → Ecam S → S → S → Type 0
Same ecam hw hw' = (a : ℕ) → ecam.load32 hw' a ≡ ecam.load32 hw a

module _ {S : Type 0} (ecam : Ecam S) (IsBar : ℕ → Type 0) (settle : ℕ → ℕ → ℕ)
    (laws : BarLaws ecam IsBar settle) where
  -- The store of the old value, when nothing but the register has changed since.
  put_back :
      (hw hw' : S) (a v c : ℕ)
      → IsBar a
      → v ≡ ecam.load32 hw a
      → (a ≢ c → ecam.load32 hw' c ≡ ecam.load32 hw c)
      → ecam.load32 (ecam.store32 hw' a v) c ≡ ecam.load32 hw c
  put_back hw hw' a v c ha e other = elim (ℕ_discrete a c) [
    | yes same ↦
        subst (λ t. ecam.load32 (ecam.store32 hw' a v) t ≡ ecam.load32 hw t) same
          (laws.stored hw' a v ha ∙ ap (settle a) e ∙ laws.settled hw a ha)
    | no differ ↦ laws.kept hw' a c v ha differ ∙ other differ
  ]

  restore_one :
      (hw : S) (a v : ℕ)
      → IsBar a
      → Same ecam hw (ecam.store32 (ecam.store32 hw a v) a (ecam.load32 hw a))
  restore_one hw a v ha c =
      put_back hw (ecam.store32 hw a v) a (ecam.load32 hw a) c ha refl (laws.kept hw a c v ha)

  restore_two :
      (hw : S) (a b v w : ℕ)
      → IsBar a
      → IsBar b
      → a ≢ b
      → let ones = ecam.store32 hw a v in
        Same ecam hw (
          ecam.store32
            (ecam.store32 (ecam.store32 ones b w) a (ecam.load32 hw a))
            b
            (ecam.load32 ones b))
  restore_two hw a b v w ha hb ne c =
      let ones = ecam.store32 hw a v in
      let low = ecam.store32 (ecam.store32 ones b w) a (ecam.load32 hw a) in
      put_back hw low b (ecam.load32 ones b) c hb (laws.kept hw a b v ha ne) (λ nb.
        put_back hw (ecam.store32 ones b w) a (ecam.load32 hw a) c ha refl
          (λ na. laws.kept ones b c w hb nb ∙ laws.kept hw a c v ha na))

  module _ (bus dev func : ℕ) (on_bus : dev < 32) (in_dev : func < 8)
      (bars : (i : ℕ) → i < 6 → IsBar (address_offset 0xFFC bus dev func (bar_offset i))) where
    upper_offset : (i : ℕ) → i < 5 → (bar_offset i + 4) % 2 ^ 8 ≡ bar_offset (suc i)
    upper_offset i h = omega arith

    pair-Same :
        (i : ℕ) (hw : S)
        → i < 5
        → let a = address_offset 0xFFC bus dev func (bar_offset i) in
          let b = address_offset 0xFFC bus dev func ((bar_offset i + 4) % 2 ^ 8) in
          let ones = ecam.store32 hw a all_ones in
          Same ecam hw (
            ecam.store32
              (ecam.store32 (ecam.store32 ones b all_ones) a (ecam.load32 hw a))
              b
              (ecam.load32 ones b))
    pair-Same i hw h =
        let o = (bar_offset i + 4) % 2 ^ 8 in
        let hb : IsBar (address_offset 0xFFC bus dev func o) =
          subst (λ t. IsBar (address_offset 0xFFC bus dev func t)) (sym (upper_offset i h))
            (bars (suc i) (omega arith)) in
        restore_two hw (address_offset 0xFFC bus dev func (bar_offset i))
          (address_offset 0xFFC bus dev func o) all_ones all_ones (bars i (omega arith)) hb
          (λ e.
            let (_, _, _, dword) =
              address_offset-inj bus dev func (bar_offset i) bus dev func o on_bus on_bus in_dev
                in_dev (omega arith) (omega arith) e in
            omega arith)

    probe_bar-Same :
        (i : ℕ) (s : Bars S)
        → i < 6
        → let original = read_bar ecam bus dev func s.hw (bar_offset i) in
          Same ecam s.hw (probe_bar ecam bus dev func original i s).0.hw
    unfolding probe_bar skip_bar probe_pair probe_single read_bar write_bar
    probe_bar-Same i s h =
        let a = address_offset 0xFFC bus dev func (bar_offset i) in
        let hw₁ = ecam.store32 s.hw a all_ones in
        let original = ecam.load32 s.hw a in
        let read_back = ecam.load32 hw₁ a in
        let one = restore_one s.hw a all_ones (bars i h) in
        elim (Bool-cases (no_memory read_back)) [
          | inl empty ↦ rw empty one
          | inr memory ↦ rw memory (elim (Bool-cases (is_64bit read_back && ltb i 5)) [
            | inl pair ↦ rw pair (pair-Same i s.hw (ground arith))
            | inr single ↦ rw single one
          ])
        ]

    no_more_bars-Same :
        (n original i : ℕ) (hw : S) (s : Bars S)
        → Same ecam hw s.hw
        → Same ecam hw (no_more_bars ecam bus dev func n original i s).hw
    unfolding no_more_bars
    no_more_bars-Same zero original i hw s h = h
    no_more_bars-Same (suc n) original i hw s h = no_more_bars-Same n original (suc i) hw _ h

    -- After the loop every register reads as before it.
    pub probe_bars-Same :
        (fuel i : ℕ) (s : Bars S) → Same ecam s.hw (probe_bars ecam bus dev func fuel i s).hw
    probe_bars-Same fuel i s =
        probe_bars_rule ecam bus dev func (λ t. Same ecam s.hw t.hw)
          (λ n original j t. no_more_bars-Same n original j s.hw t)
          (λ j t lt h c. probe_bar-Same j t lt c ∙ h c) fuel i s (λ c. refl)
