-- ===== src/Pci/Bars/Rule.antt =====
-- A rule for the loop over the base address registers.
use embed_template.Prelude.{
  ℕ, zero, suc, ◌-◌, ◌<◌, ◌≡◌, Bool-cases, inl, inr, ltb, ◌==◌, ltb→lt, length, set, length-set,
  ◌∙◌, ◌&&◌, bit_and,
}
use embed_template.Pci.Data.{Ecam}
use embed_template.Pci.Bars.{
  Bars, read_bar, write_bar, all_ones, no_memory, is_64bit, bar_offset, no_more_bars, skip_bar,
  probe_pair, probe_single, probe_bar, probe_bars,
}

module _ {S : Type 0} (ecam : Ecam S) (bus dev func : ℕ) where
  -- What the probing of one register and the end of the list keep, the loop keeps.
  pub probe_bars_rule :
      (P : Bars S → Type 0)
      → ((n original i : ℕ) (s : Bars S) → P s → P (no_more_bars ecam bus dev func n original i s))
      → ((i : ℕ) (s : Bars S)
          → i < 6
          → P s
          → P (probe_bar ecam bus dev func (read_bar ecam bus dev func s.hw (bar_offset i)) i s).0)
      → (fuel i : ℕ) (s : Bars S) → P s
      → P (probe_bars ecam bus dev func fuel i s)
  unfolding probe_bars
  probe_bars_rule P done step zero i s h = h
  probe_bars_rule P done step (suc fuel) i s h =
      let original = read_bar ecam bus dev func s.hw (bar_offset i) in
      let probed = probe_bar ecam bus dev func original i s in
      elim (Bool-cases (ltb i 6)) [
        | inr over ↦ rw (over, probe_bars) h
        | inl more ↦
            rw (more, probe_bars)
              (elim (Bool-cases (original == 0)) [
                | inl last ↦ rw last (done (6 - i) original i s h)
                | inr used ↦ rw used (
                    probe_bars_rule P done step fuel probed.1 probed.0
                      (step i s (ltb→lt i 6 more) h))
              ])
      ]

  -- The arrays keep their lengths.
  pub record Sized (s : Bars S) : Type 0 where
    pub sizes : length s.bar_size ≡ 6
    pub addresses : length s.bar_address ≡ 6

  no_more_bars-Sized :
      (n original i : ℕ) (s : Bars S)
      → Sized s
      → Sized (no_more_bars ecam bus dev func n original i s)
  unfolding no_more_bars
  no_more_bars-Sized zero original i s z = z
  no_more_bars-Sized (suc n) original i s z = no_more_bars-Sized n original (suc i) _ (record {
    sizes = length-set s.bar_size i 0 ∙ z.sizes;
    addresses = length-set s.bar_address i (bit_and original 0xFFFFFFF0) ∙ z.addresses;
  })

  skip_bar-Sized :
      (hw : S) (original i : ℕ) (s : Bars S)
      → Sized s
      → Sized (skip_bar ecam bus dev func hw original i s).0
  unfolding skip_bar
  skip_bar-Sized hw original i s z = record {
    sizes = length-set s.bar_size i 0 ∙ z.sizes;
    addresses = z.addresses;
  }

  probe_pair-Sized :
      (hw : S) (original read_back i : ℕ) (s : Bars S)
      → Sized s
      → Sized (probe_pair ecam bus dev func hw original read_back i s).0
  unfolding probe_pair
  probe_pair-Sized hw original read_back i s z = record {
    sizes = length-set (set s.bar_size i _) (suc i) 0 ∙ length-set s.bar_size i _ ∙ z.sizes;
    addresses = length-set s.bar_address i _ ∙ z.addresses;
  }

  probe_single-Sized :
      (hw : S) (original read_back i : ℕ) (s : Bars S)
      → Sized s
      → Sized (probe_single ecam bus dev func hw original read_back i s).0
  unfolding probe_single
  probe_single-Sized hw original read_back i s z = record {
    sizes = length-set s.bar_size i _ ∙ z.sizes;
    addresses = length-set s.bar_address i _ ∙ z.addresses;
  }

  probe_bar-Sized :
      (original i : ℕ) (s : Bars S) → Sized s → Sized (probe_bar ecam bus dev func original i s).0
  unfolding probe_bar
  probe_bar-Sized original i s z =
      let hw = write_bar ecam bus dev func s.hw (bar_offset i) all_ones in
      let read_back = read_bar ecam bus dev func hw (bar_offset i) in
      elim (Bool-cases (no_memory read_back)) [
        | inl empty ↦ rw empty (skip_bar-Sized hw original i s z)
        | inr memory ↦ rw memory (elim (Bool-cases (is_64bit read_back && ltb i 5)) [
          | inl pair ↦ rw pair (probe_pair-Sized hw original read_back i s z)
          | inr single ↦ rw single (probe_single-Sized hw original read_back i s z)
        ])
      ]

  pub probe_bars-Sized :
      (fuel i : ℕ) (s : Bars S) → Sized s → Sized (probe_bars ecam bus dev func fuel i s)
  probe_bars-Sized =
      probe_bars_rule Sized no_more_bars-Sized
        (λ i s lt z. probe_bar-Sized (read_bar ecam bus dev func s.hw (bar_offset i)) i s z)
