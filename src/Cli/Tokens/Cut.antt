-- ===== src/Cli/Tokens/Cut.antt =====
-- The null bytes that the loop stores.
use embed_template.Prelude.{
  ℕ, zero, suc, ◌+◌, ◌≤◌, ◌<◌, ◌≡◌, ◌∙◌, refl, ap, ap₂, arith, true, false, ltb, leb, ◌==◌,
  if◌then◌else◌, List, get_or, set, Bool-cases, inl, inr, ltb→lt, lt→ltb, le→ltb,
}
use embed_template.Cli.Tokens.{Tokens, take_space}
use embed_template.Cli.Tokens.Words.{ends, cut}
use embed_template.Cli.Tokens.Scan.{scan}
use embed_template.Cli.Tokens.Found.{take_space-token}

take_space_open :
    (i : ℕ) (t : Tokens)
    → t.token < i
    → (take_space i t).str ≡ set t.str i 0 × ((take_space i t).num_tkns ≡ t.num_tkns + 1)
unfolding take_space
take_space_open i t lt = rw (lt→ltb t.token i lt) (refl, refl)

take_space_closed :
    (i : ℕ) (t : Tokens)
    → i ≤ t.token
    → (take_space i t).str ≡ t.str × ((take_space i t).num_tkns ≡ t.num_tkns)
unfolding take_space
take_space_closed i t le = rw (le→ltb t.token i le) (refl, refl)

resume_text :
    (q : ℕ) (es : List ℕ) (taken looped : Tokens)
    → taken.num_tkns + q ≡ 4
    → ((q' : ℕ) → q ≡ suc q' → looped.str ≡ cut (suc q') es taken.str)
    → (if leb 4 taken.num_tkns then taken else looped).str ≡ cut q es taken.str
unfolding cut
resume_text zero es taken looped e go =
    let full : leb 4 taken.num_tkns ≡ true = ground arith in rw full
resume_text (suc q) es taken looped e go =
    let more : leb 4 taken.num_tkns ≡ false = ground arith in rw more (go q refl)

pub scan-cut :
    (str : List ℕ) (n i q : ℕ) (t : Tokens)
    → t.num_tkns + suc q ≡ 4
    → t.token ≤ i
    → (scan str n i t).str ≡ cut (suc q) (ends str n i (ltb t.token i)) t.str
unfolding scan ends cut
scan-cut str zero i q t few le = refl
scan-cut str (suc n) i q t few le =
    let taken = take_space i t in
    let next = take_space-token i t in
    let closed : ltb taken.token (suc i) ≡ false =
      le→ltb taken.token (suc i) (omega (arith, next)) in
    elim (Bool-cases (get_or str i 0 == 32)) [
      | inr letter ↦ rw letter (
          scan-cut str n (suc i) q t few (omega arith)
          ∙ ap (λ b. cut (suc q) (ends str n (suc i) b) t.str)
              (lt→ltb t.token (suc i) (omega arith)))
      | inl space ↦ rw space (elim (Bool-cases (ltb t.token i)) [
        | inr over ↦
            let (text, number) = take_space_closed i t (ground arith) in
            let room : leb 4 taken.num_tkns ≡ false = ground (arith, number) in
            rw (over, room)
              (scan-cut str n (suc i) q taken (omega (arith, number)) (omega (arith, next))
                ∙ ap₂ (λ b r. cut (suc q) (ends str n (suc i) b) r) closed text)
        | inl open_word ↦
            let (text, number) = take_space_open i t (ltb→lt _ _ open_word) in
            rw open_word (
              resume_text q (ends str n (suc i) false) taken (scan str n (suc i) taken)
                (omega (arith, number))
                (λ q' e.
                  scan-cut str n (suc i) q' taken (omega (arith, number)) (omega (arith, next))
                  ∙ ap (λ b. cut (suc q') (ends str n (suc i) b) taken.str) closed)
              ∙ ap (cut q (ends str n (suc i) false)) text)
      ])
    ]
