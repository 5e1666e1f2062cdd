-- ===== src/Cli/Tokens/Found.antt =====
-- The tokens that the loop finds.
use embed_template.Prelude.{
  ℕ, zero, suc, ◌+◌, ◌%◌, ◌^◌, ◌≤◌, ◌<◌, ◌≡◌, ◌∙◌, refl, ap, sym, arith, true, false, ◌&&◌, ltb,
  leb, ◌==◌, if◌then◌else◌, List, [], ◌∷◌, ◌++◌, length, length-append, get_or, set, Bool-cases,
  inl, inr, ltb→lt, lt→ltb, le→ltb,
}
use mathlib.Core.List.{append-nil, append_assoc}
use embed_template.Cli.Tokens.{Tokens, take_space}
use embed_template.Cli.Tokens.Words.{starts, pad}
use embed_template.Cli.Tokens.Scan.{scan}

set-pad :
    (n : ℕ) (ts : List ℕ) (v : ℕ)
    → length ts < n
    → set (pad n ts) (length ts) v ≡ pad n (ts ++ v ∷ [])
unfolding pad
set-pad zero ts v h = absurd (omega arith)
set-pad (suc n) [] v h = refl
set-pad (suc n) (t ∷ ts) v h = ap (λ r. t ∷ r) (set-pad n ts v (omega arith))

pad-append : (n : ℕ) (ts rest : List ℕ) → length ts ≡ n → pad n (ts ++ rest) ≡ pad n ts
unfolding pad
pad-append zero ts rest h = refl
pad-append (suc n) [] rest h = absurd (omega arith)
pad-append (suc n) (t ∷ ts) rest h = ap (λ r. t ∷ r) (pad-append n ts rest (omega arith))

-- The four bytes when the loop is done.
abbrev pub finished : ℕ → Tokens → List ℕ
finished len t =
    if ltb t.num_tkns 4 && ltb t.token len then set t.tkns t.num_tkns (t.token % 2 ^ 8) else t.tkns

-- The loop with the words that it has found.
pub record Found (ts : List ℕ) (t : Tokens) : Type 0 where
  pub tokens : t.tkns ≡ pad 4 ts
  pub number : t.num_tkns ≡ length ts

-- The word that is open at `i`, and those that start behind it.
abbrev pub still : List ℕ → ℕ → ℕ → ℕ → List ℕ
still str n i token = if ltb token i then token ∷ starts str n i false else starts str n i true

-- A space behind a word adds the word, and a space behind a space adds nothing.
take_space-Found :
    (i : ℕ) (ts : List ℕ) (t : Tokens)
    → i < 256
    → Found ts t
    → length ts < 4
    → t.token < i
    → Found (ts ++ t.token ∷ []) (take_space i t)
unfolding take_space
take_space-Found i ts t small found few lt =
    let same : t.token % 2 ^ 8 ≡ t.token = omega arith in
    rw (lt→ltb t.token i lt) (record {
      tokens = rw (same, found.tokens, found.number) (set-pad 4 ts t.token few);
      number = omega (arith, found.number, length-append {0} ts (t.token ∷ []));
    })

take_space-Found_same :
    (i : ℕ) (ts : List ℕ) (t : Tokens) → Found ts t → i ≤ t.token → Found ts (take_space i t)
unfolding take_space
take_space-Found_same i ts t found le =
    rw (le→ltb t.token i le) (record { tokens = found.tokens; number = found.number })

pub take_space-token : (i : ℕ) (t : Tokens) → (take_space i t).token ≡ i + 1
unfolding take_space
take_space-token i t = ground arith

finished-eq :
    (len : ℕ) (ts : List ℕ) (t : Tokens)
    → len ≤ 32
    → Found ts t
    → length ts < 4
    → finished len t ≡ pad 4 (ts ++ (if ltb t.token len then t.token ∷ [] else []))
finished-eq len ts t small found few =
    rw (found.number, found.tokens, lt→ltb (length ts) 4 few)
      (elim (Bool-cases (ltb t.token len)) [
        | inl open_word ↦
            let same : t.token % 2 ^ 8 ≡ t.token = omega (arith, ltb→lt _ _ open_word) in
            rw (open_word, same) (set-pad 4 ts t.token few)
        | inr over ↦ rw (over, append-nil ts)
      ])

-- A letter at `i` opens a word, or goes on with one.
pub still_letter :
    (str : List ℕ) (n i token : ℕ)
    → token ≤ i
    → (get_or str i 0 == 32) ≡ false
    → still str n (suc i) token ≡ still str (suc n) i token
unfolding starts
still_letter str n i token le letter = rw letter (elim (Bool-cases (ltb token i)) [
  | inl open_word ↦ rw (open_word, lt→ltb token (suc i) (omega (arith, le)))
  | inr fresh ↦
      let same : token ≡ i = ground arith in
      rw (fresh, lt→ltb token (suc i) (omega (arith, le)), same)
])

still_space :
    (str : List ℕ) (n i token : ℕ)
    → token ≡ i + 1
    → still str n (suc i) token ≡ starts str n (suc i) true
still_space str n i token e = rw (le→ltb token (suc i) (omega (arith, e)))

-- The loop stops at the fourth token, and what follows is not looked at.
resume :
    (len : ℕ) (ts rest : List ℕ) (t looped : Tokens)
    → Found ts t
    → length ts ≤ 4
    → (length ts < 4 → finished len looped ≡ pad 4 (ts ++ rest))
    → finished len (if leb 4 t.num_tkns then t else looped) ≡ pad 4 (ts ++ rest)
resume len ts rest t looped found few go = elim (Bool-cases (leb 4 t.num_tkns)) [
  | inl full ↦
      let four : length ts ≡ 4 = ground (arith, found.number) in
      let stop : ltb t.num_tkns 4 ≡ false = ground arith in
      rw (full, stop) (found.tokens ∙ sym (pad-append 4 ts rest four))
  | inr more ↦ rw more (go (ground (arith, found.number)))
]

-- The words that the loop finds from `i` on.
pub scan-finished :
    (str : List ℕ) (n i len : ℕ) (ts : List ℕ) (t : Tokens)
    → i + n ≡ len
    → len ≤ 32
    → Found ts t
    → length ts < 4
    → t.token ≤ i
    → finished len (scan str n i t) ≡ pad 4 (ts ++ still str n i t.token)
unfolding scan starts
scan-finished str zero i len ts t e small found few le =
    finished-eq len ts t small found few
    ∙ ap (λ j. pad 4 (ts ++ (if ltb t.token j then t.token ∷ [] else []))) (omega arith)
scan-finished str (suc n) i len ts t e small found few le =
    elim (Bool-cases (get_or str i 0 == 32)) [
      | inr letter ↦
          let skip : scan str (suc n) i t ≡ scan str n (suc i) t = rw letter in
          ap (finished len) skip
          ∙ scan-finished str n (suc i) len ts t (omega arith) small found few (omega arith)
          ∙ ap (λ r. pad 4 (ts ++ r)) (still_letter str n i t.token le letter)
      | inl space ↦
          let next = take_space-token i t in
          let rest : List ℕ = starts str n (suc i) true in
          let after : (ts' : List ℕ)
              → Found ts' (take_space i t)
              → length ts' < 4
              → finished len (scan str n (suc i) (take_space i t)) ≡ pad 4 (ts' ++ rest) =
            λ ts' found' few'.
              scan-finished str n (suc i) len ts' (take_space i t) (omega arith) small found' few'
                (omega (arith, next))
              ∙ ap (λ r. pad 4 (ts' ++ r)) (still_space str n i (take_space i t).token next) in
          rw space (elim (Bool-cases (ltb t.token i)) [
            | inl open_word ↦
                let found' =
                  take_space-Found i ts t (omega arith) found few (ltb→lt _ _ open_word) in
                rw open_word (
                  resume len (ts ++ t.token ∷ []) rest (take_space i t) _ found'
                    (omega (arith, length-append {0} ts (t.token ∷ [])))
                    (after (ts ++ t.token ∷ []) found')
                  ∙ ap (pad 4) (append_assoc ts (t.token ∷ []) rest))
            | inr over ↦
                let found' = take_space-Found_same i ts t found (ground arith) in
                rw over
                  (resume len ts rest (take_space i t) _ found' (omega arith) (after ts found'))
          ])
    ]
