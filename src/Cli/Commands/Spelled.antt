-- ===== src/Cli/Commands/Spelled.antt =====
-- The words of a line as strings in the text that cli_tokenize leaves.
use embed_template.Prelude.{
  ℕ, zero, suc, ◌+◌, ◌-◌, ◌<◌, ◌≡◌, sym, arith, Bool, true, false, ◌==◌, List, [], ◌∷◌, get_or, set,
  Bool-cases, inl, inr,
}
use mathlib.Core.Path.{subst}
use embed_template.Cli.Tokens.Words.{starts, ends, cut}
use embed_template.Cli.Commands.{equal_string}
use embed_template.Cli.Commands.Strings.{
  word_from, same_text, IsPlain, memory, IsRest, next-IsRest, cut-IsRest, letter_kept, ends-letter,
  ends-space_open, ends-space, word_from-letter, word-equal,
}

-- What is known of a word that starts at `i`: its string in memory.
pub record IsSpelled (mem : ℕ → ℕ) (str : List ℕ) (len i : ℕ) : Type 0 where
  pub below : i < len
  pub first : mem i ≡ get_or (word_from str (len - i) i) 0 0
  pub equal :
      (lit : List ℕ)
      → IsPlain lit
      → equal_string mem i lit ≡ same_text (word_from str (len - i) i) lit

-- The predicate at the first `q` items.
unfoldable pub First : (ℕ → Type 0) → ℕ → List ℕ → Type 0
First P zero is = Unit {0}
First P (suc q) [] = Unit {0}
First P (suc q) (i ∷ is) = P i × First P q is

word-IsSpelled :
    (behind : ℕ → ℕ) (q : ℕ) (str : List ℕ) (n i : ℕ) (t : List ℕ)
    → IsRest str (i + suc n) i t
    → get_or str i 0 == 32 ≡ false
    → IsSpelled (memory behind (cut (suc q) (ends str n (suc i) true) t)) str (i + suc n) i
word-IsSpelled behind q str n i t v letter =
    let left : i + suc n - i ≡ suc n = omega arith in
    let same = sym (ends-letter str n i true letter) in
    record {
      below = omega arith;
      first = rw (left, word_from-letter str n i letter) (letter_kept behind (suc q) str n i t v);
      equal = λ lit p. rw (left, same) (word-equal behind q str (suc n) i t lit p v);
    }

starts-space :
    (str : List ℕ) (n i : ℕ) (fresh : Bool)
    → get_or str i 0 == 32 ≡ true
    → starts str (suc n) i fresh ≡ starts str n (suc i) true
unfolding starts
starts-space str n i fresh space = rw space

starts-letter :
    (str : List ℕ) (n i : ℕ)
    → get_or str i 0 == 32 ≡ false
    → (starts str (suc n) i true ≡ i ∷ starts str n (suc i) false)
      × (starts str (suc n) i false ≡ starts str n (suc i) false)
unfolding starts
starts-letter str n i letter = (rw letter, rw letter)

First-nil : (P : ℕ → Type 0) (q : ℕ) → First P q []
unfolding First
First-nil P zero = tt
First-nil P (suc q) = tt

First-cons :
    (P : ℕ → Type 0) (q i : ℕ) (is : List ℕ) → P i → First P q is → First P (suc q) (i ∷ is)
unfolding First
First-cons P q i is p ps = (p, ps)

First-zero : (P : ℕ → Type 0) (is : List ℕ) → First P 0 is
unfolding First
First-zero P is = tt

-- The first `q` words from `i` on are there as strings, where as many ends are cut, and one more
-- if a word is open.
abbrev pub AllSpelled : (ℕ → ℕ) → ℕ → List ℕ → ℕ → ℕ → Bool → List ℕ → ℕ → Type 0
AllSpelled behind q str n i true t len =
    First (IsSpelled (memory behind (cut q (ends str n i false) t)) str len) q (starts str n i true)
AllSpelled behind q str n i false t len =
    First (IsSpelled (memory behind (cut (suc q) (ends str n i true) t)) str len) q
      (starts str n i false)

none_spelled :
    (behind : ℕ → ℕ) (q : ℕ) (str : List ℕ) (i : ℕ) (fresh : Bool) (t : List ℕ) (len : ℕ)
    → AllSpelled behind q str 0 i fresh t len
unfolding starts
none_spelled behind q str i true t len = First-nil _ q
none_spelled behind q str i false t len = First-nil _ q

no_words :
    (behind : ℕ → ℕ) (str : List ℕ) (n i : ℕ) (fresh : Bool) (t : List ℕ) (len : ℕ)
    → AllSpelled behind 0 str n i fresh t len
no_words behind str n i true t len = First-zero _ _
no_words behind str n i false t len = First-zero _ _

pub starts-IsSpelled :
    (behind : ℕ → ℕ) (q : ℕ) (str : List ℕ) (n i : ℕ) (fresh : Bool) (t : List ℕ)
    → IsRest str (i + n) i t
    → AllSpelled behind q str n i fresh t (i + n)
unfolding cut
starts-IsSpelled behind zero str n i fresh t v = no_words behind str n i fresh t (i + n)
starts-IsSpelled behind (suc q) str zero i fresh t v =
    none_spelled behind (suc q) str i fresh t (i + 0)
starts-IsSpelled behind (suc q) str (suc n) i true t v =
    let len : suc i + n ≡ i + suc n = omega arith in
    elim (Bool-cases (get_or str i 0 == 32)) [
      | inl space ↦
          rw (starts-space str n i true space, ends-space str n i space)
            (subst (AllSpelled behind (suc q) str n (suc i) true t) len
              (starts-IsSpelled behind (suc q) str n (suc i) true t (next-IsRest str i n t v)))
      | inr letter ↦
          rw ((starts-letter str n i letter).0, ends-letter str n i false letter)
            (First-cons _ q i _ (word-IsSpelled behind q str n i t v letter) (
              subst (AllSpelled behind q str n (suc i) false t) len
                (starts-IsSpelled behind q str n (suc i) false t (next-IsRest str i n t v))))
    ]
starts-IsSpelled behind (suc q) str (suc n) i false t v =
    let len : suc i + n ≡ i + suc n = omega arith in
    elim (Bool-cases (get_or str i 0 == 32)) [
      | inl space ↦
          rw (starts-space str n i false space, ends-space_open str n i space)
            (subst (AllSpelled behind (suc q) str n (suc i) true (set t i 0)) len (
              starts-IsSpelled behind (suc q) str n (suc i) true (set t i 0)
                (cut-IsRest str i n t (next-IsRest str i n t v))))
      | inr letter ↦
          rw ((starts-letter str n i letter).1, ends-letter str n i true letter)
            (subst (AllSpelled behind (suc q) str n (suc i) false t) len
              (starts-IsSpelled behind (suc q) str n (suc i) false t (next-IsRest str i n t v)))
    ]
