-- ===== src/Cli/Commands/Strings.antt =====
-- The strings of the text that cli_tokenize leaves.
use embed_template.Prelude.{
  ℕ, zero, suc, ◌+◌, ◌≤◌, ◌<◌, ◌≡◌, ◌∙◌, refl, ap, ap₂, arith, Bool, true, false, ◌&&◌, ◌==◌,
  if◌then◌else◌, List, [], ◌∷◌, length, get_or, set, length-set, get_or-set_self, get_or-set_ne,
  Bool-cases, inl, inr,
}
use embed_template.Cli.Tokens.Words.{ends, cut}
use embed_template.Cli.Commands.{equal_string}

-- The word at place `i` of the line, of which `n` characters are left.
unfoldable pub word_from : List ℕ → ℕ → ℕ → List ℕ
word_from str zero i = []
word_from str (suc n) i =
    if get_or str i 0 == 32 then [] else get_or str i 0 ∷ word_from str n (suc i)

-- Equality of texts.
unfoldable pub same_text : List ℕ → List ℕ → Bool
same_text [] [] = true
same_text [] (c ∷ cs) = false
same_text (w ∷ ws) [] = false
same_text (w ∷ ws) (c ∷ cs) = w == c && same_text ws cs

-- A text without null bytes.
unfoldable pub IsPlain : List ℕ → Type 0
IsPlain [] = Unit {0}
IsPlain (c ∷ cs) = (0 < c) × IsPlain cs

-- The text with what lies behind it.
abbrev pub memory : (ℕ → ℕ) → List ℕ → ℕ → ℕ
memory behind text i = get_or text i (behind i)

-- Places before the ends are left alone.
cut-before :
    (q : ℕ) (str : List ℕ) (n i : ℕ) (b : Bool) (t : List ℕ) (j d : ℕ)
    → j < i
    → get_or (cut q (ends str n i b) t) j d ≡ get_or t j d
unfolding cut ends
cut-before zero str n i b t j d h = refl
cut-before (suc q) str zero i b t j d h = refl
cut-before (suc q) str (suc n) i b t j d h = elim (Bool-cases (get_or str i 0 == 32)) [
  | inr letter ↦ rw letter (cut-before (suc q) str n (suc i) true t j d (omega arith))
  | inl space ↦ elim (Bool-cases b) [
    | inl open_word ↦
        rw (space, open_word)
          (cut-before q str n (suc i) false (set t i 0) j d (omega arith)
            ∙ get_or-set_ne t i j 0 d (λ e. omega arith))
    | inr closed ↦ rw (space, closed) (cut-before (suc q) str n (suc i) false t j d (omega arith))
  ]
]

-- A text that has the characters of a line of `len` from place `i` on, and a null byte behind
-- them.
pub record IsRest (str : List ℕ) (len i : ℕ) (t : List ℕ) : Type 0 where
  pub room : len < length t
  pub closed : get_or t len 0 ≡ 0
  pub kept : (j : ℕ) → i ≤ j → j < len → get_or t j 0 ≡ get_or str j 0
  pub plain : (j : ℕ) → i ≤ j → j < len → 0 < get_or str j 0

pub get_or-any : (t : List ℕ) (j d d' : ℕ) → j < length t → get_or t j d ≡ get_or t j d'
get_or-any [] j d d' h = absurd (omega arith)
get_or-any (x ∷ t) zero d d' h = refl
get_or-any (x ∷ t) (suc j) d d' h = get_or-any t j d d' (omega arith)

pub get_or-beyond : (t : List ℕ) (j d : ℕ) → length t ≤ j → get_or t j d ≡ d
get_or-beyond [] j d h = refl
get_or-beyond (x ∷ t) zero d h = absurd (omega arith)
get_or-beyond (x ∷ t) (suc j) d h = get_or-beyond t j d (omega arith)

pub length-cut : (q : ℕ) (es t : List ℕ) → length (cut q es t) ≡ length t
unfolding cut
length-cut zero es t = refl
length-cut (suc q) [] t = refl
length-cut (suc q) (e ∷ es) t = length-cut q es (set t e 0) ∙ length-set t e 0

pub next-IsRest :
    (str : List ℕ) (i n : ℕ) (t : List ℕ)
    → IsRest str (i + suc n) i t
    → IsRest str (suc i + n) (suc i) t
next-IsRest str i n t v = record {
  room = omega (arith, v.room);
  closed = ap (λ j. get_or t j 0) {x = suc i + n} {y = i + suc n} (omega arith) ∙ v.closed;
  kept = λ j le lt. v.kept j (omega arith) (omega arith);
  plain = λ j le lt. v.plain j (omega arith) (omega arith);
}

pub cut-IsRest :
    (str : List ℕ) (i n : ℕ) (t : List ℕ)
    → IsRest str (suc i + n) (suc i) t
    → IsRest str (suc i + n) (suc i) (set t i 0)
cut-IsRest str i n t v = record {
  room = omega (arith, v.room, length-set t i 0);
  closed = get_or-set_ne t i (suc i + n) 0 0 (λ e. omega arith) ∙ v.closed;
  kept = λ j le lt. get_or-set_ne t i j 0 0 (λ e. omega arith) ∙ v.kept j le lt;
  plain = v.plain;
}

-- A null byte is the end of the string.
ended :
    (mem : ℕ → ℕ) (i : ℕ) (lit : List ℕ)
    → IsPlain lit
    → mem i ≡ 0
    → equal_string mem i lit ≡ same_text [] lit
unfolding equal_string same_text IsPlain
ended mem i [] p e = ground arith
ended mem i (c ∷ cs) (pos, p) e = ground arith

-- The first character of an open word is kept.
pub letter_kept :
    (behind : ℕ → ℕ) (q : ℕ) (str : List ℕ) (n i : ℕ) (t : List ℕ)
    → IsRest str (i + suc n) i t
    → memory behind (cut q (ends str n (suc i) true) t) i ≡ get_or str i 0
letter_kept behind q str n i t v =
    cut-before q str n (suc i) true t i (behind i) (omega arith)
    ∙ get_or-any t i (behind i) 0 (omega (arith, v.room))
    ∙ v.kept i (omega arith) (omega arith)

-- The string behind the end of a word is empty.
cut_equal :
    (behind : ℕ → ℕ) (q : ℕ) (str : List ℕ) (n i : ℕ) (t lit : List ℕ)
    → IsPlain lit
    → i < length t
    → equal_string (memory behind (cut q (ends str n (suc i) false) (set t i 0))) i lit
      ≡ same_text [] lit
cut_equal behind q str n i t lit p h =
    ended (memory behind (cut q (ends str n (suc i) false) (set t i 0))) i lit p (
      cut-before q str n (suc i) false (set t i 0) i (behind i) (omega arith)
      ∙ get_or-set_self t i 0 (behind i) h)

pub ends-letter :
    (str : List ℕ) (n i : ℕ) (b : Bool)
    → get_or str i 0 == 32 ≡ false
    → ends str (suc n) i b ≡ ends str n (suc i) true
unfolding ends
ends-letter str n i b letter = rw letter

pub ends-space_open :
    (str : List ℕ) (n i : ℕ)
    → get_or str i 0 == 32 ≡ true
    → ends str (suc n) i true ≡ i ∷ ends str n (suc i) false
unfolding ends
ends-space_open str n i space = rw space

pub ends-space :
    (str : List ℕ) (n i : ℕ)
    → get_or str i 0 == 32 ≡ true
    → ends str (suc n) i false ≡ ends str n (suc i) false
unfolding ends
ends-space str n i space = rw space

pub word_from-letter :
    (str : List ℕ) (n i : ℕ)
    → get_or str i 0 == 32 ≡ false
    → word_from str (suc n) i ≡ get_or str i 0 ∷ word_from str n (suc i)
unfolding word_from
word_from-letter str n i letter = rw letter

word_from-space :
    (str : List ℕ) (n i : ℕ) → get_or str i 0 == 32 ≡ true → word_from str (suc n) i ≡ []
unfolding word_from
word_from-space str n i space = rw space

word_zero :
    (behind : ℕ → ℕ) (q : ℕ) (str : List ℕ) (i : ℕ) (t lit : List ℕ)
    → IsPlain lit
    → memory behind t i ≡ 0
    → equal_string (memory behind (cut (suc q) (ends str 0 i true) t)) i lit
      ≡ same_text (word_from str 0 i) lit
unfolding word_from ends cut
word_zero behind q str i t lit p e = ended (memory behind t) i lit p e

-- A character of an open word, with the rest of the word.
letter_equal :
    (behind : ℕ → ℕ) (q : ℕ) (str : List ℕ) (n i : ℕ) (t lit : List ℕ)
    → IsPlain lit
    → IsRest str (i + suc n) i t
    → ((cs : List ℕ)
        → IsPlain cs
        → equal_string (memory behind (cut q (ends str n (suc i) true) t)) (suc i) cs
          ≡ same_text (word_from str n (suc i)) cs)
    → equal_string (memory behind (cut q (ends str n (suc i) true) t)) i lit
      ≡ same_text (get_or str i 0 ∷ word_from str n (suc i)) lit
unfolding equal_string same_text IsPlain
letter_equal behind q str n i t [] p v rest =
    let pos : 0 < get_or str i 0 = v.plain i (omega arith) (omega arith) in
    rw (letter_kept behind q str n i t v) (ground arith)
letter_equal behind q str n i t (c ∷ cs) p v rest =
    ap₂ (λ x y. x == c && y) (letter_kept behind q str n i t v) (rest cs p.1)

-- In the text that is left, the string at `i` is the word there, where a word is open at `i` and
-- its end is cut.
pub word-equal :
    (behind : ℕ → ℕ) (q : ℕ) (str : List ℕ) (n i : ℕ) (t lit : List ℕ)
    → IsPlain lit
    → IsRest str (i + n) i t
    → equal_string (memory behind (cut (suc q) (ends str n i true) t)) i lit
      ≡ same_text (word_from str n i) lit
unfolding IsPlain cut
word-equal behind q str zero i t lit p v = word_zero behind q str i t lit p (
    get_or-any t i (behind i) 0 (omega (arith, v.room))
    ∙ ap (λ j. get_or t j 0) {x = i} {y = i + 0} (omega arith)
    ∙ v.closed)
word-equal behind q str (suc n) i t lit p v = elim (Bool-cases (get_or str i 0 == 32)) [
  | inl space ↦
      rw (ends-space_open str n i space, word_from-space str n i space)
        (cut_equal behind q str n i t lit p (omega (arith, v.room)))
  | inr letter ↦
      rw (ends-letter str n i true letter, word_from-letter str n i letter)
        (letter_equal behind (suc q) str n i t lit p v
          (λ cs p'. word-equal behind q str n (suc i) t cs p' (next-IsRest str i n t v)))
]
