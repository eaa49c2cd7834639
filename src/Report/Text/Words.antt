-- ===== src/Report/Text/Words.antt =====
-- Text between spaces.
use Prim.Native.Char.{Char, code}
use Prim.Native.String.{String}
use boost_openmethod_benchma.Common.{
  ℕ, zero, suc, ◌≡◌, refl, sym, ap, subst, ◌<◌, arith, ◌∙◌, Bool, true, false, not, List, [], ◌∷◌,
  ◌++◌, ◌==◌, if◌then◌else◌, Bool-cases, inl, inr, and_left, and_right,
}
use boost_openmethod_benchma.Cli.Print.{
  digit, code-digit, show, show-head, all_chars, all_chars-show,
}
use boost_openmethod_benchma.Report.Csv.{append, put, not-true}
use boost_openmethod_benchma.Report.Text.Columns.{spaces}

abbrev pub take_chars : ℕ → String → String
take_chars zero s = String.[]
take_chars (suc n) String.[] = String.[]
take_chars (suc n) (String.◌∷◌ c s) = String.◌∷◌ c (take_chars n s)

-- The text ends or goes on with a space.
abbrev pub stops : String → Bool
stops String.[] = true
stops (String.◌∷◌ c s) = code c == 32

-- the longest pieces without spaces
unfoldable pub words : String → List String
words String.[] = []
words (String.◌∷◌ c s) =
    let later = words s in
    if code c == 32 then later else if stops s then String.◌∷◌ c String.[] ∷ later else put c later

abbrev pub no_space : Char → Bool
no_space c = not (code c == 32)

abbrev pub is_word : String → Bool
is_word String.[] = false
is_word (String.◌∷◌ c s) = all_chars no_space (String.◌∷◌ c s)

append_assoc : (s t u : String) → append (append s t) u ≡ append s (append t u)
append_assoc String.[] t u = refl
append_assoc (String.◌∷◌ c s) t u = ap (String.◌∷◌ c) (append_assoc s t u)

pub append-nil : (s : String) → append s String.[] ≡ s
append-nil String.[] = refl
append-nil (String.◌∷◌ c s) = ap (String.◌∷◌ c) (append-nil s)

put-append : (c d : Char) (xs ys : List String) → put c (put d xs ++ ys) ≡ put c (put d xs) ++ ys
put-append c d [] ys = refl
put-append c d (x ∷ xs) ys = refl

put-words :
    (c d : Char) (s : String) (ys : List String)
    → (code d == 32) ≡ false
    → put c (words (String.◌∷◌ d s) ++ ys) ≡ put c (words (String.◌∷◌ d s)) ++ ys
unfolding words
put-words c d s ys h = elim (Bool-cases (stops s)) [
  | inl e ↦ rw (h, e) refl
  | inr e ↦ rw (h, e) (put-append c d (words s) ys)
]

-- The words of a text, by its first two characters.
words_blank : (c : Char) (s : String) → (code c == 32) ≡ true → words (String.◌∷◌ c s) ≡ words s
unfolding words
words_blank c s e = rw e refl

words_lone :
    (c d : Char) (s : String)
    → (code c == 32) ≡ false
    → (code d == 32) ≡ true
    → words (String.◌∷◌ c (String.◌∷◌ d s)) ≡ String.◌∷◌ c String.[] ∷ words (String.◌∷◌ d s)
unfolding words
words_lone c d s e f = rw (e, f) refl

words_inner :
    (c d : Char) (s : String)
    → (code c == 32) ≡ false
    → (code d == 32) ≡ false
    → words (String.◌∷◌ c (String.◌∷◌ d s)) ≡ put c (words (String.◌∷◌ d s))
unfolding words
words_inner c d s e f = rw (e, f) refl

words-append_none : (t : String) → words t ≡ words String.[] ++ words t
unfolding words
words-append_none t = refl

words-append_one :
    (c : Char) (t : String)
    → stops t ≡ true
    → words (String.◌∷◌ c t) ≡ words (String.◌∷◌ c String.[]) ++ words t
unfolding words
words-append_one c t h = elim (Bool-cases (code c == 32)) [
  | inl e ↦ rw e refl
  | inr e ↦ rw (e, h) refl
]

-- A text in front of one that begins with a space, or is empty, keeps its words.
words-append : (s t : String) → stops t ≡ true → words (append s t) ≡ words s ++ words t
words-append String.[] t h = words-append_none t
words-append (String.◌∷◌ c String.[]) t h = words-append_one c t h
words-append (String.◌∷◌ c (String.◌∷◌ d s)) t h =
    let later = words-append (String.◌∷◌ d s) t h in
    elim (Bool-cases (code c == 32)) [
      | inl e ↦
          words_blank c (String.◌∷◌ d (append s t)) e
          ∙ later
          ∙ ap (λ xs. xs ++ words t) (sym (words_blank c (String.◌∷◌ d s) e))
      | inr e ↦ elim (Bool-cases (code d == 32)) [
        | inl f ↦
            words_lone c d (append s t) e f
            ∙ ap (◌∷◌ (String.◌∷◌ c String.[])) later
            ∙ ap (λ xs. xs ++ words t) (sym (words_lone c d s e f))
        | inr f ↦
            words_inner c d (append s t) e f
            ∙ ap (put c) later
            ∙ put-words c d s (words t) f
            ∙ ap (λ xs. xs ++ words t) (sym (words_inner c d s e f))
      ]
    ]

words-spaces : (n : ℕ) (s : String) → words (append (spaces n) s) ≡ words s
unfolding words
words-spaces zero s = refl
words-spaces (suc n) s = words-spaces n s

stops-spaces : (n : ℕ) (s : String) → stops s ≡ true → stops (append (spaces n) s) ≡ true
stops-spaces zero s h = h
stops-spaces (suc n) s h = refl

pub words-flush_left :
    (n : ℕ) (s t : String)
    → stops t ≡ true
    → words (append (append s (spaces n)) t) ≡ words s ++ words t
words-flush_left n s t h =
    ap words (append_assoc s (spaces n) t)
    ∙ words-append s (append (spaces n) t) (stops-spaces n t h)
    ∙ ap (◌++◌ (words s)) (words-spaces n t)

pub words-flush_right :
    (n : ℕ) (s t : String)
    → stops t ≡ true
    → words (append (append (spaces n) s) t) ≡ words s ++ words t
words-flush_right n s t h =
    ap words (append_assoc (spaces n) s t) ∙ words-spaces n (append s t) ∙ words-append s t h

words-letter :
    (c : Char)
    → (code c == 32) ≡ false
    → words (String.◌∷◌ c String.[]) ≡ String.◌∷◌ c String.[] ∷ []
unfolding words
words-letter c e = rw e refl

not_blank :
    (c : Char) (s : String) → all_chars no_space (String.◌∷◌ c s) ≡ true → (code c == 32) ≡ false
not_blank c s h = not-true _ (and_left (no_space c) _ h)

pub words-word : (s : String) → is_word s ≡ true → words s ≡ s ∷ []
words-word String.[] h = cc
words-word (String.◌∷◌ c String.[]) h = words-letter c (not_blank c String.[] h)
words-word (String.◌∷◌ c (String.◌∷◌ d s)) h =
    let later = and_right (no_space c) (is_word (String.◌∷◌ d s)) h in
    words_inner c d s (not_blank c (String.◌∷◌ d s) h) (not_blank d s later)
    ∙ ap (put c) (words-word (String.◌∷◌ d s) later)

all_chars-take_chars :
    (t : Char → Bool) (n : ℕ) (s : String)
    → all_chars t s ≡ true
    → all_chars t (take_chars n s) ≡ true
all_chars-take_chars t zero s h = refl
all_chars-take_chars t (suc n) String.[] h = refl
all_chars-take_chars t (suc n) (String.◌∷◌ c s) h =
    rw (and_left (t c) _ h) (all_chars-take_chars t n s (and_right (t c) _ h))

-- The first characters of a word are one.
pub is_word-take_chars :
    (n : ℕ) (s : String) → is_word s ≡ true → is_word (take_chars (suc n) s) ≡ true
is_word-take_chars n String.[] h = cc
is_word-take_chars n (String.◌∷◌ c s) h = all_chars-take_chars no_space (suc n) (String.◌∷◌ c s) h

all_chars-append :
    (t : Char → Bool) (s u : String)
    → all_chars t s ≡ true
    → all_chars t u ≡ true
    → all_chars t (append s u) ≡ true
all_chars-append t String.[] u h k = k
all_chars-append t (String.◌∷◌ c s) u h k =
    rw (and_left (t c) _ h) (all_chars-append t s u (and_right (t c) _ h) k)

pub is_word-append :
    (s u : String) → is_word s ≡ true → all_chars no_space u ≡ true → is_word (append s u) ≡ true
is_word-append String.[] u h k = cc
is_word-append (String.◌∷◌ c s) u h k = all_chars-append no_space (String.◌∷◌ c s) u h k

pub is_word-show : (n : ℕ) → is_word (show n) ≡ true
is_word-show n =
    let (d, s, small, e) = show-head n in
    subst (λ t. is_word t ≡ true) (sym e)
      (subst (λ t. all_chars no_space t ≡ true) e (all_chars-show no_space digit_plain n))
  where
    digit_plain : (d : ℕ) → d < 10 → no_space (digit d) ≡ true
    digit_plain d h =
        let other : (code (digit d) == 32) ≡ false = ground (arith, code-digit d h) in rw other
