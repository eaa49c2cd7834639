-- ===== src/Cli/Print.antt =====
-- Decimal numbers, as `printf` writes them, and that the C library's readers read them back.
use Prim.Native.Char.{Char, code}
use Prim.Native.String.{String}
use boost_openmethod_benchma.Common.{
  ℕ, zero, suc, ◌+◌, ◌-◌, ◌*◌, ◌/◌, ◌%◌, ◌^◌, ◌≤◌, ◌<◌, ◌≡◌, refl, ap, sym, ◌∙◌, arith, Bool, true,
  false, ◌&&◌, some, ltb, ◌==◌, if◌then◌else◌, Bool-cases, inl, inr, ltb→lt,
}
use boost_openmethod_benchma.Common.Int.{pos}
use boost_openmethod_benchma.Cli.Numbers.{
  is_space, is_digit, digits, signed, skip_spaces, unsigned, strtoull, strtoul, in_int, atoi,
}

abbrev pub digit : ℕ → Char
digit zero = "0"
digit (suc zero) = "1"
digit (suc (suc zero)) = "2"
digit (suc (suc (suc zero))) = "3"
digit (suc (suc (suc (suc zero)))) = "4"
digit (suc (suc (suc (suc (suc zero))))) = "5"
digit (suc (suc (suc (suc (suc (suc zero)))))) = "6"
digit (suc (suc (suc (suc (suc (suc (suc zero))))))) = "7"
digit (suc (suc (suc (suc (suc (suc (suc (suc zero)))))))) = "8"
digit _ = "9"

pub code-digit : (d : ℕ) → d < 10 → code (digit d) ≡ 48 + d
code-digit zero h = refl
code-digit (suc zero) h = refl
code-digit (suc (suc zero)) h = refl
code-digit (suc (suc (suc zero))) h = refl
code-digit (suc (suc (suc (suc zero)))) h = refl
code-digit (suc (suc (suc (suc (suc zero))))) h = refl
code-digit (suc (suc (suc (suc (suc (suc zero)))))) h = refl
code-digit (suc (suc (suc (suc (suc (suc (suc zero))))))) h = refl
code-digit (suc (suc (suc (suc (suc (suc (suc (suc zero)))))))) h = refl
code-digit (suc (suc (suc (suc (suc (suc (suc (suc (suc zero))))))))) h = refl
code-digit (suc (suc (suc (suc (suc (suc (suc (suc (suc (suc d)))))))))) h = absurd (omega arith)

-- the decimal digits of `n` in front of `out`
unfoldable show_from : (fuel n : ℕ) → String → String
show_from zero n out = out
show_from (suc fuel) n out =
    let more = show_from fuel (n / 10) (String.◌∷◌ (digit (n % 10)) out) in
    if ltb n 10 then String.◌∷◌ (digit n) out else more

unfoldable pub show : ℕ → String
unfolding show_from
show n = show_from (n + 1) n String.[]

digits-digit :
    (read d : ℕ) (s : String)
    → d < 10
    → digits read (String.◌∷◌ (digit d) s) ≡ digits (read * 10 + d) s
digits-digit read d s h =
    let shift : code (digit d) - 48 ≡ d = omega (arith, code-digit d h) in
    let seen : is_digit (code (digit d)) ≡ true = ground (arith, code-digit d h) in rw (seen, shift)

digits-show_from :
    (fuel n : ℕ) (out : String) → n < fuel → digits 0 (show_from fuel n out) ≡ digits n out
unfolding show_from
digits-show_from zero n out h = absurd (omega arith)
digits-show_from (suc fuel) n out h = elim (Bool-cases (ltb n 10)) [
  | inl small ↦
      rw small (digits-digit 0 n out (ltb→lt n 10 small) ∙ ap (λ k. digits k out) (omega arith))
  | inr big ↦
      let large : 10 ≤ n = ground arith in
      rw big (
        digits-show_from fuel (n / 10) (String.◌∷◌ (digit (n % 10)) out) (omega arith)
        ∙ digits-digit (n / 10) (n % 10) out (omega arith)
        ∙ ap (λ k. digits k out) (omega arith))
]

-- the text begins with a digit
show_from-head :
    (fuel n : ℕ) (out : String)
    → n < fuel
    → (d : ℕ) × (s : String) × (d < 10) × (show_from fuel n out ≡ String.◌∷◌ (digit d) s)
unfolding show_from
show_from-head zero n out h = absurd (omega arith)
show_from-head (suc fuel) n out h = elim (Bool-cases (ltb n 10)) [
  | inl small ↦ (n, out, ltb→lt n 10 small, rw small)
  | inr big ↦
      let large : 10 ≤ n = ground arith in
      let (d, s, lt, e) =
        show_from-head fuel (n / 10) (String.◌∷◌ (digit (n % 10)) out) (omega arith) in
      (d, s, lt, rw big e)
]

signed-digit :
    (d : ℕ) (s : String)
    → d < 10
    → signed (skip_spaces (String.◌∷◌ (digit d) s)) ≡ (false, digits 0 (String.◌∷◌ (digit d) s))
signed-digit d s h =
    let not_space : is_space (code (digit d)) ≡ false = ground (arith, code-digit d h) in
    let not_minus : (code (digit d) == 45) ≡ false = ground (arith, code-digit d h) in
    let not_plus : (code (digit d) == 43) ≡ false = ground (arith, code-digit d h) in
    rw (not_space, not_minus, not_plus)

signed-show : (n : ℕ) → signed (skip_spaces (show n)) ≡ (false, n)
unfolding show
signed-show n =
    let (d, s, lt, e) = show_from-head (n + 1) n String.[] (omega arith) in
    ap (λ t. signed (skip_spaces t)) e
    ∙ signed-digit d s lt
    ∙ ap (λ t. (false, digits 0 t)) (sym e)
    ∙ ap (λ k. (false, k)) (digits-show_from (n + 1) n String.[] (omega arith))

pub strtoull-show : (n : ℕ) → n < 2 ^ 64 → strtoull (show n) ≡ n
unfolding strtoull
strtoull-show n h = ap (unsigned (2 ^ 64)) (signed-show n) ∙ ground arith

pub strtoul-show : (word n : ℕ) → n < word → strtoul word (show n) ≡ n
unfolding strtoul
strtoul-show word n h = ap (unsigned word) (signed-show n) ∙ ground arith

pub atoi-show : (n : ℕ) → n < 2 ^ 31 → atoi (show n) ≡ some (pos n)
unfolding atoi
atoi-show n h = ap in_int (signed-show n) ∙ ground arith

-- every character passes the test
abbrev pub all_chars : (Char → Bool) → String → Bool
all_chars t String.[] = true
all_chars t (String.◌∷◌ c s) = t c && all_chars t s

all_chars-show_from :
    (t : Char → Bool)
    → ((d : ℕ) → d < 10 → t (digit d) ≡ true)
    → (fuel n : ℕ) (out : String) → all_chars t out ≡ true
    → all_chars t (show_from fuel n out) ≡ true
unfolding show_from
all_chars-show_from t each zero n out h = h
all_chars-show_from t each (suc fuel) n out h = elim (Bool-cases (ltb n 10)) [
  | inl small ↦ rw (small, each n (ltb→lt n 10 small)) h
  | inr big ↦ rw big (
      all_chars-show_from t each fuel (n / 10) (String.◌∷◌ (digit (n % 10)) out)
        (rw (each (n % 10) (omega arith)) h))
]

pub all_chars-show :
    (t : Char → Bool)
    → ((d : ℕ) → d < 10 → t (digit d) ≡ true)
    → (n : ℕ) → all_chars t (show n) ≡ true
unfolding show
all_chars-show t each n = all_chars-show_from t each (n + 1) n String.[] refl

-- a number is written with a digit first
pub show-head : (n : ℕ) → (d : ℕ) × (s : String) × (d < 10) × (show n ≡ String.◌∷◌ (digit d) s)
unfolding show
show-head n = show_from-head (n + 1) n String.[] (omega arith)
