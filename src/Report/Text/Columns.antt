-- ===== src/Report/Text/Columns.antt =====
-- Cells of a fixed width.
use Prim.Native.Char.{Char}
use Prim.Native.String.{String}
use boost_openmethod_benchma.Common.{ℕ, zero, suc, ◌+◌, ◌-◌, ◌≤◌, ◌≡◌, refl, ap, arith, ◌∙◌}
use boost_openmethod_benchma.Report.Csv.{append}

abbrev pub size : String → ℕ
size String.[] = 0
size (String.◌∷◌ c s) = suc (size s)

abbrev pub drop_chars : ℕ → String → String
drop_chars zero s = s
drop_chars (suc n) String.[] = String.[]
drop_chars (suc n) (String.◌∷◌ c s) = drop_chars n s

abbrev pub spaces : ℕ → String
spaces zero = String.[]
spaces (suc n) = String.◌∷◌ " " (spaces n)

abbrev pub dashes : ℕ → String
dashes zero = String.[]
dashes (suc n) = String.◌∷◌ "-" (dashes n)

size-append : (s t : String) → size (append s t) ≡ size s + size t
size-append String.[] t = omega arith
size-append (String.◌∷◌ c s) t = omega (arith, size-append s t)

size-spaces : (n : ℕ) → size (spaces n) ≡ n
size-spaces zero = refl
size-spaces (suc n) = ap suc (size-spaces n)

-- A text that fits its column fills it.
pub size-flush_left :
    (width : ℕ) (s : String) → size s ≤ width → size (append s (spaces (width - size s))) ≡ width
size-flush_left width s h =
    omega (arith, size-append s (spaces (width - size s)), size-spaces (width - size s))

-- What follows a cell and a space.
pub drop_chars-append :
    (s t : String) (c : Char) (m : ℕ)
    → drop_chars (suc (size s + m)) (append s (String.◌∷◌ c t)) ≡ drop_chars m t
drop_chars-append String.[] t c m = ap (λ k. drop_chars (suc k) (String.◌∷◌ c t)) (plain m)
  where
    plain : (m : ℕ) → 0 + m ≡ m
    plain m = omega arith
drop_chars-append (String.◌∷◌ d s) t c m =
    ap (λ k. drop_chars (suc k) (String.◌∷◌ d (append s (String.◌∷◌ c t)))) (shift (size s) m)
    ∙ drop_chars-append s t c m
  where
    shift : (n m : ℕ) → suc n + m ≡ suc (n + m)
    shift n m = omega arith
