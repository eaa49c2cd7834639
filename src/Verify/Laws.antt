-- ===== src/Verify/Laws.antt =====
-- src/main.cpp: `verify` reports nothing on the objects that the program makes.
use native.Mathlib.Nat.{mod-eq_of_lt}
use boost_openmethod_benchma.Common.{
  ℕ, zero, suc, ◌+◌, ◌-◌, ◌%◌, ◌≤◌, ◌<◌, ◌≡◌, refl, ◌∙◌, arith, some, List, [], ◌∷◌, ◌++◌, All, ltb,
  ltb→lt, Bool, true, false, if◌then◌else◌,
}
use boost_openmethod_benchma.Common.Int.{==ℤ_iff}
use boost_openmethod_benchma.Machine.{Event, World, M, ◌>>=◌, pure, >>=_run}
use boost_openmethod_benchma.Timing.Stamp.{Stamps}
use boost_openmethod_benchma.Verify.Checks.{Check}
use boost_openmethod_benchma.Verify.{Mismatch, run_checks, strided, grid}

-- The code runs and reports nothing.
abbrev pub IsQuiet : M (List Mismatch) → Type 0
IsQuiet m = (w : World) → (w' : World) × (m w ≡ some ([], w'))

-- The call of a check returns the id that the check wants.
abbrev pub Passes : Check → Type 0
Passes c = (es : List Event) × Stamps c.call c.want es

pub run_checks-IsQuiet : (i j : ℕ) (cs : List Check) → All Passes cs → IsQuiet (run_checks i j cs)
unfolding run_checks
run_checks-IsQuiet i j [] h w = (w, refl)
run_checks-IsQuiet i j (c ∷ cs) ((es, s), ps) w =
    let (w', e) = run_checks-IsQuiet i j cs ps _ in
    (
      w',
      >>=_run c.call _ {w = w} (s w)
          ∙ >>=_run (run_checks i j cs) _ e
          ∙ rw ((==ℤ_iff c.want c.want).1 refl),
    )

-- one iteration, and the rest of the loop
append-IsQuiet :
    (m k : M (List Mismatch))
    → IsQuiet m
    → IsQuiet k
    → IsQuiet (m >>= λ here. k >>= λ later. pure (here ++ later))
append-IsQuiet m k h g w =
    let (w', e) = h w in
    let (w'', f) = g w' in (w'', >>=_run m _ {w = w} e ∙ >>=_run k _ {w = w'} f)

if-IsQuiet :
    (c : Bool) (m k : M (List Mismatch))
    → (c ≡ true → IsQuiet m)
    → IsQuiet k
    → IsQuiet (if c then m else k)
if-IsQuiet true m k h g = h refl
if-IsQuiet false m k h g = g

-- A loop with quiet iterations is quiet: it ends within the fuel.
strided-IsQuiet :
    (word fuel step i n : ℕ) (body : ℕ → M (List Mismatch))
    → ((k : ℕ) → k < n → IsQuiet (body k))
    → 0 < step
    → n + step ≤ word
    → n - i < fuel
    → IsQuiet (strided word fuel step i n body)
unfolding strided
strided-IsQuiet word zero step i n body h p b f = absurd (omega arith)
strided-IsQuiet word (suc fuel) step i n body h p b f =
    if-IsQuiet (ltb i n) _ _
      (λ t.
        let below : i < n = ltb→lt i n t in
        append-IsQuiet (body i) (strided word fuel step ((i + step) % word) n body) (h i below)
          (strided-IsQuiet word fuel step ((i + step) % word) n body h p b (below_fuel below)))
      (λ w. (w, refl))
  where
    below_fuel : i < n → n - (i + step) % word < fuel
    below_fuel below = rw (mod-eq_of_lt {n = i + step} {m = word} (omega arith)) (omega arith)

pub grid-IsQuiet :
    (word n : ℕ) (body : ℕ → ℕ → M (List Mismatch))
    → ((i j : ℕ) → i < n → j < n → IsQuiet (body i j))
    → n + 97 ≤ word
    → IsQuiet (grid word n body)
unfolding grid
grid-IsQuiet word n body h fits =
    strided-IsQuiet word (n + 1) 97 0 n _
      (λ i below.
        strided-IsQuiet word (n + 1) 89 0 n _ (λ j below'. h i j below below') (omega arith)
          (omega arith) (omega arith))
      (omega arith) fits (omega arith)
