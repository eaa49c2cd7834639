-- ===== src/Verify.antt =====
-- src/main.cpp: `verify`, which calls every dispatch path on a grid of pairs of objects and compares
-- the ids with the values that follow from the members `tag` alone.
pub mod Oracle
pub mod Checks
pub mod Laws
pub mod MainChecks
pub mod InplaceChecks
pub mod Passes
pub mod Detect
pub mod Verdict
pub mod Total
use Prim.Native.String.{String}
use boost_openmethod_benchma.Common.{
  ℕ, zero, suc, ◌+◌, ◌%◌, Bool, true, false, Option, none, some, List, [], ◌∷◌, ◌++◌, length,
  get_elem?, ltb, if◌then◌else◌,
}
use boost_openmethod_benchma.Common.Int.{ℤ, ◌==ℤ◌}
use boost_openmethod_benchma.Machine.{M, ◌>>=◌, pure, lift}
use boost_openmethod_benchma.Library.{InplaceRegistry, inplace_registry, inplace_indirect_registry}
use boost_openmethod_benchma.Platform.{Platform}
use boost_openmethod_benchma.Env.{Env}
use boost_openmethod_benchma.Variants.{ip_pop}
use boost_openmethod_benchma.Verify.Checks.{Check, main_checks, ip_checks}

-- One line `MISMATCH …` that the program prints.
pub record Mismatch : Type 0 where
  pub what : String × String
  pub i : ℕ
  pub j : ℕ
  pub got : ℤ
  pub want : ℤ

-- The calls of one pair of positions, in order, and the loop that compares.
unfoldable pub run_checks : (i j : ℕ) → List Check → M (List Mismatch)
run_checks i j [] = pure []
run_checks i j (c ∷ cs) = do
  r ← c.call
  rest ← run_checks i j cs
  pure (
      if r.id ==ℤ c.want
      then rest
      else record { what = c.what; i = i; j = j; got = r.id; want = c.want } ∷ rest)

-- `for (std::size_t i = …; i < n; i += step)`, with what the iterations report. The rest of the loop
-- waits under the test.
unfoldable pub strided : (word fuel step i n : ℕ) → (ℕ → M (List Mismatch)) → M (List Mismatch)
strided word zero step i n body = λ w. none
strided word (suc fuel) step i n body =
    let rest = strided word fuel step ((i + step) % word) n body in
    if ltb i n then (do here ← body i; later ← rest; pure (here ++ later)) else pure []

-- the two nested loops over a population of `n` objects
unfoldable pub grid : (word n : ℕ) → (ℕ → ℕ → M (List Mismatch)) → M (List Mismatch)
unfolding strided
grid word n body = strided word (n + 1) 97 0 n (λ i. strided word (n + 1) 89 0 n (λ j. body i j))

module _ (P : Platform) where
  -- The first pair of loops, over the main hierarchy.
  unfoldable pub verify_main : Env P → M (List Mismatch)
  unfolding grid run_checks
  verify_main e = grid P.word (length e.ptrs) (λ i j. do
    a ← lift (get_elem? e.ptrs i)
    b ← lift (get_elem? e.ptrs j)
    run_checks i j (main_checks P e i j a b))

  -- `check_ip`, for one inplace hierarchy
  unfoldable pub check_ip : (R : InplaceRegistry) → Env P → (what : String) → M (List Mismatch)
  unfolding grid run_checks
  check_ip R e what = grid P.word (length (ip_pop P R e).ptrs) (λ i j. do
    a ← lift (get_elem? (ip_pop P R e).ptrs i)
    b ← lift (get_elem? (ip_pop P R e).ptrs j)
    run_checks i j (ip_checks P R what a b))

  -- `verify`: the mismatches that it prints
  unfoldable pub verify : Env P → M (List Mismatch)
  unfolding verify_main check_ip
  verify e = do
    first ← verify_main e
    second ← check_ip inplace_registry e "inplace"
    third ← check_ip inplace_indirect_registry e "inplace_ind"
    pure (first ++ (second ++ third))

-- `ok`, which `verify` returns
abbrev pub is_ok : List Mismatch → Bool
is_ok [] = true
is_ok (m ∷ ms) = false
