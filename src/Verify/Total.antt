-- ===== src/Verify/Total.antt =====
-- src/main.cpp: `verify` decides whether the dispatches return what is wanted, whatever they return.
use Prim.Native.String.{String}
use boost_openmethod_benchma.Common.{
  ℕ, ◌+◌, ◌≤◌, ◌≡◌, sym, ◌∙◌, ◌↔◌, subst, some, List, length, get_elem?, get_elem?-lt,
}
use mathlib.Core.Option.{some-injective}
use boost_openmethod_benchma.Common.Int.{ℤ}
use boost_openmethod_benchma.Library.{InplaceRegistry, inplace_registry, inplace_indirect_registry}
use boost_openmethod_benchma.Hierarchy.{Base}
use boost_openmethod_benchma.Hierarchy.Inplace.{IBase}
use boost_openmethod_benchma.Platform.{Platform}
use boost_openmethod_benchma.Env.{Env}
use boost_openmethod_benchma.Variants.{ip_pop}
use boost_openmethod_benchma.Verify.{run_checks, verify_main, check_ip, verify}
use boost_openmethod_benchma.Verify.Checks.{main_checks, ip_checks}
use boost_openmethod_benchma.Verify.Detect.{Return, wants}
use boost_openmethod_benchma.Verify.Verdict.{
  Decides, Decides-iff, Decides-three, EachPair, grid-Decides, run_checks-Decides, elements-Decides,
}

-- What the calls of the checks of a pair of objects return, by the objects and their positions: the
-- dispatches may go wherever they like, but each ends in a body that stamps.
pub record Answers (P : Platform) (e : Env P) : Type 0 where
  pub main_ids : (i j : ℕ) → Base → Base → List ℤ
  pub main_return :
      (i j : ℕ) (a b : Base)
      → get_elem? e.ptrs i ≡ some a
      → get_elem? e.ptrs j ≡ some b
      → Return (main_checks P e i j a b) (main_ids i j a b)
  pub ip_ids : (R : InplaceRegistry) (what : String) → IBase R → IBase R → List ℤ
  pub ip_return :
      (R : InplaceRegistry) (what : String) (i j : ℕ) (a b : IBase R)
      → get_elem? (ip_pop P R e).ptrs i ≡ some a
      → get_elem? (ip_pop P R e).ptrs j ≡ some b
      → Return (ip_checks P R what a b) (ip_ids R what a b)

module _ (P : Platform) (e : Env P) (answers : Answers P e) where
  -- At two positions of the main hierarchy there are objects on which every check finds its id.
  abbrev pub IsRight : ℕ → ℕ → Type 0
  IsRight i j =
      (a : Base) (b : Base)
      → get_elem? e.ptrs i ≡ some a
      → get_elem? e.ptrs j ≡ some b
      → answers.main_ids i j a b ≡ wants (main_checks P e i j a b)

  -- the same in an inplace hierarchy
  abbrev pub IsIright : (R : InplaceRegistry) → String → ℕ → ℕ → Type 0
  IsIright R what i j =
      (a : IBase R) (b : IBase R)
      → get_elem? (ip_pop P R e).ptrs i ≡ some a
      → get_elem? (ip_pop P R e).ptrs j ≡ some b
      → answers.ip_ids R what a b ≡ wants (ip_checks P R what a b)

  -- Every pair that is visited, in all three hierarchies, is right.
  abbrev pub AllRight : Type 0
  AllRight =
      EachPair (length e.ptrs) IsRight
      × EachPair (length (ip_pop P inplace_registry e).ptrs) (IsIright inplace_registry "inplace")
      × EachPair (length (ip_pop P inplace_indirect_registry e).ptrs)
          (IsIright inplace_indirect_registry "inplace_ind")

  verify_main-Decides :
      length e.ptrs + 97 ≤ P.word → Decides (EachPair (length e.ptrs) IsRight) (verify_main P e)
  unfolding verify_main
  verify_main-Decides room =
      grid-Decides P.word (length e.ptrs) _ IsRight
        (λ i j below below'.
          let (a, at_i) = get_elem?-lt e.ptrs i below in
          let (b, at_j) = get_elem?-lt e.ptrs j below' in
          elements-Decides e.ptrs i j a b (λ a b. run_checks i j (main_checks P e i j a b)) at_i
            at_j
            (Decides-iff _ (right_of i j a b at_i at_j) (
              run_checks-Decides i j _ (answers.main_ids i j a b)
                (answers.main_return i j a b at_i at_j))))
        room
    where
      right_of :
          (i j : ℕ) (a b : Base)
          → get_elem? e.ptrs i ≡ some a
          → get_elem? e.ptrs j ≡ some b
          → (answers.main_ids i j a b ≡ wants (main_checks P e i j a b)) ↔ IsRight i j
      right_of i j a b h k = (
        λ same c d h' k'.
            subst (λ x. answers.main_ids i j x d ≡ wants (main_checks P e i j x d))
              (some-injective _ _ (sym h ∙ h'))
              (subst (λ y. answers.main_ids i j a y ≡ wants (main_checks P e i j a y))
                (some-injective _ _ (sym k ∙ k')) same),
        λ each. each a b h k,
      )

  check_ip-Decides :
      (R : InplaceRegistry) (what : String)
      → length (ip_pop P R e).ptrs + 97 ≤ P.word
      → Decides (EachPair (length (ip_pop P R e).ptrs) (IsIright R what)) (check_ip P R e what)
  unfolding check_ip
  check_ip-Decides R what room =
      let ptrs = (ip_pop P R e).ptrs in
      grid-Decides P.word (length ptrs) _ (IsIright R what)
        (λ i j below below'.
          let (a, at_i) = get_elem?-lt ptrs i below in
          let (b, at_j) = get_elem?-lt ptrs j below' in
          elements-Decides ptrs i j a b (λ a b. run_checks i j (ip_checks P R what a b)) at_i at_j
            (Decides-iff _ (right_of i j a b at_i at_j) (
              run_checks-Decides i j _ (answers.ip_ids R what a b)
                (answers.ip_return R what i j a b at_i at_j))))
        room
    where
      right_of :
          (i j : ℕ) (a b : IBase R)
          → get_elem? (ip_pop P R e).ptrs i ≡ some a
          → get_elem? (ip_pop P R e).ptrs j ≡ some b
          → (answers.ip_ids R what a b ≡ wants (ip_checks P R what a b)) ↔ IsIright R what i j
      right_of i j a b h k = (
        λ same c d h' k'.
            subst (λ x. answers.ip_ids R what x d ≡ wants (ip_checks P R what x d))
              (some-injective _ _ (sym h ∙ h'))
              (subst (λ y. answers.ip_ids R what a y ≡ wants (ip_checks P R what a y))
                (some-injective _ _ (sym k ∙ k')) same),
        λ each. each a b h k,
      )

  -- Whatever the dispatches return, as long as each ends in a body that stamps, `verify` ends, and it
  -- reports nothing just if on every pair of objects that it visits, in all three hierarchies, every
  -- dispatch and every virtual function returned the id that is wanted. Assumed is room for the loops'
  -- last step in `std::size_t`.
  pub verify-Decides :
      length e.ptrs + 97 ≤ P.word
      → length (ip_pop P inplace_registry e).ptrs + 97 ≤ P.word
      → length (ip_pop P inplace_indirect_registry e).ptrs + 97 ≤ P.word
      → Decides AllRight (verify P e)
  unfolding verify
  verify-Decides room direct indirect =
      Decides-three (verify_main P e) (check_ip P inplace_registry e "inplace")
        (check_ip P inplace_indirect_registry e "inplace_ind") (verify_main-Decides room)
        (check_ip-Decides inplace_registry "inplace" direct)
        (check_ip-Decides inplace_indirect_registry "inplace_ind" indirect)
