-- ===== src/Verify/Passes.antt =====
-- src/main.cpp: `verify` passes on the objects that the program makes.
use boost_openmethod_benchma.Common.{
  ℕ, ◌+◌, ◌≤◌, ◌≡◌, sym, ap, ◌∙◌, subst, some, List, [], length, get_elem?, get_elem?-lt, All-get,
}
use boost_openmethod_benchma.Machine.{World, M, ◌>>=◌, lift, >>=_run}
use boost_openmethod_benchma.Library.{InplaceRegistry, inplace_registry, inplace_indirect_registry}
use boost_openmethod_benchma.Platform.{Platform}
use boost_openmethod_benchma.Env.{Env}
use boost_openmethod_benchma.Env.WellFormed.{IsWellFormed, IsIpopulation}
use boost_openmethod_benchma.OpenMethod.{IsDocumented}
use boost_openmethod_benchma.Registries.Outcomes.{IsObject, IsIobject}
use boost_openmethod_benchma.Variants.{ip_pop}
use boost_openmethod_benchma.Verify.{Mismatch, run_checks, verify_main, check_ip, verify}
use boost_openmethod_benchma.Verify.Checks.{main_checks, ip_checks}
use boost_openmethod_benchma.Verify.Laws.{IsQuiet, run_checks-IsQuiet, grid-IsQuiet}
use boost_openmethod_benchma.Verify.MainChecks.{main_checks-Passes}
use boost_openmethod_benchma.Verify.InplaceChecks.{ip_checks-Passes}
use Prim.Native.String.{String}

-- two array elements that are there
both-IsQuiet :
    {A : Type 0} (xs : List A) (i j : ℕ) (a b : A) (f : A → A → M (List Mismatch))
    → get_elem? xs i ≡ some a
    → get_elem? xs j ≡ some b
    → IsQuiet (f a b)
    → IsQuiet (lift (get_elem? xs i) >>= λ a. lift (get_elem? xs j) >>= λ b. f a b)
both-IsQuiet xs i j a b f h k q w =
    let (w', e) = q w in
    (
      w',
      >>=_run (lift (get_elem? xs i)) _ {w = w} (ap (λ o. lift o w) h)
          ∙ >>=_run (lift (get_elem? xs j)) (f a) {w = w} (ap (λ o. lift o w) k)
          ∙ e,
    )

module _ (P : Platform) (doc : IsDocumented P.lib) (n : ℕ) (fits : n + 97 ≤ P.word) (e : Env P)
    (wf : IsWellFormed P n e) where
  verify_main-IsQuiet : IsQuiet (verify_main P e)
  unfolding verify_main
  verify_main-IsQuiet =
      grid-IsQuiet P.word (length e.ptrs) _
        (λ i j below below'.
          let (a, at_i) = get_elem?-lt e.ptrs i below in
          let (b, at_j) = get_elem?-lt e.ptrs j below' in
          both-IsQuiet e.ptrs i j a b (λ a b. run_checks i j (main_checks P e i j a b)) at_i at_j
            (run_checks-IsQuiet i j _ (
              main_checks-Passes P doc n e wf i j a b at_i at_j
                (All-get (IsObject P.num_classes) e.ptrs i wf.objects at_i)
                (All-get (IsObject P.num_classes) e.ptrs j wf.objects at_j))))
        (subst (λ k. k + 97 ≤ P.word) (sym wf.count) fits)

  check_ip-IsQuiet :
      (R : InplaceRegistry) (what : String)
      → IsIpopulation P n (ip_pop P R e)
      → IsQuiet (check_ip P R e what)
  unfolding check_ip
  check_ip-IsQuiet R what pop =
      let ptrs = (ip_pop P R e).ptrs in
      grid-IsQuiet P.word (length ptrs) _
        (λ i j below below'.
          let (a, at_i) = get_elem?-lt ptrs i below in
          let (b, at_j) = get_elem?-lt ptrs j below' in
          both-IsQuiet ptrs i j a b (λ a b. run_checks i j (ip_checks P R what a b)) at_i at_j
            (run_checks-IsQuiet i j _ (
              ip_checks-Passes P doc R what a b
                (All-get (IsIobject P.num_classes) ptrs i pop.objects at_i)
                (All-get (IsIobject P.num_classes) ptrs j pop.objects at_j))))
        (subst (λ k. k + 97 ≤ P.word) (sym pop.count) fits)

  -- On the objects that the program makes, and with a library that keeps its documentation, `verify`
  -- ends and reports no mismatch: every dispatch path of every registry, and every virtual function,
  -- returns the id that follows from the members `tag`. The number of objects leaves room for the
  -- loops' last step in `std::size_t`.
  pub verify_quiet : (w : World) → (w' : World) × (verify P e w ≡ some ([], w'))
  unfolding verify
  verify_quiet w =
      let (w1, first) = verify_main-IsQuiet w in
      let (w2, second) = check_ip-IsQuiet inplace_registry "inplace" wf.direct w1 in
      let (w3, third) = check_ip-IsQuiet inplace_indirect_registry "inplace_ind" wf.indirect w2 in
      (
        w3,
        >>=_run (verify_main P e) _ {w = w} first
            ∙ >>=_run (check_ip P inplace_registry e "inplace") _ {w = w1} second
            ∙ >>=_run (check_ip P inplace_indirect_registry e "inplace_ind") _ {w = w2} third,
      )
