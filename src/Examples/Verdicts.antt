-- ===== src/Examples/Verdicts.antt =====
-- Examples of the verdict of a verification.
use Prim.Native.String.{String}
use boost_openmethod_benchma.Common.{
  ℕ, ◌+◌, ◌^◌, ◌≡◌, refl, arith, true, some, List, [], ◌∷◌, get_elem?, All, All-get,
}
use boost_openmethod_benchma.Common.Double.{whole_double}
use boost_openmethod_benchma.Machine.{Ends}
use boost_openmethod_benchma.Library.{InplaceRegistry, inplace_registry, inplace_indirect_registry}
use boost_openmethod_benchma.Hierarchy.Inplace.{IBase}
use boost_openmethod_benchma.Timing.Calibrate.{Timespec}
use boost_openmethod_benchma.Config.{Config, default_config}
use boost_openmethod_benchma.Cli.{settings, options, reading, set_mode, check, parse}
use boost_openmethod_benchma.Cli.Numbers.{strtoull}
use boost_openmethod_benchma.Env.{Env, new_env, populate, build}
use boost_openmethod_benchma.Registries.Outcomes.{IsObject, IsIobject}
use boost_openmethod_benchma.Variants.{ip_pop}
use boost_openmethod_benchma.Verify.{verify}
use boost_openmethod_benchma.Verify.Checks.{Check, main_checks, ip_checks}
use boost_openmethod_benchma.Verify.Detect.{Return, wants}
use boost_openmethod_benchma.Verify.Laws.{Passes}
use boost_openmethod_benchma.Verify.MainChecks.{main_checks-Passes}
use boost_openmethod_benchma.Verify.InplaceChecks.{ip_checks-Passes}
use boost_openmethod_benchma.Verify.Verdict.{Decides}
use boost_openmethod_benchma.Verify.Total.{Answers, AllRight, verify-Decides}
use boost_openmethod_benchma.Main.{main_impl}
use boost_openmethod_benchma.Main.Verdict.{IsVerdict, main-IsVerdict}
use boost_openmethod_benchma.Examples.Documented.{searching-IsDocumented}
use boost_openmethod_benchma.Examples.Platform.{
  bench, two_objects_from, two_objects_from-IsWellFormed,
}

Return-wants : (cs : List Check) → All Passes cs → Return cs (wants cs)
Return-wants [] h = tt
Return-wants (c ∷ cs) (h, hs) = (h, Return-wants cs hs)

abbrev seconds : ℕ → Timespec
seconds k = record { tv_sec = k; tv_nsec = 5 }

abbrev arguments : List String
arguments = "--verify" ∷ "--objects" ∷ "2" ∷ []

abbrev verify_two : Config
verify_two = record default_config { verify_only = true; objects = 2 }

accepted : parse (2 ^ 64) arguments ≡ settings verify_two
unfolding parse options reading set_mode check strtoull
accepted = refl

abbrev e : Env bench
e = two_objects_from (default_config.seed + 3)

made : new_env bench verify_two ≡ some e
unfolding new_env populate build
made = refl

-- the ids that a library returns which keeps its documentation
right_answers : Answers bench e
right_answers = record {
  main_ids = λ i j a b. wants (main_checks bench e i j a b);
  main_return = λ i j a b at_i at_j.
      let wf = two_objects_from-IsWellFormed (default_config.seed + 3) in
      Return-wants (main_checks bench e i j a b) (
        main_checks-Passes bench searching-IsDocumented 2 e wf i j a b at_i at_j
          (All-get (IsObject 3) e.ptrs i wf.objects at_i)
          (All-get (IsObject 3) e.ptrs j wf.objects at_j));
  ip_ids = λ R what a b. wants (ip_checks bench R what a b);
  ip_return = λ R what i j a b at_i at_j. Return-wants (ip_checks bench R what a b) (
      ip_checks-Passes bench searching-IsDocumented R what a b (object_at R i a at_i)
        (object_at R j b at_j));
}
  where
    object_at :
        (R : InplaceRegistry) (k : ℕ) (o : IBase R)
        → get_elem? (ip_pop bench R e).ptrs k ≡ some o
        → IsIobject 3 o
    object_at inplace_registry k o at =
        All-get (IsIobject 3) e.ip_direct.ptrs k
          (two_objects_from-IsWellFormed (default_config.seed + 3)).direct.objects at
    object_at inplace_indirect_registry k o at =
        All-get (IsIobject 3) e.ip_indirect.ptrs k
          (two_objects_from-IsWellFormed (default_config.seed + 3)).indirect.objects at

verify-Decides_example : Decides (AllRight bench e right_answers) (verify bench e)
verify-Decides_example =
    verify-Decides bench e right_answers (omega arith) (omega arith) (omega arith)

main-IsVerdict_example :
    Ends
      (IsVerdict bench {F = ℕ} 10 seconds verify_two e right_answers)
      (main_impl bench {F = ℕ} 10 seconds arguments)
main-IsVerdict_example =
    main-IsVerdict bench 10 seconds verify_two e right_answers arguments accepted refl made
      (omega arith) (omega arith) (omega arith)
