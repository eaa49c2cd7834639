-- ===== src/Main/Verdict.antt =====
-- src/main.cpp: how `main_impl` ends with the option `--verify`, whatever the dispatches return.
use Prim.Native.String.{String}
use boost_openmethod_benchma.Common.{
  ℕ, ◌+◌, ◌≤◌, ◌≡◌, refl, sym, subst, ◌⊎◌, inl, inr, true, some, List, [], ◌∷◌, length,
}
use mathlib.Core.List.{cons-ne-nil}
use boost_openmethod_benchma.Common.Double.{Double}
use boost_openmethod_benchma.Machine.{◌>>=◌, lift, Ends, Ends->>=, Ends-pure, Ends-lift}
use boost_openmethod_benchma.Library.{inplace_registry, inplace_indirect_registry}
use boost_openmethod_benchma.Timing.Calibrate.{Timespec}
use boost_openmethod_benchma.Platform.{Platform}
use boost_openmethod_benchma.Config.{Config}
use boost_openmethod_benchma.Cli.{settings, parse}
use boost_openmethod_benchma.Env.{Env, new_env}
use boost_openmethod_benchma.Variants.{ip_pop}
use boost_openmethod_benchma.Verify.{Mismatch, verify}
use boost_openmethod_benchma.Verify.Total.{Answers, AllRight, verify-Decides}
use boost_openmethod_benchma.Main.{
  Outcome, verified, mismatched, exit_code, after_verify, with_settings, after_parse, main_impl,
}

module _ (P : Platform) {F : Type 0} ⦃d : Double F⦄ (fuel : ℕ) (clock : ℕ → Timespec) (cfg : Config)
    (e : Env P) (answers : Answers P e) where
  -- The exit code tells whether every pair that is visited is right.
  abbrev pub IsVerdict : Outcome F → Type 0
  IsVerdict out =
      ((exit_code out ≡ 0) × AllRight P e answers) ⊎ ((exit_code out ≡ 1) × ¬ AllRight P e answers)

  after_verify-Ends :
      (ms : List Mismatch)
      → cfg.verify_only ≡ true
      → (ms ≡ [] → AllRight P e answers)
      → (AllRight P e answers → ms ≡ [])
      → Ends IsVerdict (after_verify P {F = F} fuel clock e cfg ms)
  unfolding exit_code
  after_verify-Ends [] only right _ = rw only (Ends-pure verified (inl (refl, right refl)))
  after_verify-Ends (m ∷ ms) only _ wrong =
      Ends-pure (mismatched (m ∷ ms)) (inr (refl, λ all. cons-ne-nil m ms (wrong all)))

  -- With the option `--verify`, in the environment that the settings give, whatever the dispatches
  -- return as long as each ends in a body that stamps, the program ends with exit code 0 if on every
  -- pair of objects that is visited every dispatch and every virtual function returned the id that is
  -- wanted, and with exit code 1 if not. Assumed is room for the loops' last step in `std::size_t`.
  pub main-IsVerdict :
      (args : List String)
      → parse P.word args ≡ settings cfg
      → cfg.verify_only ≡ true
      → new_env P cfg ≡ some e
      → length e.ptrs + 97 ≤ P.word
      → length (ip_pop P inplace_registry e).ptrs + 97 ≤ P.word
      → length (ip_pop P inplace_indirect_registry e).ptrs + 97 ≤ P.word
      → Ends IsVerdict (main_impl P {F = F} fuel clock args)
  unfolding main_impl with_settings
  main-IsVerdict args accepted only made room direct indirect =
      subst (λ p. Ends IsVerdict (after_parse P {F = F} fuel clock p)) (sym accepted)
        (Ends->>= {Q = λ f. f ≡ e} (lift (new_env P cfg)) _ (Ends-lift (new_env P cfg) e made refl)
          (λ f same.
            subst (λ f. Ends IsVerdict (verify P f >>= after_verify P {F = F} fuel clock f cfg))
              (sym same)
              (Ends->>=
                {Q = λ ms. (ms ≡ [] → AllRight P e answers) × (AllRight P e answers → ms ≡ [])}
                (verify P e) _
                (λ w.
                  let (ms, w', runs, iff) = verify-Decides P e answers room direct indirect w in
                  (ms, w', runs, iff))
                (λ ms (right, wrong). after_verify-Ends ms only right wrong))))
