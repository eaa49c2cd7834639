-- ===== src/Main/Program.antt =====
-- src/main.cpp: how `main_impl` ends, from the command line to the table.
use Prim.Native.String.{String}
use native.Mathlib.Nat.{mod-eq_of_lt}
use boost_openmethod_benchma.Common.{
  ℕ, ◌+◌, ◌*◌, ◌^◌, ◌%◌, ◌≤◌, ◌<◌, ◌≡◌, refl, ap, sym, subst, ◌∙◌, arith, Bool, true, false, List,
  [], ◌∷◌, ◌++◌, All, All-map, some, if◌then◌else◌,
}
use boost_openmethod_benchma.Common.Double.{Double}
use boost_openmethod_benchma.Machine.{M, ◌>>=◌, lift, Ends, Ends->>=, Ends-pure, Ends-lift}
use boost_openmethod_benchma.Timing.Flush.{warm, clflush, sweep}
use boost_openmethod_benchma.Timing.Scrub.{Scrubber}
use boost_openmethod_benchma.Timing.Calibrate.{Timespec, calibrate_tsc_hz, measure_tsc_floor}
use boost_openmethod_benchma.Timing.Calibrate.Laws.{total, calibrate-Ends, measure_tsc_floor-Ends}
use boost_openmethod_benchma.Platform.{Platform, IsRandom}
use boost_openmethod_benchma.Config.{Config}
use boost_openmethod_benchma.OpenMethod.{IsDocumented}
use boost_openmethod_benchma.Cli.{settings, parse}
use boost_openmethod_benchma.Cli.Laws.{parse_iff}
use boost_openmethod_benchma.Env.{Env, new_env}
use boost_openmethod_benchma.Vector.{max_size}
use boost_openmethod_benchma.Env.WellFormed.{IsWellFormed, HasRoom, new_env-IsWellFormed}
use boost_openmethod_benchma.Verify.{Mismatch, verify}
use boost_openmethod_benchma.Verify.Passes.{verify_quiet}
use boost_openmethod_benchma.Main.{
  modes, run_modes, Outcome, verified, reported, bad_options, mismatched, exit_code, measure_all,
  after_verify, with_settings, after_parse, main_impl,
}
use boost_openmethod_benchma.Report.Complete.{IsAnchored, rows-IsAnchored}
use boost_openmethod_benchma.Variants.Layout.{IsLaidOut}
use boost_openmethod_benchma.Main.Mapped.{variants-IsMapped}
use boost_openmethod_benchma.Main.Total.{IsTable, variants-IsMeasurable, run_modes-Ends}

-- Only if it was asked for does the list of cache modes hold `clflush`.
modes_clflush :
    (a b c : Bool)
    → All
        (λ mode. mode ≡ clflush → b ≡ true)
        ((if a then warm ∷ [] else [])
          ++ ((if b then clflush ∷ [] else []) ++ (if c then sweep ∷ [] else [])))
modes_clflush true true true = (λ e. refl, (λ e. refl, (λ e. refl, tt)))
modes_clflush true true false = (λ e. refl, (λ e. refl, tt))
modes_clflush true false true = (λ e. cc, (λ e. cc, tt))
modes_clflush true false false = (λ e. cc, tt)
modes_clflush false true true = (λ e. refl, (λ e. refl, tt))
modes_clflush false true false = (λ e. refl, tt)
modes_clflush false false true = (λ e. cc, tt)
modes_clflush false false false = tt

Ends-if :
    {A : Type 0} {Q : A → Type 0} (b : Bool) (m k : M A)
    → (b ≡ true → Ends Q m)
    → (b ≡ false → Ends Q k)
    → Ends Q (if b then m else k)
Ends-if true m k h g = h refl
Ends-if false m k h g = g refl

-- What a run on accepted settings hands out: nothing but the verdict if only the verification was asked
-- for; if not, the complete table.
abbrev pub IsExpected : {F : Type 0} ⦃d : Double F⦄ → Platform → Config → Outcome F → Type 0
IsExpected P cfg (bad_options why) = ⊥
IsExpected P cfg (mismatched ms) = ⊥
IsExpected P cfg verified = cfg.verify_only ≡ true
IsExpected P cfg (reported tsc_hz floor_st rows) =
    (cfg.verify_only ≡ false)
    × ((e : Env P) × (new_env P cfg ≡ some e) × IsTable cfg.objects e cfg.reps (modes cfg) rows)
    × All (IsAnchored rows) rows

abbrev pub Succeeds : {F : Type 0} ⦃d : Double F⦄ → Platform → Config → Outcome F → Type 0
Succeeds P cfg out = (exit_code out ≡ 0) × IsExpected P cfg out

verify-Ends :
    (P : Platform) (doc : IsDocumented P.lib) (n : ℕ)
    → n + 97 ≤ P.word
    → (e : Env P) → IsWellFormed P n e
    → Ends (λ (ms : List Mismatch). ms ≡ []) (verify P e)
verify-Ends P doc n few e wf w =
    let (w', runs) = verify_quiet P doc n few e wf w in ([], w', runs, refl)

module _ (P : Platform) (doc : IsDocumented P.lib) (random : IsRandom P.random)
    (some_class : 0 < P.num_classes) (wide : 2 ^ 32 ≤ P.word) where
  module _ {F : Type 0} ⦃d : Double F⦄ (fuel n : ℕ) (clock : ℕ → Timespec) (some_reading : 1 ≤ n)
      (within : n < 1 + fuel) (far : total (clock 0) + 200000000 ≤ total (clock n))
      (no_overflow : (j : ℕ) → j ≤ n → total (clock j) < 2 ^ 63) where
    module _ (cfg : Config) (few : cfg.objects + 97 ≤ P.word)
        (room : cfg.sweep_mb * 1024 * 1024 + 64 ≤ P.word)
        (laid : cfg.clflush ≡ true → IsLaidOut P cfg.objects) (vectors : HasRoom P cfg)
        (samples_fit : cfg.reps ≤ max_size P.word 8) where
      measure_all-Ends :
          (e : Env P)
          → cfg.verify_only ≡ false
          → new_env P cfg ≡ some e
          → IsWellFormed P cfg.objects e
          → e.scrub.size + 64 ≤ P.word
          → Ends (λ (out : Outcome F). Succeeds P cfg out) (measure_all P fuel clock e cfg)
      unfolding measure_all modes exit_code
      measure_all-Ends e measuring made wf h =
          Ends->>= (calibrate_tsc_hz fuel clock 200000000) _
            (calibrate-Ends clock 200000000 (omega arith) fuel n some_reading within far
              no_overflow)
            (λ hz _.
              Ends->>= (measure_tsc_floor P.word 20000) _
                (measure_tsc_floor-Ends P.word 20000 (omega arith))
                (λ st _.
                  Ends->>= (run_modes P (modes cfg) e cfg) _
                    (run_modes-Ends P random cfg.objects e wf.draws cfg samples_fit (modes cfg)
                      e.scrub e.rng
                      (All-map
                        (λ mode on.
                          variants-IsMeasurable P doc cfg.objects e wf mode (λ c.
                            variants-IsMapped P doc some_class cfg.objects (laid (on c)) e wf))
                        (modes cfg) (modes_clflush cfg.warm cfg.clflush cfg.sweep))
                      h)
                    (λ done (table, _).
                      Ends-pure (reported hz st done.0) (
                        refl,
                        (measuring, (e, made, table), rows-IsAnchored P cfg done.0 table.0),
                      ))))

      with_settings-Ends :
          0 < cfg.objects
          → Ends (λ (out : Outcome F). Succeeds P cfg out) (with_settings P fuel clock cfg)
      unfolding with_settings exit_code
      with_settings-Ends some_object =
          let (e, made, wf, buffer) =
            new_env-IsWellFormed P random some_class cfg some_object vectors in
          let size : e.scrub.size ≡ cfg.sweep_mb * 1024 * 1024 % P.word =
            ap (λ (s : Scrubber). s.size) buffer in
          let exact : cfg.sweep_mb * 1024 * 1024 % P.word ≡ cfg.sweep_mb * 1024 * 1024 =
            mod-eq_of_lt (omega arith) in
          let h : e.scrub.size + 64 ≤ P.word =
            subst (λ z. z + 64 ≤ P.word) (sym (size ∙ exact)) room in
          Ends->>= {Q = λ f. f ≡ e} (lift (new_env P cfg)) _ (Ends-lift (new_env P cfg) e made refl)
            (λ f same.
              subst
                (λ f.
                  Ends (λ (out : Outcome F). Succeeds P cfg out)
                    (verify P f >>= after_verify P fuel clock f cfg))
                (sym same)
                (Ends->>= (verify P e) _ (verify-Ends P doc cfg.objects few e wf) (λ ms none_found.
                  subst
                    (λ ms.
                      Ends (λ (out : Outcome F). Succeeds P cfg out)
                        (after_verify P fuel clock e cfg ms))
                    (sym none_found)
                    (Ends-if cfg.verify_only _ _ (λ only. Ends-pure verified (refl, only))
                      (λ measuring. measure_all-Ends e measuring made wf h)))))

      pub main_total :
          (args : List String)
          → parse P.word args ≡ settings cfg
          → Ends (λ (out : Outcome F). Succeeds P cfg out) (main_impl P fuel clock args)
      unfolding main_impl
      main_total args accepted =
          let runnable = ((parse_iff P.word args cfg wide).0.0 accepted).1 in
          subst (λ p. Ends (λ (out : Outcome F). Succeeds P cfg out) (after_parse P fuel clock p))
            (sym accepted) (with_settings-Ends runnable.some_object)
