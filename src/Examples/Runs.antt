-- ===== src/Examples/Runs.antt =====
-- Examples of whole runs.
use Prim.Native.String.{String}
use boost_openmethod_benchma.Common.{
  ℕ, zero, suc, ◌*◌, ◌^◌, ◌<◌, ◌≡◌, ◌↔◌, refl, arith, some, List, [], ◌∷◌, All,
}
use boost_openmethod_benchma.Common.Double.{whole_double}
use boost_openmethod_benchma.Common.Int.{ℤ, pos}
use boost_openmethod_benchma.Timing.Stamp.{Stamps}
use boost_openmethod_benchma.Machine.{World, Event, load, ◌>>=◌}
use boost_openmethod_benchma.Hierarchy.Calls.{vf-Stamps, touch-Stamps}
use boost_openmethod_benchma.Hierarchy.{vf, touch}
use boost_openmethod_benchma.Timing.Flush.{clflush, sweep}
use boost_openmethod_benchma.Timing.Scrub.{ones, Fits}
use boost_openmethod_benchma.Timing.Stats.{Stats, summarize}
use boost_openmethod_benchma.Timing.Calibrate.{Timespec, calibrate_tsc_hz, measure_tsc_floor}
use boost_openmethod_benchma.Timing.Calibrate.Laws.{gaps, calibrate_exact, measure_tsc_floor_exact}
use boost_openmethod_benchma.Config.{Config, default_config}
use boost_openmethod_benchma.Cli.{settings, options, reading, set_mode, check, parse}
use boost_openmethod_benchma.Cli.Numbers.{strtoull}
use boost_openmethod_benchma.Env.{Env}
use boost_openmethod_benchma.Variants.{object_regions}
use boost_openmethod_benchma.Variants.Baseline.{v_vf1}
use boost_openmethod_benchma.Run.{Row, run, repeat}
use boost_openmethod_benchma.Run.Key.{key_of, variant_key}
use boost_openmethod_benchma.Run.Total.{IsMeasurable}
use boost_openmethod_benchma.Run.Timed.{windows, run_timed}
use boost_openmethod_benchma.Run.Paired.{replay, in_env, repeat_replays}
use boost_openmethod_benchma.Verify.{Mismatch, run_checks}
use boost_openmethod_benchma.Verify.Checks.{Check}
use boost_openmethod_benchma.Verify.Detect.{run_checks_detects}
use boost_openmethod_benchma.Main.{variants, Outcome, main_impl}
use boost_openmethod_benchma.Main.Sound.{IsSoundAt, variants-IsSoundAt}
use boost_openmethod_benchma.Main.Accounts.{Accounts, main-Accounts}
use boost_openmethod_benchma.Main.Program.{Succeeds, main_total}
use boost_openmethod_benchma.Examples.Documented.{searching-IsDocumented}
use boost_openmethod_benchma.Examples.Platform.{
  still-IsRandom, flat_memory-IsLaidOut, bench, first, second, two_objects,
  two_objects-IsWellFormed, ticking,
}

variants-IsSoundAt_example : All (IsSoundAt two_objects 0 1) (variants bench)
variants-IsSoundAt_example =
    variants-IsSoundAt bench searching-IsDocumented 2 two_objects two_objects-IsWellFormed 0 1
      (omega arith) (omega arith)

-- A clock that shows another second at each reading.
abbrev seconds : ℕ → Timespec
seconds k = record { tv_sec = k; tv_nsec = 5 }

calibrate_exact_example :
    (w' : World) × (calibrate_tsc_hz {F = ℕ} 10 seconds 200000000 ticking ≡ some (100, w'))
calibrate_exact_example =
    calibrate_exact seconds 200000000 (omega arith) 10 1 ticking (omega arith) (omega arith)
      (λ j a b. absurd (omega arith)) (omega arith) (λ j h. omega arith) (omega arith) (omega arith)

measure_tsc_floor_exact_example :
    (st : Stats ℕ) × (w' : World) × (measure_tsc_floor (2 ^ 64) 3 ticking ≡ some (st, w'))
    × (summarize (2 ^ 64) (gaps (λ k. k * 100) 0 3) ≡ some st)
    × (st.samples ≡ 3)
measure_tsc_floor_exact_example =
    measure_tsc_floor_exact (2 ^ 64) 3 ticking (omega arith) (λ k. (omega arith, omega arith))

v_vf1-IsMeasurable : IsMeasurable clflush 2 two_objects (v_vf1 bench)
unfolding object_regions
v_vf1-IsMeasurable = record { replayable = λ g s i j. refl; stamps = stamps }
  where
    stamps :
        (i j : ℕ)
        → i < 2
        → j < 2
        → (a : (v_vf1 bench).Args) × ((v_vf1 bench).prepare two_objects i j ≡ some a)
          × (clflush ≡ clflush → All (Fits (2 ^ 64)) ((v_vf1 bench).regions a))
          × ((id : ℤ) × (reads : List Event) × Stamps ((v_vf1 bench).call a) id reads)
    stamps zero j hi hj =
        (first, refl, λ _. (omega arith, (omega arith, tt)), (_, load 4096 ∷ [], vf-Stamps first))
    stamps (suc zero) j hi hj =
        (second, refl, λ _. (omega arith, (omega arith, tt)), (_, load 4160 ∷ [], vf-Stamps second))
    stamps (suc (suc i)) j hi hj = absurd (omega arith)

run_timed_example :
    (r : Row ℕ) × (f : Env bench) × (w' : World) × (run
        (v_vf1 bench)
        two_objects
        default_config
        clflush
        ticking
      ≡ some ((r, f), w'))
    × (summarize (2 ^ 64) (windows (λ k. k * 100) 0 1000) ≡ some r.st)
    × (key_of r ≡ variant_key clflush (v_vf1 bench))
    × (w'.readings ≡ 4000)
run_timed_example =
    run_timed (v_vf1 bench) still-IsRandom clflush 2 two_objects v_vf1-IsMeasurable refl
      default_config ticking (λ k. (omega arith, omega arith)) (omega arith) (omega arith)

repeat_replays_example :
    repeat (v_vf1 bench) sweep 3 (record two_objects { scrub = ones 256; rng = 7 }) ticking
    ≡ (replay (v_vf1 bench) sweep two_objects ((0, 0) ∷ (0, 0) ∷ (0, 0) ∷ []) (ones 256)
          >>= in_env (v_vf1 bench) sweep two_objects 13)
        ticking
repeat_replays_example =
    repeat_replays (v_vf1 bench) sweep two_objects (λ g s i j. refl) 3 (ones 256) 7 ticking

-- a check that is passed and one that is not
abbrev two_checks : List Check
two_checks =
    record { what = ("vf", "yardstick"); call = vf second; want = pos 1 }
    ∷ record { what = ("touch", "baseline"); call = touch first; want = pos 1 }
    ∷ []

run_checks_detects_example :
    (ms : List Mismatch) × (w' : World) × (run_checks 0 1 two_checks ticking ≡ some (ms, w'))
    × ((ms ≡ []) ↔ ((pos 1 ∷ pos 0 ∷ []) ≡ (pos 1 ∷ pos 1 ∷ [])))
run_checks_detects_example =
    run_checks_detects 0 1 two_checks (pos 1 ∷ pos 0 ∷ []) ticking
      ((load 4160 ∷ [], vf-Stamps second), ((load 4096 ∷ [], touch-Stamps first), tt))

abbrev arguments : List String
arguments = "--reps" ∷ "10" ∷ []

abbrev few_settings : Config
few_settings = record default_config { reps = 10 }

accepted : parse (2 ^ 64) arguments ≡ settings few_settings
unfolding parse options reading set_mode check strtoull
accepted = refl

-- the end of the run on these arguments
ended :
    (out : Outcome ℕ) × (w' : World) × (main_impl bench 10 seconds arguments ticking
      ≡ some (out, w'))
    × Succeeds bench few_settings out
ended =
    main_total bench searching-IsDocumented still-IsRandom (omega arith) (omega arith) 10 1 seconds
      (omega arith) (omega arith) (omega arith) (λ j h. omega arith) few_settings (omega arith)
      (omega arith) (λ _. flat_memory-IsLaidOut 4096 (omega arith))
      (record { pointers = omega arith; virtual_ptrs = λ R. omega arith; bytes = omega arith })
      (omega arith) arguments accepted ticking

main-Accounts_example : Accounts bench 10 seconds (parse (2 ^ 64) arguments) ticking ended.0 ended.1
main-Accounts_example = main-Accounts bench 10 seconds arguments ticking ended.2
