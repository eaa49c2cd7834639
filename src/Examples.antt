-- ===== src/Examples.antt =====
-- Tests and examples: the theorems at concrete inputs.
pub mod Documented
pub mod Platform
pub mod Runs
pub mod Options
pub mod Tables
pub mod Objects
pub mod Cold
pub mod Verdicts
pub mod Registrations
use Prim.Native.String.{String}
use mathlib.Core.List as Lists
use mathlib.Core.List.{Perm}
use boost_openmethod_benchma.Common.{
  ℕ, suc, ◌+◌, ◌-◌, ◌*◌, ◌/◌, ◌%◌, ◌^◌, ◌≤◌, ◌<◌, ◌≡◌, refl, arith, some, List, [], ◌∷◌, ◌++◌, map,
  All, ◌==◌, if◌then◌else◌, length, true, false, ◌⊎◌,
}
use boost_openmethod_benchma.Common.Double.{whole_double}
use boost_openmethod_benchma.Common.Int.{ℤ, pos}
use boost_openmethod_benchma.Machine.{Event, World, load, lfence, rdtsc, rdtscp, mfence}
use boost_openmethod_benchma.Library.{derived, vector_registry, inplace_registry}
use boost_openmethod_benchma.Hierarchy.{Base}
use boost_openmethod_benchma.Hierarchy.Calls.{vf-Stamps}
use boost_openmethod_benchma.OpenMethod.{call_best}
use boost_openmethod_benchma.Registries.{poke_ref_impl, collide_ref_base, collide_ref_impl}
use boost_openmethod_benchma.Registries.Overriders.{monadic, dyadic}
use boost_openmethod_benchma.Registries.Dispatch.{call_monadic, call_dyadic}
use boost_openmethod_benchma.Timing.Tsc.{elapsed, elapsed_to, elapsed_exact, reading}
use boost_openmethod_benchma.Timing.Flush.{
  warm, clflush, sweep, Region, flush_range, Flushed, flush_range-Flushed,
}
use boost_openmethod_benchma.Timing.Scrub.{Scrubber, ones, apply, Evicted}
use boost_openmethod_benchma.Timing.Scrub.Laws.{apply_modes}
use boost_openmethod_benchma.Timing.Scrub.Sweep.{apply_sweep, Swept}
use boost_openmethod_benchma.Timing.Stats.{Stats, no_stats, summarize}
use boost_openmethod_benchma.Timing.Stats.Laws.{IsSummary, summarize_perm, summarize-IsSummary}
use boost_openmethod_benchma.Config.{Config, default_config}
use boost_openmethod_benchma.Cli.{Parsed, options, reading as read_option, set_mode}
use boost_openmethod_benchma.Cli.Laws.{options-append}
use boost_openmethod_benchma.Env.{Env, new_env}
use boost_openmethod_benchma.Env.WellFormed.{IsWellFormed, new_env-IsWellFormed}
use boost_openmethod_benchma.Variants.Baseline.{v_vf1}
use boost_openmethod_benchma.Run.{Row, timed_call}
use boost_openmethod_benchma.Run.Window.{timed_call_window}
use boost_openmethod_benchma.Verify.{verify}
use boost_openmethod_benchma.Verify.Passes.{verify_quiet}
use boost_openmethod_benchma.Main.{modes, variants, keys}
use boost_openmethod_benchma.Run.Key.{Key, key_of}
use boost_openmethod_benchma.Report.Complete.{IsAnchored, rows-IsAnchored}
use boost_openmethod_benchma.Examples.Documented.{searching, searching-IsDocumented}
use boost_openmethod_benchma.Examples.Platform.{
  row_of, still-IsRandom, bench, first, second, two_objects, two_objects-IsWellFormed, ticking,
}

timed_call_window_example :
    timed_call (v_vf1 bench) second ticking
    ≡ some (
      (pos 1, 100),
      record ticking { readings = 2; log = rdtscp ∷ load 4160 ∷ lfence ∷ rdtsc ∷ lfence ∷ [] },
    )
timed_call_window_example =
    timed_call_window (v_vf1 bench) second (pos 1) (load 4160 ∷ []) ticking (vf-Stamps second)
      (omega arith) (omega arith)

verify_quiet_example : (w' : World) × (verify bench two_objects ticking ≡ some ([], w'))
verify_quiet_example =
    verify_quiet bench searching-IsDocumented 2 (omega arith) two_objects two_objects-IsWellFormed
      ticking

new_env-IsWellFormed_example :
    (e : Env bench) × (new_env bench default_config ≡ some e)
    × IsWellFormed bench 4096 e
    × (e.scrub ≡ ones 67108864)
new_env-IsWellFormed_example =
    new_env-IsWellFormed bench still-IsRandom (omega arith) default_config (omega arith)
      (record { pointers = omega arith; virtual_ptrs = λ R. omega arith; bytes = omega arith })

abbrev samples : List ℕ
samples = 50 ∷ 25 ∷ 900 ∷ 25 ∷ []

summarize-IsSummary_example :
    (s : Stats ℕ) × (summarize (2 ^ 64) samples ≡ some s) × IsSummary samples s
summarize-IsSummary_example = summarize-IsSummary (2 ^ 64) samples (omega arith) (omega arith)

summarize_perm_example :
    summarize {F = ℕ} (2 ^ 64) (50 ∷ 25 ∷ []) ≡ summarize (2 ^ 64) (25 ∷ 50 ∷ [])
summarize_perm_example = summarize_perm (2 ^ 64) (Lists.Perm.swap 25 50 [])

flush_range-Flushed_example :
    (w' : World) × (flush_range (2 ^ 64) 100 60 ticking ≡ some (tt, w')) × Flushed 64 160 ticking w'
flush_range-Flushed_example =
    flush_range-Flushed (2 ^ 64) 100 60 ticking (omega arith) (λ e. absurd (omega arith))

abbrev two_regions : List Region
two_regions = record { addr = 0; size = 8 } ∷ record { addr = 100; size = 60 } ∷ []

apply_modes_example :
    (apply (2 ^ 64) warm two_regions (ones 256) ticking ≡ some (ones 256, ticking))
    × ((w' : World) × Evicted two_regions ticking w'
        × (apply (2 ^ 64) clflush two_regions (ones 256) ticking
            ≡ some (ones 256, record w' { log = mfence ∷ w'.log })))
apply_modes_example =
    apply_modes (2 ^ 64) two_regions (ones 256) ticking (omega arith, (omega arith, tt))

elapsed_exact_example :
    (elapsed (reading (2 ^ 64 - 5)) (reading (2 ^ 64 + 20)) ≡ 25)
    × (elapsed_to (reading (2 ^ 64 - 5)) ((2 ^ 64 + 20) % 2 ^ 64) ≡ 25)
elapsed_exact_example = elapsed_exact (2 ^ 64 - 5) (2 ^ 64 + 20) (omega arith) (omega arith)

call_dyadic_example :
    call_best searching
      (dyadic
        (collide_ref_base searching vector_registry)
        (collide_ref_impl searching vector_registry)
        3)
      (derived 0 ∷ derived 1 ∷ [])
      (first, second)
      ticking
    ≡ collide_ref_base searching vector_registry (first, second) ticking
call_dyadic_example =
    call_dyadic searching searching-IsDocumented 3 (collide_ref_base searching vector_registry)
      (collide_ref_impl searching vector_registry) (first, second) ticking 0 1 (omega arith)

call_monadic_example :
    call_best searching
      (monadic (poke_ref_impl searching vector_registry) 3)
      (derived 1 ∷ [])
      second
      ticking
    ≡ poke_ref_impl searching vector_registry 1 second ticking
call_monadic_example =
    call_monadic searching searching-IsDocumented 3 (poke_ref_impl searching vector_registry) 1
      second ticking (omega arith)

abbrev all_rows : List (Row ℕ)
all_rows = map row_of (keys bench (modes default_config))

rows-IsAnchored_example : All (IsAnchored all_rows) all_rows
unfolding variants modes
rows-IsAnchored_example = rows-IsAnchored bench default_config all_rows refl

abbrev arguments : List String
arguments = "--mode" ∷ "warm" ∷ "--reps" ∷ "10" ∷ []

abbrev warm_settings : Config
warm_settings = record default_config { reps = 10; clflush = false; sweep = false }

options-append_example :
    options (2 ^ 64) arguments default_config
    ≡ options
        (2 ^ 64)
        ("--reps" ∷ "10" ∷ [])
        (record default_config { clflush = false; sweep = false })
unfolding options read_option set_mode
options-append_example =
    options-append (2 ^ 64) ("--mode" ∷ "warm" ∷ []) ("--reps" ∷ "10" ∷ []) default_config
      (record default_config { clflush = false; sweep = false }) refl

apply_sweep_example :
    (bytes' : ℕ → ℕ) × (added : List Event) × (apply (2 ^ 64) sweep [] (ones 256) ticking
      ≡ some
          (record { size = 256; bytes = bytes' }, record ticking { log = mfence ∷ (added ++ []) }))
    × Swept 0 256 (λ i. 1) bytes' added
apply_sweep_example = apply_sweep (2 ^ 64) [] (ones 256) ticking (omega arith)
