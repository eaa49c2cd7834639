-- ===== src/Cli/RoundTrip.antt =====
-- src/main.cpp: `parse` reads printed settings back.
use Prim.Native.String.{String}
use native.Mathlib.Nat.{mod-eq_of_lt}
use boost_openmethod_benchma.Common.{
  ℕ, ◌%◌, ◌^◌, ◌≤◌, ◌<◌, ◌≡◌, refl, ap, ◌∙◌, arith, Bool, true, false, Option, none, some, List, [],
  ◌∷◌, ◌++◌, if◌then◌else◌,
}
use boost_openmethod_benchma.Common.Int.{pos}
use boost_openmethod_benchma.Timing.Flush.{CacheMode, warm, clflush, sweep}
use boost_openmethod_benchma.Config.{Config, default_config}
use boost_openmethod_benchma.Cli.{settings, set_mode, set_cpu, reading, options, parse}
use boost_openmethod_benchma.Cli.Laws.{IsRunnable, options-append, parse_iff}
use boost_openmethod_benchma.Cli.Numbers.{strtoull, strtoul}
use boost_openmethod_benchma.Cli.Print.{show, strtoull-show, strtoul-show, atoi-show}

-- The options with a number.
abbrev numbers : (reps objects sweep_mb cpu seed : ℕ) → List String
numbers reps objects sweep_mb cpu seed =
    "--reps"
    ∷ show reps
    ∷ "--objects"
    ∷ show objects
    ∷ "--sweep-mb"
    ∷ show sweep_mb
    ∷ "--cpu"
    ∷ show cpu
    ∷ "--seed"
    ∷ show seed
    ∷ []

-- The name of a choice of cache modes: one of them, or all.
abbrev mode_name : Option CacheMode → String
mode_name none = "all"
mode_name (some warm) = "warm"
mode_name (some clflush) = "clflush"
mode_name (some sweep) = "sweep"

abbrev switches : (csv verify_only : Bool) → List String
switches csv verify_only =
    (if csv then "--csv" ∷ [] else []) ++ (if verify_only then "--verify" ∷ [] else [])

-- the command line that asks for some settings
abbrev pub arguments :
    (reps objects sweep_mb cpu seed : ℕ) → Option CacheMode → (csv verify_only : Bool) → List String
arguments reps objects sweep_mb cpu seed mode csv verify_only =
    numbers reps objects sweep_mb cpu seed ++ ("--mode" ∷ mode_name mode ∷ switches csv verify_only)

abbrev pub is_on : CacheMode → Option CacheMode → Bool
is_on m none = true
is_on warm (some warm) = true
is_on clflush (some clflush) = true
is_on sweep (some sweep) = true
is_on _ (some _) = false

-- these settings
abbrev pub asked :
    (reps objects sweep_mb cpu seed : ℕ) → Option CacheMode → (csv verify_only : Bool) → Config
asked reps objects sweep_mb cpu seed mode csv verify_only = record {
  reps = reps;
  objects = objects;
  sweep_mb = sweep_mb;
  cpu = pos cpu;
  seed = seed;
  csv = csv;
  verify_only = verify_only;
  warm = is_on warm mode;
  clflush = is_on clflush mode;
  sweep = is_on sweep mode;
}

module _ (word reps objects sweep_mb cpu seed : ℕ) (low : 2 ^ 32 ≤ word) (high : word ≤ 2 ^ 64)
    (reps_fit : reps < word) (objects_fit : objects < word) (sweep_fit : sweep_mb < word)
    (cpu_fit : cpu < 2 ^ 31) (seed_fit : seed < 2 ^ 32) where
  word_lem : (n : ℕ) → n < word → strtoull (show n) % word ≡ n
  word_lem n h = ap (λ k. k % word) (strtoull-show n (omega arith)) ∙ mod-eq_of_lt h

  seed_lem : strtoul word (show seed) % 2 ^ 32 ≡ seed
  seed_lem = ap (λ k. k % 2 ^ 32) (strtoul-show word seed (omega arith)) ∙ mod-eq_of_lt seed_fit

  numbers_lem :
      options word (numbers reps objects sweep_mb cpu seed) default_config
      ≡ settings (record default_config {
        reps = reps;
        objects = objects;
        sweep_mb = sweep_mb;
        cpu = pos cpu;
        seed = seed;
      })
  unfolding options reading set_cpu
  numbers_lem = rw (
    word_lem reps reps_fit,
    word_lem objects objects_fit,
    word_lem sweep_mb sweep_fit,
    atoi-show cpu cpu_fit,
    seed_lem,
  )

  switches_lem :
      (mode : Option CacheMode) (csv verify_only : Bool)
      → options word ("--mode" ∷ mode_name mode ∷ switches csv verify_only) (record default_config {
        reps = reps;
        objects = objects;
        sweep_mb = sweep_mb;
        cpu = pos cpu;
        seed = seed;
      })
        ≡ settings (asked reps objects sweep_mb cpu seed mode csv verify_only)
  unfolding options reading set_mode
  switches_lem none true true = refl
  switches_lem none true false = refl
  switches_lem none false true = refl
  switches_lem none false false = refl
  switches_lem (some warm) true true = refl
  switches_lem (some warm) true false = refl
  switches_lem (some warm) false true = refl
  switches_lem (some warm) false false = refl
  switches_lem (some clflush) true true = refl
  switches_lem (some clflush) true false = refl
  switches_lem (some clflush) false true = refl
  switches_lem (some clflush) false false = refl
  switches_lem (some sweep) true true = refl
  switches_lem (some sweep) true false = refl
  switches_lem (some sweep) false true = refl
  switches_lem (some sweep) false false = refl

  -- Settings that fit their types, and are runnable, are read back from the command line that asks for
  -- them, with one cache mode or all of them. `std::size_t` has between 32 and 64 bits.
  pub parse-arguments :
      (mode : Option CacheMode) (csv verify_only : Bool)
      → IsRunnable word (asked reps objects sweep_mb cpu seed mode csv verify_only)
      → parse word (arguments reps objects sweep_mb cpu seed mode csv verify_only)
        ≡ settings (asked reps objects sweep_mb cpu seed mode csv verify_only)
  parse-arguments mode csv verify_only runnable =
      (parse_iff word (arguments reps objects sweep_mb cpu seed mode csv verify_only)
          (asked reps objects sweep_mb cpu seed mode csv verify_only) low).0.1
        (
          options-append word (numbers reps objects sweep_mb cpu seed)
                ("--mode" ∷ mode_name mode ∷ switches csv verify_only) default_config _ numbers_lem
              ∙ switches_lem mode csv verify_only,
          runnable,
        )
