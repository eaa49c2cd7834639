-- ===== src/Cli.antt =====
-- src/main.cpp: `parse`, the options of the command line. `word` is 2 to the number of bits of
-- `std::size_t` and `unsigned long`. A refusal carries what the source prints.
pub mod Numbers
pub mod Laws
pub mod Print
pub mod RoundTrip
use Prim.Native.String.{String}
use text.Mathlib.Text.{◌==◌}
use boost_openmethod_benchma.Common.{
  ℕ, ◌-◌, ◌*◌, ◌/◌, ◌%◌, ◌^◌, Bool, true, false, ◌||◌, Option, none, some, List, [], ◌∷◌, ltb,
  if◌then◌else◌,
}
use boost_openmethod_benchma.Common as Common
use boost_openmethod_benchma.Common.Int.{ℤ, pos, negsuc}
use boost_openmethod_benchma.Config.{Config, default_config}
use boost_openmethod_benchma.Cli.Numbers.{strtoull, strtoul, atoi}

-- Why `parse` returns false.
pub data Refusal : Type 0 where
  missing_value unknown_mode unknown_option : String → Refusal
  usage no_objects_or_reps sweep_out_of_range negative_cpu : Refusal

-- What `parse` leaves. With a number that is no `int`, `std::atoi` is undefined, and so is all that
-- follows.
pub data Parsed : Type 0 where
  settings : Config → Parsed
  refused : Refusal → Parsed
  undefined : Parsed

-- How an option is read: with a value, without one, or not at all.
pub data Reading : Type 0 where
  valued : (String → Config → Parsed) → Reading
  switch : (Config → Config) → Reading
  refuse : Refusal → Reading

-- `--mode`
unfoldable pub set_mode : String → Config → Parsed
set_mode m cfg =
    if m == "warm"
    then settings (record cfg { warm = true; clflush = false; sweep = false })
    else if m == "clflush"
    then settings (record cfg { warm = false; clflush = true; sweep = false })
    else if m == "sweep"
    then settings (record cfg { warm = false; clflush = false; sweep = true })
    else if m == "all"
    then settings (record cfg { warm = true; clflush = true; sweep = true })
    else refused (unknown_mode m)

-- `--cpu`
unfoldable pub set_cpu : Option ℤ → Config → Parsed
set_cpu none cfg = undefined
set_cpu (some n) cfg = settings (record cfg { cpu = n })

-- The chain of tests on `arg`.
unfoldable pub reading : (word : ℕ) → String → Reading
unfolding set_mode set_cpu
reading word arg =
    if arg == "--reps"
    then valued (λ v cfg. settings (record cfg { reps = strtoull v % word }))
    else if arg == "--objects"
    then valued (λ v cfg. settings (record cfg { objects = strtoull v % word }))
    else if arg == "--sweep-mb"
    then valued (λ v cfg. settings (record cfg { sweep_mb = strtoull v % word }))
    else if arg == "--cpu"
    then valued (λ v cfg. set_cpu (atoi v) cfg)
    else if arg == "--seed"
    then valued (λ v cfg. settings (record cfg { seed = strtoul word v % 2 ^ 32 }))
    else if arg == "--csv"
    then switch (λ cfg. record cfg { csv = true })
    else if arg == "--verify"
    then switch (λ cfg. record cfg { verify_only = true })
    else if arg == "--mode"
    then valued set_mode
    else if (arg == "--help" || arg == "-h")
    then refuse usage
    else refuse (unknown_option arg)

abbrev pub and_then : Parsed → (Config → Parsed) → Parsed
and_then (settings cfg) f = f cfg
and_then (refused why) f = refused why
and_then undefined f = undefined

-- An option in the last place.
abbrev pub read_last : String → Reading → Config → Parsed
read_last arg (valued set) cfg = refused (missing_value arg)
read_last arg (switch set) cfg = settings (set cfg)
read_last arg (refuse why) cfg = refused why

-- An option before another argument `v`, which is its value or the next option.
abbrev pub read_first : Reading → String → Config → (value next : Config → Parsed) → Parsed
read_first (valued set) v cfg value next = and_then (set v cfg) value
read_first (switch set) v cfg value next = next (set cfg)
read_first (refuse why) v cfg value next = refused why

-- The loop over the arguments behind the program's name. A value is the next argument, whatever it is.
unfoldable pub options : (word : ℕ) → List String → Config → Parsed
options word [] cfg = settings cfg
options word (arg ∷ []) cfg = read_last arg (reading word arg) cfg
options word (arg ∷ v ∷ rest) cfg =
    read_first (reading word arg) v cfg (λ next. options word rest next)
      (λ next. options word (v ∷ rest) next)

abbrev pub is_negative : ℤ → Bool
is_negative (pos n) = false
is_negative (negsuc n) = true

-- The tests behind the loop.
unfoldable pub check : (word : ℕ) → Config → Parsed
check word cfg =
    if Common.◌==◌ cfg.objects 0 || Common.◌==◌ cfg.reps 0
    then refused no_objects_or_reps
    else if Common.◌==◌ cfg.sweep_mb 0 || ltb ((word - 1) / (1024 * 1024)) cfg.sweep_mb
    then refused sweep_out_of_range
    else if is_negative cfg.cpu
    then refused negative_cpu
    else settings cfg

-- `parse`, with the arguments behind the program's name
unfoldable pub parse : (word : ℕ) → List String → Parsed
unfolding options reading check
parse word args = and_then (options word args default_config) (check word)
