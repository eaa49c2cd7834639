-- ===== src/Cli/Laws.antt =====
-- src/main.cpp: the settings that `parse` accepts, and how options combine.
use Prim.Native.String.{String}
use text.Mathlib.Text.{◌==◌}
use native.Mathlib.Nat.{mod-lt}
use boost_openmethod_benchma.Common.{
  ℕ, zero, suc, ap, ◌*◌, ◌/◌, ◌-◌, ◌^◌, ◌≤◌, ◌<◌, ◌≡◌, refl, sym, ◌∙◌, subst, arith, ◌↔◌, Bool,
  true, false, ◌||◌, List, [], ◌∷◌, ◌++◌, Option, some, none, if◌then◌else◌, ltb,
}
use boost_openmethod_benchma.Common as Common
use boost_openmethod_benchma.Common.Int.{ℤ, pos, negsuc}
use boost_openmethod_benchma.Config.{Config, default_config}
use boost_openmethod_benchma.Cli.Numbers.{strtoull, strtoul, atoi}
use boost_openmethod_benchma.Cli.{
  Parsed, Refusal, settings, refused, undefined, Reading, valued, switch, refuse, and_then,
  read_last, read_first, is_negative, set_mode, set_cpu, reading, options, check, parse,
}

-- Every number fits its type, and at least one cache mode is on.
abbrev pub IsReadable : ℕ → Config → Type 0
IsReadable word cfg =
    (cfg.reps < word)
    × (cfg.objects < word)
    × (cfg.sweep_mb < word)
    × (cfg.seed < 2 ^ 32)
    × ((cfg.warm || cfg.clflush || cfg.sweep) ≡ true)

-- The settings are readable, there is something to do, and the bytes of the sweep buffer fit
-- `std::size_t`.
pub record IsRunnable (word : ℕ) (cfg : Config) : Type 0 where
  pub some_object : 0 < cfg.objects
  pub some_rep : 0 < cfg.reps
  pub some_sweep : 0 < cfg.sweep_mb
  pub sweep_fits : cfg.sweep_mb * 1024 * 1024 < word
  pub cpu_index : (n : ℕ) × (cfg.cpu ≡ pos n)

-- The settings, where there are some, are readable.
abbrev Settled : ℕ → Parsed → Type 0
Settled word (settings cfg) = IsReadable word cfg
Settled word (refused why) = Unit
Settled word undefined = Unit

abbrev Keeps : ℕ → Reading → Type 0
Keeps word (valued set) =
    (v : String) (cfg : Config) → IsReadable word cfg → Settled word (set v cfg)
Keeps word (switch set) = (cfg : Config) → IsReadable word cfg → IsReadable word (set cfg)
Keeps word (refuse why) = Unit

-- a property of both branches
if_lem : {A : Type 0} (Q : A → Type 0) (b : Bool) (x y : A) → Q x → Q y → Q (if b then x else y)
if_lem Q true x y p q = p
if_lem Q false x y p q = q

set_mode-Settled :
    (word : ℕ) (v : String) (cfg : Config) → IsReadable word cfg → Settled word (set_mode v cfg)
unfolding set_mode
set_mode-Settled word v cfg (r, o, s, d, m) =
    if_lem (Settled word) (v == "warm") _ _ (r, o, s, d, refl)
      (if_lem (Settled word) (v == "clflush") _ _ (r, o, s, d, refl)
        (if_lem (Settled word) (v == "sweep") _ _ (r, o, s, d, refl)
          (if_lem (Settled word) (v == "all") _ _ (r, o, s, d, refl) tt)))

set_cpu-Settled :
    (word : ℕ) (n : Option ℤ) (cfg : Config) → IsReadable word cfg → Settled word (set_cpu n cfg)
unfolding set_cpu
set_cpu-Settled word none cfg h = tt
set_cpu-Settled word (some n) cfg h = h

reading-Keeps : (word : ℕ) (arg : String) → 0 < word → Keeps word (reading word arg)
unfolding reading
reading-Keeps word arg h =
    if_lem (Keeps word) (arg == "--reps") _ _
      (λ v cfg k. (mod-lt (strtoull v) h, k.1, k.2, k.3, k.4))
      (if_lem (Keeps word) (arg == "--objects") _ _
        (λ v cfg k. (k.0, mod-lt (strtoull v) h, k.2, k.3, k.4))
        (if_lem (Keeps word) (arg == "--sweep-mb") _ _
          (λ v cfg k. (k.0, k.1, mod-lt (strtoull v) h, k.3, k.4))
          (if_lem (Keeps word) (arg == "--cpu") _ _ (λ v cfg k. set_cpu-Settled word (atoi v) cfg k)
            (if_lem (Keeps word) (arg == "--seed") _ _
              (λ v cfg k. (k.0, k.1, k.2, mod-lt (strtoul word v) (omega arith), k.4))
              (if_lem (Keeps word) (arg == "--csv") _ _ (λ cfg k. k)
                (if_lem (Keeps word) (arg == "--verify") _ _ (λ cfg k. k)
                  (if_lem (Keeps word) (arg == "--mode") _ _ (set_mode-Settled word)
                    (if_lem (Keeps word) (arg == "--help" || arg == "-h") _ _ tt tt))))))))

and_then-Settled :
    (word : ℕ) (p : Parsed) (f : Config → Parsed)
    → Settled word p
    → ((cfg : Config) → IsReadable word cfg → Settled word (f cfg))
    → Settled word (and_then p f)
and_then-Settled word (settings cfg) f h g = g cfg h
and_then-Settled word (refused why) f h g = tt
and_then-Settled word undefined f h g = tt

read_last-Settled :
    (word : ℕ) (arg : String) (r : Reading) (cfg : Config)
    → Keeps word r
    → IsReadable word cfg
    → Settled word (read_last arg r cfg)
read_last-Settled word arg (valued set) cfg f k = tt
read_last-Settled word arg (switch set) cfg f k = f cfg k
read_last-Settled word arg (refuse why) cfg f k = tt

read_first-Settled :
    (word : ℕ) (r : Reading) (v : String) (cfg : Config) (value next : Config → Parsed)
    → Keeps word r
    → IsReadable word cfg
    → ((c : Config) → IsReadable word c → Settled word (value c))
    → ((c : Config) → IsReadable word c → Settled word (next c))
    → Settled word (read_first r v cfg value next)
read_first-Settled word (valued set) v cfg value next f k g h =
    and_then-Settled word (set v cfg) value (f v cfg k) g
read_first-Settled word (switch set) v cfg value next f k g h = h (set cfg) (f cfg k)
read_first-Settled word (refuse why) v cfg value next f k g h = tt

options-Settled :
    (word : ℕ) (args : List String) (cfg : Config)
    → 0 < word
    → IsReadable word cfg
    → Settled word (options word args cfg)
unfolding options
options-Settled word [] cfg h k = k
options-Settled word (arg ∷ []) cfg h k =
    read_last-Settled word arg (reading word arg) cfg (reading-Keeps word arg h) k
options-Settled word (arg ∷ v ∷ rest) cfg h k =
    read_first-Settled word (reading word arg) v cfg _ _ (reading-Keeps word arg h) k
      (λ c l. options-Settled word rest c h l) (λ c l. options-Settled word (v ∷ rest) c h l)

-- A test that was passed.
passed :
    (b : Bool) (why : Refusal) (p : Parsed) (next : Config)
    → (if b then refused why else p) ≡ settings next
    → (b ≡ false) × (p ≡ settings next)
passed true why p next h = cc
passed false why p next h = (refl, h)

pos_of : (n : ℤ) → is_negative n ≡ false → (k : ℕ) × (n ≡ pos k)
pos_of (pos k) h = (k, refl)
pos_of (negsuc k) h = cc

not_negative : (n : ℤ) (k : ℕ) → n ≡ pos k → is_negative n ≡ false
not_negative n k h = ap is_negative h

abbrev no_work : Config → Bool
no_work cfg = Common.◌==◌ cfg.objects 0 || Common.◌==◌ cfg.reps 0

abbrev bad_sweep : ℕ → Config → Bool
bad_sweep word cfg = Common.◌==◌ cfg.sweep_mb 0 || ltb ((word - 1) / (1024 * 1024)) cfg.sweep_mb

-- The tests let exactly the runnable settings through, and do not change them.
check_iff :
    (word : ℕ) (cfg next : Config)
    → 0 < word
    → (check word cfg ≡ settings next) ↔ ((next ≡ cfg) × IsRunnable word cfg)
unfolding check
check_iff word cfg next some_word = (forth, back)
  where
    forth : check word cfg ≡ settings next → (next ≡ cfg) × IsRunnable word cfg
    forth h =
        let first = passed (no_work cfg) Refusal.no_objects_or_reps _ next h in
        let second = passed (bad_sweep word cfg) Refusal.sweep_out_of_range _ next first.1 in
        let third =
          passed (is_negative cfg.cpu) Refusal.negative_cpu (settings cfg) next second.1 in
        let same : settings cfg ≡ settings next = third.1 in
        let work : no_work cfg ≡ false = first.0 in
        let swept : bad_sweep word cfg ≡ false = second.0 in
        (
          cc,
          record {
            some_object = ground arith;
            some_rep = ground arith;
            some_sweep = ground arith;
            sweep_fits = ground arith;
            cpu_index = pos_of cfg.cpu third.0;
          },
        )

    back : (next ≡ cfg) × IsRunnable word cfg → check word cfg ≡ settings next
    back (e, r) =
        let some_object = r.some_object in
        let some_rep = r.some_rep in
        let some_sweep = r.some_sweep in
        let fits = r.sweep_fits in
        let work : no_work cfg ≡ false = ground arith in
        let swept : bad_sweep word cfg ≡ false = ground arith in
        rw (work, swept, not_negative cfg.cpu r.cpu_index.0 r.cpu_index.1) (ap settings (sym e))

read_last-append :
    (arg : String) (r : Reading) (y : String) (cfg c : Config) (value next : Config → Parsed)
    → read_last arg r cfg ≡ settings c
    → read_first r y cfg value next ≡ next c
read_last-append arg (valued set) y cfg c value next h = cc
read_last-append arg (switch set) y cfg c value next h = cc
read_last-append arg (refuse why) y cfg c value next h = cc

and_then-settings :
    (p : Parsed) (f g : Config → Parsed) (c : Config) (q : Parsed)
    → ((d : Config) → f d ≡ settings c → g d ≡ q)
    → and_then p f ≡ settings c
    → and_then p g ≡ q
and_then-settings undefined f g c q k h = cc
and_then-settings (settings d) f g c q k h = k d h
and_then-settings (refused why) f g c q k h = cc

read_first-append :
    (r : Reading) (v : String) (cfg c : Config) (value next value' next' : Config → Parsed)
    (q : Parsed)
    → ((d : Config) → value d ≡ settings c → value' d ≡ q)
    → ((d : Config) → next d ≡ settings c → next' d ≡ q)
    → read_first r v cfg value next ≡ settings c
    → read_first r v cfg value' next' ≡ q
read_first-append (valued set) v cfg c value next value' next' q f g h =
    and_then-settings (set v cfg) value value' c q f h
read_first-append (switch set) v cfg c value next value' next' q f g h = g (set cfg) h
read_first-append (refuse why) v cfg c value next value' next' q f g h = cc

-- Options are read from the left: if a part of the command line can be read alone, the rest is read
-- with the settings that this part leaves.
pub options-append :
    (word : ℕ) (xs ys : List String) (cfg next : Config)
    → options word xs cfg ≡ settings next
    → options word (xs ++ ys) cfg ≡ options word ys next
unfolding options
options-append word [] ys cfg next h = cc
options-append word (arg ∷ []) [] cfg next h = h
options-append word (arg ∷ []) (y ∷ ys) cfg next h =
    read_last-append arg (reading word arg) y cfg next _ _ h
options-append word (arg ∷ v ∷ rest) ys cfg next h =
    read_first-append (reading word arg) v cfg next _ _ _ _ _
      (λ d. options-append word rest ys d next) (λ d. options-append word (v ∷ rest) ys d next) h

parse_of :
    (word : ℕ) (p : Parsed) (cfg : Config)
    → 0 < word
    → (and_then p (check word) ≡ settings cfg) ↔ ((p ≡ settings cfg) × IsRunnable word cfg)
parse_of word (settings c) cfg h =
    let both = check_iff word c cfg h in
    (
      λ e. let f = both.0 e in (ap settings (sym f.0), subst (IsRunnable word) (sym f.0) f.1),
      λ f. let e : c ≡ cfg = cc in both.1 (sym e, subst (IsRunnable word) (sym e) f.1),
    )
parse_of word undefined cfg h = (λ e. cc, λ f. let e = f.0 in cc)
parse_of word (refused why) cfg h = (λ e. cc, λ f. let e = f.0 in cc)

pub parse_iff :
    (word : ℕ) (args : List String) (cfg : Config)
    → 2 ^ 32 ≤ word
    → ((parse word args ≡ settings cfg)
        ↔ ((options word args default_config ≡ settings cfg) × IsRunnable word cfg))
      × (parse word args ≡ settings cfg → IsReadable word cfg)
unfolding parse
parse_iff word args cfg h =
    let some_word : 0 < word = omega arith in
    let both = parse_of word (options word args default_config) cfg some_word in
    (
      both,
      λ e. subst (Settled word) (both.0 e).0 (
          options-Settled word args default_config some_word
            (omega arith, omega arith, omega arith, omega arith, refl)),
    )
