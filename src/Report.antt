-- ===== src/Report.antt =====
-- src/main.cpp: the figures of `report`, over an abstract `double`. A figure with its uncertainty is a pair; the source returns the second in `se`.
pub mod Complete
pub mod Lines
pub mod Figures
pub mod Csv
pub mod Distinct
pub mod Text
use Prim.Native.String.{String}
use text.Mathlib.Text.{◌==◌}
use mathlib.Core.Option as Option
use boost_openmethod_benchma.Common as Common
use boost_openmethod_benchma.Common.{
  ℕ, ◌^◌, Bool, true, false, ◌&&◌, ◌||◌, Option, none, some, List, [], ◌∷◌, map, if◌then◌else◌,
}
use boost_openmethod_benchma.Common.Double.{Double}
use boost_openmethod_benchma.Timing.Flush.{CacheMode, warm, clflush, sweep}
use boost_openmethod_benchma.Timing.Stats.{Stats}
use boost_openmethod_benchma.Run.{Row}
use boost_openmethod_benchma.Run.Key.{Key, key_of}

abbrev pub same_mode : CacheMode → CacheMode → Bool
same_mode warm warm = true
same_mode clflush clflush = true
same_mode sweep sweep = true
same_mode _ _ = false

-- the first element that passes a test, for the loops that return from their middle
abbrev pub find : {A : Type 0} → (A → Bool) → List A → Option A
find t [] = none
find t (x ∷ xs) = let later = find t xs in if t x then some x else later

-- The tests of the loops.
abbrev pub is_named_baseline : CacheMode → String → Key → Bool
is_named_baseline m name r = r.group == "baseline" && (same_mode r.mode m && r.name == name)

abbrev pub is_obj_baseline : CacheMode → ℕ → String → Key → Bool
is_obj_baseline m arity hier r =
    r.group == "baseline" && (same_mode r.mode m && (Common.◌==◌ r.arity arity && r.hier == hier))

abbrev pub is_yardstick_of : Key → Key → Bool
is_yardstick_of r y =
    y.group == "yardstick"
    && (same_mode y.mode r.mode
        && (Common.◌==◌ y.arity r.arity && (y.hier == r.hier && y.body == r.body)))

-- no ratio is taken, and no figure of dispatch alone is shown
abbrev pub is_reference : Key → Bool
is_reference r = Common.◌==◌ r.arity 0 || r.group == "baseline"

-- What the text report shows in a cell: `-` or a figure.
pub data Cell (F : Type 0) : Type 0 where
  dash : Cell F
  figure : F → Cell F

module _ {F : Type 0} ⦃d : Double F⦄ where
  open d use {of_ℕ, add, sub, mul, div, sqrt, gt}

  -- the difference of two means, with its uncertainty
  abbrev pub over : Row F → Stats F → F × F
  over r b = (sub r.st.mean b.mean, sqrt (add (mul r.st.se r.st.se) (mul b.se b.se)))

  module _ (rows : List (Row F)) where
    -- `named_baseline`
    unfoldable pub named_baseline : CacheMode → String → Option (Stats F)
    named_baseline m name =
        Option.map (λ (r : Row F). r.st) (find (λ r. is_named_baseline m name (key_of r)) rows)

    -- `baseline`
    unfoldable pub baseline : CacheMode → Option (Stats F)
    unfolding named_baseline
    baseline m = named_baseline m "probe"

    -- `obj_baseline`
    unfoldable pub obj_baseline : CacheMode → ℕ → String → Option (Stats F)
    obj_baseline m arity hier =
        Option.map (λ (r : Row F). r.st) (find (λ r. is_obj_baseline m arity hier (key_of r)) rows)

    -- `net_of`
    unfoldable pub net_of : Row F → F × F
    unfolding baseline
    net_of r = elim (baseline r.mode) [ none ↦ (r.st.mean, r.st.se) | some b ↦ over r b ]

    -- `disp_of`, where the row's call touches the receiver
    abbrev pub disp_of_touching : Row F → Option (Stats F) → F × F
    disp_of_touching r none = (of_ℕ 0, of_ℕ 0)
    disp_of_touching r (some b) = if Common.◌==◌ r.arity 0 then (of_ℕ 0, of_ℕ 0) else over r b

    -- `disp_of`
    unfoldable pub disp_of : Row F → F × F
    unfolding named_baseline net_of obj_baseline
    disp_of r =
        if r.touches_receiver
        then disp_of_touching r (obj_baseline r.mode r.arity r.hier)
        else elim (named_baseline r.mode "direct") [ none ↦ net_of r | some b ↦ over r b ]

    -- the loop of `ratio_of`: the yardstick that a row is compared with
    unfoldable pub yardstick : Row F → Option (Row F)
    yardstick r = find (λ y. is_yardstick_of (key_of r) (key_of y)) rows

    -- `base > 0 ? val / base : 0`
    abbrev pub quotient : (val base : F) → F
    quotient val base = if gt base (of_ℕ 0) then div val base else of_ℕ 0

    -- `ratio_of`
    unfoldable pub ratio_of : Row F → (use_disp : Bool) → F
    unfolding disp_of net_of yardstick
    ratio_of r use_disp = if is_reference (key_of r) then of_ℕ 0 else elim (yardstick r) [
      | none ↦ of_ℕ 0
      | some y ↦
          if use_disp
          then quotient (disp_of r).0 (disp_of y).0
          else quotient (net_of r).0 (net_of y).0
    ]

    -- The computed columns of a line of the CSV output: net, net_se, disp, disp_se, disp_ns, x_net and
    -- x_disp.
    unfoldable pub csv_figures : (tsc_hz : F) → Row F → List F
    unfolding net_of disp_of ratio_of
    csv_figures tsc_hz r =
        (net_of r).0
        ∷ (net_of r).1
        ∷ (disp_of r).0
        ∷ (disp_of r).1
        ∷ div (mul (disp_of r).0 (of_ℕ (10 ^ 9))) tsc_hz
        ∷ ratio_of r false
        ∷ ratio_of r true
        ∷ []

    -- `fmt_ratio`
    abbrev pub fmt_ratio : F → Cell F
    fmt_ratio v = if gt v (of_ℕ 0) then figure v else dash

    -- The computed columns of a line of the text report: +/-, disp, x net and x disp.
    unfoldable pub text_cells : Row F → F × Cell F × Cell F × Cell F
    unfolding net_of disp_of ratio_of
    text_cells r = (
      (net_of r).1,
      if is_reference (key_of r) then dash else figure (disp_of r).0,
      fmt_ratio (ratio_of r false),
      fmt_ratio (ratio_of r true),
    )
