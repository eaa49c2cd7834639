-- ===== src/Report/Lines.antt =====
-- src/main.cpp: the lines that `report` prints, as values. Report/Text has their text.
use boost_openmethod_benchma.Common.{
  ℕ, ◌*◌, ◌/◌, ◌^◌, ◌<◌, ◌≡◌, refl, ap, ◌∙◌, arith, true, false, List, [], ◌∷◌, map, length,
  if◌then◌else◌, Bool-cases, inl, inr, some,
}
use native.Mathlib.Nat.{mod-eq_of_lt}
use boost_openmethod_benchma.Common.Double.{Double}
use boost_openmethod_benchma.Timing.Flush.{CacheMode, warm}
use boost_openmethod_benchma.Timing.Scrub.{Scrubber, sweep_bytes}
use boost_openmethod_benchma.Timing.Stats.{Stats}
use boost_openmethod_benchma.Hierarchy.{new_derived}
use boost_openmethod_benchma.Platform.{Platform, IsRandom}
use boost_openmethod_benchma.Config.{Config}
use boost_openmethod_benchma.Cli.Laws.{IsRunnable}
use boost_openmethod_benchma.Env.{Env, new_env}
use boost_openmethod_benchma.Env.WellFormed.{HasRoom, new_env-IsWellFormed, length-round_robin}
use boost_openmethod_benchma.Run.{Row}
use boost_openmethod_benchma.Report.{Cell, same_mode, csv_figures, text_cells}

-- A line of the table, or the empty line between two cache modes.
pub data Line (F : Type 0) : Type 0 where
  blank : Line F
  cells : Row F → F × Cell F × Cell F × Cell F → Line F

-- The figures of the lines above the table.
pub record Header (F : Type 0) : Type 0 where
  pub num_classes : ℕ
  pub objects : ℕ
  pub reps : ℕ
  pub tsc_ghz : F
  pub sweep_mib : ℕ
  pub floor_mean : F
  pub floor_median : ℕ

pub data Output (F : Type 0) : Type 0 where
  csv_lines : List (Row F × List F) → Output F
  text_lines : Header F → List (Line F) → Output F

module _ {F : Type 0} ⦃d : Double F⦄ where
  -- The loop over the rows, after a row of the mode `last`.
  unfoldable pub table : (all : List (Row F)) → (last : CacheMode) → List (Row F) → List (Line F)
  unfolding text_cells
  table all last [] = []
  table all last (r ∷ rows) =
      let line = cells r (text_cells all r) in
      let later = table all r.mode rows in
      if same_mode r.mode last then line ∷ later else blank ∷ line ∷ later

  -- `rows.empty() ? cache_mode::warm : rows.front().mode`
  abbrev pub first_mode : List (Row F) → CacheMode
  first_mode [] = warm
  first_mode (r ∷ rows) = r.mode

  unfoldable pub header : (P : Platform) → Config → (tsc_hz : F) → Env P → Stats F → Header F
  unfolding sweep_bytes
  header P cfg tsc_hz e floor_st = record {
    num_classes = P.num_classes;
    objects = length e.objects;
    reps = cfg.reps;
    tsc_ghz = d.div tsc_hz (d.of_ℕ (10 ^ 9));
    sweep_mib = sweep_bytes e.scrub / (1024 * 1024);
    floor_mean = floor_st.mean;
    floor_median = floor_st.median;
  }

  -- `report`
  unfoldable pub report :
      (P : Platform) → List (Row F) → Config → (tsc_hz : F) → Env P → Stats F → Output F
  unfolding csv_figures table header
  report P rows cfg tsc_hz e floor_st =
      if cfg.csv
      then csv_lines (map (λ r. (r, csv_figures rows tsc_hz r)) rows)
      else text_lines (header P cfg tsc_hz e floor_st) (table rows (first_mode rows) rows)

  -- the rows in the lines of a table
  abbrev pub rows_of : List (Line F) → List (Row F)
  rows_of [] = []
  rows_of (blank ∷ lines) = rows_of lines
  rows_of (cells r c ∷ lines) = r ∷ rows_of lines

  -- Every empty line stands between two rows of different cache modes, the first after a row of the
  -- mode `last`.
  abbrev pub AreSeparated : (last : CacheMode) → List (Line F) → Type 0
  AreSeparated last [] = Unit
  AreSeparated last (cells r c ∷ lines) = (same_mode r.mode last ≡ true) × AreSeparated r.mode lines
  AreSeparated last (blank ∷ []) = ⊥
  AreSeparated last (blank ∷ blank ∷ lines) = ⊥
  AreSeparated last (blank ∷ cells r c ∷ lines) =
      (same_mode r.mode last ≡ false) × AreSeparated r.mode lines

  -- The table shows every row once and in order, and has an empty line just where the cache mode
  -- changes from one row to the next.
  pub table_lem :
      (all : List (Row F)) (last : CacheMode) (rows : List (Row F))
      → (rows_of (table all last rows) ≡ rows) × AreSeparated last (table all last rows)
  unfolding table
  table_lem all last [] = (refl, tt)
  table_lem all last (r ∷ rows) =
      let (shown, separated) = table_lem all r.mode rows in
      elim (Bool-cases (same_mode r.mode last)) [
        | inl same ↦ rw same (ap (◌∷◌ r) shown, (same, separated))
        | inr other ↦ rw other (ap (◌∷◌ r) shown, (other, separated))
      ]

  -- The lines above the table name the sizes that were asked for: in the environment that the
  -- constructor of `env` makes from runnable settings there are as many objects, and the sweep buffer
  -- has as many MiB. Assumed are a leaf class, random numbers that keep their ranges and only
  -- rearrange, and that no vector gets longer than a vector can be.
  pub header_sizes :
      (P : Platform) (cfg : Config) (tsc_hz : F) (floor_st : Stats F)
      → IsRandom P.random
      → 0 < P.num_classes
      → IsRunnable P.word cfg
      → HasRoom P cfg
      → (e : Env P) × (new_env P cfg ≡ some e)
        × ((header P cfg tsc_hz e floor_st).objects ≡ cfg.objects)
        × ((header P cfg tsc_hz e floor_st).sweep_mib ≡ cfg.sweep_mb)
  unfolding header sweep_bytes
  header_sizes P cfg tsc_hz floor_st random some_class runnable vectors =
      let (e, made, wf, buffer) =
        new_env-IsWellFormed P random some_class cfg runnable.some_object vectors in
      let size : e.scrub.size ≡ cfg.sweep_mb * 1024 * 1024 =
        ap (λ (s : Scrubber). s.size) buffer ∙ mod-eq_of_lt runnable.sweep_fits in
      (
        e,
        made,
        ap length wf.made
            ∙ length-round_robin new_derived P.memory.alloc P.num_classes 0 cfg.objects,
        ap (λ (k : ℕ). k / (1024 * 1024)) size ∙ omega arith,
      )
