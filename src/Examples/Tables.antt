-- ===== src/Examples/Tables.antt =====
-- Examples of what is printed.
use Prim.Native.String.{String}
use boost_openmethod_benchma.Common.{
  ℕ, ◌≡◌, refl, arith, true, false, some, List, [], ◌∷◌, map, All, All-of_map,
}
use boost_openmethod_benchma.Common.Double.{whole_double}
use boost_openmethod_benchma.Timing.Flush.{warm, sweep}
use boost_openmethod_benchma.Timing.Stats.{Stats, no_stats}
use boost_openmethod_benchma.Config.{default_config}
use boost_openmethod_benchma.Env.{Env, new_env}
use boost_openmethod_benchma.Run.{Row}
use boost_openmethod_benchma.Report.Lines.{
  table, first_mode, rows_of, AreSeparated, table_lem, header, header_sizes, cells,
}
use boost_openmethod_benchma.Report.{dash, figure}
use boost_openmethod_benchma.Report.{csv_figures}
use boost_openmethod_benchma.Report.Csv.{clang, Printf, csv_line}
use boost_openmethod_benchma.Report.Csv.Laws.{AreWords, IsReadBack, lacks-show, csv_line-reads}
use boost_openmethod_benchma.Report.Text.{is_word-show, table_text}
use boost_openmethod_benchma.Report.Text.Laws.{IsLine, table_lines-read}
use boost_openmethod_benchma.Report.Distinct.{rows_distinct}
use boost_openmethod_benchma.Cli.Print.{show}
use boost_openmethod_benchma.Run.Key.{key_of}
use boost_openmethod_benchma.Main.{variants, modes, keys}
use boost_openmethod_benchma.Examples.Platform.{row_of, still-IsRandom, bench}

abbrev warm_row : Row ℕ
warm_row = record {
  name = "vf";
  group = "yardstick";
  hier = "main";
  arity = 1;
  touches_receiver = true;
  body = "const";
  mode = warm;
  st = no_stats;
}

abbrev some_rows : List (Row ℕ)
some_rows = warm_row ∷ (record warm_row { mode = sweep }) ∷ []

table_lem_example :
    (rows_of (table some_rows warm some_rows) ≡ some_rows)
    × AreSeparated warm (table some_rows warm some_rows)
table_lem_example = table_lem some_rows warm some_rows

header_sizes_example :
    (e : Env bench) × (new_env bench default_config ≡ some e)
    × ((header {F = ℕ} bench default_config 2400000000 e no_stats).objects ≡ 4096)
    × ((header {F = ℕ} bench default_config 2400000000 e no_stats).sweep_mib ≡ 64)
header_sizes_example =
    header_sizes bench default_config 2400000000 no_stats still-IsRandom (omega arith)
      (record {
        some_object = omega arith;
        some_rep = omega arith;
        some_sweep = omega arith;
        sweep_fits = omega arith;
        cpu_index = (2, refl);
      })
      (record { pointers = omega arith; virtual_ptrs = λ R. omega arith; bytes = omega arith })

abbrev baseline_row : (name : String) (arity mean : ℕ) → Row ℕ
baseline_row n k m = record {
  name = n;
  group = "baseline";
  hier = "main";
  arity = k;
  touches_receiver = true;
  body = "const";
  mode = warm;
  st = record no_stats { mean = m };
}

abbrev open_method_row : Row ℕ
open_method_row = record warm_row { group = "openmethod"; st = record no_stats { mean = 40 } }

abbrev compared_rows : List (Row ℕ)
compared_rows =
    baseline_row "probe" 0 10
    ∷ baseline_row "direct" 0 12
    ∷ baseline_row "touch" 1 20
    ∷ (record warm_row { st = record no_stats { mean = 30 } })
    ∷ open_method_row
    ∷ []

abbrev sweep_rows : List (Row ℕ)
sweep_rows = map row_of (keys bench (sweep ∷ []))

-- whole numbers in place of decimal fractions
abbrev whole_printf : Printf ℕ
whole_printf = record { fixed = λ k x. show x }

sweep_rows_made : map key_of sweep_rows ≡ keys bench (sweep ∷ [])
unfolding variants
sweep_rows_made = refl

csv_line-reads_example :
    All
      (λ r.
        IsReadBack
          (csv_line whole_printf (clang 22 1) 8 (r, csv_figures sweep_rows 2400000000 r))
          r)
      sweep_rows
csv_line-reads_example =
    csv_line-reads whole_printf (λ k x. lacks-show x) (clang 22 1) 8 bench (sweep ∷ []) sweep_rows
      2400000000 sweep_rows_made
      (All-of_map (λ r. AreWords r.st) row_of (keys bench (sweep ∷ []))
        (λ k. (omega arith, omega arith, omega arith)))

rows_distinct_example : ◌≡◌ {A = ℕ} 3 3
unfolding variants modes
rows_distinct_example =
    rows_distinct bench (record default_config { warm = false; clflush = false }) sweep_rows 3 3 _ _
      refl refl refl refl

table_lines-read_example :
    All (IsLine whole_printf) (table sweep_rows (first_mode sweep_rows) sweep_rows)
table_lines-read_example =
    table_lines-read whole_printf (λ k x. is_word-show x) bench (sweep ∷ []) sweep_rows
      sweep_rows_made

one_row_text :
    table_text whole_printf (cells warm_row (1, dash, figure 2, dash) ∷ [])
    ≡ "mode     hierarchy   group        dispatch arity      mean     +/-      disp    x net   x disp"
      ∷ "----------------------------------------------------------------------------------------------------"
      ∷ "warm     main        yardstick    vf           1         0       1         -       2x        -"
      ∷ []
unfolding table_text show
one_row_text = refl
