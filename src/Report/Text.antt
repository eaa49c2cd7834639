-- ===== src/Report/Text.antt =====
-- src/main.cpp: the text that `report` prints, with the table of its output without `--csv`.
mod Columns
mod Words
pub mod Laws
use Prim.Native.String.{String}
use boost_openmethod_benchma.Common.{ℕ, zero, suc, ◌-◌, List, [], ◌∷◌, ◌++◌, map, if◌then◌else◌}
use boost_openmethod_benchma.Timing.Flush.{cache_mode_name}
use boost_openmethod_benchma.Cli.Print.{show}
use boost_openmethod_benchma.Run.{Row}
use boost_openmethod_benchma.Report.{Cell, figure, dash}
use boost_openmethod_benchma.Report.Lines.{
  Line, blank, cells, Header, Output, csv_lines, text_lines,
}
use boost_openmethod_benchma.Report.Csv.{append, Printf, Compiler, compiler_id, bitness, csv_text}
pub use Columns.*
unfoldable pub use Words.*

abbrev joined : List String → String
joined [] = String.[]
joined (s ∷ rest) = append s (joined rest)

-- `%-ws` and `%ws`
pub data Column : Type 0 where
  flush_left flush_right : (width : ℕ) → Column

-- A longer text is not cut off.
abbrev pub pad : Column → String → String
pad (flush_left width) s = append s (spaces (width - size s))
pad (flush_right width) s = append (spaces (width - size s)) s

-- The cells of a line, with a space between them.
unfoldable pub lay_out : List (Column × String) → String
lay_out [] = String.[]
lay_out ((c, s) ∷ []) = pad c s
lay_out ((c, s) ∷ d ∷ rest) = append (pad c s) (String.◌∷◌ " " (lay_out (d ∷ rest)))

-- The first line of the table.
abbrev pub column_heads : List (Column × String)
column_heads =
    (flush_left 8, "mode")
    ∷ (flush_left 11, "hierarchy")
    ∷ (flush_left 12, "group")
    ∷ (flush_left 8, "dispatch")
    ∷ (flush_right 5, "arity")
    ∷ (flush_right 9, "mean")
    ∷ (flush_right 7, "+/-")
    ∷ (flush_right 9, "disp")
    ∷ (flush_right 8, "x net")
    ∷ (flush_right 8, "x disp")
    ∷ []

-- What `snprintf` leaves in a buffer of 16 bytes.
abbrev pub buffered : String → String
buffered s = take_chars 15 s

module _ {F : Type 0} (printf : Printf F) where
  open printf use {fixed}

  -- `rbuf` and `rdbuf`
  abbrev pub ratio_text : Cell F → String
  ratio_text dash = "-"
  ratio_text (figure v) = buffered (append (fixed 2 v) "x")

  -- `dbuf`
  abbrev pub disp_text : Cell F → String
  disp_text dash = "-"
  disp_text (figure v) = buffered (fixed 1 v)

  -- The conversions of a line of the table, in order.
  abbrev pub row_cells : Row F → F × Cell F × Cell F × Cell F → List (Column × String)
  row_cells r (se, disp, x_net, x_disp) =
      (flush_left 8, cache_mode_name r.mode)
      ∷ (flush_left 11, r.hier)
      ∷ (flush_left 12, r.group)
      ∷ (flush_left 8, r.name)
      ∷ (flush_right 5, show r.arity)
      ∷ (flush_right 9, fixed 1 r.st.mean)
      ∷ (flush_right 7, fixed 2 se)
      ∷ (flush_right 9, disp_text disp)
      ∷ (flush_right 8, ratio_text x_net)
      ∷ (flush_right 8, ratio_text x_disp)
      ∷ []

  -- A line below the table's head, without its end.
  unfoldable pub line_text : Line F → String
  unfolding lay_out cache_mode_name
  line_text blank = String.[]
  line_text (cells r c) = lay_out (row_cells r c)

  -- The table: its head, a rule of 100 dashes, and a line for each row.
  unfoldable pub table_text : List (Line F) → List String
  unfolding line_text
  table_text lines = lay_out column_heads ∷ dashes 100 ∷ map line_text lines

  -- What stands above the table.
  module _ (compiler : Compiler) (sizeof_pointer sizeof_word sizeof_virtual_ptr : ℕ) where
    unfoldable pub preamble : Header F → List String
    unfolding compiler_id
    preamble h =
        String.[]
        ∷ "Boost.OpenMethod single-dispatch latency (rdtsc reference cycles)"
        ∷ joined (
            "  build: "
            ∷ compiler_id compiler
            ∷ ", "
            ∷ show (bitness sizeof_pointer)
            ∷ "-bit; sizeof void* "
            ∷ show sizeof_pointer
            ∷ ", word "
            ∷ show sizeof_word
            ∷ ", virtual_ptr "
            ∷ show sizeof_virtual_ptr
            ∷ [])
        ∷ joined (
            "  "
            ∷ show h.num_classes
            ∷ " classes, "
            ∷ show h.objects
            ∷ " objects, "
            ∷ show h.reps
            ∷ " reps, TSC "
            ∷ fixed 3 h.tsc_ghz
            ∷ " GHz, sweep "
            ∷ show h.sweep_mib
            ∷ " MiB"
            ∷ [])
        ∷ joined (
            "  empty timed region (noise floor): mean "
            ∷ fixed 1 h.floor_mean
            ∷ ", median "
            ∷ show h.floor_median
            ∷ " cycles"
            ∷ [])
        ∷ "  mean trimmed of top 5%; net = mean - probe (whole call); disp = mechanism excess"
        ∷ "  net still contains the cold miss on the receiver; disp is dispatch alone"
        ∷ "  read the mean, not the median: a single sample is quantized by the floor"
        ∷ String.[]
        ∷ []

    -- The lines that `report` prints.
    unfoldable pub report_text : Output F → List String
    unfolding csv_text preamble table_text
    report_text (csv_lines lines) = csv_text printf compiler sizeof_pointer lines
    report_text (text_lines h lines) = preamble h ++ (table_text lines ++ (String.[] ∷ []))
