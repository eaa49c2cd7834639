-- ===== src/Report/Csv.antt =====
-- src/main.cpp: the text of `report` with the option `--csv`, and the reading of its lines.
mod Split
pub mod Laws
use Prim.Native.Char.{Char, code}
use Prim.Native.String.{String}
use text.Mathlib.Text.{◌==◌}
use boost_openmethod_benchma.Common.{
  ℕ, ◌*◌, ◌≡◌, Bool, true, Option, none, some, List, [], ◌∷◌, ◌++◌, map, if◌then◌else◌,
}
use boost_openmethod_benchma.Common.Double.{Double}
use boost_openmethod_benchma.Timing.Flush.{cache_mode_name}
use boost_openmethod_benchma.Run.{Row}
use boost_openmethod_benchma.Cli.Print.{show}
unfoldable pub use Split.*

-- the predefined macros of the compiler, with its version
pub data Compiler : Type 0 where
  clang gnu : (major minor : ℕ) → Compiler
  other_compiler : Compiler

-- `compiler_id`
unfoldable pub compiler_id : Compiler → String
compiler_id (clang major minor) = append "clang++ " (append (show major) (append "." (show minor)))
compiler_id (gnu major minor) = append "g++ " (append (show major) (append "." (show minor)))
compiler_id other_compiler = "unknown"

-- `bitness`, from `sizeof(void*)`
abbrev pub bitness : ℕ → ℕ
bitness sizeof_pointer = 8 * sizeof_pointer

-- The first line, without the line's end.
abbrev pub csv_header : String
csv_header =
    "compiler,bits,mode,hier,body,group,dispatch,arity,min,median,p90,mean,stddev,se,net,net_se,disp,disp_se,disp_ns,x_net,x_disp"

-- What `printf` writes for a `double` under `%.kf`.
pub record Printf (F : Type 0) : Type 0 where
  pub fixed : ℕ → F → String

module _ {F : Type 0} (printf : Printf F) (compiler : Compiler) (sizeof_pointer : ℕ) where
  open printf use {fixed}

  -- the computed columns, each with its number of decimals
  abbrev pub figure_fields : (decimals : List ℕ) → List F → List String
  figure_fields [] xs = []
  figure_fields (k ∷ ks) [] = []
  figure_fields (k ∷ ks) (x ∷ xs) = fixed k x ∷ figure_fields ks xs

  -- The conversions of a line, in order.
  unfoldable pub csv_fields : Row F × List F → List String
  unfolding compiler_id cache_mode_name
  csv_fields (r, figures) =
      compiler_id compiler
      ∷ show (bitness sizeof_pointer)
      ∷ cache_mode_name r.mode
      ∷ r.hier
      ∷ r.body
      ∷ r.group
      ∷ r.name
      ∷ show r.arity
      ∷ show r.st.min
      ∷ show r.st.median
      ∷ show r.st.p90
      ∷ fixed 2 r.st.mean
      ∷ fixed 1 r.st.stddev
      ∷ fixed 2 r.st.se
      ∷ figure_fields (2 ∷ 2 ∷ 2 ∷ 2 ∷ 3 ∷ 3 ∷ 3 ∷ []) figures

  -- A line, without its end.
  unfoldable pub csv_line : Row F × List F → String
  unfolding csv_fields
  csv_line line = join (csv_fields line)

  -- All the lines.
  unfoldable pub csv_text : List (Row F × List F) → List String
  unfolding csv_line
  csv_text lines = csv_header ∷ map csv_line lines
