-- ===== src/Report/Csv/Laws.antt =====
-- src/main.cpp: what the lines of the CSV output hold is read back from them.
use Prim.Native.Char.{code}
use Prim.Native.String.{String}
use boost_openmethod_benchma.Common.{
  ℕ, ◌^◌, ◌<◌, ◌≡◌, refl, ap, arith, Bool, true, false, ◌&&◌, Option, some, List, [], ◌∷◌, map,
  length, ltb, ltb→lt, ◌==◌, All, All-zip, and_left, and_right,
}
use boost_openmethod_benchma.Common.Double.{Double}
use boost_openmethod_benchma.Timing.Flush.{CacheMode, warm, clflush, sweep, cache_mode_name}
use boost_openmethod_benchma.Timing.Stats.{Stats}
use boost_openmethod_benchma.Platform.{Platform}
use boost_openmethod_benchma.Cli.Numbers.{strtoull}
use boost_openmethod_benchma.Cli.Print.{show, strtoull-show, digit, code-digit, all_chars-show}
use boost_openmethod_benchma.Run.{Row}
use boost_openmethod_benchma.Run.Key.{Key, key_of, variant_key}
use boost_openmethod_benchma.Main.{variants, keys}
use boost_openmethod_benchma.Main.Keys.{every_key, All-keys}
use boost_openmethod_benchma.Report.{csv_figures}
use boost_openmethod_benchma.Report.Csv.{
  append, split, no_comma, lacks_comma, all_lack, column, split-join, lacks-append, Compiler, clang,
  gnu, other_compiler, compiler_id, bitness, csv_header, Printf, figure_fields, csv_fields,
  csv_line,
}

-- No text of the key has a comma, and its arity is small.
abbrev is_plain : Key → Bool
is_plain k =
    lacks_comma k.hier
    && (lacks_comma k.body && (lacks_comma k.group && (lacks_comma k.name && ltb k.arity 3)))

all_plain-variants :
    (P : Platform) (mode : CacheMode)
    → every_key is_plain (map (variant_key mode) (variants P)) ≡ true
unfolding variants
all_plain-variants P mode = refl

pub lacks-show : (n : ℕ) → lacks_comma (show n) ≡ true
lacks-show n = all_chars-show no_comma (λ d h. digit_plain d h) n
  where
    digit_plain : (d : ℕ) → d < 10 → no_comma (digit d) ≡ true
    digit_plain d h =
        let other : (code (digit d) == 44) ≡ false = ground (arith, code-digit d h) in rw other

lacks_version :
    (major minor : ℕ) → lacks_comma (append (show major) (append "." (show minor))) ≡ true
lacks_version major minor =
    lacks-append (show major) (append "." (show minor)) (lacks-show major) (lacks-show minor)

lacks-compiler_id : (c : Compiler) → lacks_comma (compiler_id c) ≡ true
unfolding compiler_id
lacks-compiler_id (clang major minor) = lacks_version major minor
lacks-compiler_id (gnu major minor) = lacks_version major minor
lacks-compiler_id other_compiler = refl

lacks-cache_mode_name : (mode : CacheMode) → lacks_comma (cache_mode_name mode) ≡ true
unfolding cache_mode_name
lacks-cache_mode_name warm = refl
lacks-cache_mode_name clflush = refl
lacks-cache_mode_name sweep = refl

-- `%f` writes no comma, as in the C locale.
abbrev pub IsPlain : {F : Type 0} → Printf F → Type 0
IsPlain {F} printf = (k : ℕ) (x : F) → lacks_comma (printf.fixed k x) ≡ true

-- The members of the type `std::uint64_t` that are printed have 64 bits.
abbrev pub AreWords : {F : Type 0} → Stats F → Type 0
AreWords st = (st.min < 2 ^ 64) × (st.median < 2 ^ 64) × (st.p90 < 2 ^ 64)

-- The field of a line in the column of that name.
abbrev pub field : (name line : String) → Option String
field name line = column name (split csv_header) (split line)

-- The column holds the number.
abbrev pub HoldsNumber : (name line : String) → ℕ → Type 0
HoldsNumber name line n = (t : String) × (field name line ≡ some t) × (strtoull t ≡ n)

-- The line has as many fields as there are columns, and the columns that tell the row and its counts
-- hold those of `r`.
pub record IsReadBack {F : Type 0} (line : String) (r : Row F) : Type 0 where
  pub complete : length (split line) ≡ length (split csv_header)
  pub mode : field "mode" line ≡ some (cache_mode_name r.mode)
  pub hier : field "hier" line ≡ some r.hier
  pub body : field "body" line ≡ some r.body
  pub group : field "group" line ≡ some r.group
  pub dispatch : field "dispatch" line ≡ some r.name
  pub arity : HoldsNumber "arity" line r.arity
  pub min : HoldsNumber "min" line r.st.min
  pub median : HoldsNumber "median" line r.st.median
  pub p90 : HoldsNumber "p90" line r.st.p90

module _ {F : Type 0} ⦃d : Double F⦄ (printf : Printf F) (plain : IsPlain printf)
    (compiler : Compiler) (sizeof_pointer : ℕ) where
  lacks-figure_fields :
      (ks : List ℕ) (xs : List F)
      → all_lack (figure_fields printf compiler sizeof_pointer ks xs) ≡ true
  lacks-figure_fields [] xs = refl
  lacks-figure_fields (k ∷ ks) [] = refl
  lacks-figure_fields (k ∷ ks) (x ∷ xs) = rw (plain k x) (lacks-figure_fields ks xs)

  lacks-csv_fields :
      (r : Row F) (figures : List F)
      → is_plain (key_of r) ≡ true
      → all_lack (csv_fields printf compiler sizeof_pointer (r, figures)) ≡ true
  unfolding csv_fields
  lacks-csv_fields r figures h =
      let hier = and_left (lacks_comma r.hier) _ h in
      let after_hier = and_right (lacks_comma r.hier) _ h in
      let body = and_left (lacks_comma r.body) _ after_hier in
      let after_body = and_right (lacks_comma r.body) _ after_hier in
      let group = and_left (lacks_comma r.group) _ after_body in
      let after_group = and_right (lacks_comma r.group) _ after_body in
      let name = and_left (lacks_comma r.name) _ after_group in
      rw
        (
          lacks-compiler_id compiler,
          lacks-show (bitness sizeof_pointer),
          lacks-cache_mode_name r.mode,
          hier,
          body,
          group,
          name,
          lacks-show r.arity,
          lacks-show r.st.min,
          lacks-show r.st.median,
          lacks-show r.st.p90,
          plain 2 r.st.mean,
          plain 1 r.st.stddev,
          plain 2 r.st.se,
        )
        (lacks-figure_fields (2 ∷ 2 ∷ 2 ∷ 2 ∷ 3 ∷ 3 ∷ 3 ∷ []) figures)

  split-csv_line :
      (r : Row F) (figures : List F)
      → is_plain (key_of r) ≡ true
      → split (csv_line printf compiler sizeof_pointer (r, figures))
        ≡ csv_fields printf compiler sizeof_pointer (r, figures)
  unfolding csv_line
  split-csv_line r figures h = split-join _ _ (lacks-csv_fields r figures h)

  field-csv_line :
      (r : Row F) (figures : List F) (name : String)
      → is_plain (key_of r) ≡ true
      → field name (csv_line printf compiler sizeof_pointer (r, figures))
        ≡ column name (split csv_header) (csv_fields printf compiler sizeof_pointer (r, figures))
  field-csv_line r figures name h = ap (column name (split csv_header)) (split-csv_line r figures h)

  small_arity : (r : Row F) → is_plain (key_of r) ≡ true → r.arity < 2 ^ 64
  small_arity r h =
      let after_body = and_right (lacks_comma r.body) _ (and_right (lacks_comma r.hier) _ h) in
      let after_name =
        and_right (lacks_comma r.name) _ (and_right (lacks_comma r.group) _ after_body) in
      omega (arith, ltb→lt r.arity 3 after_name)

  csv_line-IsReadBack :
      (rows : List (Row F)) (tsc_hz : F) (r : Row F)
      → is_plain (key_of r) ≡ true
      → AreWords r.st
      → IsReadBack (csv_line printf compiler sizeof_pointer (r, csv_figures rows tsc_hz r)) r
  unfolding csv_fields csv_figures split
  csv_line-IsReadBack rows tsc_hz r h (low, middle, high) =
      let at = λ (name : String). field-csv_line r (csv_figures rows tsc_hz r) name h in
      record {
        complete = ap length (split-csv_line r (csv_figures rows tsc_hz r) h);
        mode = at "mode";
        hier = at "hier";
        body = at "body";
        group = at "group";
        dispatch = at "dispatch";
        arity = (show r.arity, at "arity", strtoull-show r.arity (small_arity r h));
        min = (show r.st.min, at "min", strtoull-show r.st.min low);
        median = (show r.st.median, at "median", strtoull-show r.st.median middle);
        p90 = (show r.st.p90, at "p90", strtoull-show r.st.p90 high);
      }

  -- Every line of the CSV output, for the rows that the program makes in some cache modes, is read
  -- back by a reader that splits at commas and takes the columns' names from the first line: it has as
  -- many fields as there are columns, the columns `mode`, `hier`, `body`, `group` and `dispatch` hold the
  -- row's, and `arity`, `min`, `median` and `p90` its numbers. Assumed is that `%f` writes no comma, and
  -- that the numbers have 64 bits.
  pub csv_line-reads :
      (P : Platform) (ms : List CacheMode) (rows : List (Row F)) (tsc_hz : F)
      → map key_of rows ≡ keys P ms
      → All (λ r. AreWords r.st) rows
      → All
          (λ r.
            IsReadBack (csv_line printf compiler sizeof_pointer (r, csv_figures rows tsc_hz r)) r)
          rows
  csv_line-reads P ms rows tsc_hz made words =
      All-zip (csv_line-IsReadBack rows tsc_hz) rows
        (All-keys is_plain P (all_plain-variants P) ms rows made) words
