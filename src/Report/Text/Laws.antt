-- ===== src/Report/Text/Laws.antt =====
-- src/main.cpp: the lines of the table can be read back, and their first columns are aligned.
use Prim.Native.String.{String}
use boost_openmethod_benchma.Common.{
  ℕ, suc, ◌+◌, ◌-◌, ◌≤◌, ◌≡◌, refl, sym, ap, ◌∙◌, arith, Bool, true, ◌&&◌, List, [], ◌∷◌, ◌++◌, map,
  concat, drop, leb, leb→le, All, Bool-cases, inl, inr, and_left, and_right,
}
use boost_openmethod_benchma.Common.Double.{Double}
use boost_openmethod_benchma.Timing.Flush.{CacheMode, warm, clflush, sweep, cache_mode_name}
use boost_openmethod_benchma.Platform.{Platform}
use boost_openmethod_benchma.Cli.Print.{show}
use boost_openmethod_benchma.Run.{Row}
use boost_openmethod_benchma.Run.Key.{Key, key_of, variant_key}
use boost_openmethod_benchma.Main.{variants, keys}
use boost_openmethod_benchma.Main.Keys.{every_key, All-keys}
use boost_openmethod_benchma.Report.{Cell, figure, dash, same_mode, text_cells}
use boost_openmethod_benchma.Report.Lines.{Line, blank, cells, table, first_mode}
use boost_openmethod_benchma.Report.Csv.{append, Printf}
use boost_openmethod_benchma.Report.Text.Words as Words
use boost_openmethod_benchma.Report.Text.{
  size, drop_chars, stops, words, is_word, words-flush_left, words-flush_right, words-word,
  is_word-take_chars, is_word-append, is_word-show, size-flush_left, drop_chars-append, Column,
  flush_left, flush_right, pad, lay_out, ratio_text, disp_text, row_cells, line_text,
}

words-pad :
    (c : Column) (s t : String) → stops t ≡ true → words (append (pad c s) t) ≡ words s ++ words t
words-pad (flush_left width) s t h = words-flush_left (width - size s) s t h
words-pad (flush_right width) s t h = words-flush_right (width - size s) s t h

-- Whether or not a text fits its column, a line has the words of its cells, in order.
words-lay_out :
    (cs : List (Column × String))
    → words (lay_out cs) ≡ concat (map (λ (c : Column × String). words c.1) cs)
unfolding lay_out words
words-lay_out [] = refl
words-lay_out ((c, s) ∷ []) =
    ap words (sym (Words.append-nil (pad c s))) ∙ words-pad c s String.[] refl
words-lay_out ((c, s) ∷ d ∷ rest) =
    words-pad c s (String.◌∷◌ " " (lay_out (d ∷ rest))) refl
    ∙ ap (◌++◌ (words s)) (words-lay_out (d ∷ rest))

skip_column :
    (width : ℕ) (s t : String) (m : ℕ)
    → size s ≤ width
    → drop_chars (suc (width + m)) (append (pad (flush_left width) s) (String.◌∷◌ " " t))
      ≡ drop_chars m t
skip_column width s t m h =
    ap (λ k. drop_chars (suc (k + m)) (append (pad (flush_left width) s) (String.◌∷◌ " " t)))
      (sym (size-flush_left width s h))
    ∙ drop_chars-append (pad (flush_left width) s) t " " m

-- The key's texts that stand in the first columns are words that fit there.
abbrev fits_columns : Key → Bool
fits_columns k =
    is_word k.hier && (is_word k.group && (leb (size k.hier) 11 && leb (size k.group) 12))

fits_columns-variants :
    (P : Platform) (mode : CacheMode)
    → every_key fits_columns (map (variant_key mode) (variants P)) ≡ true
unfolding variants
fits_columns-variants P mode = refl

mode_fits :
    (mode : CacheMode) → (is_word (cache_mode_name mode) ≡ true) × (size (cache_mode_name mode) ≤ 8)
unfolding cache_mode_name
mode_fits warm = (refl, omega arith)
mode_fits clflush = (refl, omega arith)
mode_fits sweep = (refl, omega arith)

-- `%f` writes at least one character, and no space.
abbrev pub IsWord : {F : Type 0} → Printf F → Type 0
IsWord {F} printf = (k : ℕ) (x : F) → is_word (printf.fixed k x) ≡ true

module _ {F : Type 0} (printf : Printf F) where
  open printf use {fixed}

  -- the words of a row's line
  abbrev pub row_words : Row F → F × Cell F × Cell F × Cell F → List String
  row_words r (se, disp, x_net, x_disp) =
      cache_mode_name r.mode ∷ r.hier ∷ r.group ∷ words r.name
      ++ (show r.arity
          ∷ fixed 1 r.st.mean
          ∷ fixed 2 se
          ∷ disp_text printf disp
          ∷ ratio_text printf x_net
          ∷ ratio_text printf x_disp
          ∷ [])

  -- The line has the row's words, and behind its first 34 characters stand the cells from `dispatch` on.
  pub record IsRowLine (r : Row F) (c : F × Cell F × Cell F × Cell F) : Type 0 where
    pub read : words (line_text printf (cells r c)) ≡ row_words r c
    pub aligned :
        drop_chars 34 (line_text printf (cells r c)) ≡ lay_out (drop 3 (row_cells printf r c))

  -- An empty line has no words.
  abbrev pub IsLine : Line F → Type 0
  IsLine blank = words (line_text printf blank) ≡ []
  IsLine (cells r c) = IsRowLine r c

  blank-IsLine : IsLine blank
  unfolding words line_text
  blank-IsLine = refl

  module _ (word : IsWord printf) where
    words-disp_text : (c : Cell F) → words (disp_text printf c) ≡ disp_text printf c ∷ []
    words-disp_text dash = words-word "-" refl
    words-disp_text (figure v) = words-word _ (is_word-take_chars 14 (fixed 1 v) (word 1 v))

    words-ratio_text : (c : Cell F) → words (ratio_text printf c) ≡ ratio_text printf c ∷ []
    words-ratio_text dash = words-word "-" refl
    words-ratio_text (figure v) = words-word _ (
        is_word-take_chars 14 (append (fixed 2 v) "x")
          (is_word-append (fixed 2 v) "x" (word 2 v) refl))

    row_read :
        (r : Row F) (c : F × Cell F × Cell F × Cell F)
        → is_word r.hier ≡ true
        → is_word r.group ≡ true
        → words (line_text printf (cells r c)) ≡ row_words r c
    unfolding line_text
    row_read r (se, disp, x_net, x_disp) hier group =
        words-lay_out (row_cells printf r (se, disp, x_net, x_disp))
        ∙ rw
            (
              words-word (cache_mode_name r.mode) (mode_fits r.mode).0,
              words-word r.hier hier,
              words-word r.group group,
              words-word (show r.arity) (is_word-show r.arity),
              words-word (fixed 1 r.st.mean) (word 1 r.st.mean),
              words-word (fixed 2 se) (word 2 se),
              words-disp_text disp,
              words-ratio_text x_net,
              words-ratio_text x_disp,
            )
            refl

    row_aligned :
        (r : Row F) (c : F × Cell F × Cell F × Cell F)
        → size r.hier ≤ 11
        → size r.group ≤ 12
        → drop_chars 34 (line_text printf (cells r c)) ≡ lay_out (drop 3 (row_cells printf r c))
    unfolding line_text lay_out
    row_aligned r c hier group =
        skip_column 8 (cache_mode_name r.mode) _ 25 (mode_fits r.mode).1
        ∙ skip_column 11 r.hier _ 13 hier
        ∙ skip_column 12 r.group _ 0 group

    row-IsRowLine :
        (r : Row F) (c : F × Cell F × Cell F × Cell F)
        → fits_columns (key_of r) ≡ true
        → IsRowLine r c
    row-IsRowLine r c h =
        let after_hier = and_right (is_word r.hier) _ h in
        let sizes = and_right (is_word r.group) _ after_hier in
        record {
          read =
              row_read r c (and_left (is_word r.hier) _ h)
                (and_left (is_word r.group) _ after_hier);
          aligned =
              row_aligned r c (leb→le (size r.hier) 11 (and_left (leb (size r.hier) 11) _ sizes))
                (leb→le (size r.group) 12 (and_right (leb (size r.hier) 11) _ sizes));
        }

    module _ ⦃d : Double F⦄ where
      table-IsLine :
          (all : List (Row F)) (last : CacheMode) (rows : List (Row F))
          → All (λ r. fits_columns (key_of r) ≡ true) rows
          → All IsLine (table all last rows)
      unfolding table
      table-IsLine all last [] h = tt
      table-IsLine all last (r ∷ rows) (fits, later) =
          let line = row-IsRowLine r (text_cells all r) fits in
          let below = table-IsLine all r.mode rows later in
          elim (Bool-cases (same_mode r.mode last)) [
            | inl same ↦ rw same (line, below)
            | inr other ↦ rw other (blank-IsLine, (line, below))
          ]

      -- Every line of the table, for the rows that the program makes in some cache modes, can be read
      -- back: an empty line has no words, and the words of a row's line are its cache mode, hierarchy and
      -- group, the words of its name, and its figures, in order, although a cell may be wider than its
      -- column. In every row's line the cell of the column `dispatch` begins behind 34 characters.
      -- Assumed is that `%f` writes at least one character, and no space.
      pub table_lines-read :
          (P : Platform) (ms : List CacheMode) (rows : List (Row F))
          → map key_of rows ≡ keys P ms
          → All IsLine (table rows (first_mode rows) rows)
      table_lines-read P ms rows made =
          table-IsLine rows (first_mode rows) rows
            (All-keys fits_columns P (fits_columns-variants P) ms rows made)
