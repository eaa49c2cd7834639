-- ===== src/Report/Distinct.antt =====
-- src/main.cpp: the rows of a run differ in the columns by which src/report.py tells them apart.
use Prim.Native.String.{String}
use text.Mathlib.Text.{◌==◌}
use text.Mathlib.TextPositions.{eq_refl}
use mathlib.Core.Option.{some-injective}
use boost_openmethod_benchma.Common as Common
use boost_openmethod_benchma.Common.{
  ℕ, zero, suc, ◌≡◌, ◌≢◌, refl, sym, ap, subst, ◌∙◌, arith, Bool, true, false, not, ◌&&◌, Option,
  none, some, List, [], ◌∷◌, map, get_elem?, get_elem?-map, ==_refl, and_left, and_right,
}
use boost_openmethod_benchma.Timing.Flush.{CacheMode, warm, clflush, sweep}
use boost_openmethod_benchma.Platform.{Platform}
use boost_openmethod_benchma.Config.{Config}
use boost_openmethod_benchma.Run.{Row}
use boost_openmethod_benchma.Run.Key.{Key, key_of}
use boost_openmethod_benchma.Main.{variants, modes, keys}
use boost_openmethod_benchma.Report.{same_mode}
use boost_openmethod_benchma.Report.Complete.{modes_of}

-- The columns `mode`, `hier`, `body`, `group`, `dispatch` and `arity`.
abbrev pub columns_of : Key → CacheMode × String × String × String × String × ℕ
columns_of k = (k.mode, k.hier, k.body, k.group, k.name, k.arity)

abbrev same_columns : Key → Key → Bool
same_columns k l =
    same_mode k.mode l.mode
    && (k.hier == l.hier
        && (k.body == l.body
            && (k.group == l.group && (k.name == l.name && Common.◌==◌ k.arity l.arity))))

abbrev is_fresh : Key → List Key → Bool
is_fresh k [] = true
is_fresh k (l ∷ ls) = not (same_columns k l) && is_fresh k ls

abbrev all_distinct : List Key → Bool
all_distinct [] = true
all_distinct (k ∷ ks) = is_fresh k ks && all_distinct ks

keys-all_distinct : (P : Platform) (a b c : Bool) → all_distinct (keys P (modes_of a b c)) ≡ true
unfolding variants
keys-all_distinct P false false false = refl
keys-all_distinct P false false true = refl
keys-all_distinct P false true false = refl
keys-all_distinct P false true true = refl
keys-all_distinct P true false false = refl
keys-all_distinct P true false true = refl
keys-all_distinct P true true false = refl
keys-all_distinct P true true true = refl

same_mode_refl : (m : CacheMode) → same_mode m m ≡ true
same_mode_refl warm = refl
same_mode_refl clflush = refl
same_mode_refl sweep = refl

same_columns_refl : (k : Key) → same_columns k k ≡ true
same_columns_refl k = rw (
  same_mode_refl k.mode,
  eq_refl k.hier,
  eq_refl k.body,
  eq_refl k.group,
  eq_refl k.name,
  ==_refl k.arity,
)

same_columns_of : (k l : Key) → columns_of k ≡ columns_of l → same_columns k l ≡ true
same_columns_of k l e =
    subst
      (λ (c : CacheMode × String × String × String × String × ℕ).
        (same_mode k.mode c.0
          && (k.hier == c.1
              && (k.body == c.2 && (k.group == c.3 && (k.name == c.4 && Common.◌==◌ k.arity c.5)))))
        ≡ true)
      e (same_columns_refl k)

-- a key that is fresh does not stand in the list
not_fresh :
    (k : Key) (ls : List Key) (j : ℕ) {l : Key}
    → is_fresh k ls ≡ true
    → get_elem? ls j ≡ some l
    → columns_of k ≢ columns_of l
not_fresh k [] j h e same = cc
not_fresh k (l ∷ ls) zero h e same =
    let here : not (same_columns k l) ≡ true = and_left (not (same_columns k l)) _ h in
    let equal : same_columns k l ≡ true =
      same_columns_of k l (same ∙ ap columns_of (sym (some-injective _ _ e))) in
    cc
not_fresh k (l ∷ ls) (suc j) h e same =
    not_fresh k ls j (and_right (not (same_columns k l)) _ h) e same

distinct_at :
    (ks : List Key) (i j : ℕ) {k l : Key}
    → all_distinct ks ≡ true
    → get_elem? ks i ≡ some k
    → get_elem? ks j ≡ some l
    → columns_of k ≡ columns_of l
    → i ≡ j
distinct_at [] i j h at_i at_j same = cc
distinct_at (m ∷ ks) zero zero h at_i at_j same = refl
distinct_at (m ∷ ks) zero (suc j) h at_i at_j same = absurd (
    not_fresh m ks j (and_left (is_fresh m ks) _ h) at_j
      (ap columns_of (some-injective _ _ at_i) ∙ same))
distinct_at (m ∷ ks) (suc i) zero h at_i at_j same = absurd (
    not_fresh m ks i (and_left (is_fresh m ks) _ h) at_i
      (ap columns_of (some-injective _ _ at_j) ∙ sym same))
distinct_at (m ∷ ks) (suc i) (suc j) h at_i at_j same =
    ap suc (distinct_at ks i j (and_right (is_fresh m ks) _ h) at_i at_j same)

-- No two of the rows that the program makes, whatever cache modes are on, agree in the columns `mode`,
-- `hier`, `body`, `group`, `dispatch` and `arity`.
pub rows_distinct :
    {F : Type 0} (P : Platform) (cfg : Config) (rows : List (Row F)) (i j : ℕ) (r s : Row F)
    → map key_of rows ≡ keys P (modes cfg)
    → get_elem? rows i ≡ some r
    → get_elem? rows j ≡ some s
    → columns_of (key_of r) ≡ columns_of (key_of s)
    → i ≡ j
unfolding modes
rows_distinct P cfg rows i j r s made at_i at_j same =
    distinct_at (map key_of rows) i j
      (subst (λ ks. all_distinct ks ≡ true) (sym made)
        (keys-all_distinct P cfg.warm cfg.clflush cfg.sweep))
      (get_elem?-map key_of rows i at_i) (get_elem?-map key_of rows j at_j) same
