-- ===== src/Report/Complete.antt =====
-- src/main.cpp: the rows of a run contain every row that `report` looks up.
use mathlib.Core.Option as Option
use boost_openmethod_benchma.Common.{
  ◌<◌, ◌≡◌, refl, sym, ap, ◌∙◌, subst, arith, Bool, true, false, ◌&&◌, ◌||◌, Option, some, none,
  List, [], ◌∷◌, ◌++◌, map, All, ◌==◌, if◌then◌else◌, Bool-cases, inl, inr, and_left, and_right,
}
use boost_openmethod_benchma.Common.Double.{Double}
use boost_openmethod_benchma.Timing.Flush.{CacheMode, warm, clflush, sweep}
use boost_openmethod_benchma.Timing.Stats.{Stats}
use boost_openmethod_benchma.Platform.{Platform}
use boost_openmethod_benchma.Config.{Config}
use boost_openmethod_benchma.Run.{Row}
use boost_openmethod_benchma.Run.Key.{Key, key_of}
use boost_openmethod_benchma.Main.{modes, variants, keys}
use boost_openmethod_benchma.Report.{
  find, is_named_baseline, is_obj_baseline, is_yardstick_of, is_reference, named_baseline, baseline,
  obj_baseline, yardstick,
}

abbrev is_some : {A : Type 0} → Option A → Bool
is_some none = false
is_some (some a) = true

abbrev is_anchored : List Key → Key → Bool
is_anchored ks k =
    is_some (find (is_named_baseline k.mode "probe") ks)
    && (is_some (find (is_named_baseline k.mode "direct") ks)
        && ((k.arity == 0 || is_some (find (is_obj_baseline k.mode k.arity k.hier) ks))
            && (is_reference k || is_some (find (is_yardstick_of k) ks))))

abbrev all_anchored : List Key → List Key → Bool
all_anchored ks [] = true
all_anchored ks (k ∷ later) = is_anchored ks k && all_anchored ks later

-- `modes`, by its three settings
abbrev pub modes_of : (warm_on clflush_on sweep_on : Bool) → List CacheMode
modes_of a b c =
    (if a then warm ∷ [] else [])
    ++ ((if b then clflush ∷ [] else []) ++ (if c then sweep ∷ [] else []))

keys-all_anchored :
    (P : Platform) (a b c : Bool)
    → all_anchored (keys P (modes_of a b c)) (keys P (modes_of a b c)) ≡ true
unfolding variants
keys-all_anchored P false false false = refl
keys-all_anchored P false false true = refl
keys-all_anchored P false true false = refl
keys-all_anchored P false true true = refl
keys-all_anchored P true false false = refl
keys-all_anchored P true false true = refl
keys-all_anchored P true true false = refl
keys-all_anchored P true true true = refl

-- What `report` looks up for a row is there.
pub record IsAnchored {F : Type 0} ⦃d : Double F⦄ (rows : List (Row F)) (r : Row F) : Type 0 where
  pub probe : (b : Stats F) × (baseline rows r.mode ≡ some b)
  pub direct : (b : Stats F) × (named_baseline rows r.mode "direct" ≡ some b)
  pub touch : 0 < r.arity → (b : Stats F) × (obj_baseline rows r.mode r.arity r.hier ≡ some b)
  pub yard : is_reference (key_of r) ≡ false → (y : Row F) × (yardstick rows r ≡ some y)

or_right : (a b : Bool) → (a || b) ≡ true → a ≡ false → b ≡ true
or_right true b h e = cc
or_right false b h e = h

module _ {F : Type 0} ⦃d : Double F⦄ where
  find_row :
      (rows : List (Row F)) (t : Key → Bool)
      → is_some (find t (map key_of rows)) ≡ true
      → (r : Row F) × (find (λ r. t (key_of r)) rows ≡ some r)
  find_row [] t h = cc
  find_row (r ∷ rows) t h = elim (Bool-cases (t (key_of r))) [
    | inl here ↦ (r, rw here refl)
    | inr other ↦
        let (s, e) = find_row rows t (
          sym (ap (λ b. is_some (if b then some (key_of r) else find t (map key_of rows))) other)
          ∙ h) in
        (s, rw other e)
  ]

  find_stats :
      (rows : List (Row F)) (t : Key → Bool)
      → is_some (find t (map key_of rows)) ≡ true
      → (b : Stats F) × (Option.map (λ (r : Row F). r.st) (find (λ r. t (key_of r)) rows) ≡ some b)
  find_stats rows t h =
      let (r, e) = find_row rows t h in (r.st, ap (Option.map (λ (r : Row F). r.st)) e)

  anchored_lem :
      (rows : List (Row F)) (r : Row F)
      → is_anchored (map key_of rows) (key_of r) ≡ true
      → IsAnchored rows r
  unfolding baseline named_baseline obj_baseline yardstick
  anchored_lem rows r h =
      let ks = map key_of rows in
      let k = key_of r in
      let later = and_right (is_some (find (is_named_baseline k.mode "probe") ks)) _ h in
      let last = and_right (is_some (find (is_named_baseline k.mode "direct") ks)) _ later in
      record {
        probe = find_stats rows (is_named_baseline r.mode "probe") (and_left _ _ h);
        direct = find_stats rows (is_named_baseline r.mode "direct") (and_left _ _ later);
        touch = λ pos_arity.
            find_stats rows (is_obj_baseline r.mode r.arity r.hier)
              (or_right (r.arity == 0) _ (and_left _ _ last) (ground arith));
        yard = λ e. find_row rows (is_yardstick_of (key_of r)) (
            or_right (is_reference k) _
              (and_right (r.arity == 0 || is_some (find (is_obj_baseline k.mode k.arity k.hier) ks))
                _ last)
              e);
      }

  all_anchored_lem :
      (rows some_rows : List (Row F))
      → all_anchored (map key_of rows) (map key_of some_rows) ≡ true
      → All (IsAnchored rows) some_rows
  all_anchored_lem rows [] h = tt
  all_anchored_lem rows (r ∷ rs) h = (
    anchored_lem rows r (and_left _ _ h),
    all_anchored_lem rows rs (and_right (is_anchored (map key_of rows) (key_of r)) _ h),
  )

  -- In the rows that the program makes, whatever cache modes are on and whatever was measured, every
  -- row finds what `report` looks up for it: the empty window, the direct call, for a row that takes
  -- objects the row that only touches as many objects of the same hierarchy, and for each row that is
  -- compared a yardstick of its cache mode, arity, hierarchy and body.
  pub rows-IsAnchored :
      (P : Platform) (cfg : Config) (rows : List (Row F))
      → map key_of rows ≡ keys P (modes cfg)
      → All (IsAnchored rows) rows
  unfolding modes
  rows-IsAnchored P cfg rows h = all_anchored_lem rows rows (
      subst (λ ks. all_anchored ks ks ≡ true) (sym h)
        (keys-all_anchored P cfg.warm cfg.clflush cfg.sweep))
