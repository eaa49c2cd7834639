-- ===== src/Timing/Stats/Laws.antt =====
-- src/timing.hpp: what the figures of `summarize` mean.
use mathlib.Core.List.{Perm}
use native.Mathlib.Nat.{mod-eq_of_lt}
use boost_openmethod_benchma.Common.{
  ℕ, ◌+◌, ◌-◌, ◌*◌, ◌/◌, ◌≤◌, ◌<◌, ◌≡◌, refl, sym, ap, ◌∙◌, arith, suc, List, [], ◌∷◌, ◌++◌, Option,
  some, length, get_elem?, get_elem?-lt, take, drop, take-append-drop, length-take, length-drop,
  All,
}
use boost_openmethod_benchma.Common.Double.{Double}
use boost_openmethod_benchma.Common.Sort.{
  sort, sort-IsSorted, length-sort, count_le, count_le-sort, count_lt, count_lt-sort, sorted_below,
  All-of_sort, sorted_le, sorted_rank, sorted_head, sorted_cut, sort_perm,
}
use boost_openmethod_benchma.Timing.Stats.{
  Stats, no_stats, keep_of, p90_index, spread, summarize_sorted, summarize,
}

-- The wrapped product still gives an index in range.
p90_index-lt : (word n : ℕ) → 0 < n → p90_index word n < n
unfolding p90_index
p90_index-lt word n h = omega arith

p90_index_exact :
    (word : ℕ) (xs : List ℕ)
    → length xs * 90 < word
    → p90_index word (length (sort xs)) ≡ length (sort xs) * 90 / 100
unfolding p90_index
p90_index_exact word xs fits =
    let n = length-sort xs in
    ap (λ (k : ℕ). k / 100) (mod-eq_of_lt {n = length (sort xs) * 90} {m = word} (omega arith))

-- The trimmed mean keeps at least one sample and drops a twentieth; the branch for `keep == 0` is
-- never taken.
keep_of_lem : (n : ℕ) → keep_of n ≡ n - n / 20
unfolding keep_of
keep_of_lem n = ground arith

-- what `summarize` does with a list that is sorted already
abbrev from_sorted : {F : Type 0} ⦃d : Double F⦄ → ℕ → List ℕ → Option (Stats F)
from_sorted word [] = some no_stats
from_sorted word (y ∷ ys) = summarize_sorted word (y ∷ ys)

cons-ne-nil-of_length :
    (xs : List ℕ) (n : ℕ) → length xs ≡ suc n → (y : ℕ) × (ys : List ℕ) × (xs ≡ y ∷ ys)
cons-ne-nil-of_length [] n h = absurd (omega arith)
cons-ne-nil-of_length (y ∷ ys) n h = (y, ys, refl)

-- What the figures of a summary say of the samples, in whatever order they came.
pub record IsSummary {F : Type 0} ⦃d : Double F⦄ (xs : List ℕ) (s : Stats F) : Type 0 where
  pub counted : s.samples ≡ length xs
  pub least : All (λ x. s.min ≤ x) xs
  pub attained : 1 ≤ count_le s.min xs
  pub min-le-median : s.min ≤ s.median
  pub median-le-p90 : s.median ≤ s.p90
  pub median_rank : length xs / 2 + 1 ≤ count_le s.median xs
  pub median_below : count_lt s.median xs ≤ length xs / 2
  pub p90_below : count_lt s.p90 xs ≤ length xs * 90 / 100
  pub p90_rank : length xs * 90 / 100 + 1 ≤ count_le s.p90 xs
  pub trimmed :
      (kept dropped : List ℕ) × (kept ++ dropped ≡ sort xs)
      × (length dropped ≡ length xs / 20)
      × All (λ a. All (λ b. a ≤ b) dropped) kept
      × ((s.mean, s.stddev, s.se) ≡ spread kept (length kept))

trimmed_lem :
    (xs : List ℕ)
    → let l = sort xs in
      let keep = keep_of (length l) in
      (take keep l ++ drop keep l ≡ sort xs)
      × (length (drop keep l) ≡ length xs / 20)
      × All (λ a. All (λ b. a ≤ b) (drop keep l)) (take keep l)
      × (length (take keep l) ≡ keep)
trimmed_lem xs =
    let l = sort xs in
    let keep = keep_of (length l) in
    (
      take-append-drop keep l,
      omega (arith, length-drop keep l, keep_of_lem (length l), length-sort xs),
      sorted_cut l keep (sort-IsSorted xs),
      length-take keep l (omega (arith, keep_of_lem (length l))),
    )

module _ {F : Type 0} ⦃d : Double F⦄ (word : ℕ) where
  summarize-from_sorted : (xs : List ℕ) → summarize {F = F} word xs ≡ from_sorted word (sort xs)
  unfolding summarize
  summarize-from_sorted [] = refl
  summarize-from_sorted (x ∷ xs) =
      let (y, ys, e) = cons-ne-nil-of_length (sort (x ∷ xs)) (length xs) (length-sort (x ∷ xs)) in
      rw e

  -- The summary does not depend on the order in which the samples were taken.
  pub summarize_perm : {xs ys : List ℕ} → Perm xs ys → summarize {F = F} word xs ≡ summarize word ys
  summarize_perm {xs} {ys} p =
      summarize-from_sorted xs
      ∙ ap (from_sorted word) (sort_perm p)
      ∙ sym (summarize-from_sorted ys)

  summarize_sorted-some :
      (l : List ℕ) {a b c : ℕ}
      → get_elem? l 0 ≡ some a
      → get_elem? l (length l / 2) ≡ some b
      → get_elem? l (p90_index word (length l)) ≡ some c
      → (s : Stats F) × (summarize_sorted word l ≡ some s)
        × (s.samples ≡ length l)
        × (s.min ≡ a)
        × (s.median ≡ b)
        × (s.p90 ≡ c)
        × ((s.mean, s.stddev, s.se) ≡ spread (take (keep_of (length l)) l) (keep_of (length l)))
  unfolding summarize_sorted
  summarize_sorted-some l {a} {b} {c} e f g =
      let figures = spread (take (keep_of (length l)) l) (keep_of (length l)) in
      (
        record {
          min = a;
          median = b;
          p90 = c;
          mean = figures.0;
          stddev = figures.1;
          se = figures.2;
          samples = length l;
        },
        rw (e, f, g),
        refl,
        refl,
        refl,
        refl,
        refl,
      )

  summarize-sorted :
      (xs : List ℕ) → 0 < length xs → summarize {F = F} word xs ≡ summarize_sorted word (sort xs)
  unfolding summarize
  summarize-sorted [] h = absurd (omega arith)
  summarize-sorted (x ∷ xs) h = refl

  pub summarize_total :
      (xs : List ℕ) → (s : Stats F) × (summarize word xs ≡ some s) × (s.samples ≡ length xs)
  unfolding summarize
  summarize_total [] = (no_stats, refl, refl)
  summarize_total (x ∷ xs) =
      let l = sort (x ∷ xs) in
      let some_left : 0 < length l = omega (arith, length-sort (x ∷ xs)) in
      let (a, front) = get_elem?-lt l 0 some_left in
      let (b, middle) = get_elem?-lt l (length l / 2) (omega arith) in
      let (c, high) =
        get_elem?-lt l (p90_index word (length l)) (p90_index-lt word (length l) some_left) in
      let (s, runs, counted, _, _, _, _) = summarize_sorted-some l front middle high in
      (s, runs, counted ∙ length-sort (x ∷ xs))

  module _ (xs : List ℕ) (h : 0 < length xs) (fits : length xs * 90 < word) where
    IsSummary-of :
        (s : Stats F) {a b c : ℕ}
        → get_elem? (sort xs) 0 ≡ some a
        → get_elem? (sort xs) (length (sort xs) / 2) ≡ some b
        → get_elem? (sort xs) (length (sort xs) * 90 / 100) ≡ some c
        → (s.samples ≡ length (sort xs))
          × (s.min ≡ a)
          × (s.median ≡ b)
          × (s.p90 ≡ c)
          × ((s.mean, s.stddev, s.se)
              ≡ spread (take (keep_of (length (sort xs))) (sort xs)) (keep_of (length (sort xs))))
        → IsSummary xs s
    IsSummary-of s {a} {b} {c} front middle high (count, small, mid, top, rest) =
        let l = sort xs in
        let n = length-sort xs in
        let sorted = sort-IsSorted xs in
        let (whole, rest_length, cut, kept_length) = trimmed_lem xs in
        record {
          counted = count ∙ n;
          least = rw small (All-of_sort (λ x. a ≤ x) xs (sorted_head l sorted front));
          attained = rw small (omega (arith, sorted_rank l 0 sorted front, count_le-sort a xs));
          median_below =
              rw mid
                (omega (arith, sorted_below l (length l / 2) sorted middle, count_lt-sort b xs));
          p90_below =
              rw top (
                omega
                  (arith, sorted_below l (length l * 90 / 100) sorted high, count_lt-sort c xs));
          min-le-median =
              omega (arith, sorted_le l 0 (length l / 2) sorted front middle (omega arith));
          median-le-p90 = omega (
            arith,
            sorted_le l (length l / 2) (length l * 90 / 100) sorted middle high (omega arith),
          );
          median_rank =
              rw mid
                (omega (arith, sorted_rank l (length l / 2) sorted middle, count_le-sort b xs));
          p90_rank =
              rw top (
                omega (arith, sorted_rank l (length l * 90 / 100) sorted high, count_le-sort c xs));
          trimmed = (
            take (keep_of (length l)) l,
            drop (keep_of (length l)) l,
            whole,
            rest_length,
            cut,
            rw kept_length rest,
          );
        }

    -- Of any samples but none, `summarize` returns a summary: the least sample, which is one of them;
    -- as the median the sample with at most half of them (rounded down) below it and more than that at
    -- or below it; as the 90th percentile, likewise, the one at nine tenths; and the mean and the
    -- spread of all samples but the largest twentieth. It needs that 90 times the number of samples
    -- fits `std::size_t`.
    pub summarize-IsSummary : (s : Stats F) × (summarize word xs ≡ some s) × IsSummary xs s
    summarize-IsSummary =
        let l = sort xs in
        let n = length-sort xs in
        let (a, front) = get_elem?-lt l 0 (omega arith) in
        let (b, middle) = get_elem?-lt l (length l / 2) (omega arith) in
        let (c, high) = get_elem?-lt l (length l * 90 / 100) (omega arith) in
        let (s, runs, figures) = found front middle high in
        (s, summarize-sorted xs h ∙ runs, IsSummary-of s front middle high figures)
      where
        found :
            {a b c : ℕ}
            → get_elem? (sort xs) 0 ≡ some a
            → get_elem? (sort xs) (length (sort xs) / 2) ≡ some b
            → get_elem? (sort xs) (length (sort xs) * 90 / 100) ≡ some c
            → (s : Stats F) × (summarize_sorted word (sort xs) ≡ some s)
              × ((s.samples ≡ length (sort xs))
                  × (s.min ≡ a)
                  × (s.median ≡ b)
                  × (s.p90 ≡ c)
                  × ((s.mean, s.stddev, s.se)
                      ≡ spread
                          (take (keep_of (length (sort xs))) (sort xs))
                          (keep_of (length (sort xs)))))
        found front middle high =
            let (s, runs, count, small, mid, top, rest) =
              summarize_sorted-some (sort xs) front middle
                (ap (get_elem? (sort xs)) (p90_index_exact word xs fits) ∙ high) in
            (s, runs, (count, small, mid, top, rest))
