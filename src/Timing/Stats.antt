-- ===== src/Timing/Stats.antt =====
-- src/timing.hpp: `stats` and `summarize`, over an abstract `double`. `word` is 2 to the number of
-- bits of `std::size_t`. `none` is a read behind the end of the samples.
pub mod Laws
use mathlib.Core.List.{foldl}
use boost_openmethod_benchma.Common.{
  ℕ, ◌+◌, ◌-◌, ◌*◌, ◌/◌, ◌%◌, List, [], ◌∷◌, Option, none, some, length, get_elem?, take, ◌==◌,
  if◌then◌else◌,
}
use boost_openmethod_benchma.Common.Double.{Double}
use boost_openmethod_benchma.Common.Sort.{sort}

-- `stats`
pub record Stats (F : Type 0) : Type 0 where
  pub min : ℕ
  pub median : ℕ
  pub p90 : ℕ
  pub mean : F
  pub stddev : F
  pub se : F
  pub samples : ℕ

infixl 5 ◌>>=◌
abbrev pub ◌>>=◌ : {A B : Type 0} → Option A → (A → Option B) → Option B
none >>= f = none
some a >>= f = f a

-- How many of the `n` sorted samples the trimmed mean keeps.
unfoldable pub keep_of : ℕ → ℕ
keep_of n = let keep = n - n / 20 in if keep == 0 then n else keep

-- The index of the 90th percentile; the product is one of `std::size_t`.
unfoldable pub p90_index : (word n : ℕ) → ℕ
p90_index word n = n * 90 % word / 100

module _ {F : Type 0} ⦃d : Double F⦄ where
  open d use {of_ℕ, add, sub, mul, div, sqrt}

  -- `stats s;`, with the default member initializers
  abbrev pub no_stats : Stats F
  no_stats = record {
    min = 0;
    median = 0;
    p90 = 0;
    mean = of_ℕ 0;
    stddev = of_ℕ 0;
    se = of_ℕ 0;
    samples = 0;
  }

  -- `std::accumulate(…, 0.0)`
  unfoldable pub total_of : List ℕ → F
  total_of = foldl (λ t x. add t (of_ℕ x)) (of_ℕ 0)

  -- the loop over the squared distances to the mean
  unfoldable pub squares_of : F → List ℕ → F
  squares_of mean = foldl (λ sq x. let dist = sub (of_ℕ x) mean in add sq (mul dist dist)) (of_ℕ 0)

  -- mean, standard deviation and standard error of the samples that are kept
  unfoldable pub spread : List ℕ → (keep : ℕ) → F × F × F
  unfolding total_of squares_of
  spread kept keep =
      let mean = div (total_of kept) (of_ℕ keep) in
      let stddev = sqrt (div (squares_of mean kept) (of_ℕ keep)) in
      (mean, stddev, div stddev (sqrt (of_ℕ keep)))

  -- what `summarize` does with the sorted samples
  unfoldable pub summarize_sorted : (word : ℕ) → List ℕ → Option (Stats F)
  unfolding keep_of p90_index spread
  summarize_sorted word samples = do
    let n = length samples
    front ← get_elem? samples 0
    median ← get_elem? samples (n / 2)
    p90 ← get_elem? samples (p90_index word n)
    let keep = keep_of n
    let figures = spread (take keep samples) keep
    some (record {
      min = front;
      median = median;
      p90 = p90;
      mean = figures.0;
      stddev = figures.1;
      se = figures.2;
      samples = n;
    })

  -- `summarize`
  unfoldable pub summarize : (word : ℕ) → List ℕ → Option (Stats F)
  unfolding summarize_sorted sort
  summarize word [] = some no_stats
  summarize word (x ∷ xs) = summarize_sorted word (sort (x ∷ xs))
