-- ===== src/Timing/Calibrate.antt =====
-- src/timing.hpp: `calibrate_tsc_hz` and `measure_tsc_floor`. `clock k` is what the k-th call of
-- `clock_gettime` returns, in seconds and nanoseconds.
pub mod Laws
use boost_openmethod_benchma.Common.{
  ℕ, zero, suc, ◌+◌, ◌-◌, ◌*◌, ◌^◌, Bool, true, false, Option, none, some, List, [], ◌∷◌, leb, ltb,
  if◌then◌else◌,
}
use boost_openmethod_benchma.Common.Double.{Double}
use boost_openmethod_benchma.Common.Int.{ℤ, pos, negsuc, neg, ◌+ℤ◌, ◌-ℤ◌}
use boost_openmethod_benchma.Machine.{M, ◌>>=◌, pure, lift}
use boost_openmethod_benchma.Timing.Tsc.{tsc_start, tsc_stop, elapsed}
use boost_openmethod_benchma.Vector.{reserve}
use boost_openmethod_benchma.Timing.Stats.{Stats, summarize}

-- `timespec`
pub record Timespec : Type 0 where
  pub tv_sec : ℕ
  pub tv_nsec : ℕ

-- The value as one of `std::int64_t`; beyond its range the source's arithmetic is undefined.
abbrev pub in_int64 : ℤ → Option ℤ
in_int64 (pos n) = if ltb n (2 ^ 63) then some (pos n) else none
in_int64 (negsuc n) = if ltb n (2 ^ 63) then some (negsuc n) else none

-- the product with 1000000000
abbrev pub nano : ℤ → ℤ
nano (pos n) = pos (n * 1000000000)
nano (negsuc n) = neg (pos (suc n * 1000000000))

infixl 5 ◌>>=?◌
abbrev pub ◌>>=?◌ : {A B : Type 0} → Option A → (A → Option B) → Option B
none >>=? f = none
some a >>=? f = f a

-- `(t1.tv_sec - t0.tv_sec) * 1000000000 + (t1.tv_nsec - t0.tv_nsec)`
unfoldable pub since : Timespec → Timespec → Option ℤ
since t0 t1 = in_int64 (pos t1.tv_sec -ℤ pos t0.tv_sec) >>=? λ seconds.
    in_int64 (nano seconds) >>=? λ ns. in_int64 (ns +ℤ (pos t1.tv_nsec -ℤ pos t0.tv_nsec))

-- `so_far >= target`, for a target that is not negative
abbrev pub reaches : ℤ → ℕ → Bool
reaches (pos n) target = leb target n
reaches (negsuc n) target = false

-- The loop, from the k-th call of the clock on: the first time at which the target is reached.
unfoldable pub spin : (fuel : ℕ) → (ℕ → Timespec) → (target k : ℕ) → Option Timespec
unfolding since
spin zero clock target k = none
spin (suc fuel) clock target k =
    let later = spin fuel clock target (suc k) in
    since (clock 0) (clock k) >>=? λ so_far. if reaches so_far target then some (clock k) else later

module _ {F : Type 0} ⦃d : Double F⦄ where
  open d use {of_ℕ, sub, mul, div}

  abbrev pub of_ℤ : ℤ → F
  of_ℤ (pos n) = of_ℕ n
  of_ℤ (negsuc n) = sub (of_ℕ 0) (of_ℕ (suc n))

  -- `calibrate_tsc_hz`, where `target` is `static_cast<std::int64_t>(seconds * 1e9)`
  unfoldable pub calibrate_tsc_hz : (fuel : ℕ) → (ℕ → Timespec) → (target : ℕ) → M F
  unfolding spin since
  calibrate_tsc_hz fuel clock target = do
    c0 ← tsc_start
    t1 ← lift (spin fuel clock target 1)
    c1 ← tsc_stop
    ns ← lift (since (clock 0) t1)
    pure (div (mul (of_ℕ (elapsed c0 c1)) (of_ℕ (10 ^ 9))) (of_ℤ ns))

-- The loop of `measure_tsc_floor`, with the samples in order.
unfoldable pub floor_samples : (reps : ℕ) → M (List ℕ)
floor_samples zero = pure []
floor_samples (suc reps) = do
  t0 ← tsc_start
  t1 ← tsc_stop
  samples ← floor_samples reps
  pure (elapsed t0 t1 ∷ samples)

-- `measure_tsc_floor`
unfoldable pub measure_tsc_floor : {F : Type 0} ⦃d : Double F⦄ → (word reps : ℕ) → M (Stats F)
unfolding floor_samples reserve
measure_tsc_floor word reps = do
  for_samples ← lift (reserve word 8 reps)
  samples ← floor_samples reps
  lift (summarize word samples)
