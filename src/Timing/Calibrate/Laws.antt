-- ===== src/Timing/Calibrate/Laws.antt =====
-- src/timing.hpp: what the calibration and the noise floor measure.
use boost_openmethod_benchma.Common.{
  ℕ, zero, suc, ◌+◌, ◌-◌, ◌*◌, ◌^◌, ◌≤◌, ◌<◌, ◌≡◌, refl, sym, ap, ◌∙◌, subst, arith, true, false,
  some, List, [], ◌∷◌, length, ◌==◌, ==_iff, Bool-cases, inl, inr, ◌≢◌, if◌then◌else◌,
}
use boost_openmethod_benchma.Common.Double.{Double}
use boost_openmethod_benchma.Common.Int.{ℤ, pos, negsuc, pos_part, neg_part, ◌+ℤ◌, ◌-ℤ◌}
use boost_openmethod_benchma.Machine.{
  World, pure, lift, >>=_run, Ends, Ends->>=, Ends-pure, Ends-lift, lfence, rdtsc, rdtscp,
}
use boost_openmethod_benchma.Timing.Tsc.{
  tsc_start, tsc_start_lem, tsc_stop, elapsed, elapsed_exact, reading,
}
use boost_openmethod_benchma.Vector.{max_size, reserve, reserve_lem}
use boost_openmethod_benchma.Timing.Stats.{Stats, summarize}
use boost_openmethod_benchma.Timing.Stats.Laws.{summarize_total}
use boost_openmethod_benchma.Timing.Calibrate.{
  Timespec, in_int64, nano, since, reaches, spin, calibrate_tsc_hz, floor_samples,
  measure_tsc_floor,
}

-- a time in nanoseconds
abbrev pub total : Timespec → ℕ
total t = t.tv_sec * 1000000000 + t.tv_nsec

-- the nanoseconds from one time to another, of any size
abbrev span : Timespec → Timespec → ℤ
span t0 t1 = nano (pos t1.tv_sec -ℤ pos t0.tv_sec) +ℤ (pos t1.tv_nsec -ℤ pos t0.tv_nsec)

in_int64_lem : (z : ℤ) → pos_part z < 2 ^ 63 → neg_part z < 2 ^ 63 → in_int64 z ≡ some z
in_int64_lem (pos n) p q = ground arith
in_int64_lem (negsuc n) p q = ground arith

-- Between times below 2^63 nanoseconds nothing overflows.
since_lem :
    (t0 t1 : Timespec) → total t0 < 2 ^ 63 → total t1 < 2 ^ 63 → since t0 t1 ≡ some (span t0 t1)
unfolding since
since_lem t0 t1 h g =
    let seconds = pos t1.tv_sec -ℤ pos t0.tv_sec in
    rw
      (
        in_int64_lem seconds (ground arith) (ground arith),
        in_int64_lem (nano seconds) (ground arith) (ground arith),
        in_int64_lem (span t0 t1) (ground arith) (ground arith),
      )
      refl

span_later : (t0 t1 : Timespec) → total t0 ≤ total t1 → span t0 t1 ≡ pos (total t1 - total t0)
span_later t0 t1 h = ground arith

reaches-span :
    (t0 t1 : Timespec) (target : ℕ)
    → 0 < target
    → (reaches (span t0 t1) target ≡ true → total t0 + target ≤ total t1)
      × (total t0 + target ≤ total t1 → reaches (span t0 t1) target ≡ true)
reaches-span t0 t1 target h = ground arith

tsc_stop-Ends : Ends (λ c. Unit) tsc_stop
unfolding tsc_stop
tsc_stop-Ends w = (_, _, refl, tt)

module _ (clock : ℕ → Timespec) (target : ℕ) (some_time : 0 < target) where
  -- One round of the loop, in times without overflow.
  spin_step :
      (fuel k : ℕ)
      → total (clock 0) < 2 ^ 63
      → total (clock k) < 2 ^ 63
      → spin (suc fuel) clock target k ≡ (
          if reaches (span (clock 0) (clock k)) target
          then some (clock k)
          else spin fuel clock target (suc k))
  unfolding spin
  spin_step fuel k h g = rw (since_lem (clock 0) (clock k) h g) refl

  -- The loop stops at the first time that is far enough from the start.
  spin_lem :
      (fuel k n : ℕ)
      → k ≤ n
      → n < k + fuel
      → ((j : ℕ) → k ≤ j → j < n → total (clock j) < total (clock 0) + target)
      → total (clock 0) + target ≤ total (clock n)
      → ((j : ℕ) → j ≤ n → total (clock j) < 2 ^ 63)
      → spin fuel clock target k ≡ some (clock n)
  spin_lem zero k n a b h g small = absurd (omega arith)
  spin_lem (suc fuel) k n a b h g small = elim (Bool-cases (k == n)) [
    | inl same ↦
        let e : k ≡ n = (==_iff k n).0 same in
        let far : total (clock 0) + target ≤ total (clock k) =
          subst (λ z. total (clock 0) + target ≤ total (clock z)) (sym e) g in
        spin_step fuel k (small 0 (omega arith)) (small k a)
        ∙ rw ((reaches-span (clock 0) (clock k) target some_time).1 far)
            (ap (λ z. some (clock z)) e)
    | inr other ↦
        let below : k < n = ground arith in
        let near = h k (omega arith) below in
        spin_step fuel k (small 0 (omega arith)) (small k a)
        ∙ rw (stays k near)
            (spin_lem fuel (suc k) n (omega arith) (omega arith) (λ j p. h j (omega arith)) g small)
  ]
    where
      stays :
          (k : ℕ)
          → total (clock k) < total (clock 0) + target
          → reaches (span (clock 0) (clock k)) target ≡ false
      stays k near = elim (Bool-cases (reaches (span (clock 0) (clock k)) target)) [
        | inl yes_far ↦
            let far = (reaches-span (clock 0) (clock k) target some_time).0 yes_far in
            absurd (omega arith)
        | inr no_far ↦ no_far
      ]

  -- If the clock first shows at its n-th reading behind the start, and within the fuel, that the
  -- target has passed, and the times up to that reading lie below 2^63 nanoseconds, so that nothing
  -- overflows, and the counter passes fewer than 2^64 ticks and does not run backwards between the
  -- brackets, the calibration ends with the counter's ticks between its two brackets times 10^9 by the
  -- nanoseconds from the start to that reading.
  pub calibrate_exact :
      {F : Type 0} ⦃d : Double F⦄ (fuel n : ℕ) (w : World)
      → 1 ≤ n
      → n < 1 + fuel
      → ((j : ℕ) → 1 ≤ j → j < n → total (clock j) < total (clock 0) + target)
      → total (clock 0) + target ≤ total (clock n)
      → ((j : ℕ) → j ≤ n → total (clock j) < 2 ^ 63)
      → w.clock w.readings ≤ w.clock (suc w.readings)
      → w.clock (suc w.readings) < w.clock w.readings + 2 ^ 64
      → (w' : World) × (calibrate_tsc_hz fuel clock target w
          ≡ some (
            d.div
                (d.mul (d.of_ℕ (w.clock (suc w.readings) - w.clock w.readings)) (d.of_ℕ (10 ^ 9)))
                (d.of_ℕ (total (clock n) - total (clock 0))),
            w',
          ))
  unfolding calibrate_tsc_hz tsc_start tsc_stop
  calibrate_exact ⦃d = d⦄ fuel n w a b h g small up near =
      let ticks = (elapsed_exact (w.clock w.readings) (w.clock (suc w.readings)) up near).0 in
      let ns =
        since_lem (clock 0) (clock n) (small 0 (omega arith)) (small n (omega arith))
        ∙ ap some (span_later (clock 0) (clock n) (omega arith)) in
      (
        record w {
          readings = suc (suc w.readings);
          log = lfence ∷ rdtscp ∷ lfence ∷ rdtsc ∷ lfence ∷ w.log;
        },
        rw (spin_lem fuel 1 n a b h g small, ns, ticks),
      )

  -- The loop stops if some time within the fuel is far enough from the start.
  spin-some :
      (fuel k n : ℕ)
      → k ≤ n
      → n < k + fuel
      → total (clock 0) + target ≤ total (clock n)
      → ((j : ℕ) → j ≤ n → total (clock j) < 2 ^ 63)
      → (t : Timespec) × (ns : ℤ) × (spin fuel clock target k ≡ some t)
        × (since (clock 0) t ≡ some ns)
  spin-some zero k n a b g small = absurd (omega arith)
  spin-some (suc fuel) k n a b g small =
      elim (Bool-cases (reaches (span (clock 0) (clock k)) target)) [
        | inl far ↦ (
          clock k,
          span (clock 0) (clock k),
          spin_step fuel k (small 0 (omega arith)) (small k a) ∙ rw far refl,
          since_lem (clock 0) (clock k) (small 0 (omega arith)) (small k a),
        )
        | inr near ↦
            let apart : k ≢ n = λ e. cc (
              (reaches-span (clock 0) (clock k) target some_time).1
                (subst (λ z. total (clock 0) + target ≤ total (clock z)) (sym e) g)) in
            let (t, ns, e, f) = spin-some fuel (suc k) n (ground arith) (omega arith) g small in
            (t, ns, spin_step fuel k (small 0 (omega arith)) (small k a) ∙ rw near e, f)
      ]

  pub calibrate-Ends :
      {F : Type 0} ⦃d : Double F⦄ (fuel n : ℕ)
      → 1 ≤ n
      → n < 1 + fuel
      → total (clock 0) + target ≤ total (clock n)
      → ((j : ℕ) → j ≤ n → total (clock j) < 2 ^ 63)
      → Ends (λ (hz : F). Unit) (calibrate_tsc_hz fuel clock target)
  unfolding calibrate_tsc_hz
  calibrate-Ends fuel n a b g small =
      let (t, ns, e, f) = spin-some fuel 1 n a b g small in
      Ends->>= {Q = λ c0. Unit} tsc_start _ (λ w. (_, _, tsc_start_lem w, tt))
        (λ c0 _.
          Ends->>= {Q = λ t1. t1 ≡ t} (lift (spin fuel clock target 1)) _ (Ends-lift _ t e refl)
            (λ t1 same. Ends->>= {Q = λ c1. Unit} tsc_stop _ tsc_stop-Ends (λ c1 _.
              Ends->>= {Q = λ z. Unit} (lift (since (clock 0) t1)) _
                (Ends-lift _ ns (ap (since (clock 0)) same ∙ f) tt) (λ z _. Ends-pure _ tt))))

-- the ticks between the first and the second reading of `reps` pairs, from the k-th reading on
abbrev pub gaps : (clock : ℕ → ℕ) → (k reps : ℕ) → List ℕ
gaps clock k zero = []
gaps clock k (suc reps) = (clock (suc k) - clock k) ∷ gaps clock (suc (suc k)) reps

length-gaps : (clock : ℕ → ℕ) (k reps : ℕ) → length (gaps clock k reps) ≡ reps
length-gaps clock k zero = refl
length-gaps clock k (suc reps) = ap suc (length-gaps clock (suc (suc k)) reps)

floor_samples_lem :
    (reps : ℕ) (w : World)
    → ((k : ℕ) → w.clock k ≤ w.clock (suc k) × w.clock (suc k) < w.clock k + 2 ^ 64)
    → (w' : World) × (floor_samples reps w ≡ some (gaps w.clock w.readings reps, w'))
unfolding floor_samples tsc_start tsc_stop
floor_samples_lem zero w h = (w, refl)
floor_samples_lem (suc reps) w h =
    let ticks =
      elapsed_exact (w.clock w.readings) (w.clock (suc w.readings)) (h w.readings).0
        (h w.readings).1 in
    let (w', e) = floor_samples_lem reps _ h in
    (
      w',
      >>=_run (floor_samples reps)
            (λ samples. pure (
              elapsed (reading (w.clock w.readings)) (reading (w.clock (suc w.readings)))
              ∷ samples))
            e
          ∙ ap (λ t. some (t ∷ gaps w.clock (suc (suc w.readings)) reps, w')) ticks.0,
    )

-- Where a vector can hold the samples, and if the counter never runs backwards and passes fewer than
-- 2^64 ticks from one reading to the next, the noise floor is the summary of the ticks between the
-- brackets of each empty window, one for each repetition.
pub measure_tsc_floor_exact :
    {F : Type 0} ⦃d : Double F⦄ (word reps : ℕ) (w : World)
    → reps ≤ max_size word 8
    → ((k : ℕ) → w.clock k ≤ w.clock (suc k) × w.clock (suc k) < w.clock k + 2 ^ 64)
    → (st : Stats F) × (w' : World) × (measure_tsc_floor word reps w ≡ some (st, w'))
      × (summarize word (gaps w.clock w.readings reps) ≡ some st)
      × (st.samples ≡ reps)
unfolding measure_tsc_floor
measure_tsc_floor_exact word reps w room h =
    let (w', e) = floor_samples_lem reps w h in
    let (st, some_st, counted) = summarize_total word (gaps w.clock w.readings reps) in
    (
      st,
      w',
      >>=_run (lift (reserve word 8 reps)) _ {w = w}
            (ap (λ o. lift o w) (reserve_lem word 8 reps room))
          ∙ >>=_run (floor_samples reps) _ {w = w} e
          ∙ ap (λ o. lift o w') some_st,
      some_st,
      counted ∙ length-gaps w.clock w.readings reps,
    )

floor_samples-Ends : (reps : ℕ) → Ends (λ samples. Unit) (floor_samples reps)
unfolding floor_samples
floor_samples-Ends zero = Ends-pure [] tt
floor_samples-Ends (suc reps) =
    Ends->>= {Q = λ t0. Unit} tsc_start _ (λ w. (_, _, tsc_start_lem w, tt))
      (λ t0 _. Ends->>= {Q = λ t1. Unit} tsc_stop _ tsc_stop-Ends (λ t1 _.
        Ends->>= (floor_samples reps) _ (floor_samples-Ends reps)
          (λ samples _. Ends-pure (elapsed t0 t1 ∷ samples) tt)))

pub measure_tsc_floor-Ends :
    {F : Type 0} ⦃d : Double F⦄ (word reps : ℕ)
    → reps ≤ max_size word 8
    → Ends (λ (st : Stats F). Unit) (measure_tsc_floor word reps)
unfolding measure_tsc_floor
measure_tsc_floor-Ends word reps room =
    Ends->>= {Q = λ r. Unit} (lift (reserve word 8 reps)) _
      (Ends-lift (reserve word 8 reps) tt (reserve_lem word 8 reps room) tt)
      (λ r _. Ends->>= (floor_samples reps) _ (floor_samples-Ends reps) (λ samples _.
        let (st, e, _) = summarize_total word samples in
        Ends-lift (summarize word samples) st e tt))
