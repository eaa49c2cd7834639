-- ===== src/Run/Timed.antt =====
-- src/main.cpp: which readings of the counter the samples of a run are taken from.
use boost_openmethod_benchma.Common.{
  ℕ, zero, suc, ◌+◌, ◌-◌, ◌*◌, ◌^◌, ◌≤◌, ◌<◌, ◌≡◌, refl, ap, sym, subst, ◌∙◌, arith, Option, some,
  List, [], ◌∷◌, All,
}
use boost_openmethod_benchma.Common.Double.{Double}
use boost_openmethod_benchma.Common.Int.{ℤ}
use boost_openmethod_benchma.Machine.{Event, World, M, ◌>>=◌, >>=_run, lift}
use boost_openmethod_benchma.Timing.Flush.{CacheMode, warm, clflush, sweep, Region}
use boost_openmethod_benchma.Timing.Scrub.{Scrubber, apply, Fits}
use boost_openmethod_benchma.Timing.Scrub.Laws.{apply_modes}
use boost_openmethod_benchma.Timing.Scrub.Sweep.{apply_sweep}
use boost_openmethod_benchma.Timing.Stamp.{Stamps}
use boost_openmethod_benchma.Timing.Stats.{summarize}
use boost_openmethod_benchma.Timing.Stats.Laws.{summarize_total}
use boost_openmethod_benchma.Vector.{max_size, reserve, reserve_lem}
use boost_openmethod_benchma.Platform.{Platform, IsRandom}
use boost_openmethod_benchma.Config.{Config}
use boost_openmethod_benchma.Env.{Env, draw}
use boost_openmethod_benchma.Variants.{Variant}
use boost_openmethod_benchma.Run.Key.{key_of, variant_key}
use boost_openmethod_benchma.Run.{Row, timed_call, measure, measure_at, repeat_once, repeat, run}
use boost_openmethod_benchma.Run.Window.{timed_call_window}
use boost_openmethod_benchma.Run.Total.{IsMeasurable}

-- the ticks between the k-th reading and the next
abbrev pub window : (ℕ → ℕ) → ℕ → ℕ
window clock k = clock (suc k) - clock k

-- The windows of the timed calls of some repetitions, the first of which begins with the k-th reading.
-- Each repetition reads four times: twice for the warm-up call, then twice for the timed call.
abbrev pub windows : (ℕ → ℕ) → (k reps : ℕ) → List ℕ
windows clock k zero = []
windows clock k (suc reps) = window clock (k + 2) ∷ windows clock (k + 4) reps

-- The counter never runs backwards, and passes fewer than 2^64 ticks from one reading to the next.
abbrev pub IsSteady : (ℕ → ℕ) → Type 0
IsSteady clock = (k : ℕ) → clock k ≤ clock (suc k) × clock (suc k) < clock k + 2 ^ 64

-- From `w` the step ends, with `k` readings of the counter.
abbrev pub Takes : {A : Type 0} → (k : ℕ) → (A → Type 0) → M A → World → Type 0
Takes {A} k Q m w =
    (a : A) × (w' : World) × (m w ≡ some (a, w'))
    × (w'.clock ≡ w.clock)
    × (w'.readings ≡ w.readings + k)
    × Q a

Takes->>= :
    {A B : Type 0} {Q : A → Type 0} {S : B → Type 0} (j k : ℕ) (m : M A) (f : A → M B) (w : World)
    → Takes j Q m w
    → ((a : A) (w' : World)
        → Q a
        → w'.clock ≡ w.clock
        → w'.readings ≡ w.readings + j
        → Takes k S (f a) w')
    → Takes (j + k) S (m >>= f) w
Takes->>= j k m f w (a, w₁, e, c, n, q) h =
    let (b, w₂, e', c', n', s) = h a w₁ q c n in
    (b, w₂, >>=_run m f {w = w} e ∙ e', c' ∙ c, omega arith, s)

Takes-lift :
    {A B : Type 0} {S : B → Type 0} (k : ℕ) (o : Option A) (a : A) (f : A → M B) (w : World)
    → o ≡ some a
    → Takes k S (f a) w
    → Takes k S (lift o >>= f) w
Takes-lift k o a f w e (b, w', runs, c, n, s) =
    (b, w', >>=_run (lift o) f {w = w} (ap (λ p. lift p w) e) ∙ runs, c, n, s)

apply-Takes :
    (word : ℕ) (mode : CacheMode) (regions : List Region) (s : Scrubber) (w : World)
    → (mode ≡ clflush → All (Fits word) regions)
    → s.size + 64 ≤ word
    → Takes 0 (λ t. t.size ≡ s.size) (apply word mode regions s) w
unfolding apply
apply-Takes word warm regions s w f h = (s, w, refl, refl, omega arith, refl)
apply-Takes word clflush regions s w f h =
    let (w', evicted, e) = (apply_modes word regions s w (f refl)).1 in
    (
      s,
      _,
      e,
      ap (λ (v : World). v.clock) evicted.same,
      ap (λ (v : World). v.readings) evicted.same ∙ omega arith,
      refl,
    )
apply-Takes word sweep regions s w f h =
    let (bytes, added, e, _) = apply_sweep word regions s w h in
    (record s { bytes = bytes }, _, e, refl, omega arith, refl)

module _ {P : Platform} (v : Variant P) where
  timed_call-Takes :
      (a : v.Args) (id : ℤ) (reads : List Event) (w : World)
      → IsSteady w.clock
      → Stamps (v.call a) id reads
      → Takes 2 (λ r. r.1 ≡ window w.clock w.readings) (timed_call v a) w
  timed_call-Takes a id reads w steady st = (
    _,
    _,
    timed_call_window v a id reads w st (steady w.readings).0 (steady w.readings).1,
    refl,
    omega arith,
    refl,
  )

  measure-Takes :
      (mode : CacheMode) (a : v.Args) (s : Scrubber) (id : ℤ) (reads : List Event) (w : World)
      → IsSteady w.clock
      → Stamps (v.call a) id reads
      → (mode ≡ clflush → All (Fits P.word) (v.regions a))
      → s.size + 64 ≤ P.word
      → Takes 4
          (λ r. (r.0 ≡ window w.clock (w.readings + 2)) × (r.1.size ≡ s.size))
          (measure v mode a s)
          w
  unfolding measure
  measure-Takes mode a s id reads w steady st f h =
      Takes->>= 2 2 (timed_call v a) _ w (timed_call-Takes a id reads w steady st)
        (λ discard w₁ _ c₁ n₁.
          Takes->>= 0 2 (apply P.word mode (v.regions a) s) _ w₁
            (apply-Takes P.word mode (v.regions a) s w₁ f h)
            (λ after w₂ size c₂ n₂.
              let c = c₂ ∙ c₁ in
              let n : w₂.readings ≡ w.readings + 2 = omega arith in
              Takes->>= 2 0 (timed_call v a) _ w₂
                (timed_call-Takes a id reads w₂ (subst IsSteady (sym c) steady) st)
                (λ timed w₃ cycles c₃ n₃. (
                  (timed.1, after),
                  w₃,
                  refl,
                  refl,
                  omega arith,
                  (
                    cycles ∙ ap (λ k. window w₂.clock k) n ∙ ap (λ g. window g (w.readings + 2)) c,
                    size,
                  ),
                ))))

module _ {P : Platform} (v : Variant P) (random : IsRandom P.random) (mode : CacheMode) (n : ℕ)
    (e : Env P) (m : IsMeasurable mode n e v) (range : e.pick_max + 1 ≡ n) where
  abbrev later : Scrubber → P.random.Rng → Env P
  later s g = record e { scrub = s; rng = g }

  -- the environment after some steps, where the buffer keeps its size
  abbrev Kept : Scrubber → Env P → Type 0
  Kept s f = (t : Scrubber) × (g : P.random.Rng) × (f ≡ later t g) × (t.size ≡ s.size)

  abbrev Sampled : World → Scrubber → ℕ × Env P → Type 0
  Sampled w s r = (r.0 ≡ window w.clock (w.readings + 2)) × Kept s r.1

  measure_at-Takes :
      (i j : ℕ) (s : Scrubber) (g : P.random.Rng) (w : World)
      → i < n
      → j < n
      → IsSteady w.clock
      → s.size + 64 ≤ P.word
      → Takes 4 (Sampled w s) (measure_at v mode i j (later s g)) w
  unfolding measure_at
  measure_at-Takes i j s g w hi hj steady h =
      let (a, prepared, fit, (id, reads, st)) = m.stamps i j hi hj in
      Takes-lift 4 (v.prepare (later s g) i j) a _ w (m.replayable g s i j ∙ prepared) (
        Takes->>= 4 0 (measure v mode a s) _ w (measure-Takes v mode a s id reads w steady st fit h)
          (λ r w' (cycles, size) c k.
            ((r.0, later r.1 g), w', refl, refl, omega arith, (cycles, (r.1, g, refl, size)))))

  repeat_once-Takes :
      (s : Scrubber) (g : P.random.Rng) (w : World)
      → IsSteady w.clock
      → s.size + 64 ≤ P.word
      → Takes 4 (Sampled w s) (repeat_once v mode (later s g)) w
  unfolding repeat_once draw
  repeat_once-Takes s g w steady h =
      let first = P.random.pick 0 e.pick_max g in
      let second = P.random.pick 0 e.pick_max first.1 in
      let low = (random.pick_range 0 e.pick_max g (omega arith)).1 in
      let high = (random.pick_range 0 e.pick_max first.1 (omega arith)).1 in
      measure_at-Takes first.0 second.0 s second.1 w (omega arith) (omega arith) steady h

  abbrev AllSampled : World → Scrubber → ℕ → List ℕ × Env P → Type 0
  AllSampled w s count r = (r.0 ≡ windows w.clock w.readings count) × Kept s r.1

  repeat-Takes :
      (count : ℕ) (s : Scrubber) (g : P.random.Rng) (w : World)
      → IsSteady w.clock
      → s.size + 64 ≤ P.word
      → Takes (4 * count) (AllSampled w s count) (repeat v mode count (later s g)) w
  unfolding repeat
  repeat-Takes zero s g w steady h =
      (([], later s g), w, refl, refl, omega arith, (refl, (s, g, refl, refl)))
  repeat-Takes (suc count) s g w steady h =
      let sum : 4 + (4 * count + 0) ≡ 4 * suc count = omega arith in
      subst (λ k. Takes k (AllSampled w s (suc count)) (repeat v mode (suc count) (later s g)) w)
        sum
        (Takes->>= 4 (4 * count + 0) (repeat_once v mode (later s g)) _ w
          (repeat_once-Takes s g w steady h)
          (λ once w₁ (cycles, (t, l, same, size)) c k.
            Takes->>= (4 * count) 0 (repeat v mode count once.1) _ w₁
              (subst (λ f. Takes (4 * count) (AllSampled w₁ t count) (repeat v mode count f) w₁)
                (sym same)
                (repeat-Takes count t l w₁ (subst IsSteady (sym c) steady)
                  (subst (λ z. z + 64 ≤ P.word) (sym size) h)))
              (λ rest w₂ (samples, (u, o, same', size')) c' k'. (
                (once.0 ∷ rest.0, rest.1),
                w₂,
                refl,
                refl,
                omega arith,
                (later_windows w₁ cycles samples c k, (u, o, same', size' ∙ size)),
              ))))
    where
      later_windows :
          {x : ℕ} {xs : List ℕ} (w₁ : World)
          → x ≡ window w.clock (w.readings + 2)
          → xs ≡ windows w₁.clock w₁.readings count
          → w₁.clock ≡ w.clock
          → w₁.readings ≡ w.readings + 4
          → (x ∷ xs) ≡ windows w.clock w.readings (suc count)
      later_windows {xs = xs} w₁ at_once rest c k =
          ap (λ y. y ∷ xs) at_once
          ∙ ap (λ ys. window w.clock (w.readings + 2) ∷ ys)
              (rest
                ∙ ap (λ j. windows w₁.clock j count) k
                ∙ ap (λ g. windows g (w.readings + 4) count) c)

  -- Where a vector can hold the samples, if the random numbers keep their ranges, and if the counter
  -- never runs backwards and passes fewer than 2^64 ticks from one reading to the next, a run in an
  -- environment where the variant is measurable and the buffer lies in memory ends, in each cache mode,
  -- with a row of the variant's members and the mode. Its figures are the summary of the ticks in the
  -- windows of the timed calls alone: of each four readings of the counter, one repetition's, the ticks
  -- from the third to the fourth.
  pub run_timed :
      {F : Type 0} ⦃d : Double F⦄ (cfg : Config) (w : World)
      → IsSteady w.clock
      → e.scrub.size + 64 ≤ P.word
      → cfg.reps ≤ max_size P.word 8
      → (r : Row F) × (f : Env P) × (w' : World) × (run v e cfg mode w ≡ some ((r, f), w'))
        × (summarize P.word (windows w.clock w.readings cfg.reps) ≡ some r.st)
        × (key_of r ≡ variant_key mode v)
        × (w'.readings ≡ w.readings + 4 * cfg.reps)
  unfolding run
  run_timed {F = F} cfg w steady h room =
      let (done, w', runs, c, k, (samples, kept)) =
        repeat-Takes cfg.reps e.scrub (P.random.seed cfg.seed) w steady h in
      let (st, some_st, counted) = summarize_total {F = F} P.word done.0 in
      (
        _,
        done.1,
        w',
        >>=_run (lift (reserve P.word 8 cfg.reps)) _ {w = w}
              (ap (λ o. lift o w) (reserve_lem P.word 8 cfg.reps room))
            ∙ >>=_run (repeat v mode cfg.reps (later e.scrub (P.random.seed cfg.seed))) _ {w = w}
                runs
            ∙ >>=_run (lift (summarize P.word done.0)) _ {w = w'} (ap (λ o. lift o w') some_st),
        ap (summarize P.word) (sym samples) ∙ some_st,
        refl,
        k,
      )
