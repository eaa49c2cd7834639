-- ===== src/Run/Total.antt =====
-- src/main.cpp: a run of a variant that is sound at every position ends with its row.
use boost_openmethod_benchma.Common.{
  ℕ, zero, suc, ◌+◌, ◌≤◌, ◌<◌, ◌≡◌, refl, ap, sym, subst, ◌∙◌, arith, some, List, [], ◌∷◌, All,
  length,
}
use boost_openmethod_benchma.Common.Double.{Double}
use boost_openmethod_benchma.Common.Int.{ℤ}
use boost_openmethod_benchma.Machine.{
  Event, World, M, ◌>>=◌, >>=_run, pure, lift, Ends, Ends->>=, Ends-pure, Ends-lift,
}
use boost_openmethod_benchma.Timing.Tsc.{tsc_start, tsc_start_lem, elapsed_to}
use boost_openmethod_benchma.Timing.Flush.{CacheMode, warm, clflush, sweep, Region}
use boost_openmethod_benchma.Timing.Scrub.{Scrubber, apply, Fits}
use boost_openmethod_benchma.Timing.Scrub.Laws.{apply_modes}
use boost_openmethod_benchma.Timing.Scrub.Sweep.{apply_sweep}
use boost_openmethod_benchma.Timing.Stamp.{Stamps}
use boost_openmethod_benchma.Timing.Stats.{Stats, summarize}
use boost_openmethod_benchma.Timing.Stats.Laws.{summarize_total}
use boost_openmethod_benchma.Vector.{max_size, reserve, reserve_lem}
use boost_openmethod_benchma.Platform.{Platform, IsRandom}
use boost_openmethod_benchma.Config.{Config}
use boost_openmethod_benchma.Env.{Env, draw}
use boost_openmethod_benchma.Variants.{Variant}
use boost_openmethod_benchma.Run.Key.{key_of, variant_key}
use boost_openmethod_benchma.Run.{Row, timed_call, measure, measure_at, repeat_once, repeat, run}

-- Putting the caches into a mode keeps the size of the buffer.
apply-Ends :
    (word : ℕ) (mode : CacheMode) (regions : List Region) (s : Scrubber)
    → (mode ≡ clflush → All (Fits word) regions)
    → s.size + 64 ≤ word
    → Ends (λ t. t.size ≡ s.size) (apply word mode regions s)
unfolding apply
apply-Ends word warm regions s f h w = (s, w, refl, refl)
apply-Ends word clflush regions s f h w =
    let (w', _, e) = (apply_modes word regions s w (f refl)).1 in (s, _, e, refl)
apply-Ends word sweep regions s f h w =
    let (bytes, added, e, _) = apply_sweep word regions s w h in
    (record s { bytes = bytes }, _, e, refl)

-- What is asked of a variant in an environment of `n` objects: that neither the random numbers nor the
-- scrubber matter to its arguments, and that at every position the arguments can be prepared, the call
-- stamps, and in `clflush` mode the regions end a line before the end of memory.
pub record IsMeasurable {P : Platform} (mode : CacheMode) (n : ℕ) (e : Env P) (v : Variant P)
    : Type 0 where
  pub replayable :
      (g : P.random.Rng) (s : Scrubber) (i j : ℕ)
      → v.prepare (record e { scrub = s; rng = g }) i j ≡ v.prepare e i j
  pub stamps :
      (i j : ℕ)
      → i < n
      → j < n
      → (a : v.Args) × (v.prepare e i j ≡ some a)
        × (mode ≡ clflush → All (Fits P.word) (v.regions a))
        × ((id : ℤ) × (reads : List Event) × Stamps (v.call a) id reads)

-- The samples of some repetitions at positions below `n`: each holds the cycles of a timed call on the
-- arguments of two positions, which ran as soon as the caches were in the mode.
module _ {P : Platform} (v : Variant P) (mode : CacheMode) where
  pub record IsTimed (a : v.Args) (cycles : ℕ) : Type 0 where
    pub before : Scrubber
    pub after : Scrubber
    pub w : World
    pub ready : World
    pub w' : World
    pub id : ℤ
    pub applied : apply P.word mode (v.regions a) before w ≡ some (after, ready)
    pub timed : timed_call v a ready ≡ some ((id, cycles), w')

  abbrev pub IsSample : (n : ℕ) → Env P → ℕ → Type 0
  IsSample n e cycles =
      (i : ℕ) × (j : ℕ) × (a : v.Args) × (i < n)
      × (j < n)
      × (v.prepare e i j ≡ some a)
      × IsTimed a cycles

  -- The row carries the variant's members and the mode, and summarizes one sample of each repetition.
  pub record IsRowOf {F : Type 0} ⦃d : Double F⦄ (n : ℕ) (e : Env P) (reps : ℕ) (r : Row F)
      : Type 0 where
    pub key : key_of r ≡ variant_key mode v
    pub samples : List ℕ
    pub counted : length samples ≡ reps
    pub measured : All (IsSample n e) samples
    pub summarized : summarize P.word samples ≡ some r.st

module _ {P : Platform} (v : Variant P) where
  timed_call-Ends :
      (a : v.Args) (id : ℤ) (reads : List Event)
      → Stamps (v.call a) id reads
      → Ends (λ r. r.0 ≡ id) (timed_call v a)
  unfolding timed_call
  timed_call-Ends a id reads s =
      Ends->>= {Q = λ t. Unit} tsc_start _ (λ w. (_, _, tsc_start_lem w, tt))
        (λ t0 _.
          Ends->>= {Q = λ r. r.id ≡ id} (v.call a) _ (λ w. (_, _, s w, refl))
            (λ r q. Ends-pure (r.id, elapsed_to t0 r.t) q))

  measure-Ends :
      (mode : CacheMode) (a : v.Args) (s : Scrubber) (id : ℤ) (reads : List Event)
      → Stamps (v.call a) id reads
      → (mode ≡ clflush → All (Fits P.word) (v.regions a))
      → s.size + 64 ≤ P.word
      → Ends (λ r. (r.1.size ≡ s.size) × IsTimed v mode a r.0) (measure v mode a s)
  unfolding measure
  measure-Ends mode a s id reads st f h w =
      let (discard, w₁, first, _) = timed_call-Ends a id reads st w in
      let (t, w₂, applied, q) = apply-Ends P.word mode (v.regions a) s f h w₁ in
      let (timed, w₃, last, _) = timed_call-Ends a id reads st w₂ in
      (
        (timed.1, t),
        w₃,
        >>=_run (timed_call v a) _ {w = w} first
            ∙ >>=_run (apply P.word mode (v.regions a) s) _ {w = w₁} applied
            ∙ >>=_run (timed_call v a) _ {w = w₂} last,
        (
          q,
          record {
            before = s;
            after = t;
            w = w₁;
            ready = w₂;
            w' = w₃;
            id = timed.0;
            applied = applied;
            timed = last;
          },
        ),
      )

module _ {P : Platform} (v : Variant P) (random : IsRandom P.random) (mode : CacheMode) (n : ℕ)
    (e : Env P) (m : IsMeasurable mode n e v) (range : e.pick_max + 1 ≡ n) where
  abbrev later : Scrubber → P.random.Rng → Env P
  later s g = record e { scrub = s; rng = g }

  -- the environment after some steps, where the buffer keeps its size
  abbrev Kept : Scrubber → Env P → Type 0
  Kept s f = (t : Scrubber) × (g : P.random.Rng) × (f ≡ later t g) × (t.size ≡ s.size)

  measure_at-Ends :
      (i j : ℕ) (s : Scrubber) (g : P.random.Rng)
      → i < n
      → j < n
      → s.size + 64 ≤ P.word
      → Ends (λ r. Kept s r.1 × IsSample v mode n e r.0) (measure_at v mode i j (later s g))
  unfolding measure_at
  measure_at-Ends i j s g hi hj h =
      let (a, prepared, fit, (id, reads, st)) = m.stamps i j hi hj in
      Ends->>= {Q = λ b. b ≡ a} (lift (v.prepare (later s g) i j)) _
        (Ends-lift (v.prepare (later s g) i j) a (m.replayable g s i j ∙ prepared) refl)
        (λ b same.
          subst
            (λ b.
              Ends (λ (r : ℕ × Env P). Kept s r.1 × IsSample v mode n e r.0)
                (measure v mode b s >>= λ measured. pure (measured.0, later measured.1 g)))
            (sym same)
            (Ends->>= (measure v mode a s) _ (measure-Ends v mode a s id reads st fit h)
              (λ r (q, timed).
                Ends-pure (r.0, later r.1 g)
                  ((r.1, g, refl, q), (i, j, a, hi, hj, prepared, timed)))))

  repeat_once-Ends :
      (s : Scrubber) (g : P.random.Rng)
      → s.size + 64 ≤ P.word
      → Ends (λ r. Kept s r.1 × IsSample v mode n e r.0) (repeat_once v mode (later s g))
  unfolding repeat_once draw
  repeat_once-Ends s g h =
      let first = P.random.pick 0 e.pick_max g in
      let second = P.random.pick 0 e.pick_max first.1 in
      let low = (random.pick_range 0 e.pick_max g (omega arith)).1 in
      let high = (random.pick_range 0 e.pick_max first.1 (omega arith)).1 in
      measure_at-Ends first.0 second.0 s second.1 (omega arith) (omega arith) h

  -- what some repetitions leave: the environment, and as many samples
  abbrev Repeated : Scrubber → (count : ℕ) → List ℕ × Env P → Type 0
  Repeated s count r = Kept s r.1 × (length r.0 ≡ count) × All (IsSample v mode n e) r.0

  repeat-Ends :
      (count : ℕ) (s : Scrubber) (g : P.random.Rng)
      → s.size + 64 ≤ P.word
      → Ends (Repeated s count) (repeat v mode count (later s g))
  unfolding repeat
  repeat-Ends zero s g h = Ends-pure ([], later s g) ((s, g, refl, refl), refl, tt)
  repeat-Ends (suc count) s g h =
      Ends->>= (repeat_once v mode (later s g)) _ (repeat_once-Ends s g h)
        (λ once ((t, k, same, size), sample).
          Ends->>= {Q = Repeated s count} (repeat v mode count once.1) _
            (subst (λ f. Ends (Repeated s count) (repeat v mode count f)) (sym same)
              (widen t size (repeat-Ends count t k (subst (λ z. z + 64 ≤ P.word) (sym size) h))))
            (λ rest (kept, counted, samples).
              Ends-pure (once.0 ∷ rest.0, rest.1) (kept, ap suc counted, (sample, samples))))
    where
      widen :
          (t : Scrubber)
          → t.size ≡ s.size
          → {k : M (List ℕ × Env P)} → Ends (Repeated t count) k
          → Ends (Repeated s count) k
      widen t size ends w =
          let (r, w', runs, ((u, l, same, size'), counted, samples)) = ends w in
          (r, w', runs, ((u, l, same, size' ∙ size), counted, samples))

  pub run_total :
      {F : Type 0} ⦃d : Double F⦄ (cfg : Config)
      → e.scrub.size + 64 ≤ P.word
      → cfg.reps ≤ max_size P.word 8
      → Ends
          (λ (r : Row F × Env P).
            (r.0.st.samples ≡ cfg.reps) × IsRowOf v mode n e cfg.reps r.0 × Kept e.scrub r.1)
          (run v e cfg mode)
  unfolding run
  run_total {F = F} cfg h room =
      Ends->>= {Q = λ r. Unit} (lift (reserve P.word 8 cfg.reps)) _
        (Ends-lift (reserve P.word 8 cfg.reps) tt (reserve_lem P.word 8 cfg.reps room) tt)
        (λ _ _.
          Ends->>= (repeat v mode cfg.reps (later e.scrub (P.random.seed cfg.seed))) _
            (repeat-Ends cfg.reps e.scrub (P.random.seed cfg.seed) h)
            (λ done (kept, counted, measured).
              let (st, some_st, samples) = summarize_total P.word done.0 in
              Ends->>= {Q = λ t. t ≡ st} (lift (summarize P.word done.0)) _
                (Ends-lift (summarize P.word done.0) st some_st refl)
                (λ t same. Ends-pure _ (
                  ap (λ (u : Stats F). u.samples) same ∙ samples ∙ counted,
                  record {
                    key = refl;
                    samples = done.0;
                    counted = counted;
                    measured = measured;
                    summarized = some_st ∙ ap some (sym same);
                  },
                  kept,
                ))))
