-- ===== src/Main/Total.antt =====
-- src/main.cpp: `main_impl` ends with a complete table.
use boost_openmethod_benchma.Common.{
  ℕ, ◌+◌, ◌≤◌, ◌<◌, ◌≡◌, refl, ap, sym, subst, ◌∙◌, some, List, [], ◌∷◌, ◌++◌, map, All, All-append,
  All-map, All-zip, All-swap,
}
use boost_openmethod_benchma.Common.Double.{Double}
use boost_openmethod_benchma.Machine.{Ends, Ends->>=, Ends-pure}
use boost_openmethod_benchma.Timing.Flush.{CacheMode, clflush}
use boost_openmethod_benchma.Timing.Scrub.{Scrubber, Fits}
use boost_openmethod_benchma.Vector.{max_size}
use boost_openmethod_benchma.Platform.{Platform, IsRandom}
use boost_openmethod_benchma.Config.{Config}
use boost_openmethod_benchma.OpenMethod.{IsDocumented}
use boost_openmethod_benchma.Env.{Env}
use boost_openmethod_benchma.Env.WellFormed.{IsWellFormed}
use boost_openmethod_benchma.Variants.{Variant}
use boost_openmethod_benchma.Run.{Row, run}
use boost_openmethod_benchma.Run.Key.{key_of, variant_key}
use boost_openmethod_benchma.Run.Total.{IsMeasurable, IsRowOf, run_total}
use boost_openmethod_benchma.Main.{variants, run_all, run_modes, keys}
use boost_openmethod_benchma.Main.Replayable.{IsReplayable, variants-IsReplayable}
use boost_openmethod_benchma.Main.Sound.{IsSoundAt, variants-IsSoundAt}

-- two positions of a population of `n` objects
abbrev pub Positions : ℕ → Type 0
Positions n = (i : ℕ) × (j : ℕ) × (i < n) × (j < n)

-- The regions of the arguments at two positions end a line before the end of memory.
abbrev pub IsMapped : {P : Platform} → (n : ℕ) → Env P → Positions n → Variant P → Type 0
IsMapped {P} n e p v = (a : v.Args) → v.prepare e p.0 p.1 ≡ some a → All (Fits P.word) (v.regions a)

-- the environment after some steps, where the buffer keeps its size
abbrev pub IsKept : {P : Platform} → Env P → Scrubber → Env P → Type 0
IsKept {P} e s f =
    (t : Scrubber) × (g : P.random.Rng) × (f ≡ record e { scrub = t; rng = g }) × (t.size ≡ s.size)

module _ {P : Platform} {F : Type 0} ⦃d : Double F⦄ (n : ℕ) (e : Env P) (reps : ℕ) where
  -- one row of each variant, in order
  abbrev pub AreRowsOf : CacheMode → List (Variant P) → List (Row F) → Type 0
  AreRowsOf mode [] [] = Unit
  AreRowsOf mode [] (r ∷ rows) = ⊥
  AreRowsOf mode (v ∷ vs) [] = ⊥
  AreRowsOf mode (v ∷ vs) (r ∷ rows) = IsRowOf v mode n e reps r × AreRowsOf mode vs rows

  -- the rows of the program's variants in each mode
  abbrev pub AreBlocksOf : List CacheMode → List (Row F) → Type 0
  AreBlocksOf [] rows = rows ≡ []
  AreBlocksOf (mode ∷ ms) rows =
      (here : List (Row F)) × (later : List (Row F)) × (rows ≡ here ++ later)
      × AreRowsOf mode (variants P) here
      × AreBlocksOf ms later

  -- The rows of the program in some cache modes, each with a summary of `reps` samples.
  abbrev pub IsTable : List CacheMode → List (Row F) → Type 0
  IsTable ms rows =
      (map key_of rows ≡ keys P ms) × All (λ r. r.st.samples ≡ reps) rows × AreBlocksOf ms rows

-- What was measured in a later environment was measured in the first.
IsRowOf-earlier :
    {P : Platform} {F : Type 0} ⦃d : Double F⦄ (mode : CacheMode) (n : ℕ) (e : Env P)
    (v : Variant P) (s : Scrubber) (g : P.random.Rng) (reps : ℕ) (r : Row F)
    → IsMeasurable mode n e v
    → IsRowOf v mode n (record e { scrub = s; rng = g }) reps r
    → IsRowOf v mode n e reps r
IsRowOf-earlier mode n e v s g reps r m o = record {
  key = o.key;
  samples = o.samples;
  counted = o.counted;
  measured =
      All-map
        (λ x (i, j, a, hi, hj, prepared, timed).
          (i, j, a, hi, hj, sym (m.replayable g s i j) ∙ prepared, timed))
        o.samples o.measured;
  summarized = o.summarized;
}

IsMeasurable-later :
    {P : Platform} (mode : CacheMode) (n : ℕ) (e : Env P) (v : Variant P) (s : Scrubber)
    (g : P.random.Rng)
    → IsMeasurable mode n e v
    → IsMeasurable mode n (record e { scrub = s; rng = g }) v
IsMeasurable-later mode n e v s g m = record {
  replayable = λ g' s' i j. m.replayable g' s' i j ∙ sym (m.replayable g s i j);
  stamps = λ i j hi hj.
      let (a, prepared, fits, stamped) = m.stamps i j hi hj in
      (a, m.replayable g s i j ∙ prepared, fits, stamped);
}

module _ (P : Platform) (doc : IsDocumented P.lib) (n : ℕ) (e : Env P) (wf : IsWellFormed P n e)
    (mode : CacheMode)
    (mapped : mode ≡ clflush → (p : Positions n) → All (IsMapped n e p) (variants P)) where
  -- Every variant of the program is measurable.
  pub variants-IsMeasurable : All (IsMeasurable mode n e) (variants P)
  variants-IsMeasurable =
      All-zip
        (λ v sound (replayable, fits). record {
          replayable = replayable;
          stamps = λ i j hi hj.
              let at = sound (i, j, hi, hj) in
              (
                at.sound.args,
                at.sound.prepared,
                λ c. fits (c, (i, j, hi, hj)) at.sound.args at.sound.prepared,
                (at.sound.id, at.sound.reads, at.sound.stamps),
              );
        })
        (variants P)
        (All-swap (λ (p : Positions n) v. IsSoundAt e p.0 p.1 v) (variants P)
          (λ p. variants-IsSoundAt P doc n e wf p.0 p.1 p.2 p.3))
        (All-zip {Q = λ v. (t : (mode ≡ clflush) × Positions n) → IsMapped n e t.1 v}
          {S = λ v. IsReplayable e v × ((t : (mode ≡ clflush) × Positions n) → IsMapped n e t.1 v)}
          (λ v r f. (r, f)) (variants P) (variants-IsReplayable P e)
          (All-swap (λ (t : (mode ≡ clflush) × Positions n) v. IsMapped n e t.1 v) (variants P)
            (λ t. mapped t.0 t.1)))

map-append :
    {A B : Type 0} (f : A → B) (xs ys : List A) {us vs : List B}
    → map f xs ≡ us
    → map f ys ≡ vs
    → map f (xs ++ ys) ≡ us ++ vs
map-append f [] ys p q = rw (← p, q)
map-append f (x ∷ xs) ys p q = rw (← p, ap (◌∷◌ (f x)) (map-append f xs ys refl q))

module _ (P : Platform) (random : IsRandom P.random) (n : ℕ) (e : Env P)
    (range : e.pick_max + 1 ≡ n) {F : Type 0} ⦃d : Double F⦄ (cfg : Config)
    (samples_fit : cfg.reps ≤ max_size P.word 8) where
  -- what a list of variants leaves in a mode, and what all variants leave in some modes
  abbrev Ran : CacheMode → List (Variant P) → Scrubber → List (Row F) × Env P → Type 0
  Ran mode vs s r =
      (map key_of r.0 ≡ map (variant_key mode) vs)
      × All (λ (q : Row F). q.st.samples ≡ cfg.reps) r.0
      × AreRowsOf n e cfg.reps mode vs r.0
      × IsKept e s r.1

  abbrev pub RanAll : List CacheMode → Scrubber → List (Row F) × Env P → Type 0
  RanAll ms s r = IsTable n e cfg.reps ms r.0 × IsKept e s r.1

  run_all-Ends :
      (mode : CacheMode) (vs : List (Variant P)) (s : Scrubber) (g : P.random.Rng)
      → All (IsMeasurable mode n e) vs
      → s.size + 64 ≤ P.word
      → Ends (Ran mode vs s) (run_all P vs (record e { scrub = s; rng = g }) cfg mode)
  unfolding run_all
  run_all-Ends mode [] s g ms h =
      Ends-pure ([], record e { scrub = s; rng = g }) (refl, tt, tt, (s, g, refl, refl))
  run_all-Ends mode (v ∷ vs) s g (m, ms) h =
      Ends->>= (run v (record e { scrub = s; rng = g }) cfg mode) _
        (run_total v random mode n (record e { scrub = s; rng = g })
          (IsMeasurable-later mode n e v s g m) range cfg h samples_fit)
        (λ first (counted, row, (t, k, same, size)).
          Ends->>= (run_all P vs first.1 cfg mode) _
            (subst (λ f. Ends (Ran mode vs t) (run_all P vs f cfg mode)) (sym same)
              (run_all-Ends mode vs t k ms (subst (λ z. z + 64 ≤ P.word) (sym size) h)))
            (λ rest (keys', samples, rows, (u, l, same', size')).
              Ends-pure (first.0 ∷ rest.0, rest.1)
                (
                  ap₂_cons row.key keys',
                  (counted, samples),
                  (IsRowOf-earlier mode n e v s g cfg.reps first.0 m row, rows),
                  (u, l, same', size' ∙ size),
                )))
    where
      ap₂_cons : {A : Type 0} {x y : A} {xs ys : List A} → x ≡ y → xs ≡ ys → (x ∷ xs) ≡ (y ∷ ys)
      ap₂_cons p q = rw (p, q)

  pub run_modes-Ends :
      (ms : List CacheMode) (s : Scrubber) (g : P.random.Rng)
      → All (λ mode. All (IsMeasurable mode n e) (variants P)) ms
      → s.size + 64 ≤ P.word
      → Ends (RanAll ms s) (run_modes P ms (record e { scrub = s; rng = g }) cfg)
  unfolding run_modes
  run_modes-Ends [] s g all h =
      Ends-pure ([], record e { scrub = s; rng = g }) ((refl, tt, refl), (s, g, refl, refl))
  run_modes-Ends (mode ∷ ms) s g (here, all) h =
      Ends->>= (run_all P (variants P) (record e { scrub = s; rng = g }) cfg mode) _
        (run_all-Ends mode (variants P) s g here h)
        (λ first (keys', samples, rows, (t, k, same, size)).
          Ends->>= (run_modes P ms first.1 cfg) _
            (subst (λ f. Ends (RanAll ms t) (run_modes P ms f cfg)) (sym same)
              (run_modes-Ends ms t k all (subst (λ z. z + 64 ≤ P.word) (sym size) h)))
            (λ rest ((keys'', samples', blocks), (u, l, same', size')).
              Ends-pure (first.0 ++ rest.0, rest.1)
                (
                  (
                    map-append key_of first.0 rest.0 keys' keys'',
                    All-append _ first.0 rest.0 samples samples',
                    (first.0, rest.0, refl, rows, blocks),
                  ),
                  (u, l, same', size' ∙ size),
                )))
