-- ===== src/Main/Cold.antt =====
-- src/main.cpp: in the cache mode `clflush` every receiver that a variant touches is evicted first.
use Prim.Native.String.{String}
use boost_openmethod_benchma.Common.{
  ℕ, ◌<◌, ◌≡◌, ◌≢◌, sym, ◌∙◌, some, true, false, List, [], ◌∷◌, ◌++◌, All, All-zip, inl, inr, arith,
}
use boost_openmethod_benchma.Machine.{Event, World, rdtscp, load}
use boost_openmethod_benchma.Timing.Flush.{clflush, Region, Occurs}
use boost_openmethod_benchma.Timing.Scrub.{Scrubber}
use boost_openmethod_benchma.Platform.{Platform}
use boost_openmethod_benchma.OpenMethod.{IsDocumented, IsTable}
use boost_openmethod_benchma.Env.{Env}
use boost_openmethod_benchma.Env.WellFormed.{IsWellFormed}
use boost_openmethod_benchma.Variants.{Variant}
use boost_openmethod_benchma.Variants.Sound.{Starts}
use boost_openmethod_benchma.Run.{measure}
use boost_openmethod_benchma.Run.Cold.{IsCold, IsColdRegion, measure_cold}
use boost_openmethod_benchma.Main.{variants}
use boost_openmethod_benchma.Main.Sound.{address, IsSoundAt, variants-IsSoundAt}
use boost_openmethod_benchma.Main.Total.{IsMapped}

-- The measurement of a variant at two positions, from some state: it ends, and its timed call reads
-- every object that the variant says it touches, whose lines are cold as the call begins. A variant
-- that says it touches none reads none.
pub record MeasuresCold {P : Platform} (e : Env P) (i j : ℕ) (s : Scrubber) (w : World)
    (v : Variant P) : Type 0 where
  pub args : v.Args
  pub prepared : v.prepare e i j ≡ some args
  pub cycles : ℕ
  pub w' : World
  pub runs : measure v clflush args s w ≡ some ((cycles, s), w')
  pub reads : List Event
  pub before : List Event
  pub logged : w'.log ≡ rdtscp ∷ (reads ++ before)
  pub first :
      v.touches_receiver ≡ true
      → (a : ℕ) × (address e v.hier i ≡ some a) × Occurs (load a) reads × IsCold a before
  pub second :
      v.touches_receiver ≡ true
      → v.arity ≡ 2
      → (b : ℕ) × (address e v.hier j ≡ some b) × Occurs (load b) reads × IsCold b before
  pub none_read : v.touches_receiver ≡ false → All IsTable reads

-- where a region starts that is cold, the line is cold
cold_at :
    (x : ℕ) (es : List Event) (rs : List Region)
    → x ≢ 0
    → Starts x rs
    → All (IsColdRegion es) rs
    → IsCold x es
cold_at x es [] live h _ = absurd h
cold_at x es (r ∷ rs) live (inl (same, some_byte)) (cold, _) =
    cold (λ null. live (sym same ∙ null)) x (omega arith) (omega arith)
cold_at x es (r ∷ rs) live (inr h) (_, cold) = cold_at x es rs live h cold

module _ (P : Platform) (doc : IsDocumented P.lib) (n : ℕ) (e : Env P) (wf : IsWellFormed P n e)
    (live : (hier : String) (k x : ℕ) → address e hier k ≡ some x → x ≢ 0) where
  -- In a well-formed environment whose objects do not lie at the null address, with a documented
  -- library, every variant measures cold in the mode `clflush`, at any two positions and from any state:
  -- of each object that it touches the line was flushed, with no access to memory since, before the
  -- timed call reads it; and a variant that says it touches none reads the library's tables alone.
  -- Assumed is that the regions of the arguments end a line before the end of memory.
  pub variants-MeasuresCold :
      (i j : ℕ) (i_lt : i < n) (j_lt : j < n) (s : Scrubber) (w : World)
      → All (IsMapped n e (i, j, i_lt, j_lt)) (variants P)
      → All (MeasuresCold e i j s w) (variants P)
  variants-MeasuresCold i j i_lt j_lt s w mapped =
      All-zip
        (λ v (at : IsSoundAt e i j v) fits.
          let sound = at.sound in
          let (cycles, w', before, runs, logged, cold) =
            measure_cold v sound.args sound.id sound.reads s w sound.stamps
              (fits sound.args sound.prepared) in
          record {
            args = sound.args;
            prepared = sound.prepared;
            cycles = cycles;
            w' = w';
            runs = runs;
            reads = sound.reads;
            before = before;
            logged = logged;
            first = λ t. (
              at.a,
              at.at_i,
              (sound.touches t).0,
              cold_at at.a before (v.regions sound.args) (live v.hier i at.a at.at_i)
                  (sound.evicts t).0 cold,
            );
            second = λ t two. (
              at.b,
              at.at_j,
              (sound.touches t).1 two,
              cold_at at.b before (v.regions sound.args) (live v.hier j at.b at.at_j)
                  ((sound.evicts t).1 two) cold,
            );
            none_read = sound.untouched;
          })
        (variants P) (variants-IsSoundAt P doc n e wf i j i_lt j_lt) mapped
