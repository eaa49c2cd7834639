-- ===== src/Run.antt =====
-- src/main.cpp: one timed call, and the repetitions of a variant in a cache mode. The environment is
-- passed on explicitly; the machine's state and failure are in the monad.
pub mod Key
pub mod Window
pub mod Total
pub mod Timed
pub mod Paired
pub mod Cold
use Prim.Native.String.{String}
use boost_openmethod_benchma.Common.{ℕ, zero, suc, Bool, List, [], ◌∷◌}
use boost_openmethod_benchma.Common.Double.{Double}
use boost_openmethod_benchma.Common.Int.{ℤ}
use boost_openmethod_benchma.Machine.{M, ◌>>=◌, pure, lift}
use boost_openmethod_benchma.Timing.Tsc.{tsc_start, elapsed_to}
use boost_openmethod_benchma.Timing.Flush.{CacheMode}
use boost_openmethod_benchma.Timing.Scrub.{Scrubber, apply}
use boost_openmethod_benchma.Timing.Stats.{Stats, summarize}
use boost_openmethod_benchma.Vector.{reserve}
use boost_openmethod_benchma.Platform.{Platform}
use boost_openmethod_benchma.Config.{Config}
use boost_openmethod_benchma.Env.{Env, draw}
use boost_openmethod_benchma.Variants.{Variant}

-- `row`
pub record Row (F : Type 0) : Type 0 where
  pub name : String
  pub group : String
  pub hier : String
  pub arity : ℕ
  pub touches_receiver : Bool
  pub body : String
  pub mode : CacheMode
  pub st : Stats F

module _ {P : Platform} (v : Variant P) where
  -- `timed_call`: the id that the call returns, and the `cycles` that it reports
  unfoldable pub timed_call : v.Args → M (ℤ × ℕ)
  timed_call a = do t0 ← tsc_start; r ← v.call a; pure (r.id, elapsed_to t0 r.t)

  -- Warm up, put the caches into the mode, measure: the cycles, and the scrubber afterwards.
  unfoldable pub measure : CacheMode → v.Args → Scrubber → M (ℕ × Scrubber)
  unfolding timed_call
  measure mode a scrub = do
    discard ← timed_call a
    after ← apply P.word mode (v.regions a) scrub
    timed ← timed_call a
    pure (timed.1, after)

  -- The loop's body behind the two draws.
  unfoldable pub measure_at : CacheMode → ℕ → ℕ → Env P → M (ℕ × Env P)
  unfolding measure
  measure_at mode i j e = do
    a ← lift (v.prepare e i j)
    measured ← measure mode a e.scrub
    pure (measured.0, record e { scrub = measured.1 })

  -- One repetition.
  unfoldable pub repeat_once : CacheMode → Env P → M (ℕ × Env P)
  unfolding measure_at draw
  repeat_once mode e =
      let first = draw P e in
      let second = draw P first.1 in measure_at mode first.0 second.0 second.1

  -- The loop over `count` repetitions, with the samples in order.
  unfoldable pub repeat : CacheMode → ℕ → Env P → M (List ℕ × Env P)
  unfolding repeat_once
  repeat mode zero e = pure ([], e)
  repeat mode (suc count) e = do
    once ← repeat_once mode e
    rest ← repeat mode count once.1
    pure (once.0 ∷ rest.0, rest.1)

  -- `run`
  unfoldable pub run : {F : Type 0} ⦃d : Double F⦄ → Env P → Config → CacheMode → M (Row F × Env P)
  unfolding repeat reserve
  run e cfg mode = do
    for_samples ← lift (reserve P.word 8 cfg.reps)
    done ← repeat mode cfg.reps (record e { rng = P.random.seed cfg.seed })
    st ← lift (summarize P.word done.0)
    pure (
      record {
        name = v.name;
        group = v.group;
        hier = v.hier;
        arity = v.arity;
        touches_receiver = v.touches_receiver;
        body = v.body;
        mode = mode;
        st = st;
      },
      done.1,
    )
