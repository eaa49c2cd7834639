-- ===== src/Run/Window.antt =====
-- src/main.cpp: what lies in the timed window, and that every variant sees the same receivers.
use boost_openmethod_benchma.Common.{
  suc, ◌+◌, ◌-◌, ◌^◌, ◌≤◌, ◌<◌, ◌≡◌, ap, ◌∙◌, some, List, ◌∷◌, ◌++◌,
}
use boost_openmethod_benchma.Common.Int.{ℤ}
use boost_openmethod_benchma.Machine.{Event, World, ◌>>=◌, pure, lfence, rdtsc, rdtscp, >>=_run}
use boost_openmethod_benchma.Timing.Tsc.{
  tsc_start, tsc_start_lem, elapsed_to, elapsed_exact, reading,
}
use boost_openmethod_benchma.Timing.Stamp.{Stamps}
use boost_openmethod_benchma.Platform.{Platform}
use boost_openmethod_benchma.Variants.{Variant}
use boost_openmethod_benchma.Run.{timed_call}

module _ {P : Platform} (v : Variant P) where
  -- Between the counter's two readings of a timed call lie the closing fence of the start bracket and
  -- the reads of the call, and nothing else: the second reading is the last event of all. If the
  -- counter did not run backwards and passed fewer than 2^64 ticks between them, the reported cycles
  -- are the ticks that passed.
  pub timed_call_window :
      (a : v.Args) (id : ℤ) (reads : List Event) (w : World)
      → Stamps (v.call a) id reads
      → w.clock w.readings ≤ w.clock (suc w.readings)
      → w.clock (suc w.readings) < w.clock w.readings + 2 ^ 64
      → timed_call v a w
        ≡ some (
          (id, w.clock (suc w.readings) - w.clock w.readings),
          record w {
            readings = suc (suc w.readings);
            log = rdtscp ∷ (reads ++ (lfence ∷ rdtsc ∷ lfence ∷ w.log));
          },
        )
  unfolding timed_call
  timed_call_window a id reads w h up near =
      >>=_run tsc_start (λ t0. v.call a >>= λ r. pure (r.id, elapsed_to t0 r.t)) {w = w}
        (tsc_start_lem w)
      ∙ >>=_run (v.call a) (λ r. pure (r.id, elapsed_to (reading (w.clock w.readings)) r.t)) (h _)
      ∙ ap
          (λ cycles. some (
            (id, cycles),
            record w {
              readings = suc (suc w.readings);
              log = rdtscp ∷ (reads ++ (lfence ∷ rdtsc ∷ lfence ∷ w.log));
            },
          ))
          (elapsed_exact (w.clock w.readings) (w.clock (suc w.readings)) up near).1
