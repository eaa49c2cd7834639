-- ===== src/Run/Cold.antt =====
-- src/main.cpp: in the cache mode `clflush` the timed call finds the regions of its arguments evicted.
use boost_openmethod_benchma.Common.{
  ℕ, suc, ◌+◌, ◌-◌, ◌%◌, ◌≤◌, ◌<◌, ◌≡◌, ◌≢◌, refl, sym, subst, ap, ◌∙◌, some, List, [], ◌∷◌, ◌++◌,
  All, All-map, ◌⊎◌, inl, inr,
}
use boost_openmethod_benchma.Common.Int.{ℤ}
use boost_openmethod_benchma.Machine.{
  Event, World, ◌>>=◌, pure, lfence, rdtsc, rdtscp, mfence, clflushopt, store, load, table, >>=_run,
}
use boost_openmethod_benchma.Timing.Tsc.{tsc_start, tsc_start_lem, elapsed_to, reading}
use boost_openmethod_benchma.Timing.Stamp.{Stamps}
use boost_openmethod_benchma.Timing.Flush.{clflush, Region, Occurs}
use boost_openmethod_benchma.Timing.Scrub.{Scrubber, apply, Fits, IsFlush, Evicted}
use boost_openmethod_benchma.Timing.Scrub.Laws.{apply_modes, IsFlush-of_regions}
use boost_openmethod_benchma.Platform.{Platform}
use boost_openmethod_benchma.Variants.{Variant}
use boost_openmethod_benchma.Run.{timed_call, measure}

-- The event accesses no memory.
abbrev pub IsIdle : Event → Type 0
IsIdle lfence = Unit
IsIdle rdtsc = Unit
IsIdle rdtscp = Unit
IsIdle mfence = Unit
IsIdle (clflushopt line) = Unit
IsIdle (store i v) = ⊥
IsIdle (load x) = ⊥
IsIdle (table x) = ⊥

-- In a log, the newest first: the line of `x` was flushed, and no memory was accessed since.
abbrev pub IsCold : ℕ → List Event → Type 0
IsCold x [] = ⊥
IsCold x (e ∷ es) = (e ≡ clflushopt (x - x % 64)) ⊎ (IsIdle e × IsCold x es)

-- every line of a region that is not null
abbrev pub IsColdRegion : List Event → Region → Type 0
IsColdRegion es r = r.addr ≢ 0 → (x : ℕ) → r.addr ≤ x → x < r.addr + r.size → IsCold x es

IsIdle-of_flush : (e : Event) → IsFlush e → IsIdle e
IsIdle-of_flush e (line, eq) = rw eq tt

IsCold-append :
    (x : ℕ) (flushes later : List Event)
    → All IsFlush flushes
    → Occurs (clflushopt (x - x % 64)) flushes
    → IsCold x (flushes ++ later)
IsCold-append x [] later _ h = absurd h
IsCold-append x (e ∷ es) later (f, fs) (inl h) = inl h
IsCold-append x (e ∷ es) later (f, fs) (inr h) =
    inr (IsIdle-of_flush e f, IsCold-append x es later fs h)

-- what was flushed is cold behind the fence and the start bracket
cold_of_Evicted :
    (rs : List Region) (w w' : World)
    → Evicted rs w w'
    → All (IsColdRegion (lfence ∷ rdtsc ∷ lfence ∷ mfence ∷ w'.log)) rs
cold_of_Evicted rs w w' e =
    All-map
      (λ r flushed live x p q.
        let cold : IsCold x (e.added ++ w.log) =
          IsCold-append x e.added w.log (All-map (IsFlush-of_regions rs) e.added e.flushes)
            (flushed live x p q) in
        let at_end : IsCold x w'.log =
          subst (IsCold x) (sym (ap (λ (z : World). z.log) e.same)) cold in
        inr (tt, inr (tt, inr (tt, inr (tt, at_end)))))
      rs e.covers

module _ {P : Platform} (v : Variant P) where
  timed_call_log :
      (a : v.Args) (id : ℤ) (reads : List Event) (w : World)
      → Stamps (v.call a) id reads
      → (cycles : ℕ) × (timed_call v a w
          ≡ some (
            (id, cycles),
            record w {
              readings = suc (suc w.readings);
              log = rdtscp ∷ (reads ++ (lfence ∷ rdtsc ∷ lfence ∷ w.log));
            },
          ))
  unfolding timed_call
  timed_call_log a id reads w h = (
    _,
    >>=_run tsc_start (λ t0. v.call a >>= λ r. pure (r.id, elapsed_to t0 r.t)) {w = w}
          (tsc_start_lem w)
        ∙ >>=_run (v.call a) (λ r. pure (r.id, elapsed_to (reading (w.clock w.readings)) r.t))
            (h _),
  )

  -- In the mode `clflush` the regions of the arguments are cold as the timed call begins: the call's
  -- reads are the last in the log, in front of the closing stamp, and in the log before them every line
  -- of every region that is not null was flushed, with no access to memory since. Assumed is that the
  -- call stamps, and that every region ends a line before the end of memory.
  pub measure_cold :
      (a : v.Args) (id : ℤ) (reads : List Event) (s : Scrubber) (w : World)
      → Stamps (v.call a) id reads
      → All (Fits P.word) (v.regions a)
      → (cycles : ℕ) × (w' : World) × (before : List Event) × (measure v clflush a s w
          ≡ some ((cycles, s), w'))
        × (w'.log ≡ rdtscp ∷ (reads ++ before))
        × All (IsColdRegion before) (v.regions a)
  unfolding measure
  measure_cold a id reads s w h fits =
      let (discard, first) = timed_call_log a id reads w h in
      let (w₂, evicted, flushed) = (apply_modes P.word (v.regions a) s _ fits).1 in
      let (cycles, last) = timed_call_log a id reads (record w₂ { log = mfence ∷ w₂.log }) h in
      (
        cycles,
        _,
        lfence ∷ rdtsc ∷ lfence ∷ mfence ∷ w₂.log,
        >>=_run (timed_call v a) _ {w = w} first
            ∙ >>=_run (apply P.word clflush (v.regions a) s) _ flushed
            ∙ >>=_run (timed_call v a) _ last,
        refl,
        cold_of_Evicted (v.regions a) _ w₂ evicted,
      )
