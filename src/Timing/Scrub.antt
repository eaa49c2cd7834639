-- ===== src/Timing/Scrub.antt =====
-- src/timing.hpp: `class scrubber`, which puts the caches into a mode before each timed call.
pub mod Laws
pub mod Sweep
use native.Mathlib.Nat.{mod-eq_of_lt}
use boost_openmethod_benchma.Common.{
  ℕ, zero, suc, ◌+◌, ◌-◌, ◌*◌, ◌/◌, ◌%◌, ◌^◌, ◌≤◌, ◌<◌, ◌≡◌, refl, ap, ◌⊎◌, arith, Option, none,
  some, List, [], ◌∷◌, ◌++◌, ltb, ◌==◌, if◌then◌else◌, Bool-cases, inl, inr, All, append_assoc,
  ltb→lt, lt→ltb, ◌≢◌, ◌∙◌, length,
}
use boost_openmethod_benchma.Vector.{max_size, reserve, reserve_lem}
use boost_openmethod_benchma.Machine.{
  Event, World, M, ◌>>=◌, ◌>>◌, pure, emit, clflushopt, mfence, store,
}
use boost_openmethod_benchma.Timing.Flush.{
  CacheMode, warm, clflush, sweep, Region, flush_range, flush_range-Flushed, flush_range_null,
  Flushed, IsLineFlush, Occurs, Occurs-append_left, Occurs-append_right,
}

-- `scrubber::buffer_`
pub record Scrubber : Type 0 where
  pub size : ℕ
  pub bytes : ℕ → ℕ

-- a buffer of ones
abbrev pub ones : ℕ → Scrubber
ones sweep_bytes = record { size = sweep_bytes; bytes = λ i. 1 }

-- The constructor: `buffer_(sweep_bytes, 1)`, which throws where no vector is that long.
unfoldable pub scrubber : (word sweep_bytes : ℕ) → Option Scrubber
unfolding reserve
scrubber word sweep_bytes = elim (reserve word 1 sweep_bytes) [
  | none ↦ none
  | some _ ↦ some (ones sweep_bytes)
]

-- `sweep_bytes`
unfoldable pub sweep_bytes : Scrubber → ℕ
sweep_bytes s = s.size

-- The loop of the `clflush` mode.
unfoldable pub flush_regions : ℕ → List Region → M (Unit {0})
flush_regions word [] = pure tt
flush_regions word (r ∷ rs) = flush_range word r.addr r.size >> flush_regions word rs

abbrev pub write : (ℕ → ℕ) → ℕ → ℕ → ℕ → ℕ
write bytes i v j = if j == i then v else bytes j

-- The loop of the `sweep` mode: one byte of each line.
unfoldable pub sweep_lines : (word fuel i n : ℕ) → (ℕ → ℕ) → M (ℕ → ℕ)
sweep_lines word zero i n bytes = λ w. none
sweep_lines word (suc fuel) i n bytes =
    let rest = sweep_lines word fuel ((i + 64) % word) n (write bytes i (i % 256)) in
    if ltb i n then (emit (store i (i % 256) ∷ []) >> rest) else pure bytes

-- `scrubber::apply`
unfoldable pub apply : ℕ → CacheMode → List Region → Scrubber → M Scrubber
unfolding flush_regions sweep_lines
apply word warm regions s = pure s
apply word clflush regions s = do flush_regions word regions; emit (mfence ∷ []); pure s
apply word sweep regions s = do
  bytes ← sweep_lines word (s.size / 64 + 2) 0 s.size s.bytes
  emit (mfence ∷ [])
  pure (record s { bytes = bytes })

-- The region ends at least a line before the end of memory.
abbrev pub Fits : ℕ → Region → Type 0
Fits word r = r.addr + r.size + 64 ≤ word

-- Every byte of the region has its line flushed, unless the region is null.
abbrev pub IsFlushedIn : List Event → Region → Type 0
IsFlushedIn added r =
    r.addr ≢ 0 → (x : ℕ) → r.addr ≤ x → x < r.addr + r.size → Occurs (clflushopt (x - x % 64)) added

-- The event flushes a line of one of the regions that are not null.
abbrev pub IsFlushOf : List Region → Event → Type 0
IsFlushOf [] e = ⊥
IsFlushOf (r ∷ rs) e =
    ((r.addr ≢ 0) × IsLineFlush (r.addr - r.addr % 64) (r.addr + r.size) e) ⊎ IsFlushOf rs e

abbrev pub IsFlush : Event → Type 0
IsFlush e = (line : ℕ) × (e ≡ clflushopt line)

-- Between two states every line of the regions that are not null was flushed, and nothing else happened.
pub record Evicted (regions : List Region) (w w' : World) : Type 0 where
  pub added : List Event
  pub same : w' ≡ record w { log = added ++ w.log }
  pub flushes : All (IsFlushOf regions) added
  pub covers : All (IsFlushedIn added) regions

pub scrubber_lem : (word n : ℕ) → n ≤ max_size word 1 → scrubber word n ≡ some (ones n)
unfolding scrubber
scrubber_lem word n h =
    ap (λ o. elim o [ none ↦ none | some _ ↦ some (ones n) ]) (reserve_lem word 1 n h)
