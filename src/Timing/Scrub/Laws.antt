-- ===== src/Timing/Scrub/Laws.antt =====
-- src/timing.hpp: what `scrubber::apply` does in each mode.
use mathlib.Core.Path.{subst}
use boost_openmethod_benchma.Common.{
  ℕ, ◌≡◌, refl, arith, some, List, [], ◌∷◌, ◌++◌, ◌==◌, Bool-cases, inl, inr, All, All-map,
  All-append, append_assoc, ◌∙◌,
}
use boost_openmethod_benchma.Machine.{Event, World, ◌>>◌, pure, emit, mfence, >>=_run}
use boost_openmethod_benchma.Timing.Flush.{
  warm, clflush, Region, flush_range, flush_range-Flushed, flush_range_null, Occurs-append_left,
  Occurs-append_right,
}
use boost_openmethod_benchma.Timing.Scrub.{
  Scrubber, flush_regions, apply, Fits, IsFlush, IsFlushOf, IsFlushedIn, Evicted,
}

pub IsFlush-of_regions : (rs : List Region) (e : Event) → IsFlushOf rs e → IsFlush e
IsFlush-of_regions [] e h = absurd h
IsFlush-of_regions (r ∷ rs) e (inl (live, (line, eq, _, _, _))) = (line, eq)
IsFlush-of_regions (r ∷ rs) e (inr h) = IsFlush-of_regions rs e h

IsFlushedIn-later : (xs ys : List Event) (r : Region) → IsFlushedIn xs r → IsFlushedIn (xs ++ ys) r
IsFlushedIn-later xs ys r h live x p q = Occurs-append_left _ xs ys (h live x p q)

-- one region, put before the regions that follow
Evicted-cons :
    (r : Region) (rs : List Region) (w w' : World) (added : List Event)
    → All (IsFlushOf (r ∷ rs)) added
    → IsFlushedIn added r
    → Evicted rs (record w { log = added ++ w.log }) w'
    → Evicted (r ∷ rs) w w'
Evicted-cons r rs w w' added flushes here e = record {
  added = e.added ++ added;
  same = rw append_assoc e.same;
  flushes =
      All-append (IsFlushOf (r ∷ rs)) e.added added (All-map (λ ev h. inr h) e.added e.flushes)
        flushes;
  covers = (
    λ live x p q. Occurs-append_right _ e.added added (here live x p q),
    All-map (IsFlushedIn-later e.added added) rs e.covers,
  );
}

flush_regions-Evicted :
    (word : ℕ) (regions : List Region) (w : World)
    → All (Fits word) regions
    → (w' : World) × (flush_regions word regions w ≡ some (tt, w')) × Evicted regions w w'
unfolding flush_regions
flush_regions-Evicted word [] w h =
    (w, refl, record { added = []; same = refl; flushes = tt; covers = tt })
flush_regions-Evicted word (r ∷ rs) w (fits, h) = elim (Bool-cases (r.addr == 0)) [
  | inl null ↦
      let nil : r.addr ≡ 0 = ground arith in
      let (w', runs, e) = flush_regions-Evicted word rs w h in
      (w', null_step nil ∙ runs, Evicted-cons r rs w w' [] tt (λ live. absurd (live nil)) e)
  | inr live ↦
      let (w₁, first, f) = flush_range-Flushed word r.addr r.size w fits (ground arith) in
      let (w', runs, e) = flush_regions-Evicted word rs w₁ h in
      (
        w',
        live_step w₁ first ∙ runs,
        Evicted-cons r rs w w' f.added
            (All-map (λ ev line. inl (λ nil. absurd (ground arith), line)) f.added f.only)
            (λ _ x p q. f.covers x (omega arith) q) (subst (λ z. Evicted rs z w') f.same e),
      )
]
  where
    null_step : r.addr ≡ 0 → flush_regions word (r ∷ rs) w ≡ flush_regions word rs w
    null_step e = rw e (
        >>=_run (flush_range word 0 r.size) (λ _. flush_regions word rs)
          (flush_range_null word r.size w))

    live_step :
        (w₁ : World)
        → flush_range word r.addr r.size w ≡ some (tt, w₁)
        → flush_regions word (r ∷ rs) w ≡ flush_regions word rs w₁
    live_step w₁ e = >>=_run (flush_range word r.addr r.size) (λ _. flush_regions word rs) e

-- Where every region ends a line before the end of memory: in `warm` mode `apply` does nothing at all.
-- In `clflush` mode it flushes the line of every byte of every region that is not null and no other
-- line, issues one `mfence` behind the last flush, and does nothing else.
pub apply_modes :
    (word : ℕ) (regions : List Region) (s : Scrubber) (w : World)
    → All (Fits word) regions
    → (apply word warm regions s w ≡ some (s, w))
      × ((w' : World) × Evicted regions w w'
          × (apply word clflush regions s w ≡ some (s, record w' { log = mfence ∷ w'.log })))
unfolding apply
apply_modes word regions s w h =
    let (w', runs, e) = flush_regions-Evicted word regions w h in
    (refl, (w', e, >>=_run (flush_regions word regions) (λ _. emit (mfence ∷ []) >> pure s) runs))
