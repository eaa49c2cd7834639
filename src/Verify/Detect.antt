-- ===== src/Verify/Detect.antt =====
-- src/main.cpp, `verify`: the comparisons of one pair of objects overlook nothing.
use mathlib.Core.List.{cons-ne-nil}
use boost_openmethod_benchma.Common.{
  ℕ, ◌≡◌, refl, ◌∙◌, ◌↔◌, false, some, List, [], ◌∷◌, map, Bool-cases, inl, inr, if◌then◌else◌,
}
use boost_openmethod_benchma.Common.Int.{ℤ, ◌==ℤ◌, ==ℤ_iff}
use boost_openmethod_benchma.Machine.{Event, World, >>=_run}
use boost_openmethod_benchma.Timing.Stamp.{Stamps}
use boost_openmethod_benchma.Verify.Checks.{Check}
use boost_openmethod_benchma.Verify.{Mismatch, run_checks}

-- The calls of the checks return these ids, in order.
abbrev pub Return : List Check → List ℤ → Type 0
Return [] [] = Unit
Return [] (id ∷ ids) = ⊥
Return (c ∷ cs) [] = ⊥
Return (c ∷ cs) (id ∷ ids) = ((es : List Event) × Stamps c.call id es) × Return cs ids

abbrev pub wants : List Check → List ℤ
wants cs = map (λ (c : Check). c.want) cs

-- one comparison, from what the rest reports
compared :
    (c : Check) (cs : List Check) (id : ℤ) (ids : List ℤ) (m : Mismatch) (ms : List Mismatch)
    → (ms ≡ []) ↔ (ids ≡ wants cs)
    → ((if id ==ℤ c.want then ms else m ∷ ms) ≡ []) ↔ ((id ∷ ids) ≡ wants (c ∷ cs))
compared c cs id ids m ms h = elim (Bool-cases (id ==ℤ c.want)) [
  | inl same ↦
      let e : id ≡ c.want = (==ℤ_iff id c.want).0 same in
      rw same ((λ none_left. rw (e, h.0 none_left)), (λ all_equal. h.1 (tail_equal all_equal)))
  | inr other ↦
      rw other
        ((λ none_left. absurd (cons-ne-nil m ms none_left)), (λ all_equal. refuse other all_equal))
]
  where
    tail_equal : (id ∷ ids) ≡ wants (c ∷ cs) → ids ≡ wants cs
    tail_equal all_equal = cc

    refuse : (id ==ℤ c.want) ≡ false → (id ∷ ids) ≡ wants (c ∷ cs) → (m ∷ ms) ≡ []
    refuse other all_equal = let e : id ≡ c.want = cc in let same = (==ℤ_iff id c.want).1 e in cc

-- If the calls of the checks return some ids, the comparison ends, and it reports nothing just if these
-- are the wanted ids: a call that reaches a wrong overrider with another id is reported.
pub run_checks_detects :
    (i j : ℕ) (cs : List Check) (ids : List ℤ) (w : World)
    → Return cs ids
    → (ms : List Mismatch) × (w' : World) × (run_checks i j cs w ≡ some (ms, w'))
      × ((ms ≡ []) ↔ (ids ≡ map (λ (c : Check). c.want) cs))
unfolding run_checks
run_checks_detects i j [] [] w h = ([], w, refl, (λ _. refl, λ _. refl))
run_checks_detects i j (c ∷ cs) (id ∷ ids) w ((es, s), h) =
    let (ms, w', runs, iff) = run_checks_detects i j cs ids _ h in
    (
      _,
      w',
      >>=_run c.call _ {w = w} (s w) ∙ >>=_run (run_checks i j cs) _ runs,
      compared c cs id ids (record { what = c.what; i = i; j = j; got = id; want = c.want }) ms iff,
    )
run_checks_detects i j [] (id ∷ ids) w h = absurd h
run_checks_detects i j (c ∷ cs) [] w h = absurd h
