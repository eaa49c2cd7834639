-- ===== src/Run/Paired.antt =====
-- src/main.cpp: every variant replays the identical sequence of receivers.
use boost_openmethod_benchma.Common.{
  ℕ, zero, suc, ◌≡◌, refl, ap, ◌∙◌, some, none, List, [], ◌∷◌, Option,
}
use boost_openmethod_benchma.Machine.{World, M, ◌>>=◌, pure, lift}
use boost_openmethod_benchma.Timing.Flush.{CacheMode}
use boost_openmethod_benchma.Timing.Scrub.{Scrubber}
use boost_openmethod_benchma.Platform.{Platform}
use boost_openmethod_benchma.Env.{Env, draw}
use boost_openmethod_benchma.Variants.{Variant}
use boost_openmethod_benchma.Run.{measure, measure_at, repeat_once, repeat}

-- The positions that `count` repetitions draw from a generator, and the generator afterwards.
abbrev pub draws :
    (P : Platform) → (pick_max count : ℕ) → P.random.Rng → List (ℕ × ℕ) × P.random.Rng
draws P pick_max zero g = ([], g)
draws P pick_max (suc count) g =
    let first = P.random.pick 0 pick_max g in
    let second = P.random.pick 0 pick_max first.1 in
    let rest = draws P pick_max count second.1 in ((first.0, second.0) ∷ rest.0, rest.1)

module _ {P : Platform} (v : Variant P) (mode : CacheMode) where
  -- Measuring at given positions in an environment, with a scrubber of its own and no random numbers.
  pub replay : Env P → List (ℕ × ℕ) → Scrubber → M (List ℕ × Scrubber)
  replay e [] s = pure ([], s)
  replay e ((i, j) ∷ positions) s = do
    a ← lift (v.prepare e i j)
    once ← measure v mode a s
    rest ← replay e positions once.1
    pure (once.0 ∷ rest.0, rest.1)

  -- the result of a replay, in the environment with a generator
  abbrev pub in_env : Env P → P.random.Rng → List ℕ × Scrubber → M (List ℕ × Env P)
  in_env e g r = pure (r.0, record e { scrub = r.1; rng = g })

  -- what the loops do with a measurement
  abbrev kept : Env P → P.random.Rng → ℕ × Scrubber → M (ℕ × Env P)
  kept e g m = pure (m.0, record e { scrub = m.1; rng = g })

  abbrev then_repeat : ℕ → ℕ × Env P → M (List ℕ × Env P)
  then_repeat count once = do rest ← repeat v mode count once.1; pure (once.0 ∷ rest.0, rest.1)

  abbrev then_replay : Env P → List (ℕ × ℕ) → ℕ × Scrubber → M (List ℕ × Scrubber)
  then_replay e positions once = do rest ← replay e positions once.1; pure (once.0 ∷ rest.0, rest.1)

  module _ (e : Env P) (g g' : P.random.Rng) (count : ℕ) (positions : List (ℕ × ℕ))
      (later : (s : Scrubber) (w : World)
        → repeat v mode count (record e { scrub = s; rng = g }) w
          ≡ (replay e positions s >>= in_env e g') w) where
    -- the rest of the loop, from what it returns
    rest_lem :
        (x : ℕ) (q : Option ((List ℕ × Scrubber) × World)) (w : World)
        → (((λ _. q) >>= in_env e g') >>= λ rest. pure (x ∷ rest.0, rest.1)) w
          ≡ (((λ _. q) >>= λ rest. pure (x ∷ rest.0, rest.1)) >>= in_env e g') w
    rest_lem x none w = refl
    rest_lem x (some (r, w')) w = refl

    -- one repetition, from what the measurement returns
    measured_lem :
        (q : Option ((ℕ × Scrubber) × World)) (w : World)
        → (((λ _. q) >>= kept e g) >>= then_repeat count) w
          ≡ (((λ _. q) >>= then_replay e positions) >>= in_env e g') w
    measured_lem none w = refl
    measured_lem (some (m, w')) w =
        ap (λ z. ((λ _. z) >>= λ rest. pure (m.0 ∷ rest.0, rest.1)) w') (later m.1 w')
        ∙ rest_lem m.0 (replay e positions m.1 w') w'

    -- one repetition, from the arguments that are prepared
    prepared_lem :
        (o : Option v.Args) (s : Scrubber) (w : World)
        → ((lift o >>= λ a. measure v mode a s >>= kept e g) >>= then_repeat count) w
          ≡ ((lift o >>= λ a. measure v mode a s >>= then_replay e positions) >>= in_env e g') w
    prepared_lem none s w = refl
    prepared_lem (some a) s w = measured_lem (measure v mode a s w) w

  -- If neither the random numbers nor the scrubber matter to a variant's arguments, the repetitions
  -- from any state of the generator and the scrubber measure at the positions that are drawn from the
  -- generator, which do not depend on the variant or the cache mode.
  pub repeat_replays :
      (e : Env P)
      → ((g : P.random.Rng) (s : Scrubber) (i j : ℕ)
          → v.prepare (record e { scrub = s; rng = g }) i j ≡ v.prepare e i j)
      → (count : ℕ) (s : Scrubber) (g : P.random.Rng) (w : World)
      → repeat v mode count (record e { scrub = s; rng = g }) w
        ≡ (replay e (draws P e.pick_max count g).0 s >>= in_env e (draws P e.pick_max count g).1) w
  unfolding repeat repeat_once measure_at draw replay
  repeat_replays e h zero s g w = refl
  repeat_replays e h (suc count) s g w =
      let first = P.random.pick 0 e.pick_max g in
      let second = P.random.pick 0 e.pick_max first.1 in
      let rest = draws P e.pick_max count second.1 in
      prepared_lem e second.1 rest.1 count rest.0 (λ t w'. repeat_replays e h count t second.1 w')
        (v.prepare (record e { scrub = s; rng = second.1 }) first.0 second.0) s w
      ∙ ap
          (λ o.
            ((lift o >>= λ a. measure v mode a s >>= then_replay e rest.0) >>= in_env e rest.1) w)
          (h second.1 s first.0 second.0)
