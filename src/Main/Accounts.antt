-- ===== src/Main/Accounts.antt =====
-- src/main.cpp: what precedes each way in which `main_impl` ends.
use Prim.Native.String.{String}
use boost_openmethod_benchma.Common.{
  ℕ, ◌≡◌, refl, sym, ap, subst, inl, inr, Bool, true, false, some, List, [], ◌∷◌, Bool-cases,
  if◌then◌else◌,
}
use mathlib.Core.Option.{some-injective, none-ne-some}
use mathlib.Core.List.{cons-ne-nil}
use boost_openmethod_benchma.Common.Double.{Double}
use boost_openmethod_benchma.Machine.{World, M, pure, lift, >>=_inv, lift_inv}
use boost_openmethod_benchma.Timing.Stats.{Stats}
use boost_openmethod_benchma.Timing.Calibrate.{Timespec, calibrate_tsc_hz, measure_tsc_floor}
use boost_openmethod_benchma.Platform.{Platform}
use boost_openmethod_benchma.Config.{Config}
use boost_openmethod_benchma.Cli.{Parsed, settings, refused, undefined, parse}
use boost_openmethod_benchma.Env.{Env, new_env}
use boost_openmethod_benchma.Run.{Row}
use boost_openmethod_benchma.Verify.{Mismatch, verify}
use boost_openmethod_benchma.Main.{
  Outcome, verified, reported, bad_options, mismatched, modes, run_modes, measure_all, after_verify,
  with_settings, after_parse, main_impl,
}

-- The options were accepted, and the verification in their environment ended with these mismatches.
pub record VerifiedAs (P : Platform) (p : Parsed) (w : World) (ms : List Mismatch) (v : World)
    : Type 0 where
  pub cfg : Config
  pub e : Env P
  pub accepted : p ≡ settings cfg
  pub made : new_env P cfg ≡ some e
  pub runs : verify P e w ≡ some (ms, v)

module _ (P : Platform) {F : Type 0} ⦃d : Double F⦄ (fuel : ℕ) (clock : ℕ → Timespec) where
  abbrev pub Accounts : Parsed → World → Outcome F → World → Type 0
  Accounts p w (bad_options why) w' = (p ≡ refused why) × (w' ≡ w)
  Accounts p w (mismatched ms) w' = VerifiedAs P p w ms w' × ¬ (ms ≡ [])
  Accounts p w verified w' = (a : VerifiedAs P p w [] w') × (a.cfg.verify_only ≡ true)
  Accounts p w (reported hz st rows) w' =
      (v : World) × (a : VerifiedAs P p w [] v) × (a.cfg.verify_only ≡ false)
      × (measure_all P fuel clock a.e a.cfg v ≡ some (reported hz st rows, w'))

  -- Measuring ends with a report.
  measure_all-reported :
      (e : Env P) (cfg : Config) (v : World) {w' : World} {out : Outcome F}
      → measure_all P fuel clock e cfg v ≡ some (out, w')
      → (hz : F) × (st : Stats F) × (rows : List (Row F)) × (out ≡ reported hz st rows)
  unfolding measure_all
  measure_all-reported e cfg v h =
      let (hz, v1, _, h1) = >>=_inv (calibrate_tsc_hz fuel clock 200000000) _ v h in
      let (st, v2, _, h2) = >>=_inv (measure_tsc_floor P.word 20000) _ v1 h1 in
      let (done, v3, _, h3) = >>=_inv (run_modes P (modes cfg) e cfg) _ v2 h2 in
      (hz, st, done.0, ap (λ q. q.0) (sym (some-injective _ _ h3)))

  module _ (p : Parsed) (w : World) where
    after_verify-Accounts :
        (ms : List Mismatch) (v : World) (a : VerifiedAs P p w ms v) {w' : World} {out : Outcome F}
        → after_verify P fuel clock a.e a.cfg ms v ≡ some (out, w')
        → Accounts p w out w'
    after_verify-Accounts (m ∷ ms) v a h =
        subst (λ q. Accounts p w q.0 q.1) (some-injective _ _ h) (a, cons-ne-nil m ms)
    after_verify-Accounts [] v a {w'} {out} h =
        let run : Bool → M (Outcome F) =
          λ b. if b then pure verified else measure_all P fuel clock a.e a.cfg in
        elim (Bool-cases a.cfg.verify_only) [
          | inl only ↦
              let ended = subst (λ b. run b v ≡ some (out, w')) only h in
              subst (λ q. Accounts p w q.0 q.1) (some-injective _ _ ended) (a, only)
          | inr measuring ↦
              let ended = subst (λ b. run b v ≡ some (out, w')) measuring h in
              let (hz, st, rows, e) = measure_all-reported a.e a.cfg v ended in
              subst (λ o. Accounts p w o w') (sym e)
                (
                  v,
                  a,
                  measuring,
                  subst (λ o. measure_all P fuel clock a.e a.cfg v ≡ some (o, w')) e ended,
                )
        ]

    after_parse-Accounts :
        (q : Parsed) {w' : World} {out : Outcome F}
        → p ≡ q
        → after_parse P fuel clock q w ≡ some (out, w')
        → Accounts p w out w'
    unfolding with_settings
    after_parse-Accounts undefined same h = absurd (none-ne-some _ h)
    after_parse-Accounts (refused why) same h =
        subst (λ q. Accounts p w q.0 q.1) (some-injective _ _ h) (same, refl)
    after_parse-Accounts (settings cfg) {w'} {out} same h =
        let (e, v, lifted, h1) = >>=_inv (lift (new_env P cfg)) _ w h in
        let (made, still) = lift_inv (new_env P cfg) w lifted in
        let (ms, v2, runs, h2) = >>=_inv (verify P e) _ v h1 in
        let runs_here = subst (λ u. verify P e u ≡ some (ms, v2)) still runs in
        after_verify-Accounts ms v2
          (record { cfg = cfg; e = e; accepted = same; made = made; runs = runs_here }) h2

  -- However the program ends, it tells why: with refused options only if `parse` refuses for that
  -- reason, and then the machine is as it was; with mismatches only if these are what the verification
  -- found, and nothing ran behind it; having verified only if the verification found none, that was
  -- all that was asked for, and nothing ran behind it; and with a table only if the verification found
  -- none, more was asked for, and the table is what the measurement makes in the state in which the
  -- verification ended.
  pub main-Accounts :
      (args : List String) (w : World) {w' : World} {out : Outcome F}
      → main_impl P fuel clock args w ≡ some (out, w')
      → Accounts (parse P.word args) w out w'
  unfolding main_impl
  main-Accounts args w h = after_parse-Accounts (parse P.word args) w (parse P.word args) refl h
