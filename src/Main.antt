-- ===== src/Main.antt =====
-- src/main.cpp: what `main_impl` runs, in the order of the report's rows.
pub mod Sound
pub mod Replayable
pub mod Total
pub mod Mapped
pub mod Program
pub mod Cold
pub mod Verdict
pub mod Keys
mod Blocks
pub mod Accounts
use Prim.Native.String.{String}
use boost_openmethod_benchma.Common.{ℕ, List, [], ◌∷◌, ◌++◌, concat, map, none, if◌then◌else◌}
use boost_openmethod_benchma.Library.{
  MainRegistry, vector_registry, map_registry, flat_registry, indirect_registry, InplaceRegistry,
  inplace_registry, inplace_indirect_registry,
}
use boost_openmethod_benchma.Timing.Flush.{CacheMode, warm, clflush, sweep}
use boost_openmethod_benchma.Platform.{Platform}
use boost_openmethod_benchma.Config.{Config}
use boost_openmethod_benchma.Variants.{Variant}
use boost_openmethod_benchma.Common.Double.{Double}
use boost_openmethod_benchma.Machine.{M, ◌>>=◌, pure, lift}
use boost_openmethod_benchma.Timing.Stats.{Stats}
use boost_openmethod_benchma.Timing.Calibrate.{Timespec, calibrate_tsc_hz, measure_tsc_floor}
use boost_openmethod_benchma.Cli.{Refusal, Parsed, settings, refused, undefined, parse}
use boost_openmethod_benchma.Env.{Env, new_env}
use boost_openmethod_benchma.Run.{Row, run}
use boost_openmethod_benchma.Run.Key.{Key, variant_key}
use boost_openmethod_benchma.Verify.{Mismatch, verify}
use boost_openmethod_benchma.Variants.Baseline.{
  v_probe, v_direct, v_touch1, v_vf1, v_touch2, v_vf2, v_vfu1, v_vfu2,
}
use boost_openmethod_benchma.Variants.Const.{v_om_ref1, v_om_vp1, v_om_ref2, v_om_vp2}
use boost_openmethod_benchma.Variants.Use.{v_om_refu1, v_om_vpu1, v_om_refu2, v_om_vpu2}
use boost_openmethod_benchma.Variants.Inplace.{
  v_ip_touch1, v_ip_touch2, v_ip_vf1, v_ip_vf2, v_ip_ref1, v_ip_ref2,
}
use boost_openmethod_benchma.Variants.InplaceUse.{v_ip_vfu1, v_ip_vfu2, v_ip_refu1, v_ip_refu2}

-- The strings `group_…` and `hier_…`.
abbrev pub group_vector : String
group_vector = "vptr_vector"

abbrev pub group_map : String
group_map = "vptr_map"

abbrev pub group_flat : String
group_flat = "flat_map"

abbrev pub group_indirect : String
group_indirect = "indirect"

abbrev pub group_inplace : String
group_inplace = "inplace"

abbrev pub group_inplace_ind : String
group_inplace_ind = "inplace_ind"

abbrev pub hier_inplace : String
hier_inplace = "inplace"

abbrev pub hier_inplace_ind : String
hier_inplace_ind = "inplace_ind"

-- `modes`
unfoldable pub modes : Config → List CacheMode
modes cfg =
    (if cfg.warm then warm ∷ [] else [])
    ++ ((if cfg.clflush then clflush ∷ [] else []) ++ (if cfg.sweep then sweep ∷ [] else []))

module _ (P : Platform) where
  -- `OMB_RUN`
  abbrev pub omb_run : MainRegistry → String → List (Variant P)
  omb_run R G = v_om_vp1 P R G ∷ v_om_ref1 P R G ∷ v_om_vp2 P R G ∷ v_om_ref2 P R G ∷ []

  -- `OMB_RUN_INPLACE`
  abbrev pub omb_run_inplace : InplaceRegistry → (group hier : String) → List (Variant P)
  omb_run_inplace R G H =
      v_ip_touch1 P R H
      ∷ v_ip_touch2 P R H
      ∷ v_ip_vf1 P R H
      ∷ v_ip_vf2 P R H
      ∷ v_ip_ref1 P R G H
      ∷ v_ip_ref2 P R G H
      ∷ []

  -- `OMB_RUN_USE`
  abbrev pub omb_run_use : MainRegistry → String → List (Variant P)
  omb_run_use R G = v_om_vpu1 P R G ∷ v_om_refu1 P R G ∷ v_om_vpu2 P R G ∷ v_om_refu2 P R G ∷ []

  -- The variants of one cache mode, in the groups of the source.
  abbrev pub blocks : List (List (Variant P))
  blocks =
      (v_probe P ∷ v_direct P ∷ v_touch1 P ∷ v_touch2 P ∷ v_vf1 P ∷ v_vf2 P ∷ [])
      ∷ omb_run vector_registry group_vector
      ∷ omb_run map_registry group_map
      ∷ omb_run flat_registry group_flat
      ∷ omb_run indirect_registry group_indirect
      ∷ omb_run_inplace inplace_registry group_inplace hier_inplace
      ∷ omb_run_inplace inplace_indirect_registry group_inplace_ind hier_inplace_ind
      ∷ (v_vfu1 P ∷ v_vfu2 P ∷ [])
      ∷ omb_run_use vector_registry group_vector
      ∷ omb_run_use map_registry group_map
      ∷ omb_run_use flat_registry group_flat
      ∷ omb_run_use indirect_registry group_indirect
      ∷ (v_ip_vfu1 P inplace_registry hier_inplace
          ∷ v_ip_vfu2 P inplace_registry hier_inplace
          ∷ v_ip_vfu1 P inplace_indirect_registry hier_inplace_ind
          ∷ v_ip_vfu2 P inplace_indirect_registry hier_inplace_ind
          ∷ v_ip_refu1 P inplace_registry group_inplace hier_inplace
          ∷ v_ip_refu2 P inplace_registry group_inplace hier_inplace
          ∷ v_ip_refu1 P inplace_indirect_registry group_inplace_ind hier_inplace_ind
          ∷ v_ip_refu2 P inplace_indirect_registry group_inplace_ind hier_inplace_ind
          ∷ [])
      ∷ []

  unfoldable pub variants : List (Variant P)
  variants = concat blocks

-- The keys of the rows that the program makes in some cache modes.
abbrev pub keys : Platform → List CacheMode → List Key
keys P [] = []
keys P (mode ∷ later) = map (variant_key mode) (variants P) ++ keys P later

-- How the program ends: with refused options, with mismatches, having verified, or with what it hands
-- to `report`.
pub data Outcome (F : Type 0) : Type 0 where
  bad_options : Refusal → Outcome F
  mismatched : List Mismatch → Outcome F
  verified : Outcome F
  reported : (tsc_hz : F) → (floor_st : Stats F) → (rows : List (Row F)) → Outcome F

-- What `main_impl` returns.
unfoldable pub exit_code : {F : Type 0} → Outcome F → ℕ
exit_code (bad_options why) = 2
exit_code (mismatched ms) = 1
exit_code verified = 0
exit_code (reported tsc_hz floor_st rows) = 0

module _ (P : Platform) {F : Type 0} ⦃d : Double F⦄ where
  -- The rows of one cache mode.
  unfoldable pub run_all : List (Variant P) → Env P → Config → CacheMode → M (List (Row F) × Env P)
  run_all [] e cfg mode = pure ([], e)
  run_all (v ∷ vs) e cfg mode = do
    first ← run v e cfg mode
    rest ← run_all vs first.1 cfg mode
    pure (first.0 ∷ rest.0, rest.1)

  -- The loop over the cache modes.
  unfoldable pub run_modes : List CacheMode → Env P → Config → M (List (Row F) × Env P)
  unfolding run_all
  run_modes [] e cfg = pure ([], e)
  run_modes (mode ∷ ms) e cfg = do
    here ← run_all (variants P) e cfg mode
    rest ← run_modes ms here.1 cfg
    pure (here.0 ++ rest.0, rest.1)

  -- The clock and the fuel are those of the calibration, which runs for 0.2 seconds.
  module _ (fuel : ℕ) (clock : ℕ → Timespec) where
    -- What follows the verification.
    unfoldable pub measure_all : Env P → Config → M (Outcome F)
    unfolding run_modes calibrate_tsc_hz measure_tsc_floor modes
    measure_all e cfg = do
      tsc_hz ← calibrate_tsc_hz fuel clock 200000000
      floor_st ← measure_tsc_floor P.word 20000
      done ← run_modes (modes cfg) e cfg
      pure (reported tsc_hz floor_st done.0)

    abbrev pub after_verify : Env P → Config → List Mismatch → M (Outcome F)
    after_verify e cfg (m ∷ ms) = pure (mismatched (m ∷ ms))
    after_verify e cfg [] = if cfg.verify_only then pure verified else measure_all e cfg

    unfoldable pub with_settings : Config → M (Outcome F)
    unfolding new_env verify measure_all
    with_settings cfg = do
      e ← lift (new_env P cfg)
      mismatches ← verify P e
      after_verify e cfg mismatches

    abbrev pub after_parse : Parsed → M (Outcome F)
    after_parse (refused why) = pure (bad_options why)
    after_parse (settings cfg) = with_settings cfg
    after_parse undefined = λ w. none

    -- `main_impl`, with the arguments behind the program's name. Whether the process could be pinned
    -- to its processor changes a warning only, and `initialize` changes the library alone.
    unfoldable pub main_impl : List String → M (Outcome F)
    unfolding parse with_settings
    main_impl args = after_parse (parse P.word args)
