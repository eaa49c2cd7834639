-- ===== src/Main/Blocks.antt =====
-- src/main.cpp: what holds of every variant, from what holds of the variants of OMB_RUN,
-- OMB_RUN_INPLACE and OMB_RUN_USE and of those that stand alone.
use Prim.Native.String.{String}
use boost_openmethod_benchma.Common.{List, [], ◌∷◌, All, All-concat}
use boost_openmethod_benchma.Library.{
  MainRegistry, vector_registry, map_registry, flat_registry, indirect_registry, InplaceRegistry,
  inplace_registry, inplace_indirect_registry,
}
use boost_openmethod_benchma.Platform.{Platform}
use boost_openmethod_benchma.Variants.{Variant}
use boost_openmethod_benchma.Variants.Baseline.{
  v_probe, v_direct, v_touch1, v_vf1, v_touch2, v_vf2, v_vfu1, v_vfu2,
}
use boost_openmethod_benchma.Variants.InplaceUse.{v_ip_vfu1, v_ip_vfu2, v_ip_refu1, v_ip_refu2}
use boost_openmethod_benchma.Main.{
  group_vector, group_map, group_flat, group_indirect, group_inplace, group_inplace_ind,
  hier_inplace, hier_inplace_ind, omb_run, omb_run_inplace, omb_run_use, blocks, variants,
}

-- the names under which the rows of an inplace registry stand
abbrev pub group_of : InplaceRegistry → String
group_of inplace_registry = group_inplace
group_of inplace_indirect_registry = group_inplace_ind

abbrev pub hier_of : InplaceRegistry → String
hier_of inplace_registry = hier_inplace
hier_of inplace_indirect_registry = hier_inplace_ind

module _ (P : Platform) where
  -- The variants without a registry, and those of an inplace registry with use bodies.
  abbrev pub baselines : List (Variant P)
  baselines = v_probe P ∷ v_direct P ∷ v_touch1 P ∷ v_touch2 P ∷ v_vf1 P ∷ v_vf2 P ∷ []

  abbrev pub use_yardsticks : List (Variant P)
  use_yardsticks = v_vfu1 P ∷ v_vfu2 P ∷ []

  abbrev pub inplace_use : InplaceRegistry → List (Variant P)
  inplace_use R =
      v_ip_vfu1 P R (hier_of R)
      ∷ v_ip_vfu2 P R (hier_of R)
      ∷ v_ip_refu1 P R (group_of R) (hier_of R)
      ∷ v_ip_refu2 P R (group_of R) (hier_of R)
      ∷ []

  module _ (Q : Variant P → Type 0) (first : All Q baselines)
      (run : (R : MainRegistry) (G : String) → All Q (omb_run P R G))
      (run_inplace : (R : InplaceRegistry) → All Q (omb_run_inplace P R (group_of R) (hier_of R)))
      (yardsticks : All Q use_yardsticks)
      (run_use : (R : MainRegistry) (G : String) → All Q (omb_run_use P R G))
      (run_inplace_use : (R : InplaceRegistry) → All Q (inplace_use R)) where
    last_block :
        (d : All Q (inplace_use inplace_registry))
        (i : All Q (inplace_use inplace_indirect_registry))
        → All Q (
            v_ip_vfu1 P inplace_registry hier_inplace
            ∷ v_ip_vfu2 P inplace_registry hier_inplace
            ∷ v_ip_vfu1 P inplace_indirect_registry hier_inplace_ind
            ∷ v_ip_vfu2 P inplace_indirect_registry hier_inplace_ind
            ∷ v_ip_refu1 P inplace_registry group_inplace hier_inplace
            ∷ v_ip_refu2 P inplace_registry group_inplace hier_inplace
            ∷ v_ip_refu1 P inplace_indirect_registry group_inplace_ind hier_inplace_ind
            ∷ v_ip_refu2 P inplace_indirect_registry group_inplace_ind hier_inplace_ind
            ∷ [])
    last_block (a, (b, (c, (d, _)))) (e, (f, (g, (h, _)))) =
        (a, (b, (e, (f, (c, (d, (g, (h, tt))))))))

    -- A property of the variants holds of all that the program runs.
    pub All-variants : All Q (variants P)
    unfolding variants
    All-variants = All-concat Q (blocks P) (
      first,
      (
        run vector_registry group_vector,
        (
          run map_registry group_map,
          (
            run flat_registry group_flat,
            (
              run indirect_registry group_indirect,
              (
                run_inplace inplace_registry,
                (
                  run_inplace inplace_indirect_registry,
                  (
                    yardsticks,
                    (
                      run_use vector_registry group_vector,
                      (
                        run_use map_registry group_map,
                        (
                          run_use flat_registry group_flat,
                          (
                            run_use indirect_registry group_indirect,
                            (
                              last_block (run_inplace_use inplace_registry)
                                  (run_inplace_use inplace_indirect_registry),
                              tt,
                            ),
                          ),
                        ),
                      ),
                    ),
                  ),
                ),
              ),
            ),
          ),
        ),
      ),
    )
