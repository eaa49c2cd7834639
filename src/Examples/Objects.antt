-- ===== src/Examples/Objects.antt =====
-- Examples of dispatches on one object.
use boost_openmethod_benchma.Common.{refl, arith}
use boost_openmethod_benchma.Library.{map_registry, inplace_indirect_registry}
use boost_openmethod_benchma.Hierarchy.{vf, vfu}
use boost_openmethod_benchma.Hierarchy.Inplace.{new_iderived, ivf, ivfu}
use boost_openmethod_benchma.UseMethods.{pokeu_ref, pokeu_vp}
use boost_openmethod_benchma.Registries.{poke_ref, poke_vp}
use boost_openmethod_benchma.Registries.Inplace.{ipoke_ref, ipokeu_ref}
use boost_openmethod_benchma.Registries.Virtual.{IsSameCall, poke_virtual, ipoke_virtual}
use boost_openmethod_benchma.Probe.Ids.{VfProbes, OmProbes, IpProbes, probes-Stamp}
use boost_openmethod_benchma.Examples.Documented.{searching, searching-IsDocumented}
use boost_openmethod_benchma.Examples.Platform.{bench, first, second}

poke_virtual_example :
    IsSameCall (poke_ref searching 3 map_registry second) (vf second)
    × IsSameCall (poke_vp searching 3 map_registry second) (vf second)
    × IsSameCall (pokeu_ref searching 3 map_registry second) (vfu second)
    × IsSameCall (pokeu_vp searching 3 map_registry second) (vfu second)
poke_virtual_example =
    poke_virtual searching 3 searching-IsDocumented map_registry second
      (record { leaf_lt = omega arith; tagged = refl })

ipoke_virtual_example :
    IsSameCall
      (ipoke_ref searching 3 inplace_indirect_registry (new_iderived 1 8256))
      (ivf {R = inplace_indirect_registry} (new_iderived 1 8256))
    × IsSameCall
        (ipokeu_ref searching 3 inplace_indirect_registry (new_iderived 1 8256))
        (ivfu {R = inplace_indirect_registry} (new_iderived 1 8256))
ipoke_virtual_example =
    ipoke_virtual searching 3 searching-IsDocumented inplace_indirect_registry (new_iderived 1 8256)
      (record { leaf_lt = omega arith; tagged = refl })

probes-Stamp_example :
    VfProbes first second
    × OmProbes bench map_registry first second
    × IpProbes bench inplace_indirect_registry (new_iderived 0 8192) (new_iderived 1 8256)
probes-Stamp_example =
    probes-Stamp bench searching-IsDocumented map_registry inplace_indirect_registry first second
      (new_iderived 0 8192) (new_iderived 1 8256) (record { leaf_lt = omega arith; tagged = refl })
      (record { leaf_lt = omega arith; tagged = refl })
      (record { leaf_lt = omega arith; tagged = refl })
      (record { leaf_lt = omega arith; tagged = refl })
