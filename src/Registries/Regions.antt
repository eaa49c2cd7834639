-- ===== src/Registries/Regions.antt =====
-- src/registries.hpp: the memory that a dispatch reads, by registry. `out.push_back` appends.
use boost_openmethod_benchma.Common.{ℕ, List, [], ◌∷◌, ◌++◌, map, if◌then◌else◌}
use boost_openmethod_benchma.Library.{
  base, derived, MainRegistry, map_registry, flat_registry, vector_registry, indirect_registry,
  InplaceRegistry,
}
use boost_openmethod_benchma.Hierarchy.Indices.{indices_from}
use boost_openmethod_benchma.Timing.Flush.{Region}
use boost_openmethod_benchma.Platform.{Memory, array_region}
use boost_openmethod_benchma.Registries.{has_indirect_vptr, ihas_indirect_vptr}

module _ (memory : Memory) (num_classes : ℕ) where
  open memory use {
    sizeof_vptr, static_vptr, istatic_vptr, dispatch_data, idispatch_data, map_vptrs, flat_vptrs,
    vector_vptrs, hash,
  }

  -- `static_vptr_regions`
  unfoldable pub static_vptr_regions : MainRegistry → List Region
  static_vptr_regions R =
      record { addr = static_vptr R base; size = sizeof_vptr }
      ∷ map (λ i. record { addr = static_vptr R (derived i); size = sizeof_vptr })
          (indices_from 0 num_classes)

  -- `istatic_vptr_regions`
  unfoldable pub istatic_vptr_regions : InplaceRegistry → List Region
  istatic_vptr_regions R =
      record { addr = istatic_vptr R base; size = sizeof_vptr }
      ∷ map (λ i. record { addr = istatic_vptr R (derived i); size = sizeof_vptr })
          (indices_from 0 num_classes)

  -- `inplace_registry_regions`
  unfoldable pub inplace_registry_regions : InplaceRegistry → List Region
  unfolding istatic_vptr_regions
  inplace_registry_regions R =
      array_region (idispatch_data R)
      ∷ (if ihas_indirect_vptr R then istatic_vptr_regions R else [])

  -- the regions of the container in which the registry finds v-table pointers
  unfoldable pub vptr_regions : MainRegistry → List Region
  vptr_regions map_registry = map_vptrs ∷ []
  vptr_regions flat_registry = flat_vptrs ∷ []
  vptr_regions vector_registry =
      array_region (vector_vptrs vector_registry) ∷ hash vector_registry ∷ []
  vptr_regions indirect_registry =
      array_region (vector_vptrs indirect_registry) ∷ hash indirect_registry ∷ []

  -- `registry_regions`
  unfoldable pub registry_regions : MainRegistry → List Region
  unfolding vptr_regions static_vptr_regions
  registry_regions R =
      array_region (dispatch_data R)
      ∷ (vptr_regions R ++ (if has_indirect_vptr R then static_vptr_regions R else []))
