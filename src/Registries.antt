-- ===== src/Registries.antt =====
-- src/registries.hpp: the const-body methods of the main registries, their overriders, and the calls.
-- A call by reference takes the objects; a call by `virtual_ptr` takes virtual pointers.
pub mod Overriders
pub mod Inplace
pub mod Dispatch
pub mod Regions
pub mod Outcomes
pub mod Calls
pub mod InplaceCalls
pub mod Virtual
pub mod Registrations
use boost_openmethod_benchma.Common.{ℕ, List, [], ◌∷◌, map, Bool, true, false}
use boost_openmethod_benchma.Common.Int.{pos, negsuc}
use boost_openmethod_benchma.Machine.{M, ◌>>=◌, ◌>>◌, emit}
use boost_openmethod_benchma.Library.{
  Class, base, derived, MainRegistry, vector_registry, map_registry, flat_registry,
  indirect_registry, InplaceRegistry, inplace_registry, inplace_indirect_registry,
}
use boost_openmethod_benchma.Hierarchy.{Base}
use boost_openmethod_benchma.Hierarchy.Indices.{indices_from}
use boost_openmethod_benchma.Timing.Tsc.{StampId}
use boost_openmethod_benchma.Timing.Stamp.{stamp}
use boost_openmethod_benchma.Registries.Overriders.{monadic, dyadic}
use boost_openmethod_benchma.OpenMethod.{OpenMethod, Overrider, class_of, call_best}

-- Whether a registry has the `indirect_vptr` policy.
abbrev pub has_indirect_vptr : MainRegistry → Bool
has_indirect_vptr indirect_registry = true
has_indirect_vptr _ = false

abbrev pub ihas_indirect_vptr : InplaceRegistry → Bool
ihas_indirect_vptr inplace_registry = false
ihas_indirect_vptr inplace_indirect_registry = true

-- `derived_list`
abbrev pub derived_list : ℕ → List Class
derived_list num_classes = map derived (indices_from 0 num_classes)

-- `class_list`: the classes that `use_classes` registers, and the registry
abbrev pub class_list : ℕ → MainRegistry → List Class × MainRegistry
class_list num_classes R = (base ∷ derived_list num_classes, R)

module _ (lib : OpenMethod) (R : MainRegistry) where
  open lib use {VirtualPtr}

  abbrev pub poke_ref_impl : ℕ → Base → M StampId
  poke_ref_impl i self = stamp (pos i)

  abbrev pub poke_vp_impl : ℕ → VirtualPtr R → M StampId
  poke_vp_impl i self = stamp (pos i)

  abbrev pub collide_ref_base : Base × Base → M StampId
  collide_ref_base args = stamp (negsuc 0)

  abbrev pub collide_ref_impl : ℕ → Base × Base → M StampId
  collide_ref_impl i args = stamp (pos i)

  abbrev pub collide_vp_base : VirtualPtr R × VirtualPtr R → M StampId
  collide_vp_base args = stamp (negsuc 0)

  abbrev pub collide_vp_impl : ℕ → VirtualPtr R × VirtualPtr R → M StampId
  collide_vp_impl i args = stamp (pos i)

module _ (lib : OpenMethod) (num_classes : ℕ) (R : MainRegistry) where
  open lib use {VirtualPtr, get, ref_reads, vp_reads}

  abbrev pub poke_ref_registrar : List (Overrider Base)
  poke_ref_registrar = monadic (poke_ref_impl lib R) num_classes

  abbrev pub poke_vp_registrar : List (Overrider (VirtualPtr R))
  poke_vp_registrar = monadic (poke_vp_impl lib R) num_classes

  abbrev pub collide_ref_registrar : List (Overrider (Base × Base))
  collide_ref_registrar = dyadic (collide_ref_base lib R) (collide_ref_impl lib R) num_classes

  abbrev pub collide_vp_registrar : List (Overrider (VirtualPtr R × VirtualPtr R))
  collide_vp_registrar = dyadic (collide_vp_base lib R) (collide_vp_impl lib R) num_classes

  -- a method on one reference, with its overriders
  abbrev pub call_ref1 : List (Overrider Base) → Base → M StampId
  call_ref1 overriders a =
      emit (ref_reads R (a ∷ [])) >> call_best lib overriders (class_of a ∷ []) a

  abbrev pub call_vp1 : List (Overrider (VirtualPtr R)) → VirtualPtr R → M StampId
  call_vp1 overriders a =
      emit (vp_reads R (a ∷ [])) >> call_best lib overriders (class_of (get R a) ∷ []) a

  abbrev pub call_ref2 : List (Overrider (Base × Base)) → Base → Base → M StampId
  call_ref2 overriders a b =
      emit (ref_reads R (a ∷ b ∷ []))
      >> call_best lib overriders (class_of a ∷ class_of b ∷ []) (a, b)

  abbrev pub call_vp2 :
      List (Overrider (VirtualPtr R × VirtualPtr R)) → VirtualPtr R → VirtualPtr R → M StampId
  call_vp2 overriders a b =
      emit (vp_reads R (a ∷ b ∷ []))
      >> call_best lib overriders (class_of (get R a) ∷ class_of (get R b) ∷ []) (a, b)

  -- `poke_ref<R>::fn`
  unfoldable pub poke_ref : Base → M StampId
  poke_ref = call_ref1 poke_ref_registrar

  -- `poke_vp<R>::fn`
  unfoldable pub poke_vp : VirtualPtr R → M StampId
  poke_vp = call_vp1 poke_vp_registrar

  -- `collide_ref<R>::fn`
  unfoldable pub collide_ref : Base → Base → M StampId
  collide_ref = call_ref2 collide_ref_registrar

  -- `collide_vp<R>::fn`
  unfoldable pub collide_vp : VirtualPtr R → VirtualPtr R → M StampId
  collide_vp = call_vp2 collide_vp_registrar
