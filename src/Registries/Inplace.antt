-- ===== src/Registries/Inplace.antt =====
-- src/registries.hpp and src/use_methods.hpp: the methods on the inplace hierarchies, by reference
-- only.
use boost_openmethod_benchma.Common.{ℕ, List, [], ◌∷◌}
use boost_openmethod_benchma.Common.Int.{pos, negsuc, neg, ◌+ℤ◌, ◌-ℤ◌}
use boost_openmethod_benchma.Machine.{M, ◌>>◌, emit, load}
use boost_openmethod_benchma.Library.{InplaceRegistry}
use boost_openmethod_benchma.Hierarchy.Inplace.{IBase}
use boost_openmethod_benchma.Timing.Tsc.{StampId}
use boost_openmethod_benchma.Timing.Stamp.{stamp}
use boost_openmethod_benchma.OpenMethod.{OpenMethod, Overrider, iclass_of, call_best}
use boost_openmethod_benchma.Registries.Overriders.{monadic, dyadic}

module _ (R : InplaceRegistry) where
  abbrev pub ipoke_ref_impl : ℕ → IBase R → M StampId
  ipoke_ref_impl i self = stamp (pos i)

  abbrev pub icollide_ref_base : IBase R × IBase R → M StampId
  icollide_ref_base args = stamp (negsuc 0)

  abbrev pub icollide_ref_impl : ℕ → IBase R × IBase R → M StampId
  icollide_ref_impl i args = stamp (pos i)

  abbrev pub ipokeu_ref_impl : ℕ → IBase R → M StampId
  ipokeu_ref_impl i self = emit (load self.addr ∷ []) >> stamp self.tag

  abbrev pub icollideu_ref_base : IBase R × IBase R → M StampId
  icollideu_ref_base (a, b) =
      emit (load b.addr ∷ load a.addr ∷ []) >> stamp (neg a.tag -ℤ b.tag -ℤ pos 1)

  abbrev pub icollideu_ref_impl : ℕ → IBase R × IBase R → M StampId
  icollideu_ref_impl i (a, b) = emit (load b.addr ∷ load a.addr ∷ []) >> stamp (a.tag +ℤ b.tag)

module _ (lib : OpenMethod) (num_classes : ℕ) (R : InplaceRegistry) where
  open lib use {iref_reads}

  abbrev pub ipoke_ref_registrar : List (Overrider (IBase R))
  ipoke_ref_registrar = monadic (ipoke_ref_impl R) num_classes

  abbrev pub icollide_ref_registrar : List (Overrider (IBase R × IBase R))
  icollide_ref_registrar = dyadic (icollide_ref_base R) (icollide_ref_impl R) num_classes

  abbrev pub ipokeu_ref_registrar : List (Overrider (IBase R))
  ipokeu_ref_registrar = monadic (ipokeu_ref_impl R) num_classes

  abbrev pub icollideu_ref_registrar : List (Overrider (IBase R × IBase R))
  icollideu_ref_registrar = dyadic (icollideu_ref_base R) (icollideu_ref_impl R) num_classes

  -- a method on one inplace reference, with its overriders
  abbrev pub icall_ref1 : List (Overrider (IBase R)) → IBase R → M StampId
  icall_ref1 overriders a =
      emit (iref_reads R (a ∷ [])) >> call_best lib overriders (iclass_of a ∷ []) a

  abbrev pub icall_ref2 : List (Overrider (IBase R × IBase R)) → IBase R → IBase R → M StampId
  icall_ref2 overriders a b =
      emit (iref_reads R (a ∷ b ∷ []))
      >> call_best lib overriders (iclass_of a ∷ iclass_of b ∷ []) (a, b)

  -- `ipoke_ref<R>::fn`
  unfoldable pub ipoke_ref : IBase R → M StampId
  ipoke_ref = icall_ref1 ipoke_ref_registrar

  -- `icollide_ref<R>::fn`
  unfoldable pub icollide_ref : IBase R → IBase R → M StampId
  icollide_ref = icall_ref2 icollide_ref_registrar

  -- `ipokeu_ref<R>::fn`
  unfoldable pub ipokeu_ref : IBase R → M StampId
  ipokeu_ref = icall_ref1 ipokeu_ref_registrar

  -- `icollideu_ref<R>::fn`
  unfoldable pub icollideu_ref : IBase R → IBase R → M StampId
  icollideu_ref = icall_ref2 icollideu_ref_registrar
