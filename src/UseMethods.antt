-- ===== src/UseMethods.antt =====
-- src/use_methods.hpp: the use-body methods of the main registries. Their overriders read a member of
-- every receiver before they stamp.
use boost_openmethod_benchma.Common.{ℕ, List, [], ◌∷◌}
use boost_openmethod_benchma.Common.Int.{pos, neg, ◌+ℤ◌, ◌-ℤ◌}
use boost_openmethod_benchma.Machine.{M, ◌>>◌, emit, load}
use boost_openmethod_benchma.Library.{MainRegistry}
use boost_openmethod_benchma.Hierarchy.{Base}
use boost_openmethod_benchma.Timing.Tsc.{StampId}
use boost_openmethod_benchma.Timing.Stamp.{stamp}
use boost_openmethod_benchma.OpenMethod.{OpenMethod, Overrider}
use boost_openmethod_benchma.Registries.Overriders.{monadic, dyadic}
use boost_openmethod_benchma.Registries.{call_ref1, call_vp1, call_ref2, call_vp2}

module _ (lib : OpenMethod) (R : MainRegistry) where
  open lib use {VirtualPtr, get}

  abbrev pub pokeu_ref_impl : ℕ → Base → M StampId
  pokeu_ref_impl i self = emit (load self.addr ∷ []) >> stamp self.tag

  abbrev pub pokeu_vp_impl : ℕ → VirtualPtr R → M StampId
  pokeu_vp_impl i self = emit (load (get R self).addr ∷ []) >> stamp (get R self).tag

  abbrev pub collideu_ref_base : Base × Base → M StampId
  collideu_ref_base (a, b) =
      emit (load b.addr ∷ load a.addr ∷ []) >> stamp (neg a.tag -ℤ b.tag -ℤ pos 1)

  abbrev pub collideu_ref_impl : ℕ → Base × Base → M StampId
  collideu_ref_impl i (a, b) = emit (load b.addr ∷ load a.addr ∷ []) >> stamp (a.tag +ℤ b.tag)

  abbrev pub collideu_vp_base : VirtualPtr R × VirtualPtr R → M StampId
  collideu_vp_base (a, b) =
      emit (load (get R b).addr ∷ load (get R a).addr ∷ [])
      >> stamp (neg (get R a).tag -ℤ (get R b).tag -ℤ pos 1)

  abbrev pub collideu_vp_impl : ℕ → VirtualPtr R × VirtualPtr R → M StampId
  collideu_vp_impl i (a, b) =
      emit (load (get R b).addr ∷ load (get R a).addr ∷ [])
      >> stamp ((get R a).tag +ℤ (get R b).tag)

module _ (lib : OpenMethod) (num_classes : ℕ) (R : MainRegistry) where
  open lib use {VirtualPtr}

  abbrev pub pokeu_ref_registrar : List (Overrider Base)
  pokeu_ref_registrar = monadic (pokeu_ref_impl lib R) num_classes

  abbrev pub pokeu_vp_registrar : List (Overrider (VirtualPtr R))
  pokeu_vp_registrar = monadic (pokeu_vp_impl lib R) num_classes

  abbrev pub collideu_ref_registrar : List (Overrider (Base × Base))
  collideu_ref_registrar = dyadic (collideu_ref_base lib R) (collideu_ref_impl lib R) num_classes

  abbrev pub collideu_vp_registrar : List (Overrider (VirtualPtr R × VirtualPtr R))
  collideu_vp_registrar = dyadic (collideu_vp_base lib R) (collideu_vp_impl lib R) num_classes

  -- `pokeu_ref<R>::fn`
  unfoldable pub pokeu_ref : Base → M StampId
  pokeu_ref = call_ref1 lib num_classes R pokeu_ref_registrar

  -- `pokeu_vp<R>::fn`
  unfoldable pub pokeu_vp : VirtualPtr R → M StampId
  pokeu_vp = call_vp1 lib num_classes R pokeu_vp_registrar

  -- `collideu_ref<R>::fn`
  unfoldable pub collideu_ref : Base → Base → M StampId
  collideu_ref = call_ref2 lib num_classes R collideu_ref_registrar

  -- `collideu_vp<R>::fn`
  unfoldable pub collideu_vp : VirtualPtr R → VirtualPtr R → M StampId
  collideu_vp = call_vp2 lib num_classes R collideu_vp_registrar
