-- ===== src/Registries/Registrations.antt =====
-- src/registries.hpp and src/use_methods.hpp: what OMB_REGISTER, OMB_REGISTER_USE and their inplace
-- forms register with a registry, as the lists of their registrars. `initialize` builds the dispatch
-- tables from these lists.
pub mod Typed
use boost_openmethod_benchma.Common.{
  ℕ, zero, suc, ◌<◌, ◌≡◌, refl, sym, ap, subst, arith, inl, inr, some, List, [], ◌∷◌, ◌++◌, map,
  concat, length, get_elem?, All, All-map, All-map_of, All-concat, ◌==◌, Bool-cases, ==_iff,
}
use mathlib.Core.List.{map-map}
use boost_openmethod_benchma.Machine.{M}
use boost_openmethod_benchma.Library.{Class, base, derived, IsBest, MainRegistry, InplaceRegistry}
use boost_openmethod_benchma.Hierarchy.Indices.{indices_from, get_all, All-indices}
use boost_openmethod_benchma.Timing.Tsc.{StampId}
use boost_openmethod_benchma.Hierarchy.Inplace.{IBase, ifactories}
use boost_openmethod_benchma.OpenMethod.{OpenMethod, Overrider, iclass_of}
use boost_openmethod_benchma.Platform.{
  MainMethod, poke_ref, poke_vp, collide_ref, collide_vp, pokeu_ref, pokeu_vp, collideu_ref,
  collideu_vp, InplaceMethod, ipoke_ref, icollide_ref, ipokeu_ref, icollideu_ref,
}
use boost_openmethod_benchma.Registries.Overriders.{monadic, dyadic}
use boost_openmethod_benchma.Registries.Inplace.{
  ipoke_ref_registrar, icollide_ref_registrar, ipokeu_ref_registrar, icollideu_ref_registrar,
}
use boost_openmethod_benchma.Registries.Dispatch.{
  one, two, pairs, IsBest-one, IsBest-diagonal, IsBest-catch_all, specs-dyadic,
}
use boost_openmethod_benchma.Registries.{
  derived_list, class_list, poke_ref_registrar, poke_vp_registrar, collide_ref_registrar,
  collide_vp_registrar,
}
use boost_openmethod_benchma.UseMethods.{
  pokeu_ref_registrar, pokeu_vp_registrar, collideu_ref_registrar, collideu_vp_registrar,
}

-- the number of virtual parameters
abbrev pub arity : MainMethod → ℕ
arity poke_ref = 1
arity poke_vp = 1
arity collide_ref = 2
arity collide_vp = 2
arity pokeu_ref = 1
arity pokeu_vp = 1
arity collideu_ref = 2
arity collideu_vp = 2

abbrev pub iarity : InplaceMethod → ℕ
iarity ipoke_ref = 1
iarity icollide_ref = 2
iarity ipokeu_ref = 1
iarity icollideu_ref = 2

-- One BOOST_OPENMETHOD_REGISTER: classes, or the overriders of a method by their parameter classes.
pub data Registration (Method Registry : Type 0) : Type 0 where
  use_classes : List Class × Registry → Registration Method Registry
  override : Method → List (List Class) → Registration Method Registry

abbrev pub specs_of : {A : Type 0} → List (Overrider A) → List (List Class)
specs_of overriders = map (λ o. o.spec) overriders

module _ (lib : OpenMethod) (num_classes : ℕ) (R : MainRegistry) where
  -- `OMB_REGISTER`
  unfoldable pub omb_register : List (Registration MainMethod MainRegistry)
  omb_register =
      use_classes (class_list num_classes R)
      ∷ override poke_ref (specs_of (poke_ref_registrar lib num_classes R))
      ∷ override poke_vp (specs_of (poke_vp_registrar lib num_classes R))
      ∷ override collide_ref (specs_of (collide_ref_registrar lib num_classes R))
      ∷ override collide_vp (specs_of (collide_vp_registrar lib num_classes R))
      ∷ []

  -- `OMB_REGISTER_USE`
  unfoldable pub omb_register_use : List (Registration MainMethod MainRegistry)
  omb_register_use =
      override pokeu_ref (specs_of (pokeu_ref_registrar lib num_classes R))
      ∷ override pokeu_vp (specs_of (pokeu_vp_registrar lib num_classes R))
      ∷ override collideu_ref (specs_of (collideu_ref_registrar lib num_classes R))
      ∷ override collideu_vp (specs_of (collideu_vp_registrar lib num_classes R))
      ∷ []

module _ (lib : OpenMethod) (num_classes : ℕ) (R : InplaceRegistry) where
  -- `OMB_REGISTER_INPLACE`
  unfoldable pub omb_register_inplace : List (Registration InplaceMethod InplaceRegistry)
  omb_register_inplace =
      override ipoke_ref (specs_of (ipoke_ref_registrar lib num_classes R))
      ∷ override icollide_ref (specs_of (icollide_ref_registrar lib num_classes R))
      ∷ []

  -- `OMB_REGISTER_USE_INPLACE`
  unfoldable pub omb_register_use_inplace : List (Registration InplaceMethod InplaceRegistry)
  omb_register_use_inplace =
      override ipokeu_ref (specs_of (ipokeu_ref_registrar lib num_classes R))
      ∷ override icollideu_ref (specs_of (icollideu_ref_registrar lib num_classes R))
      ∷ []

-- The library finds exactly one overrider to call on arguments of these dynamic classes: it reports
-- neither a missing overrider nor an ambiguity.
abbrev pub OneBest : List (List Class) → List Class → Type 0
OneBest specs dynamic =
    (k : ℕ) × IsBest specs dynamic k × ((j : ℕ) → IsBest specs dynamic j → j ≡ k)

-- all tuples of so many of the classes
abbrev pub tuples : ℕ → List Class → List (List Class)
tuples zero cs = [] ∷ []
tuples (suc n) cs = concat (map (λ c. map (◌∷◌ c) (tuples n cs)) cs)

-- the classes that the list registers
abbrev pub registered :
    {Method Registry : Type 0} → List (Registration Method Registry) → List Class
registered [] = []
registered (use_classes cs ∷ regs) = cs.0 ++ registered regs
registered (override m specs ∷ regs) = registered regs

-- The classes that the constructors of an inplace hierarchy register: the root's, and those of the
-- leaves that some factory constructs.
abbrev pub constructed : (num_classes : ℕ) → InplaceRegistry → List Class
constructed num_classes R =
    base ∷ map (λ (make : ℕ → IBase R). iclass_of (make 0)) (ifactories num_classes)

abbrev pub IsRegistered : List Class → Class → Type 0
IsRegistered classes c = (k : ℕ) × (get_elem? classes k ≡ some c)

-- Overriders of a method with so many virtual parameters: each has as many parameter classes, all of
-- them registered, and for every tuple of leaf classes exactly one overrider is the best.
pub record IsMethod (classes : List Class) (num_classes parameters : ℕ) (specs : List (List Class))
    : Type 0 where
  pub shaped : All (λ s. (length s ≡ parameters) × All (IsRegistered classes) s) specs
  pub decided : All (OneBest specs) (tuples parameters (derived_list num_classes))

-- A registration with the registry `R`.
abbrev pub IsTyped :
    {Method Registry : Type 0}
    → (Method → ℕ)
    → Registry
    → (num_classes : ℕ) → (classes : List Class) → Registration Method Registry
    → Type 0
IsTyped parameters R num_classes classes (use_classes cs) =
    cs ≡ (base ∷ derived_list num_classes, R)
IsTyped parameters R num_classes classes (override m specs) =
    IsMethod classes num_classes (parameters m) specs

-- The method has its overriders in the list.
abbrev pub Overrides :
    {Method Registry : Type 0} → List (Registration Method Registry) → Method → Type 0
Overrides regs m =
    (k : ℕ) × ((specs : List (List Class)) × (get_elem? regs k ≡ some (override m specs)))
