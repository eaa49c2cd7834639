-- ===== src/Examples/Registrations.antt =====
-- Examples of what is registered, with three leaf classes.
use boost_openmethod_benchma.Common.{◌≡◌, refl, [], ◌∷◌, ◌++◌, All}
use boost_openmethod_benchma.Library.{derived, vector_registry, inplace_registry}
use boost_openmethod_benchma.Platform.{MainMethod, InplaceMethod}
use boost_openmethod_benchma.Registries.{derived_list}
use boost_openmethod_benchma.Registries.Registrations.{
  arity, iarity, omb_register, omb_register_use, omb_register_inplace, omb_register_use_inplace,
  tuples, registered, constructed, IsTyped, Overrides,
}
use boost_openmethod_benchma.Registries.Registrations.Typed.{
  registrations-IsTyped, inplace_registrations-IsTyped,
}
use boost_openmethod_benchma.Examples.Documented.{searching}

pairs_of_two :
    tuples 2 (derived_list 2)
    ≡ (derived 0 ∷ derived 0 ∷ [])
      ∷ (derived 0 ∷ derived 1 ∷ [])
      ∷ (derived 1 ∷ derived 0 ∷ [])
      ∷ (derived 1 ∷ derived 1 ∷ [])
      ∷ []
pairs_of_two = refl

registrations-IsTyped_example :
    let regs =
      omb_register searching 3 vector_registry ++ omb_register_use searching 3 vector_registry in
    All (IsTyped arity vector_registry 3 (registered regs)) regs
    × ((m : MainMethod) → Overrides regs m)
registrations-IsTyped_example = registrations-IsTyped searching 3 vector_registry

inplace_registrations-IsTyped_example :
    let regs =
      omb_register_inplace searching 3 inplace_registry
      ++ omb_register_use_inplace searching 3 inplace_registry in
    All (IsTyped iarity inplace_registry 3 (constructed 3 inplace_registry)) regs
    × ((m : InplaceMethod) → Overrides regs m)
inplace_registrations-IsTyped_example = inplace_registrations-IsTyped searching 3 inplace_registry
