-- ===== src/Registries/Overriders.antt =====
-- src/registries.hpp and src/use_methods.hpp: the shapes of the registrars' lists of overriders.
use boost_openmethod_benchma.Common.{ℕ, List, [], ◌∷◌, map}
use boost_openmethod_benchma.Machine.{M}
use boost_openmethod_benchma.Library.{base, derived}
use boost_openmethod_benchma.Hierarchy.Indices.{indices_from}
use boost_openmethod_benchma.Timing.Tsc.{StampId}
use boost_openmethod_benchma.OpenMethod.{Overrider}

-- One overrider for each leaf class.
abbrev pub monadic : {A : Type 0} → (ℕ → A → M StampId) → ℕ → List (Overrider A)
monadic impl num_classes =
    map (λ i. record { spec = derived i ∷ []; body = impl i }) (indices_from 0 num_classes)

-- The catch-all on two roots, then one overrider on each pair of equal leaf classes.
abbrev pub dyadic : {A : Type 0} → (A → M StampId) → (ℕ → A → M StampId) → ℕ → List (Overrider A)
dyadic catch_all impl num_classes =
    record { spec = base ∷ base ∷ []; body = catch_all }
    ∷ map (λ i. record { spec = derived i ∷ derived i ∷ []; body = impl i })
        (indices_from 0 num_classes)
