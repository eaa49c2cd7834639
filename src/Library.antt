-- ===== src/Library.antt =====
-- What the program takes from the Boost.OpenMethod library, which is not part of the repository: the
-- six registries by name, and the library's own operations as a parameter with its documented laws.
use boost_openmethod_benchma.Common.{ℕ, ◌≡◌, ◌⊎◌, some, List, [], ◌∷◌, get_elem?}

-- A class of a hierarchy: its root, or the leaf of an index.
pub data Class : Type 0 where
  base : Class
  derived : ℕ → Class

-- `c` is `d` or derives from it.
abbrev pub IsA : Class → Class → Type 0
IsA c base = Unit
IsA base (derived j) = ⊥
IsA (derived i) (derived j) = i ≡ j

-- each class of the first list, to that of the second
abbrev pub IsAList : List Class → List Class → Type 0
IsAList [] [] = Unit
IsAList [] (d ∷ ds) = ⊥
IsAList (c ∷ cs) [] = ⊥
IsAList (c ∷ cs) (d ∷ ds) = IsA c d × IsAList cs ds

-- An overrider's parameter classes are better than another's.
abbrev pub IsBetter : List Class → List Class → Type 0
IsBetter s t = IsAList s t × ¬ IsAList t s

-- The overrider at position `k` takes the arguments, and is better than every other that does.
pub record IsBest (specs : List (List Class)) (dynamic : List Class) (k : ℕ) : Type 0 where
  pub spec : List Class
  pub found : get_elem? specs k ≡ some spec
  pub applies : IsAList dynamic spec
  pub better :
      (j : ℕ) (t : List Class)
      → get_elem? specs j ≡ some t
      → IsAList dynamic t
      → (j ≡ k) ⊎ IsBetter spec t

-- The registries of src/registries.hpp: four for the main hierarchy, two for the inplace ones.
pub data MainRegistry : Type 0 where
  vector_registry map_registry flat_registry indirect_registry : MainRegistry

pub data InplaceRegistry : Type 0 where
  inplace_registry inplace_indirect_registry : InplaceRegistry
