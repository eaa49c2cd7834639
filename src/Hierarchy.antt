-- ===== src/Hierarchy.antt =====
-- src/hierarchy.hpp: the main hierarchy. An object is its address, the index of its leaf class (its
-- dynamic type), and its member `tag`. A virtual call reads the receiver, where the v-table pointer
-- lies, and runs the override of the leaf class. Reads that stand in one list are newest first.
pub mod Indices
pub mod Inplace
pub mod Calls
use boost_openmethod_benchma.Common.{ℕ, List, [], ◌∷◌, map}
use boost_openmethod_benchma.Common.Int.{ℤ, pos, ◌+ℤ◌}
use boost_openmethod_benchma.Hierarchy.Indices.{indices_from}
use boost_openmethod_benchma.Machine.{M, ◌>>=◌, ◌>>◌, emit, load}
use boost_openmethod_benchma.Timing.Tsc.{StampId}
use boost_openmethod_benchma.Timing.Stamp.{stamp}

-- `Base`
pub record Base : Type 0 where
  pub addr : ℕ
  pub leaf : ℕ
  pub tag : ℤ

-- `Derived<N>::Derived()`, for the object at an address
abbrev pub new_derived : ℕ → ℕ → Base
new_derived n addr = record { addr = addr; leaf = n; tag = pos n }

-- `Base::touch`: no dispatch, but a read of the object
unfoldable pub touch : Base → M StampId
touch self = emit (load self.addr ∷ []) >> stamp self.tag

-- `Derived<N>::vf`
unfoldable pub vf : Base → M StampId
vf self = emit (load self.addr ∷ []) >> stamp (pos self.leaf)

-- `Derived<N>::vfu`
unfoldable pub vfu : Base → M StampId
vfu self = emit (load self.addr ∷ load self.addr ∷ []) >> stamp self.tag

-- `Derived<N>::dd_with`
unfoldable pub dd_with : Base → Base → M StampId
dd_with self other = emit (load self.addr ∷ []) >> stamp (pos self.leaf)

-- `Derived<N>::dd`
unfoldable pub dd : Base → Base → M StampId
unfolding dd_with
dd self other = emit (load self.addr ∷ []) >> dd_with other self

-- `Derived<N>::dd_withu`
unfoldable pub dd_withu : Base → Base → M StampId
dd_withu self other =
    emit (load other.addr ∷ load self.addr ∷ load self.addr ∷ []) >> stamp (self.tag +ℤ other.tag)

-- `Derived<N>::ddu`
unfoldable pub ddu : Base → Base → M StampId
unfolding dd_withu
ddu self other = emit (load self.addr ∷ []) >> dd_withu other self

-- `factories`, filled by `make_factories`: one constructor for each leaf class. A factory takes the
-- address that the allocation returns.
unfoldable pub factories : ℕ → List (ℕ → Base)
factories num_classes = map new_derived (indices_from 0 num_classes)
