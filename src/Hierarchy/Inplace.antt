-- ===== src/Hierarchy/Inplace.antt =====
-- src/hierarchy.hpp: the inplace hierarchies, one for each inplace registry.
use boost_openmethod_benchma.Common.{ℕ, List, [], ◌∷◌, map}
use boost_openmethod_benchma.Hierarchy.Indices.{indices_from}
use boost_openmethod_benchma.Common.Int.{ℤ, pos, ◌+ℤ◌}
use boost_openmethod_benchma.Library.{InplaceRegistry}
use boost_openmethod_benchma.Machine.{M, ◌>>◌, emit, load}
use boost_openmethod_benchma.Timing.Tsc.{StampId}
use boost_openmethod_benchma.Timing.Stamp.{stamp}

-- `IBase<Registry>`
pub record IBase (R : InplaceRegistry) : Type 0 where
  pub addr : ℕ
  pub leaf : ℕ
  pub tag : ℤ

module _ {R : InplaceRegistry} where
  -- `IDerived<Registry, N>::IDerived()`
  abbrev pub new_iderived : ℕ → ℕ → IBase R
  new_iderived n addr = record { addr = addr; leaf = n; tag = pos n }

  -- `IBase::touch`
  unfoldable pub itouch : IBase R → M StampId
  itouch self = emit (load self.addr ∷ []) >> stamp self.tag

  -- `IDerived::vf`
  unfoldable pub ivf : IBase R → M StampId
  ivf self = emit (load self.addr ∷ []) >> stamp (pos self.leaf)

  -- `IDerived::vfu`
  unfoldable pub ivfu : IBase R → M StampId
  ivfu self = emit (load self.addr ∷ load self.addr ∷ []) >> stamp self.tag

  -- `IDerived::dd_with`
  unfoldable pub idd_with : IBase R → IBase R → M StampId
  idd_with self other = emit (load self.addr ∷ []) >> stamp (pos self.leaf)

  -- `IDerived::dd`
  unfoldable pub idd : IBase R → IBase R → M StampId
  unfolding idd_with
  idd self other = emit (load self.addr ∷ []) >> idd_with other self

  -- `IDerived::dd_withu`
  unfoldable pub idd_withu : IBase R → IBase R → M StampId
  idd_withu self other =
      emit (load other.addr ∷ load self.addr ∷ load self.addr ∷ []) >> stamp (self.tag +ℤ other.tag)

  -- `IDerived::ddu`
  unfoldable pub iddu : IBase R → IBase R → M StampId
  unfolding idd_withu
  iddu self other = emit (load self.addr ∷ []) >> idd_withu other self

  -- `ifactories`, filled by `make_ifactories`
  unfoldable pub ifactories : ℕ → List (ℕ → IBase R)
  ifactories num_classes = map new_iderived (indices_from 0 num_classes)
