-- ===== src/Variants/Layout.antt =====
-- src/main.cpp, src/registries.hpp: where the regions that a call flushes lie.
use boost_openmethod_benchma.Common.{ℕ, ◌+◌, ◌-◌, ◌<◌, arith, subst, sym, All, All-of_map}
use boost_openmethod_benchma.Library.{
  Class, base, derived, MainRegistry, vector_registry, map_registry, flat_registry,
  indirect_registry, InplaceRegistry, inplace_registry, inplace_indirect_registry,
}
use boost_openmethod_benchma.Hierarchy.{new_derived}
use boost_openmethod_benchma.Hierarchy.Inplace.{IBase, new_iderived}
use boost_openmethod_benchma.Hierarchy.Indices.{indices_from}
use boost_openmethod_benchma.Timing.Flush.{Region}
use boost_openmethod_benchma.Timing.Scrub.{Fits}
use boost_openmethod_benchma.Platform.{Platform, MainMethod, InplaceMethod, array_region}
use boost_openmethod_benchma.Registries.Regions.{registry_regions, inplace_registry_regions}
use boost_openmethod_benchma.Env.{Env, Ipopulation}
use boost_openmethod_benchma.Env.WellFormed.{
  IsWellFormed, IsIpopulation, All-round_robin, All-permᴰ,
}
use boost_openmethod_benchma.Variants.{object_regions, base_regions, ibase_regions}

-- What a table takes from its address on.
abbrev pub region_at : (addr size : ℕ) → Region
region_at addr size = record { addr = addr; size = size }

-- The linker and the allocator put nothing that is flushed into the last line of memory: no object of
-- the `n` that each population allocates, no v-table, no object of the library.
pub record IsLaidOut (P : Platform) (n : ℕ) : Type 0 where
  pub line : (k : ℕ) → k < n → Fits P.word (region_at (P.memory.alloc k) 64)
  pub object : (k : ℕ) → k < n → Fits P.word (region_at (P.memory.alloc k) P.memory.sizeof_base)
  pub vtbl : (c : Class) → Fits P.word (region_at (P.memory.vtbl c - 16) (512 + 16))
  pub iline :
      (R : InplaceRegistry) (k : ℕ) → k < n → Fits P.word (region_at (P.memory.ialloc R k) 64)
  pub iobject :
      (R : InplaceRegistry) (k : ℕ)
      → k < n
      → Fits P.word (region_at (P.memory.ialloc R k) P.memory.sizeof_ibase)
  pub ivtbl :
      (R : InplaceRegistry) (c : Class)
      → Fits P.word (region_at (P.memory.ivtbl R c - 16) (512 + 16))
  pub method : (m : MainMethod) (R : MainRegistry) → Fits P.word (P.memory.method m R)
  pub imethod : (m : InplaceMethod) (R : InplaceRegistry) → Fits P.word (P.memory.imethod m R)
  pub dispatch_data : (R : MainRegistry) → Fits P.word (array_region (P.memory.dispatch_data R))
  pub idispatch_data :
      (R : InplaceRegistry) → Fits P.word (array_region (P.memory.idispatch_data R))
  pub map_vptrs : Fits P.word P.memory.map_vptrs
  pub flat_vptrs : Fits P.word P.memory.flat_vptrs
  pub vector_vptrs : (R : MainRegistry) → Fits P.word (array_region (P.memory.vector_vptrs R))
  pub hash : (R : MainRegistry) → Fits P.word (P.memory.hash R)
  pub static_vptr :
      (R : MainRegistry) (c : Class)
      → Fits P.word (region_at (P.memory.static_vptr R c) P.memory.sizeof_vptr)
  pub istatic_vptr :
      (R : InplaceRegistry) (c : Class)
      → Fits P.word (region_at (P.memory.istatic_vptr R c) P.memory.sizeof_vptr)

object_regions-Fits :
    (word p sizeof vtbl : ℕ)
    → Fits word (region_at p 64)
    → Fits word (region_at p sizeof)
    → Fits word (region_at (vtbl - 16) (512 + 16))
    → All (Fits word) (object_regions p sizeof vtbl)
unfolding object_regions
object_regions-Fits word p sizeof vtbl line whole table = (ground arith, (table, tt))

module _ (P : Platform) (n : ℕ) (laid : IsLaidOut P n) where
  -- The regions of a registry, whichever it is.
  pub registry_regions-Fits :
      (R : MainRegistry) → All (Fits P.word) (registry_regions P.memory P.num_classes R)
  unfolding registry_regions
  registry_regions-Fits vector_registry = (
    laid.dispatch_data vector_registry,
    (laid.vector_vptrs vector_registry, (laid.hash vector_registry, tt)),
  )
  registry_regions-Fits map_registry = (laid.dispatch_data map_registry, (laid.map_vptrs, tt))
  registry_regions-Fits flat_registry = (laid.dispatch_data flat_registry, (laid.flat_vptrs, tt))
  registry_regions-Fits indirect_registry = (
    laid.dispatch_data indirect_registry,
    (
      laid.vector_vptrs indirect_registry,
      (
        laid.hash indirect_registry,
        (
          laid.static_vptr indirect_registry base,
          All-of_map (Fits P.word) _ (indices_from 0 P.num_classes)
              (λ i. laid.static_vptr indirect_registry (derived i)),
        ),
      ),
    ),
  )

  pub inplace_registry_regions-Fits :
      (R : InplaceRegistry) → All (Fits P.word) (inplace_registry_regions P.memory P.num_classes R)
  unfolding inplace_registry_regions
  inplace_registry_regions-Fits inplace_registry = (laid.idispatch_data inplace_registry, tt)
  inplace_registry_regions-Fits inplace_indirect_registry = (
    laid.idispatch_data inplace_indirect_registry,
    (
      laid.istatic_vptr inplace_indirect_registry base,
      All-of_map (Fits P.word) _ (indices_from 0 P.num_classes)
          (λ i. laid.istatic_vptr inplace_indirect_registry (derived i)),
    ),
  )

  module _ (some_class : 0 < P.num_classes) where
    -- The regions of the objects that the environment makes.
    pub base_regions-Fits :
        (e : Env P) → IsWellFormed P n e → All (λ o. All (Fits P.word) (base_regions P o)) e.ptrs
    base_regions-Fits e wf =
        All-permᴰ (λ o. All (Fits P.word) (base_regions P o)) wf.shuffled
          (subst (All (λ o. All (Fits P.word) (base_regions P o))) (sym wf.made) (
            All-round_robin (λ o. All (Fits P.word) (base_regions P o)) new_derived P.memory.alloc
              P.num_classes 0 n
              (λ leaf k _ near.
                object_regions-Fits P.word (P.memory.alloc k) P.memory.sizeof_base
                  (P.memory.vtbl (derived leaf)) (laid.line k (omega arith))
                  (laid.object k (omega arith)) (laid.vtbl (derived leaf)))
              some_class))

    pub ibase_regions-Fits :
        (R : InplaceRegistry) (pop : Ipopulation R)
        → IsIpopulation P n pop
        → All (λ (o : IBase R). All (Fits P.word) (ibase_regions P o)) pop.ptrs
    ibase_regions-Fits R pop ip =
        All-permᴰ (λ (o : IBase R). All (Fits P.word) (ibase_regions P o)) ip.shuffled
          (subst (All (λ (o : IBase R). All (Fits P.word) (ibase_regions P o))) (sym ip.made) (
            All-round_robin (λ (o : IBase R). All (Fits P.word) (ibase_regions P o)) new_iderived
              (P.memory.ialloc R) P.num_classes 0 n
              (λ leaf k _ near.
                object_regions-Fits P.word (P.memory.ialloc R k) P.memory.sizeof_ibase
                  (P.memory.ivtbl R (derived leaf)) (laid.iline R k (omega arith))
                  (laid.iobject R k (omega arith)) (laid.ivtbl R (derived leaf)))
              some_class))
