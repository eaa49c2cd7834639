-- ===== src/Variants.antt =====
-- src/main.cpp: what a variant is, the regions of an object, and the arrays that variants read.
pub mod Baseline
pub mod Const
pub mod Use
pub mod Inplace
pub mod InplaceUse
pub mod Sound
pub mod Layout
use Prim.Native.String.{String}
use boost_openmethod_benchma.Common.{
  ℕ, Bool, true, false, Option, none, some, List, [], ◌∷◌, ◌++◌, get_elem?, ◌-◌, ◌+◌, ltb,
  if◌then◌else◌,
}
use boost_openmethod_benchma.Common.Int.{ℤ, pos, negsuc, ◌+ℤ◌}
use boost_openmethod_benchma.Machine.{M, ◌>>=◌, ◌>>◌, emit, pure, load}
use boost_openmethod_benchma.Library.{
  MainRegistry, vector_registry, map_registry, flat_registry, indirect_registry, InplaceRegistry,
  inplace_registry, inplace_indirect_registry,
}
use boost_openmethod_benchma.Hierarchy.{Base, touch, vf, vfu, dd, ddu}
use boost_openmethod_benchma.Hierarchy.Inplace.{IBase, itouch, ivf, ivfu, idd, iddu}
use boost_openmethod_benchma.Timing.Flush.{Region}
use boost_openmethod_benchma.Timing.Stamp.{stamp}
use boost_openmethod_benchma.Timing.Tsc.{StampId}
use boost_openmethod_benchma.Platform.{Platform, MainMethod, InplaceMethod}
use boost_openmethod_benchma.Env.{Env, Ipopulation}
use boost_openmethod_benchma.OpenMethod.{class_of, iclass_of}
use boost_openmethod_benchma.Registries.{poke_ref, poke_vp, collide_ref, collide_vp}
use boost_openmethod_benchma.Registries.Inplace.{ipoke_ref, icollide_ref, ipokeu_ref, icollideu_ref}
use boost_openmethod_benchma.Registries.Regions.{registry_regions, inplace_registry_regions}
use boost_openmethod_benchma.UseMethods.{pokeu_ref, pokeu_vp, collideu_ref, collideu_vp}

-- A variant: the types and static members of one of the `v_…` structs.
pub record Variant (P : Platform) : Type 1 where
  pub Args : Type 0
  pub touches_receiver : Bool
  pub body : String
  pub name : String
  pub group : String
  pub hier : String
  pub arity : ℕ
  pub prepare : Env P → ℕ → ℕ → Option Args
  pub call : Args → M StampId
  pub regions : Args → List Region

-- Two array elements, or a read out of range.
abbrev pub both : {A : Type 0} → Option A → Option A → Option (A × A)
both (some a) (some b) = some (a, b)
both (some a) none = none
both none b = none

-- `direct_probe`
unfoldable pub direct_probe : M StampId
direct_probe = stamp (negsuc 1)

-- `auto ta = p.a->tag; auto r = p.b->touch(); r.id += ta;`: the first object's member is read and
-- added to what the touch of the second returns.
abbrev pub add_tag : (addr : ℕ) → ℤ → M StampId → M StampId
add_tag addr ta touched = do emit (load addr ∷ []); r ← touched; pure (record r { id = r.id +ℤ ta })

-- `object_regions<B>`, from the object's address, `sizeof(B)` and the first word of the object
unfoldable pub object_regions : (p sizeof vtbl : ℕ) → List Region
object_regions p sizeof vtbl =
    record { addr = p; size = if ltb sizeof 64 then 64 else sizeof }
    ∷ record { addr = vtbl - 16; size = 512 + 16 }
    ∷ []

module _ (P : Platform) where
  open P use {lib, memory}

  -- `vp_traits<R>::array`
  abbrev pub vp_array : (R : MainRegistry) → Env P → List (lib.VirtualPtr R)
  vp_array vector_registry e = e.vp_vec
  vp_array map_registry e = e.vp_map
  vp_array flat_registry e = e.vp_flat
  vp_array indirect_registry e = e.vp_ind

  -- `ip_traits<R>::pop`
  abbrev pub ip_pop : (R : InplaceRegistry) → Env P → Ipopulation R
  ip_pop inplace_registry e = e.ip_direct
  ip_pop inplace_indirect_registry e = e.ip_indirect

  abbrev pub base_regions : Base → List Region
  base_regions a = object_regions a.addr memory.sizeof_base (memory.vtbl (class_of a))

  abbrev pub ibase_regions : {R : InplaceRegistry} → IBase R → List Region
  ibase_regions {R} a = object_regions a.addr memory.sizeof_ibase (memory.ivtbl R (iclass_of a))
