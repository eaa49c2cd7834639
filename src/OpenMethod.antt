-- ===== src/OpenMethod.antt =====
-- The operations of the Boost.OpenMethod library that src/registries.hpp, src/use_methods.hpp and
-- src/main.cpp call. The library is not part of the repository: its operations are the fields of
-- `OpenMethod`, and what the program relies on is `IsDocumented`.
use boost_openmethod_benchma.Common.{ℕ, ◌≡◌, Option, some, List, map, get_elem?, All}
use boost_openmethod_benchma.Machine.{load, Event, M, ◌>>=◌, lift, table}
use boost_openmethod_benchma.Library.{Class, derived, IsBest, MainRegistry, InplaceRegistry}
use boost_openmethod_benchma.Hierarchy.{Base}
use boost_openmethod_benchma.Hierarchy.Inplace.{IBase}
use boost_openmethod_benchma.Timing.Flush.{Occurs}
use boost_openmethod_benchma.Timing.Tsc.{StampId}
use boost_openmethod_benchma.Timing.Stamp.{IsRead}

-- `select` is the choice of `method::fn`: the position of the overrider that it calls, from the
-- parameter classes of all overriders and the dynamic classes of the arguments. The other fields with
-- events are the reads that a call makes before it arrives in the overrider.
pub record OpenMethod : Type 1 where
  pub select : List (List Class) → List Class → Option ℕ
  pub VirtualPtr : MainRegistry → Type 0
  pub virtual_ptr : (R : MainRegistry) → Base → VirtualPtr R
  pub get : (R : MainRegistry) → VirtualPtr R → Base
  pub ref_reads : MainRegistry → List Base → List Event
  pub vp_reads : (R : MainRegistry) → List (VirtualPtr R) → List Event
  pub iref_reads : (R : InplaceRegistry) → List (IBase R) → List Event

abbrev pub IsTable : Event → Type 0
IsTable e = (a : ℕ) × (e ≡ table a)

-- The library's documentation: a call reaches the best overrider, a `virtual_ptr` refers to the object
-- it was made from, and a dispatch only reads. By reference it reads every object, where it finds the
-- v-table or the class; by `virtual_ptr` it reads none.
pub record IsDocumented (lib : OpenMethod) : Type 0 where
  pub select_best :
      (specs : List (List Class)) (dynamic : List Class) (k : ℕ)
      → IsBest specs dynamic k
      → lib.select specs dynamic ≡ some k
  pub get-virtual_ptr : (R : MainRegistry) (o : Base) → lib.get R (lib.virtual_ptr R o) ≡ o
  pub ref_reads-IsRead : (R : MainRegistry) (os : List Base) → All IsRead (lib.ref_reads R os)
  pub ref_reads-loads :
      (R : MainRegistry) (os : List Base) → All (λ o. Occurs (load o.addr) (lib.ref_reads R os)) os
  pub vp_reads-IsTable :
      (R : MainRegistry) (ps : List (lib.VirtualPtr R)) → All IsTable (lib.vp_reads R ps)
  pub iref_reads-IsRead :
      (R : InplaceRegistry) (os : List (IBase R)) → All IsRead (lib.iref_reads R os)
  pub iref_reads-loads :
      (R : InplaceRegistry) (os : List (IBase R))
      → All (λ o. Occurs (load o.addr) (lib.iref_reads R os)) os

-- An overrider: the classes of its virtual parameters, and its body.
pub record Overrider (A : Type 0) : Type 0 where
  pub spec : List Class
  pub body : A → M StampId

abbrev pub class_of : Base → Class
class_of o = derived o.leaf

abbrev pub iclass_of : {R : InplaceRegistry} → IBase R → Class
iclass_of o = derived o.leaf

-- The call of a method with these overriders on arguments of these dynamic classes.
unfoldable pub call_best :
    {A : Type 0} → OpenMethod → List (Overrider A) → List Class → A → M StampId
call_best lib overriders dynamic args = do
  k ← lift (lib.select (map (λ o. o.spec) overriders) dynamic)
  overrider ← lift (get_elem? overriders k)
  overrider.body args
