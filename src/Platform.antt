-- ===== src/Platform.antt =====
-- What the program takes from its surroundings besides the open-method library: the random numbers of
-- the C++ standard library, and where the compiler, the linker, the allocator and the open-method
-- library put things in memory.
use mathlib.Core.List.{Permᴰ}
use boost_openmethod_benchma.Common.{ℕ, ◌≤◌, ◌*◌, List}
use boost_openmethod_benchma.Library.{Class, MainRegistry, InplaceRegistry}
use boost_openmethod_benchma.OpenMethod.{OpenMethod}
use boost_openmethod_benchma.Timing.Flush.{Region}

-- `std::mt19937`, `std::uniform_int_distribution<std::size_t>` and `std::shuffle`
pub record Random : Type 1 where
  pub Rng : Type 0
  pub seed : ℕ → Rng
  pub pick : (low high : ℕ) → Rng → ℕ × Rng
  pub shuffle : (A : Type 0) → List A → Rng → List A × Rng

-- A draw lies in the distribution's range, and shuffling only rearranges.
pub record IsRandom (r : Random) : Type 1 where
  pub pick_range :
      (low high : ℕ) (g : r.Rng)
      → low ≤ high
      → (low ≤ (r.pick low high g).0) × ((r.pick low high g).0 ≤ high)
  pub shuffle_perm : (A : Type 0) (xs : List A) (g : r.Rng) → Permᴰ xs (r.shuffle A xs g).0

-- the methods, each in every registry of its hierarchy
pub data MainMethod : Type 0 where
  poke_ref poke_vp collide_ref collide_vp pokeu_ref pokeu_vp collideu_ref collideu_vp : MainMethod

pub data InplaceMethod : Type 0 where
  ipoke_ref icollide_ref ipokeu_ref icollideu_ref : InplaceMethod

-- A `std::vector`: where its elements lie, how many there are, and the size of one.
pub record Array : Type 0 where
  pub start : ℕ
  pub count : ℕ
  pub width : ℕ

-- Addresses and sizes. `alloc k` is the address of the k-th object that the environment makes, `vtbl`
-- what the first word of an object of the class holds.
pub record Memory : Type 0 where
  pub alloc : ℕ → ℕ
  pub ialloc : InplaceRegistry → ℕ → ℕ
  pub sizeof_base : ℕ
  pub sizeof_ibase : ℕ
  pub sizeof_vptr : ℕ
  pub sizeof_pointer : ℕ
  pub sizeof_virtual_ptr : MainRegistry → ℕ
  pub vtbl : Class → ℕ
  pub ivtbl : InplaceRegistry → Class → ℕ
  pub method : MainMethod → MainRegistry → Region
  pub imethod : InplaceMethod → InplaceRegistry → Region
  pub dispatch_data : MainRegistry → Array
  pub idispatch_data : InplaceRegistry → Array
  pub map_vptrs : Region
  pub flat_vptrs : Region
  pub vector_vptrs : MainRegistry → Array
  pub hash : MainRegistry → Region
  pub static_vptr : MainRegistry → Class → ℕ
  pub istatic_vptr : InplaceRegistry → Class → ℕ

-- All of it, with the compile-time `OMB_CLASSES` and 2 to the number of bits of `std::size_t`.
pub record Platform : Type 1 where
  pub lib : OpenMethod
  pub random : Random
  pub memory : Memory
  pub num_classes : ℕ
  pub word : ℕ

-- `{v.data(), v.size() * sizeof(v[0])}`
abbrev pub array_region : Array → Region
array_region a = record { addr = a.start; size = a.count * a.width }
