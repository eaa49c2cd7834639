-- ===== src/Env.antt =====
-- src/main.cpp: `env`, the objects that are measured, the scrubber and the random numbers. A pointer
-- to an object is the object itself, which nothing changes.
pub mod WellFormed
use boost_openmethod_benchma.Common.{
  ℕ, zero, suc, ◌+◌, ◌-◌, ◌*◌, ◌%◌, Option, none, some, List, [], ◌∷◌, map, get_elem?,
}
use boost_openmethod_benchma.Library.{
  MainRegistry, vector_registry, map_registry, flat_registry, indirect_registry, InplaceRegistry,
  inplace_registry, inplace_indirect_registry,
}
use boost_openmethod_benchma.Hierarchy.{Base, factories}
use boost_openmethod_benchma.Hierarchy.Inplace.{IBase, ifactories}
use boost_openmethod_benchma.Timing.Scrub.{Scrubber, scrubber}
use boost_openmethod_benchma.Vector.{reserve}
use boost_openmethod_benchma.Platform.{Platform}
use boost_openmethod_benchma.Config.{Config}

-- `ipopulation<R>`
pub record Ipopulation (R : InplaceRegistry) : Type 0 where
  pub objects : List (IBase R)
  pub ptrs : List (IBase R)

-- `env`. `pick_max` is the upper bound of the distribution `pick`, whose lower bound is 0.
pub record Env (P : Platform) : Type 0 where
  pub objects : List Base
  pub ptrs : List Base
  pub vp_vec : List (P.lib.VirtualPtr vector_registry)
  pub vp_map : List (P.lib.VirtualPtr map_registry)
  pub vp_flat : List (P.lib.VirtualPtr flat_registry)
  pub vp_ind : List (P.lib.VirtualPtr indirect_registry)
  pub ip_direct : Ipopulation inplace_registry
  pub ip_indirect : Ipopulation inplace_indirect_registry
  pub scrub : Scrubber
  pub rng : P.random.Rng
  pub pick_max : ℕ

infixl 5 ◌>>=◌
abbrev pub ◌>>=◌ {ℓ} : {A B : Type ℓ} → Option A → (A → Option B) → Option B
none >>= f = none
some a >>= f = f a

-- The loop `objects.push_back(factories()[i % num_classes]())`, for `count` objects from the i-th on.
unfoldable pub populate :
    {A : Type 0} → List (ℕ → A) → (ℕ → ℕ) → (num_classes i count : ℕ) → Option (List A)
populate fs alloc num_classes i zero = some []
populate fs alloc num_classes i (suc count) = do
  make ← get_elem? fs (i % num_classes)
  rest ← populate fs alloc num_classes (i + 1) count
  some (make (alloc i) ∷ rest)

module _ (P : Platform) where
  open P use {lib, random, memory, num_classes, word}

  -- `ipopulation::build`
  unfoldable pub build :
      (R : InplaceRegistry) → ℕ → random.Rng → Option (Ipopulation R × random.Rng)
  unfolding populate ifactories reserve
  build R n rng = do
    for_objects ← reserve word memory.sizeof_pointer n
    for_ptrs ← reserve word memory.sizeof_pointer n
    objects ← populate (ifactories num_classes) (memory.ialloc R) num_classes 0 n
    let shuffled = random.shuffle (IBase R) objects rng
    some (record { objects = objects; ptrs = shuffled.0 }, shuffled.1)

  -- `env::env`
  unfoldable pub new_env : Config → Option (Env P)
  unfolding populate factories scrubber reserve
  new_env cfg = do
    scrub ← scrubber word (cfg.sweep_mb * 1024 * 1024 % word)
    for_objects ← reserve word memory.sizeof_pointer cfg.objects
    for_ptrs ← reserve word memory.sizeof_pointer cfg.objects
    objects ← populate (factories num_classes) memory.alloc num_classes 0 cfg.objects
    let shuffled = random.shuffle Base objects (random.seed cfg.seed)
    let ptrs = shuffled.0
    for_vec ← reserve word (memory.sizeof_virtual_ptr vector_registry) cfg.objects
    for_map ← reserve word (memory.sizeof_virtual_ptr map_registry) cfg.objects
    for_flat ← reserve word (memory.sizeof_virtual_ptr flat_registry) cfg.objects
    for_ind ← reserve word (memory.sizeof_virtual_ptr indirect_registry) cfg.objects
    direct ← build inplace_registry cfg.objects shuffled.1
    indirect ← build inplace_indirect_registry cfg.objects direct.1
    some (record {
      objects = objects;
      ptrs = ptrs;
      vp_vec = map (lib.virtual_ptr vector_registry) ptrs;
      vp_map = map (lib.virtual_ptr map_registry) ptrs;
      vp_flat = map (lib.virtual_ptr flat_registry) ptrs;
      vp_ind = map (lib.virtual_ptr indirect_registry) ptrs;
      ip_direct = direct.0;
      ip_indirect = indirect.0;
      scrub = scrub;
      rng = indirect.1;
      pick_max = cfg.objects - 1;
    })

  -- `env::draw`
  unfoldable pub draw : Env P → ℕ × Env P
  draw e = let drawn = random.pick 0 e.pick_max e.rng in (drawn.0, record e { rng = drawn.1 })
