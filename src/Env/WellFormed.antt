-- ===== src/Env/WellFormed.antt =====
-- src/main.cpp: the environment that `env::env` builds.
use mathlib.Core.List.{Permᴰ}
use native.Mathlib.Nat.{mod-lt}
use boost_openmethod_benchma.Common.{
  ℕ, zero, suc, ◌+◌, ◌-◌, ◌*◌, ◌%◌, ◌≤◌, ◌<◌, ◌≡◌, refl, ap, sym, ◌∙◌, subst, arith, some, List, [],
  ◌∷◌, map, length, All,
}
use boost_openmethod_benchma.Library.{
  MainRegistry, vector_registry, map_registry, flat_registry, indirect_registry, InplaceRegistry,
  inplace_registry, inplace_indirect_registry,
}
use boost_openmethod_benchma.Hierarchy.{Base, new_derived, factories}
use boost_openmethod_benchma.Hierarchy.Indices.{indices_from, get_all}
use boost_openmethod_benchma.Hierarchy.Inplace.{IBase, new_iderived, ifactories}
use boost_openmethod_benchma.Timing.Scrub.{ones, scrubber_lem}
use boost_openmethod_benchma.Vector.{max_size, reserve_lem}
use boost_openmethod_benchma.Platform.{Platform, IsRandom}
use boost_openmethod_benchma.Config.{Config}
use boost_openmethod_benchma.Env.{Env, Ipopulation, populate, build, new_env}
use boost_openmethod_benchma.Registries.Outcomes.{IsObject, IsIobject}

-- objects made round-robin over the leaf classes, `count` of them from the i-th on
abbrev pub round_robin : {A : Type 0} → (ℕ → ℕ → A) → (ℕ → ℕ) → (num_classes i count : ℕ) → List A
round_robin make alloc num_classes i zero = []
round_robin make alloc num_classes i (suc count) =
    make (i % num_classes) (alloc i) ∷ round_robin make alloc num_classes (i + 1) count

populate_lem :
    {A : Type 0} (make : ℕ → ℕ → A) (alloc : ℕ → ℕ) (num_classes i count : ℕ)
    → 0 < num_classes
    → populate (map make (indices_from 0 num_classes)) alloc num_classes i count
      ≡ some (round_robin make alloc num_classes i count)
unfolding populate
populate_lem make alloc num_classes i zero h = refl
populate_lem make alloc num_classes i (suc count) h = rw (
  get_all make num_classes (i % num_classes) (mod-lt i h),
  populate_lem make alloc num_classes (i + 1) count h,
)

pub length-round_robin :
    {A : Type 0} (make : ℕ → ℕ → A) (alloc : ℕ → ℕ) (num_classes i count : ℕ)
    → length (round_robin make alloc num_classes i count) ≡ count
length-round_robin make alloc num_classes i zero = refl
length-round_robin make alloc num_classes i (suc count) =
    ap suc (length-round_robin make alloc num_classes (i + 1) count)

pub All-round_robin :
    {A : Type 0} (Q : A → Type 0) (make : ℕ → ℕ → A) (alloc : ℕ → ℕ) (num_classes i count : ℕ)
    → ((leaf k : ℕ) → leaf < num_classes → k < i + count → Q (make leaf (alloc k)))
    → 0 < num_classes
    → All Q (round_robin make alloc num_classes i count)
All-round_robin Q make alloc num_classes i zero f h = tt
All-round_robin Q make alloc num_classes i (suc count) f h = (
  f (i % num_classes) i (mod-lt i h) (omega arith),
  All-round_robin Q make alloc num_classes (i + 1) count
      (λ leaf k lt near. f leaf k lt (omega arith)) h,
)

pub All-permᴰ : {A : Type 0} (Q : A → Type 0) {xs ys : List A} → Permᴰ xs ys → All Q xs → All Q ys
All-permᴰ Q Permᴰ.nil h = tt
All-permᴰ Q (Permᴰ.cons e p) (q, h) = (subst Q e q, All-permᴰ Q p h)
All-permᴰ Q (Permᴰ.swap e f) (q, (r, h)) = (subst Q f r, (subst Q e q, h))
All-permᴰ Q (Permᴰ.trans p r) h = All-permᴰ Q r (All-permᴰ Q p h)

length-permᴰ : {A : Type 0} {xs ys : List A} → Permᴰ xs ys → length xs ≡ length ys
length-permᴰ Permᴰ.nil = refl
length-permᴰ (Permᴰ.cons e p) = ap suc (length-permᴰ p)
length-permᴰ (Permᴰ.swap e f) = refl
length-permᴰ (Permᴰ.trans p r) = length-permᴰ p ∙ length-permᴰ r

-- A population of `n` objects: round-robin over the leaf classes, then rearranged.
pub record IsIpopulation (P : Platform) {R : InplaceRegistry} (n : ℕ) (pop : Ipopulation R)
    : Type 0 where
  pub made : pop.objects ≡ round_robin new_iderived (P.memory.ialloc R) P.num_classes 0 n
  pub shuffled : Permᴰ pop.objects pop.ptrs
  pub count : length pop.ptrs ≡ n
  pub objects : All (IsIobject P.num_classes) pop.ptrs

-- An environment of `n` objects in each population, with one virtual pointer of each main registry
-- for each pointer, in the pointers' order.
pub record IsWellFormed (P : Platform) (n : ℕ) (e : Env P) : Type 0 where
  pub made : e.objects ≡ round_robin new_derived P.memory.alloc P.num_classes 0 n
  pub shuffled : Permᴰ e.objects e.ptrs
  pub count : length e.ptrs ≡ n
  pub objects : All (IsObject P.num_classes) e.ptrs
  pub vec : e.vp_vec ≡ map (P.lib.virtual_ptr vector_registry) e.ptrs
  pub in_map : e.vp_map ≡ map (P.lib.virtual_ptr map_registry) e.ptrs
  pub flat : e.vp_flat ≡ map (P.lib.virtual_ptr flat_registry) e.ptrs
  pub ind : e.vp_ind ≡ map (P.lib.virtual_ptr indirect_registry) e.ptrs
  pub direct : IsIpopulation P n e.ip_direct
  pub indirect : IsIpopulation P n e.ip_indirect
  pub draws : e.pick_max + 1 ≡ n

-- No vector of the environment is longer than a vector can be.
pub record HasRoom (P : Platform) (cfg : Config) : Type 0 where
  pub pointers : cfg.objects ≤ max_size P.word P.memory.sizeof_pointer
  pub virtual_ptrs :
      (R : MainRegistry) → cfg.objects ≤ max_size P.word (P.memory.sizeof_virtual_ptr R)
  pub bytes : cfg.sweep_mb * 1024 * 1024 % P.word ≤ max_size P.word 1

module _ (P : Platform) (random : IsRandom P.random) (some_class : 0 < P.num_classes) where
  build-IsIpopulation :
      (R : InplaceRegistry) (n : ℕ) (rng : P.random.Rng)
      → n ≤ max_size P.word P.memory.sizeof_pointer
      → (pop : Ipopulation R) × (rng' : P.random.Rng) × (build P R n rng ≡ some (pop, rng'))
        × IsIpopulation P n pop
  unfolding build ifactories
  build-IsIpopulation R n rng room =
      let objects = round_robin new_iderived (P.memory.ialloc R) P.num_classes 0 n in
      let shuffled = P.random.shuffle (IBase R) objects rng in
      let perm = random.shuffle_perm (IBase R) objects rng in
      (
        record { objects = objects; ptrs = shuffled.0 },
        shuffled.1,
        rw (
          reserve_lem P.word P.memory.sizeof_pointer n room,
          populate_lem new_iderived (P.memory.ialloc R) P.num_classes 0 n some_class,
        ),
        record {
          made = refl;
          shuffled = perm;
          count =
              sym (length-permᴰ perm)
              ∙ length-round_robin new_iderived (P.memory.ialloc R) P.num_classes 0 n;
          objects = All-permᴰ (IsIobject P.num_classes) perm (
              All-round_robin (IsIobject P.num_classes) new_iderived (P.memory.ialloc R)
                P.num_classes 0 n (λ leaf k h near. record { leaf_lt = h; tagged = refl })
                some_class);
        },
      )

  -- the constructor, from what the two calls of `build` return
  new_env_of :
      (cfg : Config)
      → let made = round_robin new_derived P.memory.alloc P.num_classes 0 cfg.objects in
        let shuffled = P.random.shuffle Base made (P.random.seed cfg.seed) in
        (direct : Ipopulation inplace_registry) (indirect : Ipopulation inplace_indirect_registry)
        (g h : P.random.Rng)
        → 0 < cfg.objects
        → HasRoom P cfg
        → build P inplace_registry cfg.objects shuffled.1 ≡ some (direct, g)
        → build P inplace_indirect_registry cfg.objects g ≡ some (indirect, h)
        → IsIpopulation P cfg.objects direct
        → IsIpopulation P cfg.objects indirect
        → (e : Env P) × (new_env P cfg ≡ some e)
          × IsWellFormed P cfg.objects e
          × (e.scrub ≡ ones (cfg.sweep_mb * 1024 * 1024 % P.word))
  unfolding new_env factories
  new_env_of cfg direct indirect g h some_object room d i wd wi =
      let made = round_robin new_derived P.memory.alloc P.num_classes 0 cfg.objects in
      let shuffled = P.random.shuffle Base made (P.random.seed cfg.seed) in
      let perm = random.shuffle_perm Base made (P.random.seed cfg.seed) in
      let size = length-round_robin new_derived P.memory.alloc P.num_classes 0 cfg.objects in
      (
        record {
          objects = made;
          ptrs = shuffled.0;
          vp_vec = map (P.lib.virtual_ptr vector_registry) shuffled.0;
          vp_map = map (P.lib.virtual_ptr map_registry) shuffled.0;
          vp_flat = map (P.lib.virtual_ptr flat_registry) shuffled.0;
          vp_ind = map (P.lib.virtual_ptr indirect_registry) shuffled.0;
          ip_direct = direct;
          ip_indirect = indirect;
          scrub = ones (cfg.sweep_mb * 1024 * 1024 % P.word);
          rng = h;
          pick_max = cfg.objects - 1;
        },
        rw (
          scrubber_lem P.word (cfg.sweep_mb * 1024 * 1024 % P.word) room.bytes,
          reserve_lem P.word P.memory.sizeof_pointer cfg.objects room.pointers,
          reserve_lem P.word (P.memory.sizeof_virtual_ptr vector_registry) cfg.objects
              (room.virtual_ptrs vector_registry),
          reserve_lem P.word (P.memory.sizeof_virtual_ptr map_registry) cfg.objects
              (room.virtual_ptrs map_registry),
          reserve_lem P.word (P.memory.sizeof_virtual_ptr flat_registry) cfg.objects
              (room.virtual_ptrs flat_registry),
          reserve_lem P.word (P.memory.sizeof_virtual_ptr indirect_registry) cfg.objects
              (room.virtual_ptrs indirect_registry),
          populate_lem new_derived P.memory.alloc P.num_classes 0 cfg.objects some_class,
          d,
          i,
        ),
        record {
          made = refl;
          shuffled = perm;
          count = sym (length-permᴰ perm) ∙ size;
          objects = All-permᴰ (IsObject P.num_classes) perm (
              All-round_robin (IsObject P.num_classes) new_derived P.memory.alloc P.num_classes 0
                cfg.objects (λ leaf k h near. record { leaf_lt = h; tagged = refl }) some_class);
          vec = refl;
          in_map = refl;
          flat = refl;
          ind = refl;
          direct = wd;
          indirect = wi;
          draws = omega arith;
        },
        refl,
      )

  -- With at least one leaf class and one object, where no vector gets longer than a vector can be, and
  -- with random numbers that keep their ranges and only rearrange, the environment is built: each
  -- population holds the requested number of objects, made round-robin over the leaf classes and then
  -- rearranged, every `virtual_ptr` refers to the object at its own position, and draws are bounded by
  -- the last position. The scrubber has the requested size, cut to the width of `std::size_t`.
  pub new_env-IsWellFormed :
      (cfg : Config)
      → 0 < cfg.objects
      → HasRoom P cfg
      → (e : Env P) × (new_env P cfg ≡ some e)
        × IsWellFormed P cfg.objects e
        × (e.scrub ≡ ones (cfg.sweep_mb * 1024 * 1024 % P.word))
  new_env-IsWellFormed cfg some_object room =
      let made = round_robin new_derived P.memory.alloc P.num_classes 0 cfg.objects in
      let shuffled = P.random.shuffle Base made (P.random.seed cfg.seed) in
      let (direct, g, d, wd) =
        build-IsIpopulation inplace_registry cfg.objects shuffled.1 room.pointers in
      let (indirect, h, i, wi) =
        build-IsIpopulation inplace_indirect_registry cfg.objects g room.pointers in
      new_env_of cfg direct indirect g h some_object room d i wd wi
