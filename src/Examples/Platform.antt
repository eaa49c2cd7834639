-- ===== src/Examples/Platform.antt =====
-- A platform for the examples: three leaf classes, random numbers that do not vary, and a memory map.
use mathlib.Core.List.{Permᴰ}
use boost_openmethod_benchma.Common.{ℕ, ◌+◌, ◌*◌, ◌^◌, ◌<◌, refl, arith, List, [], ◌∷◌}
use boost_openmethod_benchma.Machine.{World}
use boost_openmethod_benchma.Hierarchy.{Base, new_derived}
use boost_openmethod_benchma.Hierarchy.Inplace.{new_iderived}
use boost_openmethod_benchma.Timing.Scrub.{ones}
use boost_openmethod_benchma.Platform.{Random, IsRandom, Memory, Platform}
use boost_openmethod_benchma.Common.Double.{whole_double}
use boost_openmethod_benchma.Timing.Stats.{no_stats}
use boost_openmethod_benchma.Run.{Row}
use boost_openmethod_benchma.Run.Key.{Key}
use boost_openmethod_benchma.Env.{Env}
use boost_openmethod_benchma.Env.WellFormed.{IsWellFormed}
use boost_openmethod_benchma.Variants.Layout.{IsLaidOut}
use boost_openmethod_benchma.Examples.Documented.{searching}

abbrev pub still : Random
still = record {
  Rng = ℕ;
  seed = λ n. n;
  pick = λ low high g. (low, g + 1);
  shuffle = λ A xs g. (xs, g + 1);
}

same-permᴰ : {A : Type 0} (xs : List A) → Permᴰ xs xs
same-permᴰ [] = Permᴰ.nil
same-permᴰ (x ∷ xs) = Permᴰ.cons refl (same-permᴰ xs)

pub still-IsRandom : IsRandom still
still-IsRandom = record {
  pick_range = λ low high g h. (omega arith, h);
  shuffle_perm = λ A xs g. same-permᴰ xs;
}

abbrev pub flat_memory : Memory
flat_memory = record {
  alloc = λ k. 4096 + k * 64;
  ialloc = λ R k. 8192 + k * 64;
  sizeof_base = 16;
  sizeof_ibase = 24;
  sizeof_vptr = 8;
  sizeof_pointer = 8;
  sizeof_virtual_ptr = λ R. 16;
  vtbl = λ c. 65536;
  ivtbl = λ R c. 131072;
  method = λ m R. record { addr = 1024; size = 64 };
  imethod = λ m R. record { addr = 2048; size = 64 };
  dispatch_data = λ R. record { start = 3072; count = 8; width = 8 };
  idispatch_data = λ R. record { start = 3200; count = 8; width = 8 };
  map_vptrs = record { addr = 16384; size = 128 };
  flat_vptrs = record { addr = 16640; size = 128 };
  vector_vptrs = λ R. record { start = 17000; count = 4; width = 8 };
  hash = λ R. record { addr = 18000; size = 32 };
  static_vptr = λ R c. 20000;
  istatic_vptr = λ R c. 21000;
}

abbrev pub bench : Platform
bench = record {
  lib = searching;
  random = still;
  memory = flat_memory;
  num_classes = 3;
  word = 2 ^ 64;
}

pub flat_memory-IsLaidOut : (n : ℕ) → n < 2 ^ 32 → IsLaidOut bench n
flat_memory-IsLaidOut n few = record {
  line = λ k h. omega arith;
  object = λ k h. omega arith;
  vtbl = λ c. omega arith;
  iline = λ R k h. omega arith;
  iobject = λ R k h. omega arith;
  ivtbl = λ R c. omega arith;
  method = λ m R. omega arith;
  imethod = λ m R. omega arith;
  dispatch_data = λ R. omega arith;
  idispatch_data = λ R. omega arith;
  map_vptrs = omega arith;
  flat_vptrs = omega arith;
  vector_vptrs = λ R. omega arith;
  hash = λ R. omega arith;
  static_vptr = λ R c. omega arith;
  istatic_vptr = λ R c. omega arith;
}

abbrev pub first : Base
first = new_derived 0 4096

abbrev pub second : Base
second = new_derived 1 4160

-- the environment of two objects in each population, and some state of the random numbers
abbrev pub two_objects_from : ℕ → Env bench
two_objects_from g = record {
  objects = first ∷ second ∷ [];
  ptrs = first ∷ second ∷ [];
  vp_vec = first ∷ second ∷ [];
  vp_map = first ∷ second ∷ [];
  vp_flat = first ∷ second ∷ [];
  vp_ind = first ∷ second ∷ [];
  ip_direct = record {
    objects = new_iderived 0 8192 ∷ new_iderived 1 8256 ∷ [];
    ptrs = new_iderived 0 8192 ∷ new_iderived 1 8256 ∷ [];
  };
  ip_indirect = record {
    objects = new_iderived 0 8192 ∷ new_iderived 1 8256 ∷ [];
    ptrs = new_iderived 0 8192 ∷ new_iderived 1 8256 ∷ [];
  };
  scrub = ones 67108864;
  rng = g;
  pick_max = 1;
}

abbrev pub two_objects : Env bench
two_objects = two_objects_from 0

pub two_objects_from-IsWellFormed : (g : ℕ) → IsWellFormed bench 2 (two_objects_from g)
two_objects_from-IsWellFormed g = record {
  made = refl;
  shuffled = same-permᴰ (first ∷ second ∷ []);
  count = refl;
  objects = (
    record { leaf_lt = omega arith; tagged = refl },
    (record { leaf_lt = omega arith; tagged = refl }, tt),
  );
  vec = refl;
  in_map = refl;
  flat = refl;
  ind = refl;
  direct = record {
    made = refl;
    shuffled = same-permᴰ (new_iderived 0 8192 ∷ new_iderived 1 8256 ∷ []);
    count = refl;
    objects = (
      record { leaf_lt = omega arith; tagged = refl },
      (record { leaf_lt = omega arith; tagged = refl }, tt),
    );
  };
  indirect = record {
    made = refl;
    shuffled = same-permᴰ (new_iderived 0 8192 ∷ new_iderived 1 8256 ∷ []);
    count = refl;
    objects = (
      record { leaf_lt = omega arith; tagged = refl },
      (record { leaf_lt = omega arith; tagged = refl }, tt),
    );
  };
  draws = refl;
}

pub two_objects-IsWellFormed : IsWellFormed bench 2 two_objects
two_objects-IsWellFormed = two_objects_from-IsWellFormed 0

-- The counter stands at 100 times the number of readings.
abbrev pub ticking : World
ticking = record { clock = λ k. k * 100; readings = 0; log = [] }

-- a row of the key, that measured nothing
abbrev pub row_of : Key → Row ℕ
row_of k = record {
  name = k.name;
  group = k.group;
  hier = k.hier;
  arity = k.arity;
  touches_receiver = k.touches_receiver;
  body = k.body;
  mode = k.mode;
  st = no_stats;
}
