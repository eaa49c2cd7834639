-- ===== src/Variants/Sound.antt =====
-- What is asked of a variant: that its call stamps once and last, and touches the objects that the
-- flag `touches_receiver` says.
pub mod Main
pub mod Vptr
pub mod Inplace
use mathlib.Core.Path.{subst}
use boost_openmethod_benchma.Common.{
  ℕ, ◌+◌, ◌≤◌, ◌<◌, ◌≡◌, ap, arith, refl, ◌∙◌, Bool, true, false, some, List, [], ◌∷◌, ◌++◌,
  get_elem?, get_elem?-map, All, All-append, inl, inr, ◌⊎◌,
}
use boost_openmethod_benchma.Common.Int.{ℤ}
use boost_openmethod_benchma.Machine.{Event, load, table}
use boost_openmethod_benchma.Library.{
  MainRegistry, vector_registry, map_registry, flat_registry, indirect_registry,
}
use boost_openmethod_benchma.Hierarchy.{Base}
use boost_openmethod_benchma.Timing.Flush.{Occurs, Region}
use boost_openmethod_benchma.Timing.Stamp.{Stamps, IsRead}
use boost_openmethod_benchma.Platform.{Platform}
use boost_openmethod_benchma.Env.{Env}
use boost_openmethod_benchma.Env.WellFormed.{IsWellFormed}
use boost_openmethod_benchma.OpenMethod.{IsTable}
use boost_openmethod_benchma.Variants.{Variant, vp_array, object_regions}

-- One of the regions starts at the address, and is not empty.
abbrev pub Starts : ℕ → List Region → Type 0
Starts x [] = ⊥
Starts x (r ∷ rs) = ((r.addr ≡ x) × (0 < r.size)) ⊎ Starts x rs

Starts-append_left : (x : ℕ) (rs ss : List Region) → Starts x rs → Starts x (rs ++ ss)
Starts-append_left x [] ss h = absurd h
Starts-append_left x (r ∷ rs) ss (inl h) = inl h
Starts-append_left x (r ∷ rs) ss (inr h) = inr (Starts-append_left x rs ss h)

Starts-append_right : (x : ℕ) (rs ss : List Region) → Starts x ss → Starts x (rs ++ ss)
Starts-append_right x [] ss h = h
Starts-append_right x (r ∷ rs) ss h = inr (Starts-append_right x rs ss h)

-- An object lies in its own regions, wherever these stand among those of a call.
pub Starts-alone : (p sizeof u : ℕ) → Starts p (object_regions p sizeof u)
unfolding object_regions
Starts-alone p sizeof u = inl (ground arith)

pub Starts-before :
    (p sizeof u : ℕ) (rest : List Region) → Starts p (object_regions p sizeof u ++ rest)
Starts-before p sizeof u rest =
    Starts-append_left p (object_regions p sizeof u) rest (Starts-alone p sizeof u)

pub Starts-pair :
    (p q sizeof u v : ℕ)
    → Starts p (object_regions p sizeof u ++ object_regions q sizeof v)
      × Starts q (object_regions p sizeof u ++ object_regions q sizeof v)
Starts-pair p q sizeof u v = (
  Starts-before p sizeof u (object_regions q sizeof v),
  Starts-append_right q (object_regions p sizeof u) (object_regions q sizeof v)
      (Starts-alone q sizeof v),
)

pub Starts-pair_before :
    (p q sizeof u v : ℕ) (rest : List Region)
    → Starts p (object_regions p sizeof u ++ object_regions q sizeof v ++ rest)
      × Starts q (object_regions p sizeof u ++ object_regions q sizeof v ++ rest)
Starts-pair_before p q sizeof u v rest =
    let both_of = object_regions p sizeof u ++ object_regions q sizeof v in
    let (first, second) = Starts-pair p q sizeof u v in
    (Starts-append_left p both_of rest first, Starts-append_left q both_of rest second)

-- At the positions `i` and `j` of the variant's population, which hold objects at the addresses `a`
-- and `b`, the arguments can be prepared, and the call stamps behind some reads. If the flag says
-- that it touches the receiver, it reads every object that it takes, and at each of these
-- starts a region that is flushed for it; if not, it reads none.
pub record IsSound {P : Platform} (v : Variant P) (e : Env P) (i j a b : ℕ) : Type 0 where
  pub args : v.Args
  pub prepared : v.prepare e i j ≡ some args
  pub id : ℤ
  pub reads : List Event
  pub stamps : Stamps (v.call args) id reads
  pub only_reads : All IsRead reads
  pub touches :
      v.touches_receiver ≡ true → Occurs (load a) reads × (v.arity ≡ 2 → Occurs (load b) reads)
  pub untouched : v.touches_receiver ≡ false → All IsTable reads
  pub evicts :
      v.touches_receiver ≡ true
      → Starts a (v.regions args) × (v.arity ≡ 2 → Starts b (v.regions args))

pub IsRead-load : (a : ℕ) → IsRead (load a)
IsRead-load a = inl (a, refl)

pub IsRead-of_table : (e : Event) → IsTable e → IsRead e
IsRead-of_table e (a, eq) = inr (a, eq)

-- a virtual pointer of each registry to the object at a position
pub get-vp_array :
    (P : Platform) (n : ℕ) (e : Env P) (R : MainRegistry) (i : ℕ) {o : Base}
    → IsWellFormed P n e
    → get_elem? e.ptrs i ≡ some o
    → get_elem? (vp_array P R e) i ≡ some (P.lib.virtual_ptr R o)
get-vp_array P n e vector_registry i wf h =
    ap (λ l. get_elem? l i) wf.vec ∙ get_elem?-map (P.lib.virtual_ptr vector_registry) e.ptrs i h
get-vp_array P n e map_registry i wf h =
    ap (λ l. get_elem? l i) wf.in_map ∙ get_elem?-map (P.lib.virtual_ptr map_registry) e.ptrs i h
get-vp_array P n e flat_registry i wf h =
    ap (λ l. get_elem? l i) wf.flat ∙ get_elem?-map (P.lib.virtual_ptr flat_registry) e.ptrs i h
get-vp_array P n e indirect_registry i wf h =
    ap (λ l. get_elem? l i) wf.ind ∙ get_elem?-map (P.lib.virtual_ptr indirect_registry) e.ptrs i h
