-- ===== src/Examples/Cold.antt =====
-- Examples of what is flushed before a call is timed.
use Prim.Native.String.{String}
use text.Mathlib.Text.{◌==◌}
use boost_openmethod_benchma.Common.{
  ℕ, zero, suc, ◌≡◌, ◌≢◌, ◌<◌, refl, sym, ◌∙◌, get_elem?, false, arith, some, List, [], ◌∷◌, ◌++◌,
  All, Bool-cases, inl, inr,
}
use boost_openmethod_benchma.Common.Int.{pos}
use boost_openmethod_benchma.Machine.{World, Event, load, rdtscp}
use boost_openmethod_benchma.Hierarchy.Calls.{vf-Stamps}
use boost_openmethod_benchma.Timing.Flush.{clflush}
use boost_openmethod_benchma.Timing.Scrub.{ones}
use boost_openmethod_benchma.Variants.{object_regions}
use boost_openmethod_benchma.Variants.Baseline.{v_vf1}
use boost_openmethod_benchma.Run.{measure}
use boost_openmethod_benchma.Run.Cold.{IsColdRegion, measure_cold}
use boost_openmethod_benchma.Main.{variants}
use boost_openmethod_benchma.Main.Sound.{address}
use boost_openmethod_benchma.Main.Mapped.{variants-IsMapped}
use boost_openmethod_benchma.Main.Cold.{MeasuresCold, variants-MeasuresCold}
use boost_openmethod_benchma.Examples.Documented.{searching-IsDocumented}
use boost_openmethod_benchma.Examples.Platform.{
  flat_memory-IsLaidOut, bench, first, two_objects, two_objects-IsWellFormed, ticking,
}

measure_cold_example :
    (cycles : ℕ) × (w' : World) × (before : List Event) × (measure
        (v_vf1 bench)
        clflush
        first
        (ones 256)
        ticking
      ≡ some ((cycles, ones 256), w'))
    × (w'.log ≡ rdtscp ∷ (load 4096 ∷ [] ++ before))
    × All (IsColdRegion before) ((v_vf1 bench).regions first)
unfolding object_regions
measure_cold_example =
    measure_cold (v_vf1 bench) first (pos 0) (load 4096 ∷ []) (ones 256) ticking (vf-Stamps first)
      (omega arith, (omega arith, tt))

-- neither of two addresses is null
two_live : (a b k x : ℕ) → 0 < a → 0 < b → get_elem? (a ∷ b ∷ []) k ≡ some x → x ≢ 0
two_live a b zero x ha hb h null = ground arith
two_live a b (suc zero) x ha hb h null = ground arith
two_live a b (suc (suc k)) x ha hb h null = cc

address_main : (k : ℕ) → address two_objects "main" k ≡ get_elem? (4096 ∷ 4160 ∷ []) k
address_main zero = refl
address_main (suc zero) = refl
address_main (suc (suc k)) = refl

-- the two inplace populations of the example lie at the same addresses
address_inplace :
    (hier : String) (k : ℕ)
    → (hier == "main") ≡ false
    → address two_objects hier k ≡ get_elem? (8192 ∷ 8256 ∷ []) k
address_inplace hier k other = elim (Bool-cases (hier == "inplace")) [
  | inl direct ↦ rw (other, direct) (at k)
  | inr indirect ↦ rw (other, indirect) (at_indirect k)
]
  where
    at : (k : ℕ) → address two_objects "inplace" k ≡ get_elem? (8192 ∷ 8256 ∷ []) k
    at zero = refl
    at (suc zero) = refl
    at (suc (suc k)) = refl

    at_indirect : (k : ℕ) → address two_objects "inplace_ind" k ≡ get_elem? (8192 ∷ 8256 ∷ []) k
    at_indirect zero = refl
    at_indirect (suc zero) = refl
    at_indirect (suc (suc k)) = refl

two_objects_live : (hier : String) (k x : ℕ) → address two_objects hier k ≡ some x → x ≢ 0
two_objects_live hier k x h = elim (Bool-cases (hier == "main")) [
  | inl main ↦
      two_live 4096 4160 k x (omega arith) (omega arith) (sym (rw main (address_main k)) ∙ h)
  | inr other ↦
      two_live 8192 8256 k x (omega arith) (omega arith) (sym (address_inplace hier k other) ∙ h)
]

variants-MeasuresCold_example :
    All (MeasuresCold two_objects 0 1 (ones 256) ticking) (variants bench)
variants-MeasuresCold_example =
    variants-MeasuresCold bench searching-IsDocumented 2 two_objects two_objects-IsWellFormed
      two_objects_live 0 1 (omega arith) (omega arith) (ones 256) ticking
      (variants-IsMapped bench searching-IsDocumented (omega arith) 2
        (flat_memory-IsLaidOut 2 (omega arith)) two_objects two_objects-IsWellFormed
        (0, 1, omega arith, omega arith))
