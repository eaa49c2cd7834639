-- ===== src/Main/Replayable.antt =====
-- src/main.cpp: what `run` changes in the environment does not matter to the variants' arguments.
use boost_openmethod_benchma.Common.{ℕ, ◌≡◌, refl, ap, get_elem?, All}
use boost_openmethod_benchma.Library.{
  MainRegistry, vector_registry, map_registry, flat_registry, indirect_registry, InplaceRegistry,
  inplace_registry, inplace_indirect_registry,
}
use boost_openmethod_benchma.Timing.Scrub.{Scrubber}
use boost_openmethod_benchma.Platform.{Platform}
use boost_openmethod_benchma.Env.{Env}
use boost_openmethod_benchma.Variants.{Variant, both, vp_array, ip_pop}
use boost_openmethod_benchma.Main.{variants}
use boost_openmethod_benchma.Main.Blocks.{All-variants}

-- Neither the random numbers nor the scrubber matter to a variant's arguments.
abbrev pub IsReplayable : {P : Platform} → Env P → Variant P → Type 0
IsReplayable {P} e v =
    (g : P.random.Rng) (s : Scrubber) (i j : ℕ)
    → v.prepare (record e { scrub = s; rng = g }) i j ≡ v.prepare e i j

module _ (P : Platform) (e : Env P) where
  vp_array_kept :
      (R : MainRegistry) (g : P.random.Rng) (s : Scrubber)
      → vp_array P R (record e { scrub = s; rng = g }) ≡ vp_array P R e
  vp_array_kept vector_registry g s = refl
  vp_array_kept map_registry g s = refl
  vp_array_kept flat_registry g s = refl
  vp_array_kept indirect_registry g s = refl

  ip_pop_kept :
      (R : InplaceRegistry) (g : P.random.Rng) (s : Scrubber)
      → ip_pop P R (record e { scrub = s; rng = g }) ≡ ip_pop P R e
  ip_pop_kept inplace_registry g s = refl
  ip_pop_kept inplace_indirect_registry g s = refl

  module _ (R : MainRegistry) (g : P.random.Rng) (s : Scrubber) (i j : ℕ) where
    vp1 :
        get_elem? (vp_array P R (record e { scrub = s; rng = g })) i ≡ get_elem? (vp_array P R e) i
    vp1 = ap (λ ps. get_elem? ps i) (vp_array_kept R g s)

    vp2 :
        both
          (get_elem? (vp_array P R (record e { scrub = s; rng = g })) i)
          (get_elem? (vp_array P R (record e { scrub = s; rng = g })) j)
        ≡ both (get_elem? (vp_array P R e) i) (get_elem? (vp_array P R e) j)
    vp2 = ap (λ ps. both (get_elem? ps i) (get_elem? ps j)) (vp_array_kept R g s)

  module _ (R : InplaceRegistry) (g : P.random.Rng) (s : Scrubber) (i j : ℕ) where
    ip1 :
        get_elem? (ip_pop P R (record e { scrub = s; rng = g })).ptrs i
        ≡ get_elem? (ip_pop P R e).ptrs i
    ip1 = ap (λ pop. get_elem? pop.ptrs i) (ip_pop_kept R g s)

    ip2 :
        both
          (get_elem? (ip_pop P R (record e { scrub = s; rng = g })).ptrs i)
          (get_elem? (ip_pop P R (record e { scrub = s; rng = g })).ptrs j)
        ≡ both (get_elem? (ip_pop P R e).ptrs i) (get_elem? (ip_pop P R e).ptrs j)
    ip2 = ap (λ pop. both (get_elem? pop.ptrs i) (get_elem? pop.ptrs j)) (ip_pop_kept R g s)

  pub variants-IsReplayable : All (IsReplayable e) (variants P)
  variants-IsReplayable =
      All-variants P (IsReplayable e)
        (
          λ g s i j. refl,
          (
            λ g s i j. refl,
            (λ g s i j. refl, (λ g s i j. refl, (λ g s i j. refl, (λ g s i j. refl, tt)))),
          ),
        )
        (λ R G. (vp1 R, (λ g s i j. refl, (vp2 R, (λ g s i j. refl, tt)))))
        (λ R. (ip1 R, (ip2 R, (ip1 R, (ip2 R, (ip1 R, (ip2 R, tt)))))))
        (λ g s i j. refl, (λ g s i j. refl, tt))
        (λ R G. (vp1 R, (λ g s i j. refl, (vp2 R, (λ g s i j. refl, tt)))))
        (λ R. (ip1 R, (ip2 R, (ip1 R, (ip2 R, tt)))))
