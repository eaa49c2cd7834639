-- ===== src/Main/Sound.antt =====
-- src/main.cpp: every variant that `main_impl` runs is sound in the environment that the program makes.
use Prim.Native.String.{String}
use text.Mathlib.Text.{◌==◌}
use mathlib.Core.Option as Option
use boost_openmethod_benchma.Common.{
  ℕ, ◌<◌, ◌≡◌, refl, sym, ap, subst, some, [], ◌∷◌, Option, get_elem?, get_elem?-lt, All, All-get,
  if◌then◌else◌,
}
use boost_openmethod_benchma.Library.{
  MainRegistry, InplaceRegistry, inplace_registry, inplace_indirect_registry,
}
use boost_openmethod_benchma.Hierarchy.{Base}
use boost_openmethod_benchma.Hierarchy.Inplace.{IBase}
use boost_openmethod_benchma.Platform.{Platform}
use boost_openmethod_benchma.Env.{Env}
use boost_openmethod_benchma.Env.WellFormed.{IsWellFormed, IsIpopulation}
use boost_openmethod_benchma.OpenMethod.{IsDocumented}
use boost_openmethod_benchma.Registries.Outcomes.{IsObject, IsIobject}
use boost_openmethod_benchma.Variants.{Variant, ip_pop}
use boost_openmethod_benchma.Variants.InplaceUse.{v_ip_vfu1, v_ip_vfu2, v_ip_refu1, v_ip_refu2}
use boost_openmethod_benchma.Variants.Sound.{IsSound, get-vp_array}
use boost_openmethod_benchma.Variants.Sound.Main.{
  v_probe-IsSound, v_direct-IsSound, v_touch1-IsSound, v_touch2-IsSound, v_vf1-IsSound,
  v_vf2-IsSound, v_vfu1-IsSound, v_vfu2-IsSound, v_om_ref1-IsSound, v_om_ref2-IsSound,
  v_om_refu1-IsSound, v_om_refu2-IsSound,
}
use boost_openmethod_benchma.Variants.Sound.Vptr.{
  v_om_vp1-IsSound, v_om_vp2-IsSound, v_om_vpu1-IsSound, v_om_vpu2-IsSound,
}
use boost_openmethod_benchma.Variants.Sound.Inplace.{
  v_ip_touch1-IsSound, v_ip_touch2-IsSound, v_ip_vf1-IsSound, v_ip_vf2-IsSound, v_ip_vfu1-IsSound,
  v_ip_vfu2-IsSound, v_ip_ref1-IsSound, v_ip_ref2-IsSound, v_ip_refu1-IsSound, v_ip_refu2-IsSound,
}
use boost_openmethod_benchma.Main.{omb_run, omb_run_inplace, omb_run_use, variants}
use boost_openmethod_benchma.Main.Blocks.{
  group_of, hier_of, baselines, use_yardsticks, inplace_use, All-variants,
}

-- The address of the object at a position of the population of a hierarchy, by the hierarchy's name.
abbrev pub address : {P : Platform} → Env P → (hier : String) → ℕ → Option ℕ
address e hier k =
    if hier == "main"
    then Option.map (λ (o : Base). o.addr) (get_elem? e.ptrs k)
    else if hier == "inplace"
    then Option.map (λ (o : IBase inplace_registry). o.addr) (get_elem? e.ip_direct.ptrs k)
    else Option.map (λ (o : IBase inplace_indirect_registry). o.addr)
        (get_elem? e.ip_indirect.ptrs k)

-- At the positions `i` and `j` there are objects in the variant's hierarchy, and on these the variant
-- is sound.
pub record IsSoundAt {P : Platform} (e : Env P) (i j : ℕ) (v : Variant P) : Type 0 where
  pub a : ℕ
  pub b : ℕ
  pub at_i : address e v.hier i ≡ some a
  pub at_j : address e v.hier j ≡ some b
  pub sound : IsSound v e i j a b

module _ (P : Platform) (doc : IsDocumented P.lib) (n : ℕ) (e : Env P) (wf : IsWellFormed P n e)
    (i j : ℕ) where
  module _ (oa ob : Base) (at_i : get_elem? e.ptrs i ≡ some oa)
      (at_j : get_elem? e.ptrs j ≡ some ob) (ka : IsObject P.num_classes oa)
      (kb : IsObject P.num_classes ob) where
    main_at :
        (v : Variant P) → v.hier ≡ "main" → IsSound v e i j oa.addr ob.addr → IsSoundAt e i j v
    main_at v h s = record {
      a = oa.addr;
      b = ob.addr;
      at_i =
          subst (λ t. address e t i ≡ some oa.addr) (sym h)
            (ap (Option.map (λ (o : Base). o.addr)) at_i);
      at_j =
          subst (λ t. address e t j ≡ some ob.addr) (sym h)
            (ap (Option.map (λ (o : Base). o.addr)) at_j);
      sound = s;
    }

    omb_run-IsSoundAt : (R : MainRegistry) (G : String) → All (IsSoundAt e i j) (omb_run P R G)
    omb_run-IsSoundAt R G =
        let vi = get-vp_array P n e R i wf at_i in
        let vj = get-vp_array P n e R j wf at_j in
        (
          main_at _ refl (v_om_vp1-IsSound P doc e i j oa ob R G ka kb vi),
          (
            main_at _ refl (v_om_ref1-IsSound P doc e i j oa ob at_i at_j ka kb R G),
            (
              main_at _ refl (v_om_vp2-IsSound P doc e i j oa ob R G ka kb vi vj),
              (main_at _ refl (v_om_ref2-IsSound P doc e i j oa ob at_i at_j ka kb R G), tt),
            ),
          ),
        )

    omb_run_use-IsSoundAt :
        (R : MainRegistry) (G : String) → All (IsSoundAt e i j) (omb_run_use P R G)
    omb_run_use-IsSoundAt R G =
        let vi = get-vp_array P n e R i wf at_i in
        let vj = get-vp_array P n e R j wf at_j in
        (
          main_at _ refl (v_om_vpu1-IsSound P doc e i j oa ob R G ka kb vi),
          (
            main_at _ refl (v_om_refu1-IsSound P doc e i j oa ob at_i at_j ka kb R G),
            (
              main_at _ refl (v_om_vpu2-IsSound P doc e i j oa ob R G ka kb vi vj),
              (main_at _ refl (v_om_refu2-IsSound P doc e i j oa ob at_i at_j ka kb R G), tt),
            ),
          ),
        )

    first-IsSoundAt : All (IsSoundAt e i j) (baselines P)
    first-IsSoundAt = (
      main_at _ refl (v_probe-IsSound P doc e i j oa ob at_i at_j ka kb),
      (
        main_at _ refl (v_direct-IsSound P doc e i j oa ob at_i at_j ka kb),
        (
          main_at _ refl (v_touch1-IsSound P doc e i j oa ob at_i at_j ka kb),
          (
            main_at _ refl (v_touch2-IsSound P doc e i j oa ob at_i at_j ka kb),
            (
              main_at _ refl (v_vf1-IsSound P doc e i j oa ob at_i at_j ka kb),
              (main_at _ refl (v_vf2-IsSound P doc e i j oa ob at_i at_j ka kb), tt),
            ),
          ),
        ),
      ),
    )

    use-IsSoundAt : All (IsSoundAt e i j) (use_yardsticks P)
    use-IsSoundAt = (
      main_at _ refl (v_vfu1-IsSound P doc e i j oa ob at_i at_j ka kb),
      (main_at _ refl (v_vfu2-IsSound P doc e i j oa ob at_i at_j ka kb), tt),
    )

  module _ (R : InplaceRegistry) (oa ob : IBase R)
      (at_i : get_elem? (ip_pop P R e).ptrs i ≡ some oa)
      (at_j : get_elem? (ip_pop P R e).ptrs j ≡ some ob) (ka : IsIobject P.num_classes oa)
      (kb : IsIobject P.num_classes ob) (hier : String) (named_i : address e hier i ≡ some oa.addr)
      (named_j : address e hier j ≡ some ob.addr) where
    ip_at : (v : Variant P) → v.hier ≡ hier → IsSound v e i j oa.addr ob.addr → IsSoundAt e i j v
    ip_at v h s = record {
      a = oa.addr;
      b = ob.addr;
      at_i = subst (λ t. address e t i ≡ some oa.addr) (sym h) named_i;
      at_j = subst (λ t. address e t j ≡ some ob.addr) (sym h) named_j;
      sound = s;
    }

    omb_run_inplace-IsSoundAt : (G : String) → All (IsSoundAt e i j) (omb_run_inplace P R G hier)
    omb_run_inplace-IsSoundAt G = (
      ip_at _ refl (v_ip_touch1-IsSound P doc e i j R oa ob at_i at_j ka kb hier),
      (
        ip_at _ refl (v_ip_touch2-IsSound P doc e i j R oa ob at_i at_j ka kb hier),
        (
          ip_at _ refl (v_ip_vf1-IsSound P doc e i j R oa ob at_i at_j ka kb hier),
          (
            ip_at _ refl (v_ip_vf2-IsSound P doc e i j R oa ob at_i at_j ka kb hier),
            (
              ip_at _ refl (v_ip_ref1-IsSound P doc e i j R oa ob at_i at_j ka kb G hier),
              (ip_at _ refl (v_ip_ref2-IsSound P doc e i j R oa ob at_i at_j ka kb G hier), tt),
            ),
          ),
        ),
      ),
    )

    inplace_use-IsSoundAt :
        (G : String)
        → All (IsSoundAt e i j) (
            v_ip_vfu1 P R hier
            ∷ v_ip_vfu2 P R hier
            ∷ v_ip_refu1 P R G hier
            ∷ v_ip_refu2 P R G hier
            ∷ [])
    inplace_use-IsSoundAt G = (
      ip_at _ refl (v_ip_vfu1-IsSound P doc e i j R oa ob at_i at_j ka kb hier),
      (
        ip_at _ refl (v_ip_vfu2-IsSound P doc e i j R oa ob at_i at_j ka kb hier),
        (
          ip_at _ refl (v_ip_refu1-IsSound P doc e i j R oa ob at_i at_j ka kb G hier),
          (ip_at _ refl (v_ip_refu2-IsSound P doc e i j R oa ob at_i at_j ka kb G hier), tt),
        ),
      ),
    )

  -- the blocks of an inplace registry, at positions of its population
  module _ (R : InplaceRegistry) (wp : IsIpopulation P n (ip_pop P R e))
      (named : (k : ℕ) (o : IBase R)
        → get_elem? (ip_pop P R e).ptrs k ≡ some o
        → address e (hier_of R) k ≡ some o.addr)
      (hi : i < n) (hj : j < n) where
    inplace_blocks-IsSoundAt :
        All (IsSoundAt e i j) (omb_run_inplace P R (group_of R) (hier_of R))
        × All (IsSoundAt e i j) (inplace_use P R)
    inplace_blocks-IsSoundAt =
        let pop = ip_pop P R e in
        let (oa, at_i) = get_elem?-lt pop.ptrs i (subst (λ k. i < k) (sym wp.count) hi) in
        let (ob, at_j) = get_elem?-lt pop.ptrs j (subst (λ k. j < k) (sym wp.count) hj) in
        let ka = All-get (IsIobject P.num_classes) pop.ptrs i wp.objects at_i in
        let kb = All-get (IsIobject P.num_classes) pop.ptrs j wp.objects at_j in
        let named_i = named i oa at_i in
        let named_j = named j ob at_j in
        (
          omb_run_inplace-IsSoundAt R oa ob at_i at_j ka kb (hier_of R) named_i named_j
              (group_of R),
          inplace_use-IsSoundAt R oa ob at_i at_j ka kb (hier_of R) named_i named_j (group_of R),
        )

  inplace-IsSoundAt :
      (R : InplaceRegistry)
      → i < n
      → j < n
      → All (IsSoundAt e i j) (omb_run_inplace P R (group_of R) (hier_of R))
        × All (IsSoundAt e i j) (inplace_use P R)
  inplace-IsSoundAt inplace_registry =
      inplace_blocks-IsSoundAt inplace_registry wf.direct
        (λ k o at. ap (Option.map (λ (o : IBase inplace_registry). o.addr)) at)
  inplace-IsSoundAt inplace_indirect_registry =
      inplace_blocks-IsSoundAt inplace_indirect_registry wf.indirect
        (λ k o at. ap (Option.map (λ (o : IBase inplace_indirect_registry). o.addr)) at)

  -- In an environment that the program makes, with a documented library, every variant that the
  -- program runs is sound at any two positions: its arguments can be prepared; its call only reads
  -- before it stamps; if the variant is said to touch its receivers it reads every object that it
  -- takes, at each of which starts a region that is flushed for it, and if it is said not to, it reads
  -- the library's tables alone.
  pub variants-IsSoundAt : i < n → j < n → All (IsSoundAt e i j) (variants P)
  variants-IsSoundAt hi hj =
      let (a, at_i) = get_elem?-lt e.ptrs i (subst (λ k. i < k) (sym wf.count) hi) in
      let (b, at_j) = get_elem?-lt e.ptrs j (subst (λ k. j < k) (sym wf.count) hj) in
      let ka = All-get (IsObject P.num_classes) e.ptrs i wf.objects at_i in
      let kb = All-get (IsObject P.num_classes) e.ptrs j wf.objects at_j in
      All-variants P (IsSoundAt e i j) (first-IsSoundAt a b at_i at_j ka kb)
        (omb_run-IsSoundAt a b at_i at_j ka kb) (λ R. (inplace-IsSoundAt R hi hj).0)
        (use-IsSoundAt a b at_i at_j ka kb) (omb_run_use-IsSoundAt a b at_i at_j ka kb)
        (λ R. (inplace-IsSoundAt R hi hj).1)
