-- ===== src/Main/Mapped.antt =====
-- src/main.cpp: what the program flushes ends before the last line of memory.
use Prim.Native.String.{String}
use boost_openmethod_benchma.Common.{
  ℕ, ◌<◌, ◌≡◌, ap, sym, subst, ◌∙◌, Option, none, some, List, ◌∷◌, ◌++◌, get_elem?, get_elem?-lt,
  All, All-append, All-get,
}
use mathlib.Core.Option.{some-injective}
use boost_openmethod_benchma.Library.{
  MainRegistry, InplaceRegistry, inplace_registry, inplace_indirect_registry,
}
use boost_openmethod_benchma.Hierarchy.{Base}
use boost_openmethod_benchma.Hierarchy.Inplace.{IBase}
use boost_openmethod_benchma.Timing.Flush.{Region}
use boost_openmethod_benchma.Timing.Scrub.{Fits}
use boost_openmethod_benchma.Platform.{Platform, MainMethod, InplaceMethod}
use boost_openmethod_benchma.OpenMethod.{IsDocumented}
use boost_openmethod_benchma.Env.{Env}
use boost_openmethod_benchma.Env.WellFormed.{IsWellFormed, IsIpopulation}
use boost_openmethod_benchma.Registries.Regions.{registry_regions, inplace_registry_regions}
use boost_openmethod_benchma.Variants.{both, vp_array, ip_pop, base_regions, ibase_regions}
use boost_openmethod_benchma.Variants.Sound.{get-vp_array}
use boost_openmethod_benchma.Variants.Layout.{
  IsLaidOut, registry_regions-Fits, inplace_registry_regions-Fits, base_regions-Fits,
  ibase_regions-Fits,
}
use boost_openmethod_benchma.Main.{omb_run, omb_run_inplace, omb_run_use, variants}
use boost_openmethod_benchma.Main.Blocks.{group_of, hier_of, inplace_use, All-variants}
use boost_openmethod_benchma.Main.Total.{Positions, IsMapped}

both-eq :
    {A : Type 0} (o o' : Option A) {p : A × A}
    → both o o' ≡ some p
    → (o ≡ some p.0) × (o' ≡ some p.1)
both-eq (some a) (some b) h = (cc, cc)
both-eq (some a) none h = cc
both-eq none o' h = cc

module _ (P : Platform) (doc : IsDocumented P.lib) (some_class : 0 < P.num_classes) (n : ℕ)
    (laid : IsLaidOut P n) (e : Env P) (wf : IsWellFormed P n e) (p : Positions n) where
  abbrev AllFit : List Region → Type 0
  AllFit = All (Fits P.word)

  -- the regions of the object behind a pointer, and behind a virtual pointer, of the arrays
  at_ptr : (k : ℕ) (a : Base) → get_elem? e.ptrs k ≡ some a → AllFit (base_regions P a)
  at_ptr k a at =
      All-get (λ o. AllFit (base_regions P o)) e.ptrs k (base_regions-Fits P n laid some_class e wf)
        at

  at_vp :
      (R : MainRegistry) (k : ℕ) (a : P.lib.VirtualPtr R)
      → k < n
      → get_elem? (vp_array P R e) k ≡ some a
      → AllFit (base_regions P (P.lib.get R a))
  at_vp R k a lt at =
      let (o, there) = get_elem?-lt e.ptrs k (subst (λ c. k < c) (sym wf.count) lt) in
      let pointer : P.lib.virtual_ptr R o ≡ a =
        some-injective _ _ (sym (get-vp_array P n e R k wf there) ∙ at) in
      let object : o ≡ P.lib.get R a = sym (doc.get-virtual_ptr R o) ∙ ap (P.lib.get R) pointer in
      subst (λ x. AllFit (base_regions P x)) object (at_ptr k o there)

  at_iptr :
      (R : InplaceRegistry) (k : ℕ) (a : IBase R)
      → get_elem? (ip_pop P R e).ptrs k ≡ some a
      → AllFit (ibase_regions P a)
  at_iptr R k a at =
      All-get (λ o. AllFit (ibase_regions P o)) (ip_pop P R e).ptrs k
        (ibase_regions-Fits P n laid some_class R (ip_pop P R e) (population R)) at
    where
      population : (R : InplaceRegistry) → IsIpopulation P n (ip_pop P R e)
      population inplace_registry = wf.direct
      population inplace_indirect_registry = wf.indirect

  -- the regions of a method's call behind those of its arguments
  of_method :
      (m : MainMethod) (R : MainRegistry)
      → AllFit (P.memory.method m R ∷ registry_regions P.memory P.num_classes R)
  of_method m R = (laid.method m R, registry_regions-Fits P n laid R)

  of_imethod :
      (m : InplaceMethod) (R : InplaceRegistry)
      → AllFit (P.memory.imethod m R ∷ inplace_registry_regions P.memory P.num_classes R)
  of_imethod m R = (laid.imethod m R, inplace_registry_regions-Fits P n laid R)

  two : (rs ss : List Region) → AllFit rs → AllFit ss → AllFit (rs ++ ss)
  two rs ss = All-append (Fits P.word) rs ss

  three : (rs ss ts : List Region) → AllFit rs → AllFit ss → AllFit ts → AllFit (rs ++ ss ++ ts)
  three rs ss ts h k l = two (rs ++ ss) ts (two rs ss h k) l

  -- a pair of arguments from two arrays
  pair :
      {A : Type 0} (xs : List A) (regions : A → List Region)
      → ((k : ℕ) (a : A) → k < n → get_elem? xs k ≡ some a → AllFit (regions a))
      → (q : A × A) → both (get_elem? xs p.0) (get_elem? xs p.1) ≡ some q
      → AllFit (regions q.0) × AllFit (regions q.1)
  pair xs regions each q at =
      let (first, second) = both-eq (get_elem? xs p.0) (get_elem? xs p.1) at in
      (each p.0 q.0 p.2 first, each p.1 q.1 p.3 second)

  pair_of_ptrs :
      (q : Base × Base)
      → both (get_elem? e.ptrs p.0) (get_elem? e.ptrs p.1) ≡ some q
      → AllFit (base_regions P q.0) × AllFit (base_regions P q.1)
  pair_of_ptrs = pair e.ptrs (base_regions P) (λ k a _ at. at_ptr k a at)

  pair_of_iptrs :
      (R : InplaceRegistry) (q : IBase R × IBase R)
      → both (get_elem? (ip_pop P R e).ptrs p.0) (get_elem? (ip_pop P R e).ptrs p.1) ≡ some q
      → AllFit (ibase_regions P q.0) × AllFit (ibase_regions P q.1)
  pair_of_iptrs R = pair (ip_pop P R e).ptrs (λ o. ibase_regions P o) (λ k a _ at. at_iptr R k a at)

  -- a call by reference on one object and on two, by `virtual_ptr`, and on the inplace hierarchies
  ref1 :
      (m : MainMethod) (R : MainRegistry) (a : Base)
      → get_elem? e.ptrs p.0 ≡ some a
      → AllFit
          (base_regions P a ++ (P.memory.method m R ∷ registry_regions P.memory P.num_classes R))
  ref1 m R a at = two (base_regions P a) _ (at_ptr p.0 a at) (of_method m R)

  ref2 :
      (m : MainMethod) (R : MainRegistry) (q : Base × Base)
      → both (get_elem? e.ptrs p.0) (get_elem? e.ptrs p.1) ≡ some q
      → AllFit (
          base_regions P q.0
          ++ base_regions P q.1
          ++ (P.memory.method m R ∷ registry_regions P.memory P.num_classes R))
  ref2 m R q at =
      let (h, k) = pair_of_ptrs q at in
      three (base_regions P q.0) (base_regions P q.1) _ h k (of_method m R)

  vp1 :
      (m : MainMethod) (R : MainRegistry) (a : P.lib.VirtualPtr R)
      → get_elem? (vp_array P R e) p.0 ≡ some a
      → AllFit (
          base_regions P (P.lib.get R a)
          ++ (P.memory.method m R ∷ registry_regions P.memory P.num_classes R))
  vp1 m R a at = two (base_regions P (P.lib.get R a)) _ (at_vp R p.0 a p.2 at) (of_method m R)

  vp2 :
      (m : MainMethod) (R : MainRegistry) (q : P.lib.VirtualPtr R × P.lib.VirtualPtr R)
      → both (get_elem? (vp_array P R e) p.0) (get_elem? (vp_array P R e) p.1) ≡ some q
      → AllFit (
          base_regions P (P.lib.get R q.0)
          ++ base_regions P (P.lib.get R q.1)
          ++ (P.memory.method m R ∷ registry_regions P.memory P.num_classes R))
  vp2 m R q at =
      let (h, k) =
        pair (vp_array P R e) (λ a. base_regions P (P.lib.get R a))
          (λ k a lt there. at_vp R k a lt there) q at in
      three (base_regions P (P.lib.get R q.0)) (base_regions P (P.lib.get R q.1)) _ h k
        (of_method m R)

  touch2 :
      (q : Base × Base)
      → both (get_elem? e.ptrs p.0) (get_elem? e.ptrs p.1) ≡ some q
      → AllFit (base_regions P q.0 ++ base_regions P q.1)
  touch2 q at = let (h, k) = pair_of_ptrs q at in two (base_regions P q.0) (base_regions P q.1) h k

  itouch2 :
      (R : InplaceRegistry) (q : IBase R × IBase R)
      → both (get_elem? (ip_pop P R e).ptrs p.0) (get_elem? (ip_pop P R e).ptrs p.1) ≡ some q
      → AllFit (ibase_regions P q.0 ++ ibase_regions P q.1)
  itouch2 R q at =
      let (h, k) = pair_of_iptrs R q at in two (ibase_regions P q.0) (ibase_regions P q.1) h k

  iref1 :
      (m : InplaceMethod) (R : InplaceRegistry) (a : IBase R)
      → get_elem? (ip_pop P R e).ptrs p.0 ≡ some a
      → AllFit (
          ibase_regions P a
          ++ (P.memory.imethod m R ∷ inplace_registry_regions P.memory P.num_classes R))
  iref1 m R a at = two (ibase_regions P a) _ (at_iptr R p.0 a at) (of_imethod m R)

  iref2 :
      (m : InplaceMethod) (R : InplaceRegistry) (q : IBase R × IBase R)
      → both (get_elem? (ip_pop P R e).ptrs p.0) (get_elem? (ip_pop P R e).ptrs p.1) ≡ some q
      → AllFit (
          ibase_regions P q.0
          ++ ibase_regions P q.1
          ++ (P.memory.imethod m R ∷ inplace_registry_regions P.memory P.num_classes R))
  iref2 m R q at =
      let (h, k) = pair_of_iptrs R q at in
      three (ibase_regions P q.0) (ibase_regions P q.1) _ h k (of_imethod m R)

  omb_run-IsMapped : (R : MainRegistry) (G : String) → All (IsMapped n e p) (omb_run P R G)
  omb_run-IsMapped R G = (
    vp1 MainMethod.poke_vp R,
    (
      ref1 MainMethod.poke_ref R,
      (vp2 MainMethod.collide_vp R, (ref2 MainMethod.collide_ref R, tt)),
    ),
  )

  omb_run_use-IsMapped : (R : MainRegistry) (G : String) → All (IsMapped n e p) (omb_run_use P R G)
  omb_run_use-IsMapped R G = (
    vp1 MainMethod.pokeu_vp R,
    (
      ref1 MainMethod.pokeu_ref R,
      (vp2 MainMethod.collideu_vp R, (ref2 MainMethod.collideu_ref R, tt)),
    ),
  )

  omb_run_inplace-IsMapped :
      (R : InplaceRegistry) (G H : String) → All (IsMapped n e p) (omb_run_inplace P R G H)
  omb_run_inplace-IsMapped R G H = (
    at_iptr R p.0,
    (
      itouch2 R,
      (
        at_iptr R p.0,
        (itouch2 R, (iref1 InplaceMethod.ipoke_ref R, (iref2 InplaceMethod.icollide_ref R, tt))),
      ),
    ),
  )

  inplace_use-IsMapped : (R : InplaceRegistry) → All (IsMapped n e p) (inplace_use P R)
  inplace_use-IsMapped R = (
    at_iptr R p.0,
    (itouch2 R, (iref1 InplaceMethod.ipokeu_ref R, (iref2 InplaceMethod.icollideu_ref R, tt))),
  )

  -- In an environment that the program makes, with a leaf class and a documented library, where the
  -- layout keeps the last line of memory free of what is flushed, the regions of the arguments of
  -- every variant, at any two positions, end a line before the end of memory.
  pub variants-IsMapped : All (IsMapped n e p) (variants P)
  variants-IsMapped =
      All-variants P (IsMapped n e p)
        (λ a at. tt, (at_ptr p.0, (at_ptr p.0, (touch2, (at_ptr p.0, (touch2, tt))))))
        omb_run-IsMapped (λ R. omb_run_inplace-IsMapped R (group_of R) (hier_of R))
        (at_ptr p.0, (touch2, tt)) omb_run_use-IsMapped inplace_use-IsMapped
