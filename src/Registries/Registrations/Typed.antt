-- ===== src/Registries/Registrations/Typed.antt =====
-- src/registries.hpp and src/use_methods.hpp: what is registered is well typed.
use boost_openmethod_benchma.Common.{
  ℕ, zero, suc, ◌<◌, ◌≡◌, ◌∙◌, refl, sym, ap, subst, arith, inl, inr, List, [], ◌∷◌, ◌++◌, map,
  length, get_elem?, All, All-map, All-map_of, All-concat, ◌==◌, Bool-cases, ==_iff,
}
use boost_openmethod_benchma.Machine.{M}
use boost_openmethod_benchma.Library.{Class, base, derived, IsBest, MainRegistry, InplaceRegistry}
use boost_openmethod_benchma.Hierarchy.Indices.{indices_from, get_all, All-indices}
use boost_openmethod_benchma.Timing.Tsc.{StampId}
use mathlib.Core.List.{map-map, append-nil}
use boost_openmethod_benchma.Hierarchy.Inplace.{IBase, new_iderived, ifactories}
use boost_openmethod_benchma.OpenMethod.{OpenMethod, iclass_of}
use boost_openmethod_benchma.Platform.{
  MainMethod, poke_ref, poke_vp, collide_ref, collide_vp, pokeu_ref, pokeu_vp, collideu_ref,
  collideu_vp, InplaceMethod, ipoke_ref, icollide_ref, ipokeu_ref, icollideu_ref,
}
use boost_openmethod_benchma.Registries.Overriders.{monadic, dyadic}
use boost_openmethod_benchma.Registries.Inplace.{
  icollide_ref_base, icollideu_ref_base, ipoke_ref_impl, icollide_ref_impl, ipokeu_ref_impl,
  icollideu_ref_impl,
}
use boost_openmethod_benchma.Registries.Dispatch.{
  one, two, pairs, IsBest-one, IsBest-diagonal, IsBest-catch_all, specs-dyadic,
}
use boost_openmethod_benchma.Registries.{
  collide_ref_base, collide_vp_base, derived_list, class_list, poke_ref_impl, poke_vp_impl,
  collide_ref_impl, collide_vp_impl,
}
use boost_openmethod_benchma.UseMethods.{
  collideu_ref_base, collideu_vp_base, pokeu_ref_impl, pokeu_vp_impl, collideu_ref_impl,
  collideu_vp_impl,
}
use boost_openmethod_benchma.Registries.Dispatch.{specs-monadic}
use boost_openmethod_benchma.Registries.Registrations.{
  registered, constructed, arity, iarity, specs_of, omb_register, omb_register_use,
  omb_register_inplace, omb_register_use_inplace, OneBest, tuples, IsRegistered, IsMethod, IsTyped,
  Overrides,
}

IsBest-unique :
    {specs : List (List Class)} {dynamic : List Class} {j k : ℕ}
    → IsBest specs dynamic j
    → IsBest specs dynamic k
    → j ≡ k
IsBest-unique {j = j} {k = k} b c = elim (c.better j b.spec b.found b.applies) [
  | inl e ↦ e
  | inr c_better ↦ elim (b.better k c.spec c.found c.applies) [
    | inl e ↦ sym e
    | inr b_better ↦ absurd (c_better.1 b_better.0)
  ]
]

one_best :
    {specs : List (List Class)} {dynamic : List Class} (k : ℕ)
    → IsBest specs dynamic k
    → OneBest specs dynamic
one_best k b = (k, b, λ j c. IsBest-unique c b)

abbrev IsLeaf : ℕ → Class → Type 0
IsLeaf n c = (i : ℕ) × (i < n) × (c ≡ derived i)

derived_list-IsLeaf : (n : ℕ) → All (IsLeaf n) (derived_list n)
derived_list-IsLeaf n = All-indices (IsLeaf n) derived n (λ i h. (i, h, refl))

-- every tuple has its length, and its classes are of the list
tuples-Fit :
    (P : Class → Type 0) (n : ℕ) (cs : List Class)
    → All P cs
    → All (λ t. (length t ≡ n) × All P t) (tuples n cs)
tuples-Fit P zero cs h = ((refl, tt), tt)
tuples-Fit P (suc n) cs h =
    let Fits : ℕ → List Class → Type 0 = λ m t. (length t ≡ m) × All P t in
    All-concat (Fits (suc n)) (map (λ c. map (◌∷◌ c) (tuples n cs)) cs) (
      All-map_of (All (Fits (suc n))) (λ c. map (◌∷◌ c) (tuples n cs)) cs
        (All-map
          (λ c p.
            All-map_of (Fits (suc n)) (◌∷◌ c) (tuples n cs)
              (All-map (λ t f. (ap suc f.0, (p, f.1))) (tuples n cs) (tuples-Fit P n cs h)))
          cs h))

one-OneBest :
    (n : ℕ) (t : List Class)
    → (length t ≡ 1) × All (IsLeaf n) t
    → OneBest (map one (indices_from 0 n)) t
one-OneBest n [] (e, h) = absurd (omega (arith, e))
one-OneBest n (c ∷ []) (e, ((i, l, s), _)) =
    subst (λ z. OneBest (map one (indices_from 0 n)) (z ∷ [])) (sym s)
      (one_best i (IsBest-one n i l))
one-OneBest n (c ∷ d ∷ t) (e, h) = absurd (omega (arith, e))

two-OneBest : (n : ℕ) (t : List Class) → (length t ≡ 2) × All (IsLeaf n) t → OneBest (pairs n) t
two-OneBest n [] (e, h) = absurd (omega (arith, e))
two-OneBest n (c ∷ []) (e, h) = absurd (omega (arith, e))
two-OneBest n (c ∷ d ∷ []) (e, ((i, l, s), ((j, m, t), _))) =
    subst (λ z. OneBest (pairs n) (z ∷ d ∷ [])) (sym s)
      (subst (λ z. OneBest (pairs n) (derived i ∷ z ∷ [])) (sym t) leaves)
  where
    leaves : OneBest (pairs n) (derived i ∷ derived j ∷ [])
    leaves = elim (Bool-cases (i == j)) [
      | inl same ↦
          subst (λ z. OneBest (pairs n) (derived i ∷ derived z ∷ [])) ((==_iff i j).0 same)
            (one_best (suc i) (IsBest-diagonal n i l))
      | inr other ↦ one_best 0 (IsBest-catch_all n i j (λ e. ground arith))
    ]
two-OneBest n (c ∷ d ∷ f ∷ t) (e, h) = absurd (omega (arith, e))

module _ (classes : List Class) (n : ℕ) (root : IsRegistered classes base)
    (leaf : (i : ℕ) → i < n → IsRegistered classes (derived i)) where
  monadic-IsMethod :
      {A : Type 0} (impl : ℕ → A → M StampId) → IsMethod classes n 1 (specs_of (monadic impl n))
  monadic-IsMethod impl = subst (IsMethod classes n 1) (sym (specs-monadic impl n)) (record {
    shaped =
        All-indices (λ s. (length s ≡ 1) × All (IsRegistered classes) s) one n
          (λ i h. (refl, (leaf i h, tt)));
    decided =
        All-map (one-OneBest n) (tuples 1 (derived_list n))
          (tuples-Fit (IsLeaf n) 1 (derived_list n) (derived_list-IsLeaf n));
  })

  dyadic-IsMethod :
      {A : Type 0} (catch_all : A → M StampId) (impl : ℕ → A → M StampId)
      → IsMethod classes n 2 (specs_of (dyadic catch_all impl n))
  dyadic-IsMethod catch_all impl =
      subst (IsMethod classes n 2) (sym (specs-dyadic catch_all impl n)) (record {
        shaped = (
          (refl, (root, (root, tt))),
          All-indices (λ s. (length s ≡ 2) × All (IsRegistered classes) s) two n
              (λ i h. (refl, (leaf i h, (leaf i h, tt)))),
        );
        decided =
            All-map (two-OneBest n) (tuples 2 (derived_list n))
              (tuples-Fit (IsLeaf n) 2 (derived_list n) (derived_list-IsLeaf n));
      })

-- what `registered` gives for the registrations of a main registry
abbrev main_classes : ℕ → MainRegistry → List Class
main_classes n R = (class_list n R).0 ++ []

-- For every registry of the main hierarchy, what OMB_REGISTER and OMB_REGISTER_USE register: exactly the
-- root and all leaf classes, with this registry; every overrider of a method has as many
-- parameter classes as the method has virtual parameters, all of them are registered by the two macros,
-- and for every tuple of leaf classes exactly one overrider is the best; each of the eight methods has
-- its overriders.
pub registrations-IsTyped :
    (lib : OpenMethod) (num_classes : ℕ) (R : MainRegistry)
    → let regs = omb_register lib num_classes R ++ omb_register_use lib num_classes R in
      All (IsTyped arity R num_classes (registered regs)) regs
      × ((m : MainMethod) → Overrides regs m)
unfolding omb_register omb_register_use
registrations-IsTyped lib n R = (
  (
    refl,
    (
      monadic-IsMethod (main_classes n R) n root leaf (poke_ref_impl lib R),
      (
        monadic-IsMethod (main_classes n R) n root leaf (poke_vp_impl lib R),
        (
          dyadic-IsMethod (main_classes n R) n root leaf (collide_ref_base lib R)
              (collide_ref_impl lib R),
          (
            dyadic-IsMethod (main_classes n R) n root leaf (collide_vp_base lib R)
                (collide_vp_impl lib R),
            (
              monadic-IsMethod (main_classes n R) n root leaf (pokeu_ref_impl lib R),
              (
                monadic-IsMethod (main_classes n R) n root leaf (pokeu_vp_impl lib R),
                (
                  dyadic-IsMethod (main_classes n R) n root leaf (collideu_ref_base lib R)
                      (collideu_ref_impl lib R),
                  (
                    dyadic-IsMethod (main_classes n R) n root leaf (collideu_vp_base lib R)
                        (collideu_vp_impl lib R),
                    tt,
                  ),
                ),
              ),
            ),
          ),
        ),
      ),
    ),
  ),
  overrides,
)
  where
    kept : (i : ℕ) → i < n → IsRegistered (class_list n R).0 (derived i)
    kept i h = (suc i, get_all derived n i h)

    root : IsRegistered (main_classes n R) base
    root = (0, refl)

    leaf : (i : ℕ) → i < n → IsRegistered (main_classes n R) (derived i)
    leaf i h =
        subst (λ cs. IsRegistered cs (derived i)) (sym (append-nil (class_list n R).0)) (kept i h)

    overrides : (m : MainMethod) → Overrides (omb_register lib n R ++ omb_register_use lib n R) m
    overrides poke_ref = (1, (_, refl))
    overrides poke_vp = (2, (_, refl))
    overrides collide_ref = (3, (_, refl))
    overrides collide_vp = (4, (_, refl))
    overrides pokeu_ref = (5, (_, refl))
    overrides pokeu_vp = (6, (_, refl))
    overrides collideu_ref = (7, (_, refl))
    overrides collideu_vp = (8, (_, refl))

-- For every registry of an inplace hierarchy, what OMB_REGISTER_INPLACE and OMB_REGISTER_USE_INPLACE
-- register: the same of its four methods, by reference, where the registered classes are those that the
-- factories construct.
pub inplace_registrations-IsTyped :
    (lib : OpenMethod) (num_classes : ℕ) (R : InplaceRegistry)
    → let regs =
        omb_register_inplace lib num_classes R ++ omb_register_use_inplace lib num_classes R in
      All (IsTyped iarity R num_classes (constructed num_classes R)) regs
      × ((m : InplaceMethod) → Overrides regs m)
unfolding omb_register_inplace omb_register_use_inplace ifactories
inplace_registrations-IsTyped lib n R = (
  (
    monadic-IsMethod (constructed n R) n (0, refl) leaf (ipoke_ref_impl R),
    (
      dyadic-IsMethod (constructed n R) n (0, refl) leaf (icollide_ref_base R)
          (icollide_ref_impl R),
      (
        monadic-IsMethod (constructed n R) n (0, refl) leaf (ipokeu_ref_impl R),
        (
          dyadic-IsMethod (constructed n R) n (0, refl) leaf (icollideu_ref_base R)
              (icollideu_ref_impl R),
          tt,
        ),
      ),
    ),
  ),
  overrides,
)
  where
    leaf : (i : ℕ) → i < n → IsRegistered (constructed n R) (derived i)
    leaf i h = (
      suc i,
      ap (λ cs. get_elem? cs i)
            (map-map (λ (make : ℕ → IBase R). iclass_of (make 0)) new_iderived (indices_from 0 n))
          ∙ get_all derived n i h,
    )

    overrides :
        (m : InplaceMethod)
        → Overrides (omb_register_inplace lib n R ++ omb_register_use_inplace lib n R) m
    overrides ipoke_ref = (0, (_, refl))
    overrides icollide_ref = (1, (_, refl))
    overrides ipokeu_ref = (2, (_, refl))
    overrides icollideu_ref = (3, (_, refl))
