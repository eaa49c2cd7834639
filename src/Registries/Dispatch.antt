-- ===== src/Registries/Dispatch.antt =====
-- Which overrider a documented library calls, for the lists that the registrars build.
use boost_openmethod_benchma.Common.{
  ℕ, zero, suc, ◌<◌, ◌≡◌, refl, sym, ap, ◌∙◌, arith, some, List, [], ◌∷◌, map, inl, inr, ◌⊎◌,
  get_elem?, ◌==◌, if◌then◌else◌, Bool-cases, ==_iff,
}
use mathlib.Core.Path.{subst}
use mathlib.Core.Option.{some-injective}
use mathlib.Core.List.{map-map}
use boost_openmethod_benchma.Machine.{World, M}
use boost_openmethod_benchma.Library.{Class, base, derived, IsAList, IsBetter, IsBest}
use boost_openmethod_benchma.Hierarchy.Indices.{indices_from, get_all, get_all_inv}
use boost_openmethod_benchma.Timing.Tsc.{StampId}
use boost_openmethod_benchma.OpenMethod.{OpenMethod, IsDocumented, Overrider, call_best}
use boost_openmethod_benchma.Registries.Overriders.{monadic, dyadic}

abbrev pub one : ℕ → List Class
one i = derived i ∷ []

abbrev pub two : ℕ → List Class
two i = derived i ∷ derived i ∷ []

-- A leaf's own overrider is the only one that takes it.
pub IsBest-one : (n i : ℕ) → i < n → IsBest (map one (indices_from 0 n)) (derived i ∷ []) i
IsBest-one n i h = record {
  spec = one i;
  found = get_all one n i h;
  applies = (refl, tt);
  better = λ j t e a.
      let same : i ≡ j = (subst (IsAList (derived i ∷ [])) (sym (get_all_inv one n j e)) a).0 in
      inl (sym same);
}

abbrev pub pairs : ℕ → List (List Class)
pairs n = (base ∷ base ∷ []) ∷ map two (indices_from 0 n)

-- On two objects of one leaf class the diagonal overrider is better than the catch-all.
pub IsBest-diagonal : (n i : ℕ) → i < n → IsBest (pairs n) (derived i ∷ derived i ∷ []) (suc i)
IsBest-diagonal n i h = record {
  spec = two i;
  found = get_all two n i h;
  applies = (refl, (refl, tt));
  better = better;
}
  where
    better :
        (j : ℕ) (t : List Class)
        → get_elem? (pairs n) j ≡ some t
        → IsAList (derived i ∷ derived i ∷ []) t
        → (j ≡ suc i) ⊎ IsBetter (two i) t
    better zero t e a =
        inr (subst (IsBetter (two i)) (some-injective _ _ e) ((tt, (tt, tt)), λ b. b.0))
    better (suc j) t e a =
        let same : i ≡ j =
          (subst (IsAList (derived i ∷ derived i ∷ [])) (sym (get_all_inv two n j e)) a).0 in
        inl (ap suc (sym same))

-- On two objects of different leaf classes only the catch-all takes both.
pub IsBest-catch_all : (n i j : ℕ) → ¬ (i ≡ j) → IsBest (pairs n) (derived i ∷ derived j ∷ []) 0
IsBest-catch_all n i j ne = record {
  spec = base ∷ base ∷ [];
  found = refl;
  applies = (tt, (tt, tt));
  better = better;
}
  where
    better :
        (k : ℕ) (t : List Class)
        → get_elem? (pairs n) k ≡ some t
        → IsAList (derived i ∷ derived j ∷ []) t
        → (k ≡ 0) ⊎ IsBetter (base ∷ base ∷ []) t
    better zero t e a = inl refl
    better (suc k) t e a =
        let both = subst (IsAList (derived i ∷ derived j ∷ [])) (sym (get_all_inv two n k e)) a in
        absurd (ne (both.0 ∙ sym both.1.0))

call_best_lem :
    {A : Type 0} (lib : OpenMethod) (os : List (Overrider A)) (dynamic : List Class) (k : ℕ)
    (o : Overrider A) (args : A) (w : World)
    → lib.select (map (λ o. o.spec) os) dynamic ≡ some k
    → get_elem? os k ≡ some o
    → call_best lib os dynamic args w ≡ o.body args w
unfolding call_best
call_best_lem lib os dynamic k o args w e f = rw (e, f)

pub specs-monadic :
    {A : Type 0} (impl : ℕ → A → M StampId) (n : ℕ)
    → map (λ (o : Overrider A). o.spec) (monadic impl n) ≡ map one (indices_from 0 n)
specs-monadic {A} impl n =
    map-map (λ (o : Overrider A). o.spec)
      (λ i. let o : Overrider A = record { spec = one i; body = impl i } in o) (indices_from 0 n)

pub specs-dyadic :
    {A : Type 0} (catch_all : A → M StampId) (impl : ℕ → A → M StampId) (n : ℕ)
    → map (λ (o : Overrider A). o.spec) (dyadic catch_all impl n) ≡ pairs n
specs-dyadic {A} catch_all impl n = ap (◌∷◌ (base ∷ base ∷ [])) (
    map-map (λ (o : Overrider A). o.spec)
      (λ i. let o : Overrider A = record { spec = two i; body = impl i } in o) (indices_from 0 n))

module _ {A : Type 0} (lib : OpenMethod) (doc : IsDocumented lib) (num_classes : ℕ) where
  -- A method on one argument calls the overrider of the argument's leaf class.
  pub call_monadic :
      (impl : ℕ → A → M StampId) (i : ℕ) (a : A) (w : World)
      → i < num_classes
      → call_best lib (monadic impl num_classes) (derived i ∷ []) a w ≡ impl i a w
  call_monadic impl i a w h =
      call_best_lem lib (monadic impl num_classes) (derived i ∷ []) i
        (record { spec = one i; body = impl i }) a w
        (rw (specs-monadic impl num_classes) (doc.select_best _ _ i (IsBest-one num_classes i h)))
        (get_all (λ i. let o : Overrider A = record { spec = derived i ∷ []; body = impl i } in o)
          num_classes i h)

  module _ (catch_all : A → M StampId) (impl : ℕ → A → M StampId) (a : A) (w : World) where
    abbrev diagonal : ℕ → Overrider A
    diagonal i = record { spec = derived i ∷ derived i ∷ []; body = impl i }

    call_diagonal :
        (i : ℕ)
        → i < num_classes
        → call_best lib (dyadic catch_all impl num_classes) (derived i ∷ derived i ∷ []) a w
          ≡ impl i a w
    call_diagonal i h =
        call_best_lem lib (dyadic catch_all impl num_classes) (two i) (suc i) (diagonal i) a w
          (rw (specs-dyadic catch_all impl num_classes)
            (doc.select_best _ _ (suc i) (IsBest-diagonal num_classes i h)))
          (get_all diagonal num_classes i h)

    call_catch_all :
        (i j : ℕ)
        → ¬ (i ≡ j)
        → call_best lib (dyadic catch_all impl num_classes) (derived i ∷ derived j ∷ []) a w
          ≡ catch_all a w
    call_catch_all i j ne =
        call_best_lem lib (dyadic catch_all impl num_classes) (derived i ∷ derived j ∷ []) 0
          (record { spec = base ∷ base ∷ []; body = catch_all }) a w
          (rw (specs-dyadic catch_all impl num_classes)
            (doc.select_best _ _ 0 (IsBest-catch_all num_classes i j ne)))
          refl

    -- A method on two arguments calls the overrider of their common leaf class, or the catch-all if
    -- the leaf classes differ.
    pub call_dyadic :
        (i j : ℕ)
        → i < num_classes
        → call_best lib (dyadic catch_all impl num_classes) (derived i ∷ derived j ∷ []) a w
          ≡ (if i == j then impl i else catch_all) a w
    call_dyadic i j h = elim (Bool-cases (i == j)) [
      | inl same ↦
          let e : i ≡ j = (==_iff i j).0 same in
          rw same (
            subst
              (λ z.
                call_best lib (dyadic catch_all impl num_classes) (derived i ∷ derived z ∷ []) a w
                ≡ impl i a w)
              e (call_diagonal i h))
      | inr other ↦ rw other (call_catch_all i j (λ e. ground arith))
    ]
