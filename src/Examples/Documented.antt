-- ===== src/Examples/Documented.antt =====
-- A library that keeps the documentation: it searches the overriders for the best one. For the
-- examples; nothing of the program is in here.
use mathlib.Core.Option.{some-injective}
use boost_openmethod_benchma.Common.{
  ℕ, zero, suc, ◌+◌, ◌<◌, ◌≡◌, refl, sym, ap, subst, arith, ◌↔◌, ◌⊎◌, inl, inr, Bool, true, false,
  not, ◌&&◌, ◌||◌, Option, none, some, List, [], ◌∷◌, map, get_elem?, All, ◌==◌, ==_iff,
  if◌then◌else◌, Bool-cases, and_left, and_right,
}
use boost_openmethod_benchma.Machine.{Event, load, table}
use boost_openmethod_benchma.Library.{Class, base, derived, IsA, IsAList, IsBetter, IsBest}
use boost_openmethod_benchma.Hierarchy.{Base}
use boost_openmethod_benchma.Hierarchy.Inplace.{IBase}
use boost_openmethod_benchma.Timing.Flush.{Occurs}
use boost_openmethod_benchma.Timing.Stamp.{IsRead}
use boost_openmethod_benchma.OpenMethod.{OpenMethod, IsDocumented}

abbrev isa : Class → Class → Bool
isa c base = true
isa base (derived j) = false
isa (derived i) (derived j) = i == j

isa_iff : (c d : Class) → (isa c d ≡ true) ↔ IsA c d
isa_iff base base = (λ _. tt, λ _. refl)
isa_iff (derived i) base = (λ _. tt, λ _. refl)
isa_iff base (derived j) = (λ e. cc, λ h. absurd h)
isa_iff (derived i) (derived j) = ==_iff i j

abbrev isa_list : List Class → List Class → Bool
isa_list [] [] = true
isa_list [] (d ∷ ds) = false
isa_list (c ∷ cs) [] = false
isa_list (c ∷ cs) (d ∷ ds) = isa c d && isa_list cs ds

both_true : (a b : Bool) → a ≡ true → b ≡ true → (a && b) ≡ true
both_true true b h k = k
both_true false b h k = h

isa_list_iff : (cs ds : List Class) → (isa_list cs ds ≡ true) ↔ IsAList cs ds
isa_list_iff [] [] = (λ _. tt, λ _. refl)
isa_list_iff [] (d ∷ ds) = (λ e. cc, λ h. absurd h)
isa_list_iff (c ∷ cs) [] = (λ e. cc, λ h. absurd h)
isa_list_iff (c ∷ cs) (d ∷ ds) = (
  λ e. ((isa_iff c d).0 (and_left _ _ e), (isa_list_iff cs ds).0 (and_right (isa c d) _ e)),
  λ h. both_true _ _ ((isa_iff c d).1 h.0) ((isa_list_iff cs ds).1 h.1),
)

abbrev better : List Class → List Class → Bool
better s t = isa_list s t && not (isa_list t s)

refuted : (b : Bool) → not b ≡ true → b ≡ true → ⊥
refuted true h k = cc
refuted false h k = cc

not_of : (b : Bool) → (b ≡ true → ⊥) → not b ≡ true
not_of true h = absurd (h refl)
not_of false h = refl

better_iff : (s t : List Class) → (better s t ≡ true) ↔ IsBetter s t
better_iff s t = (
  λ e. (
    (isa_list_iff s t).0 (and_left _ _ e),
    λ h. refuted (isa_list t s) (and_right (isa_list s t) _ e) ((isa_list_iff t s).1 h),
  ),
  λ h. both_true _ _ ((isa_list_iff s t).1 h.0) (not_of _ (λ e. h.1 ((isa_list_iff t s).0 e))),
)

-- one rival of the overrider `s` at position `k`
abbrev beats : (k : ℕ) (s dynamic : List Class) (j : ℕ) (t : List Class) → Bool
beats k s dynamic j t = j == k || (not (isa_list dynamic t) || better s t)

or_left : (a b : Bool) → a ≡ true → (a || b) ≡ true
or_left true b h = refl
or_left false b h = cc

or_right : (a b : Bool) → b ≡ true → (a || b) ≡ true
or_right true b h = refl
or_right false b h = h

of_or : (a b : Bool) → (a || b) ≡ true → (a ≡ true) ⊎ (b ≡ true)
of_or true b h = inl refl
of_or false b h = inr h

beats_of :
    (k : ℕ) (s dynamic : List Class) (j : ℕ) (t : List Class)
    → (IsAList dynamic t → (j ≡ k) ⊎ IsBetter s t)
    → beats k s dynamic j t ≡ true
beats_of k s dynamic j t h = elim (Bool-cases (isa_list dynamic t)) [
  | inl e ↦ elim (h ((isa_list_iff dynamic t).0 e)) [
    | inl same ↦ or_left _ _ ((==_iff j k).1 same)
    | inr b ↦ or_right (j == k) _ (or_right (not (isa_list dynamic t)) _ ((better_iff s t).1 b))
  ]
  | inr e ↦ or_right (j == k) _ (or_left _ _ (ap not e))
]

abbrev beats_all : (k : ℕ) (s dynamic : List Class) (j : ℕ) → List (List Class) → Bool
beats_all k s dynamic j [] = true
beats_all k s dynamic j (t ∷ ts) = beats k s dynamic j t && beats_all k s dynamic (suc j) ts

beats_all_of :
    (k : ℕ) (s dynamic : List Class) (j : ℕ) (ts : List (List Class))
    → ((i n : ℕ) (t : List Class)
        → n ≡ j + i
        → get_elem? ts i ≡ some t
        → IsAList dynamic t
        → (n ≡ k) ⊎ IsBetter s t)
    → beats_all k s dynamic j ts ≡ true
beats_all_of k s dynamic j [] h = refl
beats_all_of k s dynamic j (t ∷ ts) h =
    both_true _ _ (beats_of k s dynamic j t (h 0 j t (omega arith) refl))
      (beats_all_of k s dynamic (suc j) ts (λ i n u q e a. h (suc i) n u (omega arith) e a))

-- What a passed test says of the overrider at position `n`, which is `i` places behind `j`.
of_beats_all :
    (k : ℕ) (s dynamic : List Class) (j : ℕ) (ts : List (List Class)) (i n : ℕ) (t : List Class)
    → n ≡ j + i
    → beats_all k s dynamic j ts ≡ true
    → get_elem? ts i ≡ some t
    → IsAList dynamic t
    → (n ≡ k) ⊎ IsBetter s t
of_beats_all k s dynamic j [] i n t q h e a = absurd (ground arith)
of_beats_all k s dynamic j (u ∷ ts) zero n t q h e a = elim (of_or (j == k) _ (and_left _ _ h)) [
  | inl same ↦ let at : j ≡ k = (==_iff j k).0 same in inl (omega arith)
  | inr rest ↦
      let same : u ≡ t = some-injective _ _ e in
      elim (of_or (not (isa_list dynamic u)) _ rest) [
        | inl refuses ↦
            absurd (
              refuted _ refuses ((isa_list_iff dynamic u).1 (subst (IsAList dynamic) (sym same) a)))
        | inr b ↦ inr (subst (IsBetter s) same ((better_iff s u).0 b))
      ]
]
of_beats_all k s dynamic j (u ∷ ts) (suc i) n t q h e a =
    of_beats_all k s dynamic (suc j) ts i n t (omega arith) (and_right (beats k s dynamic j u) _ h)
      e a

abbrev wins : (dynamic : List Class) (all : List (List Class)) (k : ℕ) (s : List Class) → Bool
wins dynamic all k s = isa_list dynamic s && beats_all k s dynamic 0 all

abbrev search_best :
    (dynamic : List Class) (all : List (List Class)) (k : ℕ) → List (List Class) → Option ℕ
search_best dynamic all k [] = none
search_best dynamic all k (s ∷ ss) =
    let later = search_best dynamic all (suc k) ss in if wins dynamic all k s then some k else later

search_lem :
    (dynamic : List Class) (all : List (List Class)) (k : ℕ) (ss : List (List Class)) (m n : ℕ)
    (spec : List Class)
    → n ≡ k + m
    → get_elem? ss m ≡ some spec
    → wins dynamic all n spec ≡ true
    → ((i j : ℕ) (s : List Class)
        → j ≡ k + i
        → i < m
        → get_elem? ss i ≡ some s
        → wins dynamic all j s ≡ true
        → ⊥)
    → search_best dynamic all k ss ≡ some n
search_lem dynamic all k [] m n spec q e h f = absurd (ground arith)
search_lem dynamic all k (s ∷ ss) zero n spec q e h f =
    let same : s ≡ spec = some-injective _ _ e in
    let at : n ≡ k = omega arith in
    let won : wins dynamic all k s ≡ true = cc in rw won (ap some (sym at))
search_lem dynamic all k (s ∷ ss) (suc m) n spec q e h f =
    elim (Bool-cases (wins dynamic all k s)) [
      | inl won ↦ absurd (f 0 k s (omega arith) (omega arith) refl won)
      | inr lost ↦ rw lost (
          search_lem dynamic all (suc k) ss m n spec (omega arith) e h
            (λ i j t r l. f (suc i) j t (omega arith) (omega arith)))
    ]

module _ (specs : List (List Class)) (dynamic : List Class) (k : ℕ)
    (best : IsBest specs dynamic k) where
  rival :
      (i : ℕ) (s : List Class)
      → i < k
      → get_elem? specs i ≡ some s
      → isa_list dynamic s ≡ true
      → beats_all i s dynamic 0 specs ≡ true
      → ⊥
  rival i s l e a b =
      elim (of_beats_all i s dynamic 0 specs k k best.spec (omega arith) b best.found
        best.applies) [
          | inl same ↦ absurd (omega arith)
          | inr mine ↦ elim (best.better i s e ((isa_list_iff dynamic s).0 a)) [
            | inl same ↦ absurd (omega arith)
            | inr theirs ↦ mine.1 theirs.0
          ]
        ]

  at_start : (i n : ℕ) → n ≡ 0 + i → n ≡ i
  at_start i n q = omega arith

  select_best_lem : search_best dynamic specs 0 specs ≡ some k
  select_best_lem =
      search_lem dynamic specs 0 specs k k best.spec (omega arith) best.found
        (both_true _ _ ((isa_list_iff dynamic best.spec).1 best.applies) (
          beats_all_of k best.spec dynamic 0 specs (λ i n t q e a.
            best.better n t (subst (λ j. get_elem? specs j ≡ some t) (sym (at_start i n q)) e) a)))
        (λ i j s q l e won.
          rival j s (omega arith) (subst (λ n. get_elem? specs n ≡ some s) (sym (at_start i j q)) e)
            (and_left _ _ won) (and_right (isa_list dynamic s) _ won))

-- every object is read, nothing else
abbrev loads : List ℕ → List Event
loads [] = []
loads (a ∷ later) = load a ∷ loads later

abbrev pub searching : OpenMethod
searching = record {
  select = λ specs dynamic. search_best dynamic specs 0 specs;
  VirtualPtr = λ R. Base;
  virtual_ptr = λ R o. o;
  get = λ R o. o;
  ref_reads = λ R os. loads (map (λ (o : Base). o.addr) os);
  vp_reads = λ R ps. table 0 ∷ [];
  iref_reads = λ R os. loads (map (λ (o : IBase R). o.addr) os);
}

loads-IsRead : (addrs : List ℕ) → All IsRead (loads addrs)
loads-IsRead [] = tt
loads-IsRead (a ∷ later) = (inl (a, refl), loads-IsRead later)

loads-occur :
    {A : Type 0} (addr : A → ℕ) (os : List A)
    → All (λ o. Occurs (load (addr o)) (loads (map addr os))) os
loads-occur addr [] = tt
loads-occur addr (o ∷ os) = (inl refl, All-later addr o os os (loads-occur addr os))
  where
    All-later :
        {A : Type 0} (addr : A → ℕ) (o : A) (os ps : List A)
        → All (λ p. Occurs (load (addr p)) (loads (map addr os))) ps
        → All (λ p. Occurs (load (addr p)) (load (addr o) ∷ loads (map addr os))) ps
    All-later addr o os [] h = tt
    All-later addr o os (p ∷ ps) (h, hs) = (inr h, All-later addr o os ps hs)

pub searching-IsDocumented : IsDocumented searching
searching-IsDocumented = record {
  select_best = select_best_lem;
  get-virtual_ptr = λ R o. refl;
  ref_reads-IsRead = λ R os. loads-IsRead (map (λ (o : Base). o.addr) os);
  ref_reads-loads = λ R os. loads-occur (λ (o : Base). o.addr) os;
  vp_reads-IsTable = λ R ps. ((0, refl), tt);
  iref_reads-IsRead = λ R os. loads-IsRead (map (λ (o : IBase R). o.addr) os);
  iref_reads-loads = λ R os. loads-occur (λ (o : IBase R). o.addr) os;
}
