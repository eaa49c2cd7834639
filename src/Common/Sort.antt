-- ===== src/Common/Sort.antt =====
-- `std::sort` on unsigned numbers, by insertion: the result is ascending, and it depends only on how
-- often each value stands in the input, so any other ascending rearrangement is the same list.
use mathlib.Core.Path.{◌≡◌, refl, ap, subst, ◌∙◌}
use mathlib.Core.List.{List, [], ◌∷◌, Perm, Permᴰ}
use mathlib.Core.Logic.{∥∥₁_elim, inl, inr}
use Prim.Native.Nat.{ℕ, zero, suc, ◌+◌, ◌≤◌}
use native.Mathlib.Omega.{arith}
use boost_openmethod_benchma.Common.Tests.{leb, ltb, if◌then◌else◌, Bool-cases}
use mathlib.Core.Option.{some, some-injective}
use boost_openmethod_benchma.Common.Lists.{length, get_elem?, take, drop, All, All-map, All-get}

unfoldable pub insert : ℕ → List ℕ → List ℕ
insert x [] = x ∷ []
insert x (y ∷ ys) = if leb x y then x ∷ (y ∷ ys) else (y ∷ insert x ys)

unfoldable pub sort : List ℕ → List ℕ
unfolding insert
sort [] = []
sort (x ∷ xs) = insert x (sort xs)

-- each element is below all that follow
abbrev pub IsSorted : List ℕ → Type 0
IsSorted [] = Unit
IsSorted (x ∷ xs) = All (λ y. x ≤ y) xs × IsSorted xs

-- how many elements are at most `v`
abbrev pub count_le : ℕ → List ℕ → ℕ
count_le v [] = 0
count_le v (x ∷ xs) = (if leb x v then 1 else 0) + count_le v xs

-- how many elements are below `v`
abbrev pub count_lt : ℕ → List ℕ → ℕ
count_lt v [] = 0
count_lt v (x ∷ xs) = (if ltb x v then 1 else 0) + count_lt v xs

All-insert : (P : ℕ → Type 0) (x : ℕ) (xs : List ℕ) → P x → All P xs → All P (insert x xs)
unfolding insert
All-insert P x [] p h = (p, tt)
All-insert P x (y ∷ ys) p (q, h) = elim (Bool-cases (leb x y)) [
  | inl le ↦ rw le (p, (q, h))
  | inr gt ↦ rw gt (q, All-insert P x ys p h)
]

insert-IsSorted : (x : ℕ) (xs : List ℕ) → IsSorted xs → IsSorted (insert x xs)
unfolding insert
insert-IsSorted x [] h = (tt, tt)
insert-IsSorted x (y ∷ ys) (below, h) = elim (Bool-cases (leb x y)) [
  | inl le ↦
      let first : x ≤ y = ground arith in
      rw le ((first, All-map (λ z p. omega arith) ys below), (below, h))
  | inr gt ↦ rw gt (All-insert (λ z. y ≤ z) x ys (ground arith) below, insert-IsSorted x ys h)
]

pub sort-IsSorted : (xs : List ℕ) → IsSorted (sort xs)
unfolding sort
sort-IsSorted [] = tt
sort-IsSorted (x ∷ xs) = insert-IsSorted x (sort xs) (sort-IsSorted xs)

length-insert : (x : ℕ) (xs : List ℕ) → length (insert x xs) ≡ suc (length xs)
unfolding insert
length-insert x [] = refl
length-insert x (y ∷ ys) = ground (arith, length-insert x ys)

pub length-sort : (xs : List ℕ) → length (sort xs) ≡ length xs
unfolding sort
length-sort [] = refl
length-sort (x ∷ xs) = length-insert x (sort xs) ∙ ap suc (length-sort xs)

count_le-insert :
    (v x : ℕ) (xs : List ℕ) → count_le v (insert x xs) ≡ (if leb x v then 1 else 0) + count_le v xs
unfolding insert
count_le-insert v x [] = refl
count_le-insert v x (y ∷ ys) = ground (arith, count_le-insert v x ys)

pub count_le-sort : (v : ℕ) (xs : List ℕ) → count_le v (sort xs) ≡ count_le v xs
unfolding sort
count_le-sort v [] = refl
count_le-sort v (x ∷ xs) = omega (arith, count_le-insert v x (sort xs), count_le-sort v xs)

count_lt-insert :
    (v x : ℕ) (xs : List ℕ) → count_lt v (insert x xs) ≡ (if ltb x v then 1 else 0) + count_lt v xs
unfolding insert
count_lt-insert v x [] = refl
count_lt-insert v x (y ∷ ys) = ground (arith, count_lt-insert v x ys)

pub count_lt-sort : (v : ℕ) (xs : List ℕ) → count_lt v (sort xs) ≡ count_lt v xs
unfolding sort
count_lt-sort v [] = refl
count_lt-sort v (x ∷ xs) = omega (arith, count_lt-insert v x (sort xs), count_lt-sort v xs)

All-of_insert : (P : ℕ → Type 0) (x : ℕ) (xs : List ℕ) → All P (insert x xs) → P x × All P xs
unfolding insert
All-of_insert P x [] h = h
All-of_insert P x (y ∷ ys) h = elim (Bool-cases (leb x y)) [
  | inl le ↦ let both : All P (x ∷ y ∷ ys) = (rw le at h) in both
  | inr gt ↦
      let both : All P (y ∷ insert x ys) = (rw gt at h) in
      let rest = All-of_insert P x ys both.1 in (rest.0, (both.0, rest.1))
]

-- What holds of every sorted element holds of every element.
pub All-of_sort : (P : ℕ → Type 0) (xs : List ℕ) → All P (sort xs) → All P xs
unfolding sort
All-of_sort P [] h = tt
All-of_sort P (x ∷ xs) h =
    let both = All-of_insert P x (sort xs) h in (both.0, All-of_sort P xs both.1)

-- Positions of a sorted list: a later element is not smaller, and at least `i + 1` elements are at
-- most the one at position `i`.
pub sorted_le :
    (l : List ℕ) (i j : ℕ) {a b : ℕ}
    → IsSorted l
    → get_elem? l i ≡ some a
    → get_elem? l j ≡ some b
    → i ≤ j
    → a ≤ b
sorted_le [] i j s e f h = absurd (ground arith)
sorted_le (x ∷ xs) zero zero s e f h = ground arith
sorted_le (x ∷ xs) zero (suc j) s e f h =
    let above = All-get (λ y. x ≤ y) xs j s.0 f in ground arith
sorted_le (x ∷ xs) (suc i) zero s e f h = absurd (omega arith)
sorted_le (x ∷ xs) (suc i) (suc j) s e f h = sorted_le xs i j s.1 e f (omega arith)

pub sorted_head : (l : List ℕ) {a : ℕ} → IsSorted l → get_elem? l 0 ≡ some a → All (λ x. a ≤ x) l
sorted_head [] s e = tt
sorted_head (x ∷ xs) s e = (ground arith, All-map (λ y p. ground arith) xs s.0)

pub sorted_rank :
    (l : List ℕ) (i : ℕ) {a : ℕ} → IsSorted l → get_elem? l i ≡ some a → i + 1 ≤ count_le a l
sorted_rank [] i s e = absurd (ground arith)
sorted_rank (x ∷ xs) zero s e = ground arith
sorted_rank (x ∷ xs) (suc i) s e =
    let above = All-get (λ y. x ≤ y) xs i s.0 e in ground (arith, sorted_rank xs i s.1 e)

-- Nothing that follows in a sorted list is below the head.
none_below : (v : ℕ) (xs : List ℕ) → All (λ y. v ≤ y) xs → count_lt v xs ≡ 0
none_below v [] h = refl
none_below v (x ∷ xs) (p, h) = ground (arith, none_below v xs h)

-- At most `i` elements are below the one at position `i`.
pub sorted_below :
    (l : List ℕ) (i : ℕ) {a : ℕ} → IsSorted l → get_elem? l i ≡ some a → count_lt a l ≤ i
sorted_below [] i s e = absurd (ground arith)
sorted_below (x ∷ xs) zero {a} s e =
    let same : x ≡ a = some-injective _ _ e in
    subst (λ z. count_lt z (x ∷ xs) ≤ 0) same (ground (arith, none_below x xs s.0))
sorted_below (x ∷ xs) (suc i) s e = ground (arith, sorted_below xs i s.1 e)

All-drop : (P : ℕ → Type 0) (l : List ℕ) (k : ℕ) → All P l → All P (drop k l)
All-drop P l zero h = h
All-drop P [] (suc k) h = tt
All-drop P (x ∷ l) (suc k) h = All-drop P l k h.1

-- A cut of a sorted list: all before it are below all behind it.
pub sorted_cut :
    (l : List ℕ) (k : ℕ) → IsSorted l → All (λ a. All (λ b. a ≤ b) (drop k l)) (take k l)
sorted_cut l zero s = tt
sorted_cut [] (suc k) s = tt
sorted_cut (x ∷ xs) (suc k) s = (All-drop (λ y. x ≤ y) xs k s.0, sorted_cut xs k s.1)

insert_comm : (x y : ℕ) (l : List ℕ) → insert x (insert y l) ≡ insert y (insert x l)
unfolding insert
insert_comm x y [] = ground arith
insert_comm x y (z ∷ zs) = ground (arith, insert_comm x y zs)

sort_permᴰ : {xs ys : List ℕ} → Permᴰ xs ys → sort xs ≡ sort ys
unfolding sort
sort_permᴰ Permᴰ.nil = refl
sort_permᴰ (Permᴰ.cons {a = a} {l₂ = l₂} e p) =
    ap (insert a) (sort_permᴰ p) ∙ ap (λ z. insert z (sort l₂)) e
sort_permᴰ (Permᴰ.swap {a = a} {b = b} {a' = a'} {l = l} e f) =
    insert_comm a b (sort l)
    ∙ ap (λ z. insert z (insert a (sort l))) f
    ∙ ap (λ z. insert a' (insert z (sort l))) e
sort_permᴰ (Permᴰ.trans p q) = sort_permᴰ p ∙ sort_permᴰ q

-- Sorting forgets the order of its input.
pub sort_perm : {xs ys : List ℕ} → Perm xs ys → sort xs ≡ sort ys
sort_perm p = ∥∥₁_elim p (hlevel) sort_permᴰ
