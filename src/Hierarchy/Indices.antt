-- ===== src/Hierarchy/Indices.antt =====
-- src/hierarchy.hpp: the indices of the leaf classes.
use mathlib.Core.Option.{some-injective}
use boost_openmethod_benchma.Common.{
  ℕ, zero, suc, ◌+◌, ◌<◌, ◌≡◌, ap, ◌∙◌, arith, some, List, [], ◌∷◌, map, get_elem?, ◌≤◌, All,
}

-- `std::make_index_sequence`: `count` indices from `start` on
abbrev pub indices_from : (start count : ℕ) → List ℕ
indices_from start zero = []
indices_from start (suc count) = start ∷ indices_from (start + 1) count

-- position `i` of the list made over the leaf indices
get_indices :
    {A : Type 0} (f : ℕ → A) (start n i : ℕ)
    → i < n
    → get_elem? (map f (indices_from start n)) i ≡ some (f (start + i))
get_indices f start zero i h = absurd (omega arith)
get_indices f start (suc n) zero h = ap (λ z. some (f z)) (omega arith)
get_indices f start (suc n) (suc i) h =
    get_indices f (start + 1) n i (omega arith) ∙ ap (λ z. some (f z)) (omega arith)

-- and every position holds such an element
get_indices_inv :
    {A : Type 0} (f : ℕ → A) (start n i : ℕ) {a : A}
    → get_elem? (map f (indices_from start n)) i ≡ some a
    → f (start + i) ≡ a
get_indices_inv f start zero i e = absurd (ground arith)
get_indices_inv f start (suc n) zero e = ap f (omega arith) ∙ some-injective _ _ e
get_indices_inv f start (suc n) (suc i) e = ap f (omega arith) ∙ get_indices_inv f (start + 1) n i e

pub get_all :
    {A : Type 0} (f : ℕ → A) (n i : ℕ) → i < n → get_elem? (map f (indices_from 0 n)) i ≡ some (f i)
get_all f n i h = get_indices f 0 n i h ∙ ap (λ z. some (f z)) (omega arith)

pub get_all_inv :
    {A : Type 0} (f : ℕ → A) (n i : ℕ) {a : A}
    → get_elem? (map f (indices_from 0 n)) i ≡ some a
    → f i ≡ a
get_all_inv f n i e = ap f (omega arith) ∙ get_indices_inv f 0 n i e

-- what holds of every index holds of the list made over the indices
All-indices_from :
    {A : Type 0} (P : A → Type 0) (f : ℕ → A) (start n : ℕ)
    → ((i : ℕ) → start ≤ i → i < start + n → P (f i))
    → All P (map f (indices_from start n))
All-indices_from P f start zero h = tt
All-indices_from P f start (suc n) h = (
  h start (omega arith) (omega arith),
  All-indices_from P f (start + 1) n (λ i l u. h i (omega arith) (omega arith)),
)

pub All-indices :
    {A : Type 0} (P : A → Type 0) (f : ℕ → A) (n : ℕ)
    → ((i : ℕ) → i < n → P (f i))
    → All P (map f (indices_from 0 n))
All-indices P f n h = All-indices_from P f 0 n (λ i _ u. h i (omega arith))
