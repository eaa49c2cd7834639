-- ===== src/Common/Lists.antt =====
-- Lists measured and indexed by native numbers, under the library's names, and predicates on them.
use Prim.Native.Nat.{ℕ, zero, suc, ◌+◌, ◌-◌, ◌<◌, ◌≤◌}
use mathlib.Core.Path.{◌≡◌, refl, ap, subst}
use mathlib.Core.List.{List, [], ◌∷◌, ◌++◌, map}
use mathlib.Core.Option.{Option, none, some, some-injective}
use native.Mathlib.Omega.{arith}

module _ {ℓ} {A : Type ℓ} where
  abbrev pub length : List A → ℕ
  length [] = 0
  length (x ∷ xs) = suc (length xs)

  abbrev pub get_elem? : List A → ℕ → Option A
  get_elem? [] i = none
  get_elem? (x ∷ xs) zero = some x
  get_elem? (x ∷ xs) (suc i) = get_elem? xs i

  abbrev pub take : ℕ → List A → List A
  take zero xs = []
  take (suc n) [] = []
  take (suc n) (x ∷ xs) = x ∷ take n xs

  abbrev pub drop : ℕ → List A → List A
  drop zero xs = xs
  drop (suc n) [] = []
  drop (suc n) (x ∷ xs) = drop n xs

  -- every element satisfies `P`
  abbrev pub All {κ} : (A → Type κ) → List A → Type κ
  All P [] = Unit
  All P (x ∷ xs) = P x × All P xs

  pub length-append : (xs ys : List A) → length (xs ++ ys) ≡ length xs + length ys
  length-append [] ys = omega arith
  length-append (x ∷ xs) ys = omega (arith, length-append xs ys)

  pub All-append {κ} : (P : A → Type κ) (xs ys : List A) → All P xs → All P ys → All P (xs ++ ys)
  All-append P [] ys _ q = q
  All-append P (x ∷ xs) ys (p, ps) q = (p, All-append P xs ys ps q)

  pub All-map {κ μ} :
      {P : A → Type κ} {Q : A → Type μ}
      → ((x : A) → P x → Q x)
      → (xs : List A) → All P xs
      → All Q xs
  All-map f [] _ = tt
  All-map f (x ∷ xs) (p, ps) = (f x p, All-map f xs ps)

  pub All-of_each {κ} : {P : A → Type κ} → ((x : A) → P x) → (xs : List A) → All P xs
  All-of_each f [] = tt
  All-of_each f (x ∷ xs) = (f x, All-of_each f xs)

module _ {ℓ} {A : Type ℓ} where
  pub length-map {κ} : {B : Type κ} (f : A → B) (xs : List A) → length (map f xs) ≡ length xs
  length-map f [] = refl
  length-map f (x ∷ xs) = ap suc (length-map f xs)

  pub All-of_map {κ μ} :
      {B : Type κ} (Q : B → Type μ) (f : A → B) (xs : List A)
      → ((x : A) → Q (f x))
      → All Q (map f xs)
  All-of_map Q f [] h = tt
  All-of_map Q f (x ∷ xs) h = (h x, All-of_map Q f xs h)

  pub All-map_of {κ μ} :
      {B : Type κ} (Q : B → Type μ) (f : A → B) (xs : List A)
      → All (λ x. Q (f x)) xs
      → All Q (map f xs)
  All-map_of Q f [] h = tt
  All-map_of Q f (x ∷ xs) (h, hs) = (h, All-map_of Q f xs hs)

  pub All-get {κ} :
      (P : A → Type κ) (xs : List A) (i : ℕ) {x : A} → All P xs → get_elem? xs i ≡ some x → P x
  All-get P [] i _ e = absurd (ground arith)
  All-get P (y ∷ xs) zero (p, ps) e = subst P (some-injective _ _ e) p
  All-get P (y ∷ xs) (suc i) (p, ps) e = All-get P xs i ps e

  pub get_elem?-lt : (xs : List A) (i : ℕ) → i < length xs → (x : A) × (get_elem? xs i ≡ some x)
  get_elem?-lt [] i h = absurd (omega arith)
  get_elem?-lt (x ∷ xs) zero h = (x, refl)
  get_elem?-lt (x ∷ xs) (suc i) h = get_elem?-lt xs i (omega arith)

  pub get_elem?-map {κ} :
      {B : Type κ} (f : A → B) (xs : List A) (i : ℕ) {x : A}
      → get_elem? xs i ≡ some x
      → get_elem? (map f xs) i ≡ some (f x)
  get_elem?-map f [] i e = absurd (ground arith)
  get_elem?-map f (y ∷ xs) zero e = ap (λ z. some (f z)) (some-injective _ _ e)
  get_elem?-map f (y ∷ xs) (suc i) e = get_elem?-map f xs i e

  pub lt_of_get_elem? : (xs : List A) (i : ℕ) {x : A} → get_elem? xs i ≡ some x → i < length xs
  lt_of_get_elem? [] i e = absurd (ground arith)
  lt_of_get_elem? (y ∷ xs) zero e = omega arith
  lt_of_get_elem? (y ∷ xs) (suc i) e = omega (arith, lt_of_get_elem? xs i e)

module _ {ℓ} {A : Type ℓ} where
  pub take-append-drop : (n : ℕ) (xs : List A) → take n xs ++ drop n xs ≡ xs
  take-append-drop zero xs = refl
  take-append-drop (suc n) [] = refl
  take-append-drop (suc n) (x ∷ xs) = ap (◌∷◌ x) (take-append-drop n xs)

  pub length-take : (n : ℕ) (xs : List A) → n ≤ length xs → length (take n xs) ≡ n
  length-take zero xs h = refl
  length-take (suc n) [] h = absurd (omega arith)
  length-take (suc n) (x ∷ xs) h = omega (arith, length-take n xs (omega arith))

  pub length-drop : (n : ℕ) (xs : List A) → length (drop n xs) ≡ length xs - n
  length-drop zero xs = omega arith
  length-drop (suc n) [] = omega arith
  length-drop (suc n) (x ∷ xs) = omega (arith, length-drop n xs)

module _ {ℓ} {A : Type ℓ} where
  abbrev pub concat : List (List A) → List A
  concat [] = []
  concat (xs ∷ xss) = xs ++ concat xss

  pub All-concat {κ} : (P : A → Type κ) (xss : List (List A)) → All (All P) xss → All P (concat xss)
  All-concat P [] h = tt
  All-concat P (xs ∷ xss) (h, hs) = All-append P xs (concat xss) h (All-concat P xss hs)

  pub All-zip {κ μ ν} :
      {P : A → Type κ} {Q : A → Type μ} {S : A → Type ν}
      → ((x : A) → P x → Q x → S x)
      → (xs : List A) → All P xs
      → All Q xs
      → All S xs
  All-zip f [] _ _ = tt
  All-zip f (x ∷ xs) (p, ps) (q, qs) = (f x p q, All-zip f xs ps qs)

  pub All-swap {κ μ} :
      {T : Type κ} (Q : T → A → Type μ) (xs : List A)
      → ((t : T) → All (Q t) xs)
      → All (λ x. (t : T) → Q t x) xs
  All-swap Q [] h = tt
  All-swap Q (x ∷ xs) h = (λ t. (h t).0, All-swap Q xs (λ t. (h t).1))
