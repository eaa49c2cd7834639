-- ===== src/Verify/Verdict.antt =====
-- src/main.cpp, `verify`: what the verdict is, whatever the dispatches return.
use native.Mathlib.Nat.{mod-eq_of_lt}
use mathlib.Core.List.{cons-ne-nil}
use boost_openmethod_benchma.Common.{
  ℕ, zero, suc, ◌+◌, ◌-◌, ◌*◌, ◌%◌, ◌≤◌, ◌<◌, ◌≡◌, refl, ap, sym, subst, ◌∙◌, ◌↔◌, arith, some,
  List, [], ◌∷◌, ◌++◌, get_elem?, ltb, ltb→lt, Bool-cases, inl, inr,
}
use boost_openmethod_benchma.Common.Int.{ℤ}
use boost_openmethod_benchma.Machine.{World, M, ◌>>=◌, pure, lift, >>=_run}
use boost_openmethod_benchma.Verify.{Mismatch, run_checks, strided, grid}
use boost_openmethod_benchma.Verify.Checks.{Check}
use boost_openmethod_benchma.Verify.Detect.{Return, wants, run_checks_detects}

-- The code ends, and reports nothing just if `Q` holds.
abbrev pub Decides : Type 0 → M (List Mismatch) → Type 0
Decides Q m =
    (w : World) → (ms : List Mismatch) × (w' : World) × (m w ≡ some (ms, w')) × ((ms ≡ []) ↔ Q)

pub Decides-iff : {Q S : Type 0} (m : M (List Mismatch)) → Q ↔ S → Decides Q m → Decides S m
Decides-iff m same d w =
    let (ms, w', runs, iff) = d w in (ms, w', runs, (λ e. same.0 (iff.0 e), λ s. iff.1 (same.1 s)))

append-eq-nil : (ms ns : List Mismatch) → ((ms ++ ns) ≡ []) ↔ ((ms ≡ []) × (ns ≡ []))
append-eq-nil [] ns = (λ e. (refl, e), λ (h, e). e)
append-eq-nil (m ∷ ms) ns =
    (λ e. absurd (cons-ne-nil m (ms ++ ns) e), λ (h, e). absurd (cons-ne-nil m ms h))

-- one piece of code, and a later one
pub Decides-append :
    {Q S : Type 0} (m k : M (List Mismatch))
    → Decides Q m
    → Decides S k
    → Decides (Q × S) (m >>= λ here. k >>= λ later. pure (here ++ later))
Decides-append m k d f w =
    let (ms, w', runs, iff) = d w in
    let (ns, w'', runs', iff') = f w' in
    let none_left = append-eq-nil ms ns in
    (
      ms ++ ns,
      w'',
      >>=_run m _ {w = w} runs ∙ >>=_run k _ {w = w'} runs',
      (
        λ e. (iff.0 (none_left.0 e).0, iff'.0 (none_left.0 e).1),
        λ (q, s). none_left.1 (iff.1 q, iff'.1 s),
      ),
    )

-- three pieces of code
pub Decides-three :
    {Q S T : Type 0} (m k l : M (List Mismatch))
    → Decides Q m
    → Decides S k
    → Decides T l
    → Decides
        (Q × S × T)
        (m >>= λ first. k >>= λ second. l >>= λ third. pure (first ++ (second ++ third)))
Decides-three m k l d f g w =
    let (ms, w1, runs, iff) = d w in
    let (ns, w2, runs', iff') = f w1 in
    let (os, w3, runs'', iff'') = g w2 in
    let none_left = append-eq-nil ms (ns ++ os) in
    let none_later = append-eq-nil ns os in
    (
      ms ++ (ns ++ os),
      w3,
      >>=_run m _ {w = w} runs ∙ >>=_run k _ {w = w1} runs' ∙ >>=_run l _ {w = w2} runs'',
      (
        λ e.
            let (h, later) = none_left.0 e in
            let (h', h'') = none_later.0 later in (iff.0 h, iff'.0 h', iff''.0 h''),
        λ (q, s, t). none_left.1 (iff.1 q, none_later.1 (iff'.1 s, iff''.1 t)),
      ),
    )

-- every index from `i` on, in steps
abbrev Each : (step i n : ℕ) → (ℕ → Type 0) → Type 0
Each step i n Q = (t : ℕ) → i + t * step < n → Q (i + t * step)

Each-step :
    (step i n : ℕ) (Q : ℕ → Type 0) → i < n → (Q i × Each step (i + step) n Q) ↔ Each step i n Q
Each-step step i n Q below = (to, from)
  where
    next : (t : ℕ) → i + step + t * step ≡ i + suc t * step
    next t = grind arith

    to : Q i × Each step (i + step) n Q → Each step i n Q
    to (q, each) zero h = subst Q (omega arith) q
    to (q, each) (suc t) h = subst Q (next t) (each t (subst (λ k. k < n) (sym (next t)) h))

    from : Each step i n Q → Q i × Each step (i + step) n Q
    from each = (
      subst Q (omega arith) (each 0 (omega arith)),
      λ t h. subst Q (sym (next t)) (each (suc t) (subst (λ k. k < n) (next t) h)),
    )

-- one round of the loop, put before the rounds that follow
strided_round :
    (word fuel step i n : ℕ) (body : ℕ → M (List Mismatch)) (Q : ℕ → Type 0)
    → i < n
    → n + step ≤ word
    → Decides (Q i) (body i)
    → Decides (Each step (i + step) n Q) (strided word fuel step (i + step) n body)
    → Decides (Each step i n Q) (
        body i >>= λ here.
        strided word fuel step ((i + step) % word) n body >>= λ later. pure (here ++ later))
strided_round word fuel step i n body Q below room here later =
    let next : (i + step) % word ≡ i + step = mod-eq_of_lt (omega arith) in
    Decides-iff _ (Each-step step i n Q below) (
      Decides-append (body i) _ here (
        subst (λ k. Decides (Each step (i + step) n Q) (strided word fuel step k n body)) (sym next)
          later))

-- A loop decides whether every index that it visits is as wanted: it ends within the fuel.
strided-Decides :
    (word fuel step i n : ℕ) (body : ℕ → M (List Mismatch)) (Q : ℕ → Type 0)
    → ((k : ℕ) → k < n → Decides (Q k) (body k))
    → 0 < step
    → n + step ≤ word
    → n - i < fuel
    → Decides (Each step i n Q) (strided word fuel step i n body)
unfolding strided
strided-Decides word zero step i n body Q d p b f = absurd (omega arith)
strided-Decides word (suc fuel) step i n body Q d p b f = elim (Bool-cases (ltb i n)) [
  | inl more ↦
      let below : i < n = ltb→lt i n more in
      rw more (
        strided_round word fuel step i n body Q below b (d i below)
          (strided-Decides word fuel step (i + step) n body Q d p b (omega arith)))
  | inr done ↦ rw done (λ w. ([], w, refl, (λ _ t h. absurd (ground arith), λ _. refl)))
]

-- The pairs that the two nested loops visit.
abbrev pub EachPair : ℕ → (ℕ → ℕ → Type 0) → Type 0
EachPair n Q = (s t : ℕ) → s * 97 < n → t * 89 < n → Q (s * 97) (t * 89)

-- the same from the start of the loop on
Each_start :
    (step n : ℕ) (Q : ℕ → Type 0) → Each step 0 n Q ↔ ((t : ℕ) → t * step < n → Q (t * step))
Each_start step n Q = (
  λ each t h. subst Q (at t) (each t (subst (λ k. k < n) (sym (at t)) h)),
  λ each t h. subst Q (sym (at t)) (each t (subst (λ k. k < n) (at t) h)),
)
  where
    at : (t : ℕ) → 0 + t * step ≡ t * step
    at t = omega arith

pub grid-Decides :
    (word n : ℕ) (body : ℕ → ℕ → M (List Mismatch)) (Q : ℕ → ℕ → Type 0)
    → ((i j : ℕ) → i < n → j < n → Decides (Q i j) (body i j))
    → n + 97 ≤ word
    → Decides (EachPair n Q) (grid word n body)
unfolding grid
grid-Decides word n body Q d room =
    Decides-iff _ (λ each s t hs ht. each s hs t ht, λ each s hs t ht. each s t hs ht)
      (Decides-iff _ (Each_start 97 n (λ i. (t : ℕ) → t * 89 < n → Q i (t * 89))) (
        strided-Decides word (n + 1) 97 0 n _ (λ i. (t : ℕ) → t * 89 < n → Q i (t * 89))
          (λ i below. Decides-iff _ (Each_start 89 n (Q i)) (
            strided-Decides word (n + 1) 89 0 n _ (Q i) (λ j below'. d i j below below')
              (omega arith) (omega arith) (omega arith)))
          (omega arith) room (omega arith)))

-- The comparison of one pair of objects.
pub run_checks-Decides :
    (i j : ℕ) (cs : List Check) (ids : List ℤ)
    → Return cs ids
    → Decides (ids ≡ wants cs) (run_checks i j cs)
run_checks-Decides i j cs ids h w = run_checks_detects i j cs ids w h

-- two array elements that are there
pub elements-Decides :
    {A : Type 0} {Q : Type 0} (xs : List A) (i j : ℕ) (a b : A) (f : A → A → M (List Mismatch))
    → get_elem? xs i ≡ some a
    → get_elem? xs j ≡ some b
    → Decides Q (f a b)
    → Decides Q (lift (get_elem? xs i) >>= λ a. lift (get_elem? xs j) >>= λ b. f a b)
elements-Decides xs i j a b f h k d w =
    let (ms, w', runs, iff) = d w in
    (
      ms,
      w',
      >>=_run (lift (get_elem? xs i)) _ {w = w} (ap (λ o. lift o w) h)
          ∙ >>=_run (lift (get_elem? xs j)) (f a) {w = w} (ap (λ o. lift o w) k)
          ∙ runs,
      iff,
    )
