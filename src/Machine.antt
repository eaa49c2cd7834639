-- ===== src/Machine.antt =====
-- The machine under src/timing.hpp: the instructions that its inline assembly and its intrinsics
-- issue, and the state they act on. A step may fail: `none` stands for undefined behaviour (a read
-- out of range, an overflow of a signed integer, a call that no overrider answers), for an exception,
-- none of which the program catches, and for fuel that ran out.
use boost_openmethod_benchma.Common.{
  ℕ, suc, ◌/◌, ◌%◌, ◌^◌, ◌≡◌, refl, sym, ap, ◌∙◌, Option, none, some, List, ◌++◌, inl, inr,
  Option-cases,
}
use mathlib.Core.Option.{some-injective, none-ne-some}

-- One instruction, or one read of an object's cache line. `table` is a read of the open-method
-- library's own tables.
pub data Event : Type 0 where
  lfence rdtsc rdtscp mfence : Event
  clflushopt : ℕ → Event
  store : ℕ → ℕ → Event
  load : ℕ → Event
  table : ℕ → Event

-- `clock k` is the number of ticks that the time-stamp counter has counted at its k-th reading,
-- without bound: it is an argument of the model, which says nothing of how long an
-- instruction takes; `readings` is how often it was read; `log` holds the events, the newest first.
pub record World : Type 0 where
  pub clock : ℕ → ℕ
  pub readings : ℕ
  pub log : List Event

abbrev pub M : Type 0 → Type 0
M A = World → Option (A × World)

infixl 5 ◌>>=◌ ◌>>◌
abbrev pub ◌>>=◌ : {A B : Type 0} → M A → (A → M B) → M B
◌>>=◌ m f w = elim (m w) [ none ↦ none | some (a, w') ↦ f a w' ]

abbrev pub ◌>>◌ : {B : Type 0} → M (Unit {0}) → M B → M B
m >> k = m >>= λ _. k

abbrev pub pure : {A : Type 0} → A → M A
pure a w = some (a, w)

abbrev pub emit : List Event → M (Unit {0})
emit es w = some (tt, record w { log = es ++ w.log })

abbrev pub lift : {A : Type 0} → Option A → M A
lift none w = none
lift (some a) w = some (a, w)

-- What `edx:eax` holds after a reading: the low and the high half of the counter's 64 bits.
abbrev pub read_counter : M (ℕ × ℕ)
read_counter w = some (
  (w.clock w.readings % 2 ^ 32, w.clock w.readings / 2 ^ 32 % 2 ^ 32),
  record w { readings = suc w.readings },
)

-- A step that succeeds hands its result and its state on.
pub >>=_run :
    {A B : Type 0} (m : M A) (f : A → M B) {w w' : World} {a : A}
    → m w ≡ some (a, w')
    → (m >>= f) w ≡ f a w'
>>=_run m f e = rw (e, ◌>>=◌)

-- The code ends, with a result of which `Q` holds.
abbrev pub Ends : {A : Type 0} → (A → Type 0) → M A → Type 0
Ends {A} Q m = (w : World) → (a : A) × (w' : World) × (m w ≡ some (a, w')) × Q a

pub Ends->>= :
    {A B : Type 0} {Q : A → Type 0} {S : B → Type 0} (m : M A) (f : A → M B)
    → Ends Q m
    → ((a : A) → Q a → Ends S (f a))
    → Ends S (m >>= f)
Ends->>= m f h k w =
    let (a, w1, e, q) = h w in
    let (b, w2, e', s) = k a q w1 in (b, w2, >>=_run m f {w = w} e ∙ e', s)

pub Ends-pure : {A : Type 0} {S : A → Type 0} (a : A) → S a → Ends S (pure a)
Ends-pure a s w = (a, w, refl, s)

pub Ends-lift :
    {A : Type 0} {S : A → Type 0} (o : Option A) (a : A) → o ≡ some a → S a → Ends S (lift o)
Ends-lift o a e s w = (a, w, ap (λ p. lift p w) e, s)

-- What succeeds in two steps has a step in between.
pub >>=_inv :
    {A B : Type 0} (m : M A) (f : A → M B) (w : World) {w' : World} {b : B}
    → (m >>= f) w ≡ some (b, w')
    → (a : A) × (v : World) × (m w ≡ some (a, v)) × (f a v ≡ some (b, w'))
>>=_inv m f w h = elim (Option-cases (m w)) [
  | inl e ↦ absurd (none-ne-some _ (sym (fails e) ∙ h))
  | inr ((a, v), e) ↦ (a, v, e, sym (>>=_run m f {w = w} e) ∙ h)
]
  where
    fails : m w ≡ none → (m >>= f) w ≡ none
    fails e = rw (e, ◌>>=◌) refl

pub lift_inv :
    {A : Type 0} (o : Option A) (w : World) {w' : World} {a : A}
    → lift o w ≡ some (a, w')
    → (o ≡ some a) × (w' ≡ w)
lift_inv none w h = absurd (none-ne-some _ h)
lift_inv (some a) w h =
    let same = some-injective _ _ h in (ap (λ q. some q.0) same, ap (λ q. q.1) (sym same))
