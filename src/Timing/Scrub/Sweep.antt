-- ===== src/Timing/Scrub/Sweep.antt =====
-- src/timing.hpp: `scrubber::apply` in `sweep` mode.
use native.Mathlib.Nat.{mod-eq_of_lt}
use boost_openmethod_benchma.Common.{
  ℕ, zero, suc, ◌+◌, ◌-◌, ◌*◌, ◌/◌, ◌%◌, ◌≤◌, ◌<◌, ◌≡◌, refl, arith, some, List, [], ◌∷◌, ◌++◌, ltb,
  leb, ◌==◌, if◌then◌else◌, Bool-cases, inl, inr, All, All-append, append_assoc, ltb→lt, lt→ltb,
  ◌∙◌, ◌&&◌, ap, sym,
}
use boost_openmethod_benchma.Machine.{Event, World, ◌>>◌, pure, emit, mfence, store, >>=_run}
use boost_openmethod_benchma.Timing.Flush.{
  sweep, Region, Occurs, Occurs-append_left, Occurs-append_right,
}
use boost_openmethod_benchma.Timing.Scrub.{Scrubber, write, sweep_lines, apply}

-- What the loop leaves of the buffer from index `i` on.
abbrev pub swept : (i n : ℕ) → (ℕ → ℕ) → ℕ → ℕ
swept i n bytes j = if ltb j n && (leb i j && (j % 64 == 0)) then j % 256 else bytes j

sweep_lines_more :
    (word fuel i n : ℕ) (bytes : ℕ → ℕ) (w : World)
    → i < n
    → n + 64 ≤ word
    → sweep_lines word (suc fuel) i n bytes w
      ≡ sweep_lines word fuel
          (i + 64)
          n
          (write bytes i (i % 256))
          (record w { log = store i (i % 256) ∷ w.log })
unfolding sweep_lines
sweep_lines_more word fuel i n bytes w h fits =
    let next : (i + 64) % word ≡ i + 64 = mod-eq_of_lt (omega arith) in rw (lt→ltb i n h, next)

-- A store of the low byte of its own index, at the start of a line.
abbrev pub IsLineStore : ℕ → Event → Type 0
IsLineStore n e = (k : ℕ) × (e ≡ store k (k % 256)) × (k % 64 ≡ 0) × (k < n)

-- The result of the loop from index `i` on.
pub record Swept (i n : ℕ) (bytes bytes' : ℕ → ℕ) (added : List Event) : Type 0 where
  pub only : All (IsLineStore n) added
  pub covers : (x : ℕ) → i ≤ x → x < n → Occurs (store (x - x % 64) ((x - x % 64) % 256)) added
  pub buffer : (j : ℕ) → bytes' j ≡ swept i n bytes j

Swept-step :
    (i n : ℕ) (bytes bytes' : ℕ → ℕ) (added : List Event)
    → i % 64 ≡ 0
    → i < n
    → Swept (i + 64) n (write bytes i (i % 256)) bytes' added
    → Swept i n bytes bytes' (added ++ (store i (i % 256) ∷ []))
Swept-step i n bytes bytes' added aligned below s = record {
  only =
      All-append (IsLineStore n) added (store i (i % 256) ∷ []) s.only
        ((i, refl, aligned, below), tt);
  covers = λ x p q. elim (Bool-cases (ltb x (i + 64))) [
    | inl near ↦
        let here : x - x % 64 ≡ i = omega (arith, ltb→lt x (i + 64) near) in
        rw here (Occurs-append_right _ added (store i (i % 256) ∷ []) (inl refl))
    | inr far ↦ Occurs-append_left _ added (store i (i % 256) ∷ []) (s.covers x (ground arith) q)
  ];
  buffer = λ j. ground (arith, s.buffer j);
}

sweep_lines-Swept :
    (word fuel i n : ℕ) (bytes : ℕ → ℕ) (w : World)
    → i % 64 ≡ 0
    → n + 64 ≤ word
    → n + 64 ≤ i + 64 * fuel
    → i < n + 64
    → (bytes' : ℕ → ℕ) × (added : List Event) × (sweep_lines word fuel i n bytes w
        ≡ some (bytes', record w { log = added ++ w.log }))
      × Swept i n bytes bytes' added
unfolding sweep_lines
sweep_lines-Swept word zero i n bytes w a b c d = absurd (omega arith)
sweep_lines-Swept word (suc fuel) i n bytes w a b c d = elim (Bool-cases (ltb i n)) [
  | inl more ↦
      let below : i < n = ltb→lt i n more in
      let (bytes', added, runs, s) =
        sweep_lines-Swept word fuel (i + 64) n (write bytes i (i % 256))
          (record w { log = store i (i % 256) ∷ w.log }) (omega arith) b (omega arith)
          (omega arith) in
      (
        bytes',
        added ++ (store i (i % 256) ∷ []),
        sweep_lines_more word fuel i n bytes w below b
            ∙ runs
            ∙ ap (λ z. some (bytes', record w { log = z })) (sym (append_assoc added _ w.log)),
        Swept-step i n bytes bytes' added a below s,
      )
  | inr done ↦ (
    bytes,
    [],
    rw done,
    record { only = tt; covers = λ x p q. absurd (ground arith); buffer = λ j. ground arith },
  )
]

-- In `sweep` mode `apply` stores into every 64-byte line of the buffer, then fences once, and keeps
-- the buffer's size: the byte at each multiple of 64 becomes the low byte of its index, the others
-- stay. It needs only that the buffer ends a line before the end of memory.
pub apply_sweep :
    (word : ℕ) (regions : List Region) (s : Scrubber) (w : World)
    → s.size + 64 ≤ word
    → (bytes' : ℕ → ℕ) × (added : List Event) × (apply word sweep regions s w
        ≡ some (record s { bytes = bytes' }, record w { log = mfence ∷ (added ++ w.log) }))
      × Swept 0 s.size s.bytes bytes' added
unfolding apply
apply_sweep word regions s w h =
    let (bytes', added, runs, swept') =
      sweep_lines-Swept word (s.size / 64 + 2) 0 s.size s.bytes w (omega arith) h (omega arith)
        (omega arith) in
    (
      bytes',
      added,
      >>=_run (sweep_lines word (s.size / 64 + 2) 0 s.size s.bytes)
          (λ b. emit (mfence ∷ []) >> pure (record s { bytes = b })) runs,
      swept',
    )
