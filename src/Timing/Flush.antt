-- ===== src/Timing/Flush.antt =====
-- src/timing.hpp: cache modes, regions of memory and `flush_range`. `word` is 2 to the number of
-- bits of `std::uintptr_t` and `std::size_t`.
use Prim.Native.String.{String}
use native.Mathlib.Nat.{mod-eq_of_lt}
use boost_openmethod_benchma.Common.{
  ℕ, zero, suc, ◌+◌, ◌-◌, ◌*◌, ◌/◌, ◌%◌, ◌≤◌, ◌<◌, ◌≡◌, refl, arith, false, some, List, [], ◌∷◌,
  ◌++◌, ltb, ◌==◌, if◌then◌else◌, Bool-cases, inl, inr, ◌⊎◌, All, All-append, All-map, append_assoc,
  ltb→lt, lt→ltb, ◌≢◌, ◌∙◌, none,
}
use boost_openmethod_benchma.Machine.{Event, World, M, ◌>>◌, pure, emit, clflushopt}

-- `cache_mode`
pub data CacheMode : Type 0 where
  warm clflush sweep : CacheMode

-- `cache_mode_name`
unfoldable pub cache_mode_name : CacheMode → String
cache_mode_name warm = "warm"
cache_mode_name clflush = "clflush"
cache_mode_name sweep = "sweep"

-- `region`: a null pointer is address 0.
pub record Region : Type 0 where
  pub addr : ℕ
  pub size : ℕ

-- The loop of `flush_range`. The recursive call waits under the test.
unfoldable pub flush_lines : (word fuel line stop : ℕ) → M (Unit {0})
flush_lines word zero line stop = λ w. none
flush_lines word (suc fuel) line stop =
    let rest = flush_lines word fuel ((line + 64) % word) stop in
    if ltb line stop then (emit (clflushopt line ∷ []) >> rest) else pure tt

-- `flush_range`
unfoldable pub flush_range : (word p size : ℕ) → M (Unit {0})
unfolding flush_lines
flush_range word p size =
    if p == 0 then pure tt else flush_lines word (size / 64 + 3) (p - p % 64) ((p + size) % word)

-- `e` is in the log `es`.
abbrev pub Occurs : Event → List Event → Type 0
Occurs e [] = ⊥
Occurs e (x ∷ xs) = (x ≡ e) ⊎ Occurs e xs

pub Occurs-append_left : (e : Event) (xs ys : List Event) → Occurs e xs → Occurs e (xs ++ ys)
Occurs-append_left e [] ys h = absurd h
Occurs-append_left e (x ∷ xs) ys (inl h) = inl h
Occurs-append_left e (x ∷ xs) ys (inr h) = inr (Occurs-append_left e xs ys h)

pub Occurs-append_right : (e : Event) (xs ys : List Event) → Occurs e ys → Occurs e (xs ++ ys)
Occurs-append_right e [] ys h = h
Occurs-append_right e (x ∷ xs) ys h = inr (Occurs-append_right e xs ys h)

-- `e` flushes a whole line that starts in `[from, stop)`.
abbrev pub IsLineFlush : ℕ → ℕ → Event → Type 0
IsLineFlush from stop e =
    (line : ℕ) × (e ≡ clflushopt line) × (line % 64 ≡ 0) × (from ≤ line) × (line < stop)

-- Between two states `[from, stop)` was flushed, and nothing else happened.
pub record Flushed (from stop : ℕ) (w w' : World) : Type 0 where
  pub added : List Event
  pub same : w' ≡ record w { log = added ++ w.log }
  pub only : All (IsLineFlush from stop) added
  pub covers : (x : ℕ) → from ≤ x → x < stop → Occurs (clflushopt (x - x % 64)) added

IsLineFlush-mono :
    (from from' stop : ℕ)
    → from ≤ from'
    → (e : Event) → IsLineFlush from' stop e
    → IsLineFlush from stop e
IsLineFlush-mono from from' stop h e (line, eq, aligned, low, high) =
    (line, eq, aligned, omega arith, high)

-- one round of the loop, put before the rounds that follow
Flushed-step :
    (line stop : ℕ) (w w' : World)
    → line % 64 ≡ 0
    → line < stop
    → Flushed (line + 64) stop (record w { log = clflushopt line ∷ w.log }) w'
    → Flushed line stop w w'
Flushed-step line stop w w' aligned below f = record {
  added = f.added ++ (clflushopt line ∷ []);
  same = rw append_assoc f.same;
  only =
      All-append (IsLineFlush line stop) f.added (clflushopt line ∷ [])
        (All-map (IsLineFlush-mono line (line + 64) stop (omega arith)) f.added f.only)
        ((line, refl, aligned, omega arith, below), tt);
  covers = λ x p q. elim (Bool-cases (ltb x (line + 64))) [
    | inl near ↦
        let same_line : x - x % 64 ≡ line = omega (arith, ltb→lt x (line + 64) near) in
        rw same_line (Occurs-append_right _ f.added (clflushopt line ∷ []) (inl refl))
    | inr far ↦ Occurs-append_left _ f.added (clflushopt line ∷ []) (f.covers x (ground arith) q)
  ];
}

flush_lines_more :
    (word fuel line stop : ℕ) (w : World)
    → line < stop
    → stop + 64 ≤ word
    → flush_lines word (suc fuel) line stop w
      ≡ flush_lines word fuel (line + 64) stop (record w { log = clflushopt line ∷ w.log })
unfolding flush_lines
flush_lines_more word fuel line stop w h fits =
    let next : (line + 64) % word ≡ line + 64 = mod-eq_of_lt (omega arith) in
    rw (lt→ltb line stop h, next)

-- The loop ends before its fuel, and flushes every line from `line` up to `stop`.
flush_lines-Flushed :
    (word fuel line stop : ℕ) (w : World)
    → line % 64 ≡ 0
    → stop + 64 ≤ word
    → stop + 64 ≤ line + 64 * fuel
    → line < stop + 64
    → (w' : World) × (flush_lines word fuel line stop w ≡ some (tt, w')) × Flushed line stop w w'
unfolding flush_lines
flush_lines-Flushed word zero line stop w a b c d = absurd (omega arith)
flush_lines-Flushed word (suc fuel) line stop w a b c d = elim (Bool-cases (ltb line stop)) [
  | inl more ↦
      let below : line < stop = ltb→lt line stop more in
      let (w', runs, f) =
        flush_lines-Flushed word fuel (line + 64) stop (record w { log = clflushopt line ∷ w.log })
          (omega arith) b (omega arith) (omega arith) in
      (
        w',
        flush_lines_more word fuel line stop w below b ∙ runs,
        Flushed-step line stop w w' a below f,
      )
  | inr done ↦ (
    w,
    rw done,
    record { added = []; same = refl; only = tt; covers = λ x p q. absurd (ground arith) },
  )
]

flush_range_live :
    (word p size : ℕ) (w : World)
    → p + size + 64 ≤ word
    → p ≢ 0
    → flush_range word p size w ≡ flush_lines word (size / 64 + 3) (p - p % 64) (p + size) w
unfolding flush_range
flush_range_live word p size w fits h =
    let stop : (p + size) % word ≡ p + size = mod-eq_of_lt (omega arith) in
    let live : (p == 0) ≡ false = ground arith in rw (live, stop)

-- `flush_range` of a region that ends a line before the end of memory flushes exactly the lines
-- from the one that holds its first byte up to its end, so every byte of it, and does nothing else.
-- A null pointer flushes nothing.
pub flush_range-Flushed :
    (word p size : ℕ) (w : World)
    → p + size + 64 ≤ word
    → p ≢ 0
    → (w' : World) × (flush_range word p size w ≡ some (tt, w'))
      × Flushed (p - p % 64) (p + size) w w'
unfolding flush_range
flush_range-Flushed word p size w fits h =
    let (w', runs, f) =
      flush_lines-Flushed word (size / 64 + 3) (p - p % 64) (p + size) w (omega arith) fits
        (omega arith) (omega arith) in
    (w', flush_range_live word p size w fits h ∙ runs, f)

pub flush_range_null : (word size : ℕ) (w : World) → flush_range word 0 size w ≡ some (tt, w)
unfolding flush_range
flush_range_null word size w = refl
