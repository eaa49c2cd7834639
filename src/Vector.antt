-- ===== src/Vector.antt =====
-- `std::vector`, as far as its size is bounded: `word` is 2 to the number of bits of `std::size_t`,
-- `width` the size of an element in bytes.
use boost_openmethod_benchma.Common.{
  ℕ, ◌-◌, ◌/◌, ◌≤◌, ◌≡◌, refl, arith, Option, none, some, leb, true, if◌then◌else◌,
}

-- `max_size()`: no more bytes than a `std::ptrdiff_t` counts.
abbrev pub max_size : (word width : ℕ) → ℕ
max_size word width = (word / 2 - 1) / width

-- Room for `n` elements: beyond `max_size()` it throws `std::length_error`, which the program does not
-- catch. Memory is taken to suffice.
unfoldable pub reserve : (word width n : ℕ) → Option (Unit {0})
reserve word width n = if leb n (max_size word width) then some tt else none

pub reserve_lem : (word width n : ℕ) → n ≤ max_size word width → reserve word width n ≡ some tt
unfolding reserve
reserve_lem word width n h =
    let fits : leb n (max_size word width) ≡ true = ground arith in rw fits refl
