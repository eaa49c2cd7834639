-- ===== src/Cli/Numbers.antt =====
-- The C library's number readers that src/main.cpp calls, in base 10: `strtoull` (64 bits), `strtoul`
-- and `atoi`. Out of range the first two return the largest value; `none` is the undefined result of
-- `atoi`.
use Prim.Native.Char.{code}
use Prim.Native.String.{String}
use boost_openmethod_benchma.Common.{
  ℕ, ◌+◌, ◌-◌, ◌*◌, ◌%◌, ◌^◌, ◌≡◌, refl, Bool, true, false, ◌&&◌, ◌||◌, Option, none, some, leb,
  ltb, ◌==◌, if◌then◌else◌,
}
use boost_openmethod_benchma.Common.Int.{ℤ, pos, negsuc}

-- `isspace` in the C locale
abbrev pub is_space : ℕ → Bool
is_space c = c == 32 || (leb 9 c && leb c 13)

abbrev pub is_digit : ℕ → Bool
is_digit c = leb 48 c && leb c 57

-- the number that the digits at the front spell behind those read
abbrev pub digits : (read : ℕ) → String → ℕ
digits read String.[] = read
digits read (String.◌∷◌ c s) =
    let more = digits (read * 10 + (code c - 48)) s in if is_digit (code c) then more else read

-- a sign and digits: whether the sign is negative, and the magnitude
abbrev pub signed : String → Bool × ℕ
signed String.[] = (false, 0)
signed (String.◌∷◌ c s) =
    if code c == 45
    then (true, digits 0 s)
    else if code c == 43
    then (false, digits 0 s)
    else (false, digits 0 (String.◌∷◌ c s))

abbrev pub skip_spaces : String → String
skip_spaces String.[] = String.[]
skip_spaces (String.◌∷◌ c s) =
    let skipped = skip_spaces s in if is_space (code c) then skipped else String.◌∷◌ c s

-- an unsigned type of `range` values: a negative sign negates within the type
abbrev pub unsigned : (range : ℕ) → Bool × ℕ → ℕ
unsigned range (negative, m) =
    if leb range m then range - 1 else if negative then (range - m) % range else m

-- `std::strtoull(v, nullptr, 10)`
unfoldable pub strtoull : String → ℕ
strtoull v = unsigned (2 ^ 64) (signed (skip_spaces v))

-- `std::strtoul(v, nullptr, 10)`
unfoldable pub strtoul : (word : ℕ) → String → ℕ
strtoul word v = unsigned word (signed (skip_spaces v))

abbrev pub in_int : Bool × ℕ → Option ℤ
in_int (negative, m) =
    if m == 0
    then some (pos 0)
    else if negative
    then (if leb m (2 ^ 31) then some (negsuc (m - 1)) else none)
    else if ltb m (2 ^ 31)
    then some (pos m)
    else none

-- `std::atoi(v)`
unfoldable pub atoi : String → Option ℤ
atoi v = in_int (signed (skip_spaces v))

readings :
    (strtoull " 42x" ≡ 42)
    × (strtoull "-1" ≡ 2 ^ 64 - 1)
    × (strtoull "18446744073709551616" ≡ 2 ^ 64 - 1)
    × (atoi "-3" ≡ some (negsuc 2))
    × (atoi "2147483648" ≡ none)
unfolding strtoull atoi
readings = (refl, refl, refl, refl, refl)
