-- ===== src/Common/Bits.antt =====
-- `(hi << k) | lo` is a sum when `lo` fits `k` bits, at every width.
use Prim.Native.Nat.{
  ℕ, zero, suc, ◌+◌, ◌*◌, ◌/◌, ◌^◌, ◌≤◌, ◌<◌, max, bit_or, digits, bit_or-bitwise,
}
use mathlib.Core.Path.{◌≡◌, refl, ap, ◌∙◌}
use native.Mathlib.Nat.{pow-suc}
use native.Mathlib.Omega.{arith}

abbrev joined : ℕ → ℕ → ℕ → ℕ
joined = digits (λ rest. rest) max

double_shift : (q k : ℕ) → q * 2 ^ suc k ≡ 2 * (q * 2 ^ k)
double_shift q k = omega (arith, ap (λ (t : ℕ). q * t) (pow-suc 2 k))

-- The digit recursion, with any fuel that covers the upper half `a`.
joined-halves : (n k hi a lo : ℕ) → a ≡ hi * 2 ^ k → a ≤ n → lo < 2 ^ k → joined n a lo ≡ a + lo
joined-halves zero k hi a lo e h b = ground arith
joined-halves (suc n) k hi zero lo e h b = omega arith
joined-halves (suc n) zero hi (suc a) lo e h b = omega (
  arith,
  joined-halves n zero (suc a / 2) (suc a / 2) (lo / 2) (omega arith) (omega arith) (omega arith),
)
joined-halves (suc n) (suc k) hi (suc a) lo e h b = omega (
  arith,
  double_shift hi k,
  pow-suc 2 k,
  joined-halves n k hi (suc a / 2) (lo / 2) (omega (arith, double_shift hi k)) (omega arith)
      (omega (arith, pow-suc 2 k)),
)

-- The halves of a word do not overlap, so joining them by `|` adds them.
pub bit_or_halves : (k hi lo : ℕ) → lo < 2 ^ k → bit_or (hi * 2 ^ k) lo ≡ hi * 2 ^ k + lo
bit_or_halves k hi lo h =
    bit_or-bitwise (hi * 2 ^ k) lo
    ∙ joined-halves (hi * 2 ^ k) k hi (hi * 2 ^ k) lo refl (omega arith) h
