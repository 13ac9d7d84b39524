-- ===== src/Base/Words.antt =====
-- `|` and `&` on words whose fields do not overlap, as arithmetic. The kernel packs a page's
-- physical address and the permission bits in one word.
use Prim.Native.Nat.{
  ℕ, zero, suc, ◌+◌, ◌-◌, ◌*◌, ◌/◌, ◌%◌, ◌^◌, ◌≤◌, ◌<◌, min, max, bit_and, bit_or, digits, bitwise,
  bit_and-bitwise, bit_or-bitwise,
}
use mathlib.Core.Path.{◌≡◌, refl, ap}
use native.Mathlib.Nat.{le_refl, pow-suc}
use native.Mathlib.Omega.{arith}

-- The fuel of the native recursion on digits does not matter once it is as large as the number.
module _ (z : ℕ → ℕ) (f : ℕ → ℕ → ℕ) where
  fuel_free : (n m a b : ℕ) → a ≤ n → a ≤ m → digits z f n a b ≡ digits z f m a b
  fuel_free zero zero a b p q = refl
  fuel_free zero (suc m) zero b p q = refl
  fuel_free (suc n) zero zero b p q = refl
  fuel_free (suc n) (suc m) zero b p q = refl
  fuel_free zero (suc m) (suc a) b p q = absurd (omega arith)
  fuel_free (suc n) zero (suc a) b p q = absurd (omega arith)
  fuel_free (suc n) (suc m) (suc a) b p q =
      rw (fuel_free n m (suc a / 2) (b / 2) (omega arith) (omega arith))

  low_digit :
      (x y : ℕ)
      → bitwise z f (suc x) y ≡ bitwise z f (suc x / 2) (y / 2) * 2 + f (suc x % 2) (y % 2)
  low_digit x y =
      let fewer = fuel_free x (suc x / 2) (suc x / 2) (y / 2) (omega arith) (le_refl _) in
      omega (arith, fewer)

pub bit_or-halves : (a b : ℕ) → bit_or a b ≡ bit_or (a / 2) (b / 2) * 2 + max (a % 2) (b % 2)
bit_or-halves zero b = simp bit_or-bitwise (omega arith)
bit_or-halves (suc a) b = simp bit_or-bitwise (low_digit (λ y. y) max a b)

pub bit_and-halves : (a b : ℕ) → bit_and a b ≡ bit_and (a / 2) (b / 2) * 2 + min (a % 2) (b % 2)
bit_and-halves zero b = simp bit_and-bitwise (omega arith)
bit_and-halves (suc a) b = simp bit_and-bitwise (low_digit (λ y. 0) min a b)

-- Both operations with the empty word, on at most `n` halvings.
with_zero : (n a : ℕ) → a ≤ n → (bit_or a 0 ≡ a) × (bit_and a 0 ≡ 0)
with_zero n zero h = (refl, refl)
with_zero zero (suc a) h = absurd (omega arith)
with_zero (suc n) (suc a) h =
    let (keep, clear) = with_zero n (suc a / 2) (omega arith) in
    (omega (arith, bit_or-halves (suc a) 0), omega (arith, bit_and-halves (suc a) 0))

pub bit_or-zero : (a : ℕ) → bit_or a 0 ≡ a
bit_or-zero a = (with_zero a a (le_refl a)).0

pub bit_and-zero : (a : ℕ) → bit_and a 0 ≡ 0
bit_and-zero a = (with_zero a a (le_refl a)).1

pub zero-bit_and : (b : ℕ) → bit_and 0 b ≡ 0
zero-bit_and b = bit_and-bitwise 0 b

pub zero-bit_or : (b : ℕ) → bit_or 0 b ≡ b
zero-bit_or b = bit_or-bitwise 0 b

pub double-pow : (q k : ℕ) → q * 2 ^ suc k ≡ 2 * (q * 2 ^ k)
double-pow q k = omega (arith, ap (λ (t : ℕ). q * t) (pow-suc 2 k))

-- A word `q * 2 ^ k + r` with `k` low bits `r`: what is put into the low bits stays there.
pub bit_or_low :
    (k q r p : ℕ) → r < 2 ^ k → p < 2 ^ k → bit_or (q * 2 ^ k + r) p ≡ q * 2 ^ k + bit_or r p
bit_or_low zero q r p hr hp = ground (arith, bit_or-zero q, bit_or-zero (q * 1), zero-bit_or 0)
bit_or_low (suc k) q r p hr hp = ground (
  arith,
  pow-suc 2 k,
  double-pow q k,
  bit_or-halves (q * 2 ^ suc k + r) p,
  bit_or-halves r p,
  bit_or_low k q (r / 2) (p / 2) (omega (arith, pow-suc 2 k)) (omega (arith, pow-suc 2 k)),
)

pub bit_or-lt : (k r p : ℕ) → r < 2 ^ k → p < 2 ^ k → bit_or r p < 2 ^ k
bit_or-lt zero r p hr hp = ground (arith, zero-bit_or 0)
bit_or-lt (suc k) r p hr hp = ground (
  arith,
  pow-suc 2 k,
  bit_or-halves r p,
  bit_or-lt k (r / 2) (p / 2) (omega (arith, pow-suc 2 k)) (omega (arith, pow-suc 2 k)),
)

-- Bits 0, 1 and 2, which a page table entry gives to PTE_P, PTE_W and PTE_U.
pub bit_and-bit0 : (a : ℕ) → bit_and a 1 ≡ a % 2
bit_and-bit0 a = omega (arith, bit_and-halves a 1, bit_and-zero (a / 2))

pub bit_and-bit1 : (a : ℕ) → bit_and a 2 ≡ a / 2 % 2 * 2
bit_and-bit1 a = omega (arith, bit_and-halves a 2, bit_and-bit0 (a / 2))

pub bit_or-bit0 : (a : ℕ) → bit_or a 1 ≡ a + (1 - a % 2)
bit_or-bit0 a = omega (arith, bit_or-halves a 1, bit_or-zero (a / 2))
