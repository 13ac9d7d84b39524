-- ===== src/Fs/Bits.antt =====
-- One bit of a word: what a test, a set and a clear with a one-bit mask do.
use mit_jos_f22_advanced_os.Base.{
  ℕ, zero, suc, ◌-◌, ◌*◌, ◌/◌, ◌%◌, ◌^◌, ◌<◌, ◌≡◌, ap, ◌∙◌, arith, ◌==◌, if◌then◌else◌, bit_or,
  bit_and,
}
use native.Mathlib.Nat.{pow-suc}
use mit_jos_f22_advanced_os.Base.Words.{
  bit_or-halves, bit_and-halves, bit_and-bit0, bit_or-bit0, double-pow,
}

unfoldable pub bit : ℕ → ℕ → ℕ
bit zero w = w % 2
bit (suc k) w = bit k (w / 2)

pub bit-lt : (k w : ℕ) → bit k w < 2
unfolding bit
bit-lt zero w = omega arith
bit-lt (suc k) w = bit-lt k (w / 2)

pub pow-pos : (n : ℕ) → 0 < 2 ^ n
pow-pos zero = omega arith
pow-pos (suc n) = omega (arith, pow-suc 2 n, pow-pos n)

pow-lt : (k n : ℕ) → k < n → 2 ^ k < 2 ^ n
pow-lt k zero h = absurd (omega (arith, h))
pow-lt zero (suc n) h = omega (arith, pow-suc 2 n, pow-pos n)
pow-lt (suc k) (suc n) h = omega (arith, pow-suc 2 n, pow-suc 2 k, pow-lt k n (omega (arith, h)))

pow-half : (k : ℕ) → (2 ^ suc k / 2 ≡ 2 ^ k) × (2 ^ suc k % 2 ≡ 0)
pow-half k = (omega (arith, pow-suc 2 k), omega (arith, pow-suc 2 k))

pub bit_and-pow : (k w : ℕ) → bit_and w (2 ^ k) ≡ bit k w * 2 ^ k
unfolding bit
bit_and-pow zero w = omega (arith, bit_and-bit0 w)
bit_and-pow (suc k) w =
    let (h, l) = pow-half k in
    ground (
      arith,
      h,
      l,
      bit_and-halves w (2 ^ suc k),
      bit_and-pow k (w / 2),
      double-pow (bit k (w / 2)) k,
    )

-- The halves of a word with one more bit set.
bit_or-pow_half :
    (k w : ℕ)
    → (bit_or w (2 ^ suc k) / 2 ≡ bit_or (w / 2) (2 ^ k)) × (bit_or w (2 ^ suc k) % 2 ≡ w % 2)
bit_or-pow_half k w =
    let (h, l) = pow-half k in
    (
      ground (arith, h, l, bit_or-halves w (2 ^ suc k)),
      ground (arith, h, l, bit_or-halves w (2 ^ suc k)),
    )

pub bit-set : (j k w : ℕ) → bit j (bit_or w (2 ^ k)) ≡ (if j == k then 1 else bit j w)
unfolding bit
bit-set zero zero w = omega (arith, bit_or-bit0 w)
bit-set zero (suc k) w = ground (arith, (bit_or-pow_half k w).1)
bit-set (suc j) zero w =
    let e : bit_or w 1 / 2 ≡ w / 2 = omega (arith, bit_or-bit0 w) in ground (arith, ap (bit j) e)
bit-set (suc j) (suc k) w =
    ground (arith, ap (bit j) ((bit_or-pow_half k w).0) ∙ bit-set j k (w / 2))

-- The halves of a word under a mask of `n + 1` ones, and of one without the bit `k + 1`.
full_half :
    (n w : ℕ)
    → (bit_and w (2 ^ suc n - 1) / 2 ≡ bit_and (w / 2) (2 ^ n - 1))
      × (bit_and w (2 ^ suc n - 1) % 2 ≡ w % 2)
full_half n w =
    let h : (2 ^ suc n - 1) / 2 ≡ 2 ^ n - 1 = omega (arith, pow-suc 2 n, pow-pos n) in
    let l : (2 ^ suc n - 1) % 2 ≡ 1 = omega (arith, pow-suc 2 n, pow-pos n) in
    let e = bit_and-halves w (2 ^ suc n - 1) in (ground (arith, h, l, e), ground (arith, h, l, e))

pub bit-full : (j n w : ℕ) → j < n → bit j (bit_and w (2 ^ n - 1)) ≡ bit j w
unfolding bit
bit-full j zero w h = absurd (omega (arith, h))
bit-full zero (suc n) w h = (full_half n w).1
bit-full (suc j) (suc n) w h =
    ap (bit j) ((full_half n w).0) ∙ bit-full j n (w / 2) (omega (arith, h))

mask_half :
    (n k w : ℕ)
    → k < n
    → (bit_and w (2 ^ suc n - 1 - 2 ^ suc k) / 2 ≡ bit_and (w / 2) (2 ^ n - 1 - 2 ^ k))
      × (bit_and w (2 ^ suc n - 1 - 2 ^ suc k) % 2 ≡ w % 2)
mask_half n k w lt =
    let p : 2 ^ k < 2 ^ n = pow-lt k n lt in
    let h : (2 ^ suc n - 1 - 2 ^ suc k) / 2 ≡ 2 ^ n - 1 - 2 ^ k =
      omega (arith, pow-suc 2 n, pow-suc 2 k, p) in
    let l : (2 ^ suc n - 1 - 2 ^ suc k) % 2 ≡ 1 = omega (arith, pow-suc 2 n, pow-suc 2 k, p) in
    let e = bit_and-halves w (2 ^ suc n - 1 - 2 ^ suc k) in
    (ground (arith, h, l, e), ground (arith, h, l, e))

pub bit-clear :
    (j k n w : ℕ)
    → j < n
    → k < n
    → bit j (bit_and w (2 ^ n - 1 - 2 ^ k)) ≡ (if j == k then 0 else bit j w)
unfolding bit
bit-clear j k zero w a b = absurd (omega (arith, a))
bit-clear zero zero (suc n) w a b =
    let l : (2 ^ suc n - 2) % 2 ≡ 0 = omega (arith, pow-suc 2 n) in
    ground (arith, l, bit_and-halves w (2 ^ suc n - 1 - 1))
bit-clear zero (suc k) (suc n) w a b = ground (arith, (mask_half n k w (omega (arith, b))).1)
bit-clear (suc j) zero (suc n) w a b =
    let h : (2 ^ suc n - 1 - 1) / 2 ≡ 2 ^ n - 1 = omega (arith, pow-suc 2 n) in
    let l : (2 ^ suc n - 1 - 1) % 2 ≡ 0 = omega (arith, pow-suc 2 n) in
    let e : bit_and w (2 ^ suc n - 1 - 1) / 2 ≡ bit_and (w / 2) (2 ^ n - 1) =
      ground (arith, h, l, bit_and-halves w (2 ^ suc n - 1 - 1)) in
    ground (arith, ap (bit j) e ∙ bit-full j n (w / 2) (omega (arith, a)))
bit-clear (suc j) (suc k) (suc n) w a b =
    let e = bit-clear j k n (w / 2) (omega (arith, a)) (omega (arith, b)) in
    ground (arith, ap (bit j) ((mask_half n k w (omega (arith, b))).0) ∙ e)
