-- ===== src/Fs/Spread.antt =====
-- The bytes of a file whose blocks are allocated, one after the other, and what the loops of
-- file_read and file_write do to them.
use mit_jos_f22_advanced_os.Base.{
  ℕ, zero, suc, ◌+◌, ◌&&◌, ◌*◌, ◌/◌, ◌%◌, ◌^◌, ◌≤◌, ◌<◌, ◌≡◌, refl, ap, ◌∙◌, ◌≢◌, List, [], ◌∷◌,
  ◌++◌, ◌==◌, if◌then◌else◌, length, arith,
}
use mit_jos_f22_advanced_os.Fs.Disk.{Disk}
use mit_jos_f22_advanced_os.Fs.Content.{byte_at, set_byte, put_byte, bytes_at, put_bytes, drop}

set_byte-same : (w i c : ℕ) → i < 4 → c < 256 → set_byte w i c / 256 ^ i % 256 ≡ c
set_byte-same w zero c h k = omega (arith, k)
set_byte-same w (suc zero) c h k = omega (arith, k)
set_byte-same w (suc (suc zero)) c h k = omega (arith, k)
set_byte-same w (suc (suc (suc zero))) c h k = omega (arith, k)
set_byte-same w (suc (suc (suc (suc i)))) c h k = absurd (omega (arith, h))

set_byte-other :
    (w i j c : ℕ)
    → i < 4
    → j < 4
    → c < 256
    → i ≢ j
    → set_byte w i c / 256 ^ j % 256 ≡ w / 256 ^ j % 256
set_byte-other w zero zero c h g k ne = absurd (ne refl)
set_byte-other w zero (suc zero) c h g k ne = omega (arith, k)
set_byte-other w zero (suc (suc zero)) c h g k ne = omega (arith, k)
set_byte-other w zero (suc (suc (suc zero))) c h g k ne = omega (arith, k)
set_byte-other w (suc zero) zero c h g k ne = omega (arith, k)
set_byte-other w (suc zero) (suc zero) c h g k ne = absurd (ne refl)
set_byte-other w (suc zero) (suc (suc zero)) c h g k ne = omega (arith, k)
set_byte-other w (suc zero) (suc (suc (suc zero))) c h g k ne = omega (arith, k)
set_byte-other w (suc (suc zero)) zero c h g k ne = omega (arith, k)
set_byte-other w (suc (suc zero)) (suc zero) c h g k ne = omega (arith, k)
set_byte-other w (suc (suc zero)) (suc (suc zero)) c h g k ne = absurd (ne refl)
set_byte-other w (suc (suc zero)) (suc (suc (suc zero))) c h g k ne = omega (arith, k)
set_byte-other w (suc (suc (suc zero))) zero c h g k ne = omega (arith, k)
set_byte-other w (suc (suc (suc zero))) (suc zero) c h g k ne = omega (arith, k)
set_byte-other w (suc (suc (suc zero))) (suc (suc zero)) c h g k ne = omega (arith, k)
set_byte-other w (suc (suc (suc zero))) (suc (suc (suc zero))) c h g k ne = absurd (ne refl)
set_byte-other w (suc (suc (suc (suc i)))) j c h g k ne = absurd (omega (arith, h))
set_byte-other w i (suc (suc (suc (suc j)))) c h g k ne = absurd (omega (arith, g))

pub byte_at-put_byte :
    (b o b' o' c : ℕ) (d : Disk)
    → c < 256
    → byte_at b' o' (put_byte b o c d) ≡ (if (b == b') && (o == o') then c else byte_at b' o' d)
byte_at-put_byte b o b' o' c d k = ground (
  arith,
  set_byte-same (d b (o / 4)) (o % 4) c (omega arith) k,
  set_byte-other (d b (o / 4)) (o % 4) (o' % 4) c (omega arith) (omega arith) k,
)

-- Byte `p` of the file.
abbrev pub byte : (ℕ → ℕ) → Disk → ℕ → ℕ
byte blocks d p = byte_at (blocks (p / 4096)) (p % 4096) d

-- The `n` bytes from `p` on.
unfoldable pub span : (ℕ → ℕ) → ℕ → ℕ → Disk → List ℕ
span blocks zero p d = []
span blocks (suc n) p d = byte blocks d p ∷ span blocks n (p + 1) d

-- The bytes of `buf` from `p` on.
unfoldable pub spread : (ℕ → ℕ) → List ℕ → ℕ → Disk → Disk
spread blocks [] p d = d
spread blocks (c ∷ buf) p d =
    spread blocks buf (p + 1) (put_byte (blocks (p / 4096)) (p % 4096) c d)

pub span_add :
    (blocks : ℕ → ℕ) (a b p : ℕ) (d : Disk)
    → span blocks (a + b) p d ≡ span blocks a p d ++ span blocks b (p + a) d
unfolding span
span_add blocks zero b p d =
    let e : 0 + b ≡ b = omega arith in let f : p + 0 ≡ p = omega arith in rw e (rw f refl)
span_add blocks (suc a) b p d =
    let e : suc a + b ≡ suc (a + b) = omega arith in
    let f : p + suc a ≡ p + 1 + a = omega arith in
    rw (e, span) (rw f (ap (λ s. byte blocks d p ∷ s) (span_add blocks a b (p + 1) d)))

pub bytes_at-span :
    (blocks : ℕ → ℕ) (k q o : ℕ) (d : Disk)
    → o + k ≤ 4096
    → bytes_at k (blocks q) o d ≡ span blocks k (4096 * q + o) d
unfolding bytes_at span
bytes_at-span blocks zero q o d h = refl
bytes_at-span blocks (suc k) q o d h =
    let e : 4096 * q + o + 1 ≡ 4096 * q + (o + 1) = omega arith in
    let b : (4096 * q + o) / 4096 ≡ q = omega (arith, h) in
    let i : (4096 * q + o) % 4096 ≡ o = omega (arith, h) in
    rw e (
      rw b (
        rw i (
          ap (λ s. byte_at (blocks q) o d ∷ s)
            (bytes_at-span blocks k q (o + 1) d (omega (arith, h))))))

pub put_bytes-spread :
    (blocks : ℕ → ℕ) (k q o : ℕ) (buf : List ℕ) (d : Disk)
    → o + k ≤ 4096
    → k ≤ length buf
    → spread blocks buf (4096 * q + o) d
      ≡ spread blocks (drop k buf) (4096 * q + o + k) (put_bytes k buf (blocks q) o d)
unfolding put_bytes drop spread
put_bytes-spread blocks zero q o buf d h g =
    let e : 4096 * q + o + 0 ≡ 4096 * q + o = omega arith in rw e refl
put_bytes-spread blocks (suc k) q o [] d h g = absurd (omega (arith, g))
put_bytes-spread blocks (suc k) q o (c ∷ buf) d h g =
    let e : 4096 * q + o + 1 ≡ 4096 * q + (o + 1) = omega arith in
    let f : 4096 * q + o + suc k ≡ 4096 * q + (o + 1) + k = omega arith in
    let b : (4096 * q + o) / 4096 ≡ q = omega (arith, h) in
    let i : (4096 * q + o) % 4096 ≡ o = omega (arith, h) in
    rw e (
      rw b (
        rw i (
          rw f (
            put_bytes-spread blocks k q (o + 1) buf (put_byte (blocks q) o c d) (omega (arith, h))
              (omega (arith, g))))))

-- The first `n` blocks are different ones.
abbrev pub IsDistinct : (ℕ → ℕ) → ℕ → Type 0
IsDistinct blocks n = (i j : ℕ) → i < n → j < n → blocks i ≡ blocks j → i ≡ j

pub byte-put_byte :
    (blocks : ℕ → ℕ) (n p r c : ℕ) (d : Disk)
    → IsDistinct blocks n
    → p < 4096 * n
    → r < 4096 * n
    → c < 256
    → byte blocks (put_byte (blocks (p / 4096)) (p % 4096) c d) r
      ≡ (if p == r then c else byte blocks d r)
byte-put_byte blocks n p r c d distinct hp hr k =
    byte_at-put_byte (blocks (p / 4096)) (p % 4096) (blocks (r / 4096)) (r % 4096) c d k
    ∙ ground (arith, distinct (p / 4096) (r / 4096), hp, hr)
