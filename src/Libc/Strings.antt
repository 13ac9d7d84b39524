-- ===== src/Libc/Strings.antt =====
-- strnlen, strncpy, strlcpy, memcmp and memfind of lib/string.c.
use mit_jos_f22_advanced_os.Base.{
  ℕ, zero, suc, ◌+◌, ◌-◌, ◌%◌, ◌≤◌, ◌<◌, ◌≡◌, refl, ap, ◌∙◌, ◌⊎◌, inl, inr, ◌&&◌, ltb, leb, ◌==◌,
  if◌then◌else◌, update, arith, Bool-cases, Option, none, some,
}
use mit_jos_f22_advanced_os.Libc.Bytes.{Memory}

unfoldable pub strnlen : ℕ → ℕ → Memory → ℕ
strnlen s zero m = 0
strnlen s (suc size) m = let rest = strnlen (s + 1) size m in if m s == 0 then 0 else suc rest

-- The test for the end of `src` reads memory after the store to `dst`.
unfoldable pub strncpy : ℕ → ℕ → ℕ → Memory → Memory
strncpy dst src zero m = m
strncpy dst src (suc size) m =
    let m₁ = update m dst (m src) in
    strncpy (dst + 1) (if m₁ src == 0 then src else src + 1) size m₁

-- The loop of strlcpy with `n` bytes of room before the final null: where `dst` ends, and memory.
unfoldable pub copy_string : ℕ → ℕ → ℕ → Memory → ℕ × Memory
copy_string dst src zero m = (dst, update m dst 0)
copy_string dst src (suc n) m =
    let rest = copy_string (dst + 1) (src + 1) n (update m dst (m src)) in
    if m src == 0 then (dst, update m dst 0) else rest

unfoldable pub strlcpy : ℕ → ℕ → ℕ → Memory → ℕ × Memory
unfolding copy_string
strlcpy dst src zero m = (0, m)
strlcpy dst src (suc size) m = let (end, m') = copy_string dst src size m in (end - dst, m')

-- `none` is 0, `some (a, b)` the `int` a - b of two bytes that differ.
unfoldable pub memcmp : ℕ → ℕ → ℕ → Memory → Option (ℕ × ℕ)
memcmp s1 s2 zero m = none
memcmp s1 s2 (suc n) m =
    let rest = memcmp (s1 + 1) (s2 + 1) n m in if m s1 == m s2 then rest else some (m s1, m s2)

unfoldable pub memfind : ℕ → ℕ → ℕ → Memory → ℕ
memfind s c zero m = s
memfind s c (suc n) m = let rest = memfind (s + 1) c n m in if m s == c % 256 then s else rest

-- Memory `m` with the `n` bytes from `s` copied to `d` and a null behind them.
abbrev pub terminated : ℕ → ℕ → ℕ → Memory → Memory
terminated n d s m a =
    if leb d a && ltb a (d + n) then m (s + (a - d)) else if a == d + n then 0 else m a

strnlen-update :
    (s n d b : ℕ) (m : Memory) → (d < s) ⊎ (s + n ≤ d) → strnlen s n (update m d b) ≡ strnlen s n m
unfolding strnlen
strnlen-update s zero d b m h = refl
strnlen-update s (suc n) d b m h =
    let ih =
      strnlen-update (s + 1) n d b m
        (elim h [ inl p ↦ inl (omega (arith, p)) | inr p ↦ inr (omega (arith, p)) ]) in
    let same : update m d b s ≡ m s = ground (arith, h) in rw same (rw ih refl)

strnlen-le : (s n : ℕ) (m : Memory) → strnlen s n m ≤ n
unfolding strnlen
strnlen-le s zero m = omega arith
strnlen-le s (suc n) m = ground (arith, strnlen-le (s + 1) n m)

-- The first byte and then `k` more and the null above it.
first_byte :
    (k n dst src : ℕ) (m : Memory) (a : ℕ)
    → k ≤ n
    → (dst + suc n < src) ⊎ (src + suc n ≤ dst)
    → terminated k (dst + 1) (src + 1) (update m dst (m src)) a ≡ terminated (suc k) dst src m a
first_byte k n dst src m a few h = elim (Bool-cases (leb (dst + 1) a && ltb a (dst + 1 + k))) [
  | inl on ↦
      let x : src + 1 + (a - (dst + 1)) ≡ src + (a - dst) = ground (arith, on) in
      ground (arith, h, on, x, few)
  | inr off ↦ elim (Bool-cases (a == dst)) [
    | inl here ↦
        let x : src + (a - dst) ≡ src = ground (arith, here) in ground (arith, off, here, x)
    | inr other ↦ ground (arith, off, other)
  ]
]

copy_string_lem :
    (n dst src : ℕ) (m : Memory)
    → (dst + n < src) ⊎ (src + n ≤ dst)
    → ((copy_string dst src n m).0 ≡ dst + strnlen src n m)
      × ((a : ℕ) → (copy_string dst src n m).1 a ≡ terminated (strnlen src n m) dst src m a)
unfolding copy_string strnlen
copy_string_lem zero dst src m h = (omega arith, λ a. ground arith)
copy_string_lem (suc n) dst src m h = elim (Bool-cases (m src == 0)) [
  | inl end ↦ rw end (omega arith, λ a. ground arith)
  | inr more ↦
      let m₁ = update m dst (m src) in
      let apart : (dst + 1 + n < src + 1) ⊎ (src + 1 + n ≤ dst + 1) = elim h [
        | inl p ↦ inl (omega (arith, p))
        | inr p ↦ inr (omega (arith, p))
      ] in
      let (place, bytes) = copy_string_lem n (dst + 1) (src + 1) m₁ apart in
      let len =
        strnlen-update (src + 1) n dst (m src) m
          (elim h [ inl p ↦ inl (omega (arith, p)) | inr p ↦ inr (omega (arith, p)) ]) in
      let few = strnlen-le (src + 1) n m in
      rw more (
        omega (arith, place, len),
        λ a.
            bytes a
            ∙ ap (λ l. terminated l (dst + 1) (src + 1) m₁ a) len
            ∙ first_byte (strnlen (src + 1) n m) n dst src m a few h,
      )
]

-- strlcpy with `size` of at least 1 and areas that do not overlap returns the length of the source
-- string, cut to `size - 1`, copies that many bytes, puts a null behind them, and changes no other
-- byte.
pub strlcpy_lem :
    (dst src size : ℕ) (m : Memory)
    → 0 < size
    → (dst + size ≤ src) ⊎ (src + size ≤ dst)
    → ((strlcpy dst src size m).0 ≡ strnlen src (size - 1) m)
      × (strnlen src (size - 1) m < size)
      × ((a : ℕ) → (strlcpy dst src size m).1 a ≡ terminated (strnlen src (size - 1) m) dst src m a)
unfolding strlcpy
strlcpy_lem dst src zero m pos h = absurd (omega (arith, pos))
strlcpy_lem dst src (suc n) m pos h =
    let (place, bytes) =
      copy_string_lem n dst src m
        (elim h [ inl p ↦ inl (omega (arith, p)) | inr p ↦ inr (omega (arith, p)) ]) in
    let e : suc n - 1 ≡ n = omega arith in
    rw e (omega (arith, place), omega (arith, strnlen-le src n m), bytes)
