-- ===== src/Libc/Fill.antt =====
-- memset fills exactly its area.
use mit_jos_f22_advanced_os.Base.{
  ℕ, zero, suc, ◌+◌, ◌-◌, ◌*◌, ◌/◌, ◌%◌, ◌^◌, ◌<◌, ◌≡◌, ap, ◌∙◌, sym, inl, inr, ◌&&◌, ltb, leb,
  ◌==◌, if◌then◌else◌, arith, Bool-cases,
}
use mit_jos_f22_advanced_os.Libc.Bytes.{Memory, store_unit, store_up, repeated, memset}

-- Memory `m` with the byte `b` at the `n` addresses from `d` on.
abbrev pub filled : ℕ → ℕ → ℕ → Memory → Memory
filled n d b m a = if leb d a && ltb a (d + n) then b else m a

join :
    (w p d c b : ℕ) (m : Memory) (a : ℕ)
    → ((i : ℕ) → i < w → c / 256 ^ i % 256 ≡ b)
    → filled p (d + w) b (store_unit w d c m) a ≡ filled (p + w) d b m a
join w p d c b m a h = elim (Bool-cases (leb d a && ltb a (d + w))) [
  | inl on ↦ let e = h (a - d) (ground (arith, on)) in ground (arith, on, e)
  | inr off ↦ ground (arith, off)
]

store_up_lem :
    (w n d c b : ℕ) (m : Memory) (a : ℕ)
    → ((i : ℕ) → i < w → c / 256 ^ i % 256 ≡ b)
    → store_up w n d c m a ≡ filled (n * w) d b m a
unfolding store_up
store_up_lem w zero d c b m a h = ground arith
store_up_lem w (suc n) d c b m a h =
    let e : suc n * w ≡ n * w + w = omega arith in
    store_up_lem w n (d + w) c b (store_unit w d c m) a h
    ∙ join w (n * w) d c b m a h
    ∙ ap (λ k. filled k d b m a) (sym e)

repeated_lem : (c i : ℕ) → c < 256 → i < 4 → repeated c / 256 ^ i % 256 ≡ c
repeated_lem c zero h lt = omega (arith, h)
repeated_lem c (suc zero) h lt = omega (arith, h)
repeated_lem c (suc (suc zero)) h lt = omega (arith, h)
repeated_lem c (suc (suc (suc zero))) h lt = omega (arith, h)
repeated_lem c (suc (suc (suc (suc i)))) h lt = absurd (omega (arith, lt))

first_byte : (c i : ℕ) → i < 1 → c / 256 ^ i % 256 ≡ c % 256
first_byte c zero h = omega arith
first_byte c (suc i) h = absurd (omega (arith, h))

-- memset of `n` bytes, by either of its loops, stores the low byte of `c` at each of them and
-- changes no other byte.
pub memset_lem : (v c n : ℕ) (m : Memory) (a : ℕ) → memset v c n m a ≡ filled n v (c % 256) m a
unfolding memset
memset_lem v c n m a = elim (Bool-cases (n == 0)) [
  | inl none_to_do ↦ rw none_to_do (ground (arith, none_to_do))
  | inr some_to_do ↦ elim (Bool-cases ((v % 4 == 0) && (n % 4 == 0))) [
    | inl four ↦ rw some_to_do (rw four (words (ground (arith, four))))
    | inr one ↦ rw some_to_do (rw one bytes)
  ]
]
  where
    words : n % 4 ≡ 0 → store_up 4 (n / 4) v (repeated (c % 256)) m a ≡ filled n v (c % 256) m a
    words h =
        let e : n / 4 * 4 ≡ n = omega (arith, h) in
        let run =
          store_up_lem 4 (n / 4) v (repeated (c % 256)) (c % 256) m a
            (λ i lt. repeated_lem (c % 256) i (omega arith) lt) in
        run ∙ ap (λ k. filled k v (c % 256) m a) e

    bytes : store_up 1 n v c m a ≡ filled n v (c % 256) m a
    bytes =
        let e : n * 1 ≡ n = omega arith in
        store_up_lem 1 n v c (c % 256) m a (first_byte c) ∙ ap (λ k. filled k v (c % 256) m a) e
