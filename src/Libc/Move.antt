-- ===== src/Libc/Move.antt =====
-- memmove copies every byte of its source, also where the two areas overlap.
use mit_jos_f22_advanced_os.Base.{
  ℕ, zero, suc, ◌+◌, ◌-◌, ◌*◌, ◌/◌, ◌%◌, ◌≤◌, ◌≡◌, ap, ◌∙◌, sym, ◌⊎◌, inl, inr, ◌&&◌, ltb, leb,
  if◌then◌else◌, arith, Bool-cases,
}
use mathlib.Core.Path.{subst}
use mit_jos_f22_advanced_os.Libc.Bytes.{Memory, move_unit, move_up, move_down, memmove, is_by_four}

-- Memory `m` with the `n` bytes from `s` copied to `d`, all read from `m`.
abbrev pub copied : ℕ → ℕ → ℕ → Memory → Memory
copied n d s m a = if leb d a && ltb a (d + n) then m (s + (a - d)) else m a

-- The first unit and then `p` more bytes above it.
join_up :
    (w p d s : ℕ) (m : Memory) (a : ℕ)
    → (d ≤ s) ⊎ (s + (p + w) ≤ d)
    → copied p (d + w) (s + w) (move_unit w d s m) a ≡ copied (p + w) d s m a
join_up w p d s m a h = elim (Bool-cases (leb (d + w) a && ltb a (d + w + p))) [
  | inl on ↦
      let x : s + w + (a - (d + w)) ≡ s + (a - d) = ground (arith, on) in ground (arith, h, on, x)
  | inr off ↦ ground (arith, h, off)
]

-- The last unit and then `p` more bytes below it.
join_down :
    (w p d s : ℕ) (m : Memory) (a : ℕ)
    → s ≤ d
    → copied p d s (move_unit w (d + p) (s + p) m) a ≡ copied (p + w) d s m a
join_down w p d s m a h = elim (Bool-cases (leb d a && ltb a (d + p))) [
  | inl on ↦ ground (arith, h, on)
  | inr off ↦ elim (Bool-cases (leb (d + p) a && ltb a (d + p + w))) [
    | inl last ↦
        let x : s + p + (a - (d + p)) ≡ s + (a - d) = ground (arith, last) in
        ground (arith, off, last, x)
    | inr out ↦ ground (arith, off, out)
  ]
]

move_up_lem :
    (w n d s : ℕ) (m : Memory) (a : ℕ)
    → (d ≤ s) ⊎ (s + n * w ≤ d)
    → move_up w n d s m a ≡ copied (n * w) d s m a
unfolding move_up
move_up_lem w zero d s m a h = ground arith
move_up_lem w (suc n) d s m a h =
    let e : suc n * w ≡ n * w + w = omega arith in
    let apart : (d + w ≤ s + w) ⊎ (s + w + n * w ≤ d + w) = elim h [
      | inl p ↦ inl (omega (arith, p))
      | inr p ↦ inr (omega (arith, p, e))
    ] in
    let ih = move_up_lem w n (d + w) (s + w) (move_unit w d s m) a apart in
    ih
    ∙ join_up w (n * w) d s m a (elim h [ inl p ↦ inl p | inr p ↦ inr (omega (arith, p, e)) ])
    ∙ ap (λ k. copied k d s m a) (sym e)

move_down_lem :
    (w n d s : ℕ) (m : Memory) (a : ℕ)
    → s ≤ d
    → move_down w n (d + n * w) (s + n * w) m a ≡ copied (n * w) d s m a
unfolding move_down
move_down_lem w zero d s m a h = ground arith
move_down_lem w (suc n) d s m a h =
    let d' : d + suc n * w - w ≡ d + n * w = omega arith in
    let s' : s + suc n * w - w ≡ s + n * w = omega arith in
    let e : suc n * w ≡ n * w + w = omega arith in
    rw d' (
      rw s' (
        move_down_lem w n d s (move_unit w (d + n * w) (s + n * w) m) a h
        ∙ join_down w (n * w) d s m a h
        ∙ ap (λ k. copied k d s m a) (sym e)))

-- memmove of `n` bytes, whichever of its four loops runs: each byte of the destination gets the
-- byte that the source had before the call, and no other byte changes. The areas may overlap.
pub memmove_lem :
    (dst src n : ℕ) (m : Memory) (a : ℕ) → memmove dst src n m a ≡ copied n dst src m a
unfolding memmove
memmove_lem dst src n m a = elim (Bool-cases (ltb src dst && ltb dst (src + n))) [
  | inl down ↦ elim (Bool-cases (is_by_four (src + n) (dst + n) n)) [
    | inl four ↦ rw down (rw four (words_down (ground (arith, four)) (ground (arith, down))))
    | inr one ↦ rw down (rw one (bytes_down (ground (arith, down))))
  ]
  | inr up ↦ elim (Bool-cases (is_by_four src dst n)) [
    | inl four ↦ rw up (rw four (words_up (ground (arith, four)) (ground (arith, up))))
    | inr one ↦ rw up (rw one (bytes_up (ground (arith, up))))
  ]
]
  where
    four_times : n % 4 ≡ 0 → n / 4 * 4 ≡ n
    four_times h = omega (arith, h)

    one_time : n * 1 ≡ n
    one_time = omega arith

    words_down :
        n % 4 ≡ 0 → src ≤ dst → move_down 4 (n / 4) (dst + n) (src + n) m a ≡ copied n dst src m a
    words_down h le =
        subst (λ k. move_down 4 (n / 4) (dst + k) (src + k) m a ≡ copied k dst src m a)
          (four_times h) (move_down_lem 4 (n / 4) dst src m a le)

    bytes_down : src ≤ dst → move_down 1 n (dst + n) (src + n) m a ≡ copied n dst src m a
    bytes_down le =
        subst (λ k. move_down 1 n (dst + k) (src + k) m a ≡ copied k dst src m a) one_time
          (move_down_lem 1 n dst src m a le)

    words_up :
        n % 4 ≡ 0
        → (dst ≤ src) ⊎ (src + n ≤ dst)
        → move_up 4 (n / 4) dst src m a ≡ copied n dst src m a
    words_up h le =
        subst
          (λ k.
            ((dst ≤ src) ⊎ (src + k ≤ dst)) → move_up 4 (n / 4) dst src m a ≡ copied k dst src m a)
          (four_times h) (move_up_lem 4 (n / 4) dst src m a) le

    bytes_up : (dst ≤ src) ⊎ (src + n ≤ dst) → move_up 1 n dst src m a ≡ copied n dst src m a
    bytes_up le =
        subst
          (λ k. ((dst ≤ src) ⊎ (src + k ≤ dst)) → move_up 1 n dst src m a ≡ copied k dst src m a)
          one_time (move_up_lem 1 n dst src m a) le
