-- ===== src/Fs/Bitmap.antt =====
-- alloc_block and free_block of fs/fs.c on the set of free blocks.
use mit_jos_f22_advanced_os.Base.{
  ℕ, zero, suc, ◌+◌, ◌-◌, ◌*◌, ◌/◌, ◌%◌, ◌^◌, ◌≤◌, ◌<◌, ◌≡◌, refl, ap, ◌∙◌, sym, ◌≢◌, ◌⊎◌, inl, inr,
  Bool, true, false, ◌&&◌, ◌||◌, not, Option, none, some, update, leb, ◌==◌, if◌then◌else◌, bit_or,
  bit_and, arith, Bool-cases, ==_ne,
}
use mit_jos_f22_advanced_os.Base.Ret.{Ret, ok, err, e_no_disk}
use mit_jos_f22_advanced_os.Fs.Disk.{
  Disk, s_nblocks, block_is_free, free_block, first_block, alloc_block,
}
use mit_jos_f22_advanced_os.Fs.Bits.{bit, bit-lt, bit-set, bit-clear, bit_and-pow, pow-pos}

times : (b p : ℕ) → b < 2 → 0 < p → not (b * p == 0) ≡ (b == 1)
times zero p h k = ground arith
times (suc zero) p h k = ground arith
times (suc (suc b)) p h k = absurd (omega (arith, h))

-- A block's bit in the bitmap.
abbrev mark : Disk → ℕ → ℕ
mark d j = bit (j % 32) (d (2 + j / 32 / 1024) (j / 32 % 1024))

is_free_lem :
    (j : ℕ) (d : Disk) → block_is_free j d ≡ (not (leb (s_nblocks d) j) && (mark d j == 1))
unfolding block_is_free
is_free_lem j d =
    let w = d (2 + j / 32 / 1024) (j / 32 % 1024) in
    let e : not (bit_and w (2 ^ (j % 32)) == 0) ≡ (mark d j == 1) =
      rw (bit_and-pow (j % 32) w)
        (times (mark d j) (2 ^ (j % 32)) (bit-lt (j % 32) w) (pow-pos (j % 32))) in
    rw e (ground arith)

-- The disk after a store of `w` into the bitmap word of block `i`.
abbrev marked : ℕ → ℕ → Disk → Disk
marked i w d = update d (2 + i / 32 / 1024) (update (d (2 + i / 32 / 1024)) (i / 32 % 1024) w)

taken : ℕ → Disk → Disk
taken i d = marked i (bit_and (d (2 + i / 32 / 1024) (i / 32 % 1024)) (2 ^ 32 - 1 - 2 ^ (i % 32))) d

given : ℕ → Disk → Disk
given i d = marked i (bit_or (d (2 + i / 32 / 1024) (i / 32 % 1024)) (2 ^ (i % 32))) d

mark-taken : (i j : ℕ) (d : Disk) → mark (taken i d) j ≡ (if i == j then 0 else mark d j)
unfolding taken
mark-taken i j d = ground (
  arith,
  bit-clear (j % 32) (i % 32) 32 (d (2 + i / 32 / 1024) (i / 32 % 1024)) (omega arith)
      (omega arith),
)

mark-given : (i j : ℕ) (d : Disk) → mark (given i d) j ≡ (if i == j then 1 else mark d j)
unfolding given
mark-given i j d = ground (arith, bit-set (j % 32) (i % 32) (d (2 + i / 32 / 1024) (i / 32 % 1024)))

s_nblocks-taken : (i : ℕ) (d : Disk) → s_nblocks (taken i d) ≡ s_nblocks d
unfolding taken
s_nblocks-taken i d = ground arith

free-taken :
    (i j : ℕ) (d : Disk) → block_is_free j (taken i d) ≡ (not (i == j) && block_is_free j d)
free-taken i j d =
    ground
      (arith, is_free_lem j d, is_free_lem j (taken i d), mark-taken i j d, s_nblocks-taken i d)

s_nblocks-given : (i : ℕ) (d : Disk) → s_nblocks (given i d) ≡ s_nblocks d
unfolding given
s_nblocks-given i d = ground arith

free-given :
    (i j : ℕ) (d : Disk)
    → i < s_nblocks d
    → block_is_free j (given i d) ≡ ((i == j) || block_is_free j d)
free-given i j d lt =
    ground
      (arith, is_free_lem j d, is_free_lem j (given i d), mark-given i j d, s_nblocks-given i d)

from_next :
    (i j : ℕ) (d : Disk)
    → block_is_free i d ≡ false
    → (i + 1 ≤ j → block_is_free j d ≡ false)
    → i ≤ j
    → block_is_free j d ≡ false
from_next i j d off rest h = elim (Bool-cases (i == j)) [
  | inl e ↦ ground arith
  | inr ne ↦ rest (ground arith)
]

-- The search finds the first free block of its range, or there is none.
first_block_lem :
    (n i : ℕ) (d : Disk)
    → ((b : ℕ) × (first_block n i d ≡ some b)
        × (i ≤ b)
        × (b < i + n)
        × (block_is_free b d ≡ true)
        × ((j : ℕ) → i ≤ j → j < b → block_is_free j d ≡ false))
      ⊎ ((first_block n i d ≡ none) × ((j : ℕ) → i ≤ j → j < i + n → block_is_free j d ≡ false))
unfolding first_block
first_block_lem zero i d = inr (refl, λ j a b. absurd (omega (arith, a, b)))
first_block_lem (suc n) i d = elim (Bool-cases (block_is_free i d)) [
  | inl on ↦
      inl (i, rw on refl, omega arith, omega arith, on, λ j a b. absurd (omega (arith, a, b)))
  | inr off ↦ elim (first_block_lem n (i + 1) d) [
    | inl (b, run, lo, hi, free, first) ↦ inl (
      b,
      rw off run,
      omega (arith, lo),
      omega (arith, hi),
      free,
      λ j a c. from_next i j d off (λ lt. first j lt c) a,
    )
    | inr (run, none_free) ↦
        inr (rw off run, λ j a c. from_next i j d off (λ lt. none_free j lt (omega (arith, c))) a)
  ]
]

outside :
    (j : ℕ) (d : Disk)
    → ((j : ℕ) → 0 ≤ j → j < 0 + s_nblocks d → block_is_free j d ≡ false)
    → block_is_free j d ≡ false
outside j d h = elim (Bool-cases (leb (s_nblocks d) j)) [
  | inl out ↦ ground (arith, is_free_lem j d)
  | inr inside ↦ h j (omega arith) (ground arith)
]

-- alloc_block returns the first block that the bitmap marks as free, and this block alone is no
-- longer marked; with no block marked it returns -E_NO_DISK and changes nothing.
pub alloc_block_lem :
    (d : Disk)
    → ((i : ℕ) × (d' : Disk) × (alloc_block d ≡ some (ok i, d'))
        × (block_is_free i d ≡ true)
        × ((j : ℕ) → j < i → block_is_free j d ≡ false)
        × ((j : ℕ) → block_is_free j d' ≡ (not (i == j) && block_is_free j d))
        × (s_nblocks d' ≡ s_nblocks d))
      ⊎ ((alloc_block d ≡ some (err e_no_disk, d)) × ((j : ℕ) → block_is_free j d ≡ false))
unfolding alloc_block taken
alloc_block_lem d = elim (first_block_lem (s_nblocks d) 0 d) [
  | inl (i, run, lo, hi, free, first) ↦ inl (
    i,
    taken i d,
    rw (run, alloc_block) refl,
    free,
    (λ j lt. first j (omega arith) lt),
    (λ j. free-taken i j d),
    s_nblocks-taken i d,
  )
  | inr (run, none_free) ↦ inr (rw (run, alloc_block) refl, λ j. outside j d none_free)
]

-- free_block of a block of the disk other than 0 marks this block and no other.
pub free_block_lem :
    (i : ℕ) (d : Disk)
    → i ≢ 0
    → i < s_nblocks d
    → (d' : Disk) × (free_block i d ≡ some (tt, d'))
      × ((j : ℕ) → block_is_free j d' ≡ ((i == j) || block_is_free j d))
      × (s_nblocks d' ≡ s_nblocks d)
unfolding free_block given
free_block_lem i d ne lt =
    (given i d, rw (==_ne i 0 ne) refl, (λ j. free-given i j d lt), s_nblocks-given i d)

-- A block that alloc_block returned, given back by free_block, leaves every block as free as it
-- was, if block 0 is marked as used.
pub alloc_block-free_block :
    (d d₁ : Disk) (i : ℕ)
    → block_is_free 0 d ≡ false
    → alloc_block d ≡ some (ok i, d₁)
    → (d₂ : Disk) × (free_block i d₁ ≡ some (tt, d₂))
      × ((j : ℕ) → block_is_free j d₂ ≡ block_is_free j d)
alloc_block-free_block d d₁ i zero_used run = elim (alloc_block_lem d) [
  | inl (b, d', run', free, first, after, size) ↦
      let e : b ≡ i = ap number (sym run' ∙ run) in
      let e' : d' ≡ d₁ = ap disk (sym run' ∙ run) in
      let free_i : block_is_free i d ≡ true = ap (λ x. block_is_free x d) (sym e) ∙ free in
      let ne : i ≢ 0 = λ z. ground (arith, ap (λ x. block_is_free x d) z) in
      let lt : i < s_nblocks d₁ = ground (arith, is_free_lem i d, ap s_nblocks e', size) in
      let (d₂, run₂, given₂, size₂) = free_block_lem i d₁ ne lt in
      (d₂, run₂, λ j. ground (arith, given₂ j, after j, ap (block_is_free j) e', e, free_i))
  | inr (run', none_free) ↦ absurd (ground (arith, ap is_ok (sym run' ∙ run)))
]
  where
    number : Option (Ret ℕ × Disk) → ℕ
    number (some (ok i, d')) = i
    number _ = 0

    disk : Option (Ret ℕ × Disk) → Disk
    disk (some (r, d')) = d'
    disk none = d

    is_ok : Option (Ret ℕ × Disk) → Bool
    is_ok (some (ok i, d')) = true
    is_ok _ = false
