-- ===== src/Fd/Shared.antt =====
-- What the numbers of descriptors stand for: fd_alloc, and the page that two of them share after dup.
use mit_jos_f22_advanced_os.Base.{
  ℕ, zero, suc, ◌+◌, ◌≤◌, ◌<◌, ◌≡◌, refl, ap, ◌∙◌, sym, ◌≢◌, ◌⊎◌, inl, inr, true, false, List, some,
  leb, ◌==◌, if◌then◌else◌, update, arith, Bool-cases, Option-cases,
}
use mathlib.Core.Path.{subst}
use mit_jos_f22_advanced_os.Base.Ret.{◌>>=◌, Ret, ok, err, e_max_open, e_inval}
use mit_jos_f22_advanced_os.Fd.Table.{
  Table, Dev, is_mapped, alloc_from, fd_alloc, fd_lookup, close, dup, map_both, seek,
}

alloc_from-cases :
    (n i : ℕ) (t : Table)
    → (((j : ℕ) → i ≤ j → j < i + n → is_mapped (t.fd_page j) ≡ true)
        × (alloc_from n i t ≡ err e_max_open))
      ⊎ ((k : ℕ) × (alloc_from n i t ≡ ok k)
          × (i ≤ k)
          × (k < i + n)
          × (is_mapped (t.fd_page k) ≡ false)
          × ((j : ℕ) → i ≤ j → j < k → is_mapped (t.fd_page j) ≡ true))
unfolding alloc_from
alloc_from-cases zero i t = inl ((λ j lo hi. absurd (omega (arith, lo, hi))), refl)
alloc_from-cases (suc n) i t = elim (Bool-cases (is_mapped (t.fd_page i))) [
  | inr free ↦
      inr
        (i, rw free refl, omega arith, omega arith, free, λ j lo hi. absurd (omega (arith, lo, hi)))
  | inl used ↦ elim (alloc_from-cases n (i + 1) t) [
    | inl (all, e) ↦
        inl ((λ j lo hi. first t i j used lo (λ more. all j more (omega (arith, hi)))), rw used e)
    | inr (k, e, lo, hi, free, before) ↦ inr (
      k,
      rw used e,
      omega (arith, lo),
      omega (arith, hi),
      free,
      λ j a b. first t i j used a (λ more. before j more b),
    )
  ]
]
  where
    first :
        (t : Table) (i j : ℕ)
        → is_mapped (t.fd_page i) ≡ true
        → i ≤ j
        → (i + 1 ≤ j → is_mapped (t.fd_page j) ≡ true)
        → is_mapped (t.fd_page j) ≡ true
    first t i j used lo later = elim (Bool-cases (i == j)) [
      | inl same ↦
          let e : i ≡ j = ground (arith, same) in subst (λ x. is_mapped (t.fd_page x) ≡ true) e used
      | inr other ↦ later (ground (arith, other, lo))
    ]

-- fd_lookup accepts the number.
abbrev pub IsOpen : Table → ℕ → Type 0
IsOpen t j = (p : ℕ) × (fd_lookup j t ≡ ok (j, p))

mapped-IsOpen : (t : Table) (j : ℕ) → j < 32 → is_mapped (t.fd_page j) ≡ true → IsOpen t j
unfolding fd_lookup
mapped-IsOpen t j lt used =
    let inside : leb 32 j ≡ false = ground (arith, lt) in
    elim (Option-cases (t.fd_page j)) [
      | inl no_page ↦ absurd (clash (sym (ap is_mapped no_page) ∙ used))
      | inr (p, e) ↦ (p, rw inside (rw e refl))
    ]
  where
    clash : false ≡ true → ⊥
    clash e = ground (arith, e)

unmapped-fd_lookup :
    (t : Table) (j : ℕ) → is_mapped (t.fd_page j) ≡ false → fd_lookup j t ≡ err e_inval
unfolding fd_lookup
unmapped-fd_lookup t j free = elim (Option-cases (t.fd_page j)) [
  | inl no_page ↦ elim (Bool-cases (leb 32 j)) [
    | inl out ↦ rw out refl
    | inr inside ↦ rw inside (rw no_page refl)
  ]
  | inr (p, e) ↦ absurd (clash (sym (ap is_mapped e) ∙ free))
]
  where
    clash : true ≡ false → ⊥
    clash e = ground (arith, e)

-- fd_alloc gives the least number that fd_lookup refuses as closed, and fails with -E_MAX_OPEN only
-- if fd_lookup accepts all 32.
pub fd_alloc_lem :
    (t : Table)
    → (((j : ℕ) → j < 32 → IsOpen t j) × (fd_alloc t ≡ err e_max_open))
      ⊎ ((k : ℕ) × (fd_alloc t ≡ ok k)
          × (k < 32)
          × (fd_lookup k t ≡ err e_inval)
          × ((j : ℕ) → j < k → IsOpen t j))
unfolding fd_alloc
fd_alloc_lem t = elim (alloc_from-cases 32 0 t) [
  | inl (all, e) ↦ inl ((λ j lt. mapped-IsOpen t j lt (all j (omega arith) (omega (arith, lt)))), e)
  | inr (k, e, lo, hi, free, before) ↦ inr (
    k,
    e,
    omega (arith, hi),
    unmapped-fd_lookup t k free,
    λ j lt. mapped-IsOpen t j (omega (arith, lt, hi)) (before j (omega arith) lt),
  )
]

-- The table after both pages of `old` are mapped at `new`.
abbrev doubled : ℕ → ℕ → ℕ → Table → Table
doubled old new p t =
    let u =
      if is_mapped (t.data_page old)
      then record t { data_page = update t.data_page new (t.data_page old) }
      else t in
    record u { fd_page = update u.fd_page new (some p) }

map_both-eq :
    (old new p : ℕ) (t : Table)
    → t.fd_page old ≡ some p
    → map_both true true old new t ≡ some (ok new, doubled old new p t)
unfolding map_both
map_both-eq old new p t page = elim (Bool-cases (is_mapped (t.data_page old))) [
  | inl with_data ↦ rw (page, map_both) (rw with_data refl)
  | inr no_data ↦ rw (page, map_both) (rw no_data refl)
]

lookup_eq : (i p : ℕ) (t : Table) → i < 32 → t.fd_page i ≡ some p → fd_lookup i t ≡ ok (i, p)
unfolding fd_lookup
lookup_eq i p t lt e = let inside : leb 32 i ≡ false = ground (arith, lt) in rw inside (rw e refl)

-- dup of an open descriptor to another number, when the kernel finds memory and closing the number
-- leaves the first descriptor mapped: both stand for one `struct Fd` then, so a seek on the first
-- moves the position of the second.
pub dup-seek :
    (devtab : List Dev) (old new p offset : ℕ) (r : Ret ℕ) (t t' : Table)
    → fd_lookup old t ≡ ok (old, p)
    → old < 32
    → new < 32
    → old ≢ new
    → close devtab new t ≡ some (r, t')
    → t'.fd_page old ≡ some p
    → (u : Table) × (v : Table) × (dup devtab true true old new t ≡ some (ok new, u))
      × (fd_lookup new u ≡ ok (new, p))
      × (seek old offset u ≡ some (ok 0, v))
      × (fd_lookup new v ≡ ok (new, p))
      × ((v.content p).fd_offset ≡ offset)
unfolding dup seek
dup-seek devtab old new p offset r t t' found lo hi ne closed page =
    let u = doubled old new p t' in
    let v = record u {
      content = update u.content p (record (u.content p) { fd_offset = offset });
    } in
    let page_new : u.fd_page new ≡ some p = ground arith in
    let page_old : u.fd_page old ≡ some p = ground (arith, ne, page) in
    (
      u,
      v,
      rw (found, dup) (rw (closed, ◌>>=◌) (map_both-eq old new p t' page)),
      lookup_eq new p u hi page_new,
      rw (lookup_eq old p u lo page_old, seek) refl,
      lookup_eq new p v hi page_new,
      ground arith,
    )
