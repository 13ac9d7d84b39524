-- ===== src/Env/Region.antt =====
-- region_alloc of kern/env.c and the reference counts of the pages that it maps.
use mit_jos_f22_advanced_os.Base.{
  ℕ, ◌+◌, ◌-◌, ◌/◌, ◌%◌, ◌^◌, ◌<◌, ◌≡◌, refl, ◌∙◌, ◌≢◌, false, some, List, ◌∷◌, arith,
}
use mit_jos_f22_advanced_os.Base.Ret.{◌>>=◌, ok}
use mit_jos_f22_advanced_os.Pmap.Mem.{pgsize, rounddown, roundup, Machine, Slot, present, ppn}
use mit_jos_f22_advanced_os.Pmap.Walk.{incref, page_insert}
use mit_jos_f22_advanced_os.Pmap.FreeList.{IsFreeList, alloced, page_alloc-cons}
use mit_jos_f22_advanced_os.Pmap.Mapping.{Maps, entry, referenced, page_insert-new}
use mit_jos_f22_advanced_os.Env.Free.{alloc_pages, region_alloc}

alloc_pages-one :
    (m m' : Machine) (t va x : ℕ) (xs : List ℕ)
    → IsFreeList m (x ∷ xs)
    → page_insert t x va 6 (referenced x (alloced false x m)) ≡ some (ok tt, m')
    → alloc_pages 1 va t m ≡ some (tt, m')
unfolding alloc_pages incref
alloc_pages-one m m' t va x xs v run =
    rw (page_alloc-cons false m x xs v, ◌>>=◌) (rw (run, ◌>>=◌) refl)

-- region_alloc of one page at an aligned address whose table exists and whose entry is free maps
-- the first page of the free list there, and leaves it with two references.
pub region_alloc-pp_ref :
    (m : Machine) (t va x : ℕ) (xs : List ℕ) (s : Slot)
    → IsFreeList m (x ∷ xs)
    → Maps m t va s
    → present (entry m s) ≡ false
    → va % 4096 ≡ 0
    → va < 2 ^ 63
    → (m' : Machine) × (region_alloc t va 4096 m ≡ some (tt, m'))
      × (ppn (entry m' s) ≡ x)
      × ((m'.pages x).pp_ref ≡ 2)
      × ((j : ℕ) → j ≢ x → m'.pages j ≡ m.pages j)
unfolding region_alloc
region_alloc-pp_ref m t va x xs s v maps off aligned small =
    let m₁ = referenced x (alloced false x m) in
    let start : rounddown va pgsize ≡ va = omega (arith, aligned) in
    let rounds : (roundup ((va + 4096) % 2 ^ 64) pgsize - rounddown va pgsize) / pgsize ≡ 1 =
      omega (arith, aligned, small) in
    let one : (m₁.pages x).pp_ref ≡ 1 = ground (arith, v.chain.2) in
    let (m', run, page, on, perms, others, ref, rest) =
      page_insert-new m₁ t x va 6 s (λ c n w p. maps c n w p) off (omega (arith, v.chain.1, v.few))
        (omega arith) (omega (arith, one)) in
    (
      m',
      (λ i. alloc_pages (rounds i) (start i) t m) ∙ alloc_pages-one m m' t va x xs v run,
      page,
      omega (arith, ref, one),
      λ j h. rest j h ∙ ground (arith, h),
    )
