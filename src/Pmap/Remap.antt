-- ===== src/Pmap/Remap.antt =====
-- page_insert of kern/pmap.c over a page that is mapped already, page_insert when memory runs out,
-- and page_lookup and page_remove at an address with no page.
use mit_jos_f22_advanced_os.Base.{
  ℕ, ◌+◌, ◌-◌, ◌%◌, ◌^◌, ◌<◌, ◌≡◌, refl, ◌≢◌, true, false, Option, none, some, List, ◌∷◌, arith,
  contains, update, ◌==◌, if◌then◌else◌, ◌∙◌, sym, ap, bit_or,
}
use mit_jos_f22_advanced_os.Base.Ret.{◌>>=◌, ok, err, e_no_mem}
use mit_jos_f22_advanced_os.Pmap.Mem.{PageInfo, Machine, Slot, present, ppn, pte_p}
use mit_jos_f22_advanced_os.Pmap.Alloc.{page_decref}
use mit_jos_f22_advanced_os.Pmap.FreeList.{IsFreeList}
use mit_jos_f22_advanced_os.Pmap.Walk.{pml4e_walk, page_lookup, page_insert, page_remove, incref}
use mit_jos_f22_advanced_os.Pmap.Level.{Spares, IsWalked}
use mit_jos_f22_advanced_os.Pmap.Walked.{IsRoute, pml4e_walk-Finds}
use mit_jos_f22_advanced_os.Pmap.Mapping.{
  Maps, entry, new_entry, new_entry_lem, set_entry, referenced, referenced-IsFreeList,
  page_lookup-eq, page_remove-eq, page_remove_lem,
}

page_insert-present_eq :
    (m m₁ : Machine) (t pp va perm : ℕ) (s : Slot)
    → Maps m t va s
    → present (entry m s) ≡ true
    → page_remove t va (referenced pp m) ≡ some (tt, m₁)
    → page_insert t pp va perm m ≡ some (ok tt, set_entry s (new_entry pp perm) m₁)
unfolding page_insert incref
page_insert-present_eq m m₁ t pp va perm (p, i) maps on e =
    rw (maps true m refl refl, ◌>>=◌) (rw (on, ◌>>=◌) (rw (e, ◌>>=◌)))

entry-set_entry : (m : Machine) (s : Slot) (w : ℕ) → entry (set_entry s w m) s ≡ w
entry-set_entry m (p, i) w = ground arith

-- page_insert of the page that is mapped at the address already: its reference count does not
-- change, it is not freed, and the entry gets the new permissions.
pub page_insert-same :
    (m : Machine) (t va perm : ℕ) (s : Slot) (xs : List ℕ)
    → IsFreeList m xs
    → Maps m t va s
    → present (entry m s) ≡ true
    → perm < 2 ^ 12
    → ppn (entry m s) < m.npages
    → contains (ppn (entry m s)) xs ≡ false
    → 0 < (m.pages (ppn (entry m s))).pp_ref
    → (m.pages (ppn (entry m s))).pp_ref + 1 < 2 ^ 16
    → (m' : Machine) × (page_insert t (ppn (entry m s)) va perm m ≡ some (ok tt, m'))
      × IsFreeList m' xs
      × ((m'.pages (ppn (entry m s))).pp_ref ≡ (m.pages (ppn (entry m s))).pp_ref)
      × ((j : ℕ) → j ≢ ppn (entry m s) → m'.pages j ≡ m.pages j)
      × (ppn (entry m' s) ≡ ppn (entry m s))
      × (entry m' s % 2 ^ 12 ≡ bit_or perm pte_p)
page_insert-same m t va perm s xs v maps on hq lt out pos fits =
    let pp = ppn (entry m s) in
    let m₁ = referenced pp m in
    let up : (m₁.pages pp).pp_ref ≡ (m.pages pp).pp_ref + 1 = ground arith in
    let (m₂, e, w, ref, same, list) =
      page_remove_lem m₁ t va s xs (referenced-IsFreeList m pp xs v out) maps lt out (omega arith)
        (omega arith) in
    let more : ((m₁.pages pp).pp_ref == 1) ≡ false = ground arith in
    let kept : IsFreeList m₂ xs = rw more at list in
    let m' = set_entry s (new_entry pp perm) m₂ in
    let (a, b, c) = new_entry_lem pp perm (omega (arith, v.few)) hq in
    let n = entry-set_entry m₂ s (new_entry pp perm) in
    (
      m',
      page_insert-present_eq m m₂ t pp va perm s maps on e,
      record { chain = kept.chain; unlinked = kept.unlinked; few = kept.few },
      omega (arith, ref, up),
      (λ j h. ground (arith, same j h)),
      rw n a,
      rw n c,
    )

-- page_insert of a page over another one: the entry names the new page, which gains a reference;
-- the old page loses one, and is freed if that was its last; other pages do not change.
pub page_insert-over :
    (m : Machine) (t pp va perm : ℕ) (s : Slot) (xs : List ℕ)
    → IsFreeList m xs
    → Maps m t va s
    → present (entry m s) ≡ true
    → perm < 2 ^ 12
    → pp < 2 ^ 32
    → pp ≢ ppn (entry m s)
    → contains pp xs ≡ false
    → (m.pages pp).pp_ref + 1 < 2 ^ 16
    → ppn (entry m s) < m.npages
    → contains (ppn (entry m s)) xs ≡ false
    → 0 < (m.pages (ppn (entry m s))).pp_ref
    → (m.pages (ppn (entry m s))).pp_ref < 2 ^ 16
    → (m' : Machine) × (page_insert t pp va perm m ≡ some (ok tt, m'))
      × IsFreeList m' (if (m.pages (ppn (entry m s))).pp_ref == 1 then ppn (entry m s) ∷ xs else xs)
      × ((m'.pages (ppn (entry m s))).pp_ref ≡ (m.pages (ppn (entry m s))).pp_ref - 1)
      × ((m'.pages pp).pp_ref ≡ (m.pages pp).pp_ref + 1)
      × ((j : ℕ) → j ≢ ppn (entry m s) → j ≢ pp → m'.pages j ≡ m.pages j)
      × (ppn (entry m' s) ≡ pp)
      × (entry m' s % 2 ^ 12 ≡ bit_or perm pte_p)
page_insert-over m t pp va perm s xs v maps on hq hp ne off up lt out pos fits =
    let q = ppn (entry m s) in
    let m₁ = referenced pp m in
    let old : m₁.pages q ≡ m.pages q = ground arith in
    let r : (m₁.pages q).pp_ref ≡ (m.pages q).pp_ref = ap (λ (i : PageInfo). i.pp_ref) old in
    let (m₂, e, w, ref, same, list) =
      page_remove_lem m₁ t va s xs (referenced-IsFreeList m pp xs v off) maps lt out (omega arith)
        (omega arith) in
    let list' : IsFreeList m₂ (if (m.pages q).pp_ref == 1 then q ∷ xs else xs) = rw r at list in
    let (a, b, c) = new_entry_lem pp perm hp hq in
    let n = entry-set_entry m₂ s (new_entry pp perm) in
    (
      set_entry s (new_entry pp perm) m₂,
      page_insert-present_eq m m₂ t pp va perm s maps on e,
      record { chain = list'.chain; unlinked = list'.unlinked; few = list'.few },
      omega (arith, ref, r),
      ground (arith, same pp),
      (λ j h k. ground (arith, same j h)),
      rw n a,
      rw n c,
    )

-- page_remove at an address whose entry is 0 takes page 0 for the mapped page: with no reference
-- to page 0, its count wraps to 65535. No other page, no word and no free page changes.
pub page_remove-unmapped :
    (m : Machine) (t va : ℕ) (s : Slot)
    → Maps m t va s
    → entry m s ≡ 0
    → 0 < m.npages
    → (m.pages 0).pp_ref ≡ 0
    → (m' : Machine) × (page_remove t va m ≡ some (tt, m'))
      × ((m'.pages 0).pp_ref ≡ 65535)
      × (m'.page_free_list ≡ m.page_free_list)
      × ((j : ℕ) → j ≢ 0 → m'.pages j ≡ m.pages j)
      × ((s' : Slot) → entry m' s' ≡ entry m s')
unfolding page_decref
page_remove-unmapped m t va (p, i) maps z lt ref =
    let q : ppn (m.word p i) ≡ 0 = ground arith in
    let m₁ = record m { pages = update m.pages 0 (record (m.pages 0) { pp_ref = 65535 }) } in
    let e : page_decref 0 m ≡ some (tt, m₁) = rw ref in
    let e' : page_decref (ppn (m.word p i)) m ≡ some (tt, m₁) = rw q e in
    (
      set_entry (p, i) 0 m₁,
      page_remove-eq m m₁ t va (p, i) maps (omega arith) e',
      ground arith,
      refl,
      (λ j h. ground arith),
      (λ s'. ground arith),
    )

-- page_lookup at an address whose entry is not present does not return NULL: it returns the page
-- that the entry's upper bits name, which is page 0 for the entry 0.
pub page_lookup-unmapped :
    (m : Machine) (t va : ℕ) (s : Slot)
    → Maps m t va s
    → entry m s ≡ 0
    → 0 < m.npages
    → (page_lookup t va m ≡ some (some (0, s), m)) × (present (entry m s) ≡ false)
page_lookup-unmapped m t va (p, i) maps z lt =
    let q : ppn (m.word p i) ≡ 0 = ground arith in
    (page_lookup-eq m t va (p, i) maps (omega arith) ∙ rw q, rw z)

-- page_insert that cannot get a page table returns -E_NO_MEM: the free list is as before, page
-- `pp` gains no reference, and outside the free pages no present entry has changed.
pub page_insert-no_mem :
    (m m' : Machine) (t pp va perm : ℕ) (xs : List ℕ)
    → IsFreeList m xs
    → IsRoute m xs va 3 t
    → contains pp xs ≡ false
    → pml4e_walk t va true m ≡ some (none, m')
    → (page_insert t pp va perm m ≡ some (err e_no_mem, m'))
      × IsFreeList m' xs
      × ((m'.pages pp).pp_ref ≡ (m.pages pp).pp_ref)
      × Spares m m' xs
unfolding page_insert
page_insert-no_mem m m' t pp va perm xs v route out e =
    let (res, m₁, run, w, look) = pml4e_walk-Finds m xs va t v route in
    let q : m₁ ≡ m' = ap (λ (o : Option (Option Slot × Machine)). machine o) (sym run ∙ e) in
    let r : res ≡ none = ap (λ (o : Option (Option Slot × Machine)). slot o) (sym run ∙ e) in
    let w' : IsWalked m m' xs none = rw q at (rw r at w) in
    (
      rw (e, ◌>>=◌),
      rw (w'.whole refl) at (w'.list),
      ap (λ (i : PageInfo). i.pp_ref) (w'.pages pp out),
      w'.spares,
    )
  where
    machine : Option (Option Slot × Machine) → Machine
    machine none = m
    machine (some (o, n)) = n

    slot : Option (Option Slot × Machine) → Option Slot
    slot none = none
    slot (some (o, n)) = o
