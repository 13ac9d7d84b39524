-- ===== src/Pmap/Mapping.antt =====
-- page_lookup, page_insert and page_remove of kern/pmap.c at an address whose page tables exist.
use mit_jos_f22_advanced_os.Base.{
  ℕ, ◌+◌, ◌-◌, ◌*◌, ◌/◌, ◌%◌, ◌^◌, ◌<◌, ◌≡◌, refl, ◌≢◌, true, false, some, List, ◌∷◌, arith,
  contains, update, ◌==◌, if◌then◌else◌, ◌∙◌, ap, bit_or, lt→leb,
}
use mit_jos_f22_advanced_os.Base.Ret.{◌>>=◌, ok}
use mit_jos_f22_advanced_os.Base.Words.{bit_or_low, bit_or-lt, bit_or-bit0}
use mit_jos_f22_advanced_os.Pmap.Mem.{Machine, Slot, present, ppn, page2pa, pa2page, pte_p}
use mit_jos_f22_advanced_os.Pmap.Alloc.{page_decref}
use mit_jos_f22_advanced_os.Pmap.FreeList.{IsFreeList, Chain-frame, contains_ne}
use mit_jos_f22_advanced_os.Pmap.Release.{page_decref_lem}
use mit_jos_f22_advanced_os.Pmap.Walk.{pml4e_walk, page_lookup, page_insert, page_remove, incref}
use mit_jos_f22_advanced_os.Pmap.Table.{bit_or-page, present_odd}
use mit_jos_f22_advanced_os.Pmap.Level.{Reaches}

-- The page tables for `va` exist, and its entry is `s`.
abbrev pub Maps : Machine → ℕ → ℕ → Slot → Type 0
Maps m t va s = Reaches (pml4e_walk t va) m s

abbrev pub entry : Machine → Slot → ℕ
entry m (p, i) = m.word p i

-- The entry that page_insert writes.
abbrev pub new_entry : ℕ → ℕ → ℕ
new_entry pp perm = bit_or (bit_or (page2pa pp) perm) pte_p

-- It names the page and is present, and its low bits are the permissions with PTE_P.
pub new_entry_lem :
    (pp perm : ℕ)
    → pp < 2 ^ 32
    → perm < 2 ^ 12
    → (ppn (new_entry pp perm) ≡ pp)
      × (present (new_entry pp perm) ≡ true)
      × (new_entry pp perm % 2 ^ 12 ≡ bit_or perm pte_p)
new_entry_lem pp perm hp hq =
    let lt : bit_or perm 1 < 2 ^ 12 = bit_or-lt 12 perm 1 hq (omega arith) in
    let e : new_entry pp perm ≡ pp * 4096 + bit_or perm 1 =
      rw (bit_or-page pp perm hp hq) (bit_or_low 12 pp perm 1 hq (omega arith)) in
    rw e (
      omega arith,
      present_odd (pp * 4096 + bit_or perm 1) ∙ ground (arith, bit_or-bit0 perm),
      omega arith,
    )

abbrev pub set_entry : Slot → ℕ → Machine → Machine
set_entry (p, i) w m = record m { word = update m.word p (update (m.word p) i w) }

-- `pp` has one more reference.
abbrev pub referenced : ℕ → Machine → Machine
referenced pp m = record m {
  pages = update m.pages pp (record (m.pages pp) { pp_ref = ((m.pages pp).pp_ref + 1) % 2 ^ 16 });
}

page_insert-new_eq :
    (m : Machine) (t pp va perm : ℕ) (s : Slot)
    → Maps m t va s
    → present (entry m s) ≡ false
    → page_insert t pp va perm m ≡ some (ok tt, set_entry s (new_entry pp perm) (referenced pp m))
unfolding page_insert incref
page_insert-new_eq m t pp va perm (p, i) maps off =
    rw (maps true m refl refl, ◌>>=◌) (rw (off, ◌>>=◌))

pub page_lookup-eq :
    (m : Machine) (t va : ℕ) (s : Slot)
    → Maps m t va s
    → ppn (entry m s) < m.npages
    → page_lookup t va m ≡ some (some (ppn (entry m s), s), m)
unfolding page_lookup pa2page
page_lookup-eq m t va (p, i) maps lt =
    rw (maps true m refl refl, ◌>>=◌) (rw (lt→leb m.npages (m.word p i / 4096) lt, ◌>>=◌))

pub page_remove-eq :
    (m m' : Machine) (t va : ℕ) (s : Slot)
    → Maps m t va s
    → ppn (entry m s) < m.npages
    → page_decref (ppn (entry m s)) m ≡ some (tt, m')
    → page_remove t va m ≡ some (tt, set_entry s 0 m')
unfolding page_remove
page_remove-eq m m' t va (p, i) maps lt e =
    rw (page_lookup-eq m t va (p, i) maps lt, ◌>>=◌) (rw (e, ◌>>=◌))

pub referenced-IsFreeList :
    (m : Machine) (pp : ℕ) (xs : List ℕ)
    → IsFreeList m xs
    → contains pp xs ≡ false
    → IsFreeList (referenced pp m) xs
referenced-IsFreeList m pp xs v out = record {
  chain = Chain-frame m.npages m.pages _ _ xs (λ i h. ground (arith, contains_ne i pp xs)) v.chain;
  unlinked = λ i h. ground (arith, v.unlinked i, v.unlinked pp);
  few = v.few;
}

-- page_remove at a mapped address: the entry becomes 0, the page loses a reference and is freed if
-- that was the last one; no other entry and no other page changes.
pub page_remove_lem :
    (m : Machine) (t va : ℕ) (s : Slot) (xs : List ℕ)
    → IsFreeList m xs
    → Maps m t va s
    → ppn (entry m s) < m.npages
    → contains (ppn (entry m s)) xs ≡ false
    → 0 < (m.pages (ppn (entry m s))).pp_ref
    → (m.pages (ppn (entry m s))).pp_ref < 2 ^ 16
    → (m' : Machine) × (page_remove t va m ≡ some (tt, m'))
      × (m'.word ≡ (set_entry s 0 m).word)
      × ((m'.pages (ppn (entry m s))).pp_ref ≡ (m.pages (ppn (entry m s))).pp_ref - 1)
      × ((j : ℕ) → j ≢ ppn (entry m s) → m'.pages j ≡ m.pages j)
      × IsFreeList m' (if (m.pages (ppn (entry m s))).pp_ref == 1 then ppn (entry m s) ∷ xs else xs)
page_remove_lem m t va s xs v maps lt out pos fits =
    let (m₁, e, ref, list, w, n, same) = page_decref_lem m (ppn (entry m s)) xs v out lt pos fits in
    (
      set_entry s 0 m₁,
      page_remove-eq m m₁ t va s maps lt e,
      ap (λ (f : ℕ → ℕ → ℕ). update f s.0 (update (f s.0) s.1 0)) w,
      ref,
      same,
      record { chain = list.chain; unlinked = list.unlinked; few = list.few },
    )

-- page_insert at an address with page tables and no page: it returns 0, the entry names page `pp`,
-- is present and has the bits `perm | PTE_P`; `pp` gains a reference; no other entry and no other
-- page changes.
pub page_insert-new :
    (m : Machine) (t pp va perm : ℕ) (s : Slot)
    → Maps m t va s
    → present (entry m s) ≡ false
    → pp < 2 ^ 32
    → perm < 2 ^ 12
    → (m.pages pp).pp_ref + 1 < 2 ^ 16
    → (m' : Machine) × (page_insert t pp va perm m ≡ some (ok tt, m'))
      × (ppn (entry m' s) ≡ pp)
      × (present (entry m' s) ≡ true)
      × (entry m' s % 2 ^ 12 ≡ bit_or perm pte_p)
      × ((s' : Slot) → s' ≢ s → entry m' s' ≡ entry m s')
      × ((m'.pages pp).pp_ref ≡ (m.pages pp).pp_ref + 1)
      × ((j : ℕ) → j ≢ pp → m'.pages j ≡ m.pages j)
page_insert-new m t pp va perm (p, i) maps off hp hq ref =
    let (a, b, c) = new_entry_lem pp perm hp hq in
    let m' = set_entry (p, i) (new_entry pp perm) (referenced pp m) in
    let w : m'.word p i ≡ new_entry pp perm = ground arith in
    (
      m',
      page_insert-new_eq m t pp va perm (p, i) maps off,
      rw w a,
      rw w b,
      rw w c,
      (λ s' h. other m p i (new_entry pp perm) s'.0 s'.1 h),
      ground arith,
      (λ j h. ground arith),
    )
  where
    other :
        (m : Machine) (p i w q j : ℕ)
        → (let s : Slot = (q, j) in s ≢ (p, i))
        → update m.word p (update (m.word p) i w) q j ≡ m.word q j
    other m p i w q j h = ground arith
