-- ===== src/Pmap/Walk.antt =====
-- pgdir_walk, pdpe_walk, pml4e_walk, boot_map_region, page_insert, page_lookup, page_remove and
-- user_mem_check of kern/pmap.c.
use mit_jos_f22_advanced_os.Base.{
  ℕ, zero, suc, ◌+◌, ◌-◌, ◌/◌, Bool, true, ◌&&◌, not, Option, none, some, bit_or, if◌then◌else◌,
}
use mit_jos_f22_advanced_os.Base.Ret.{M, pure, panic, ◌>>=◌, ◌>>◌, Ret, ok, err, e_no_mem}
use mit_jos_f22_advanced_os.Pmap.Mem.{
  Machine, Slot, pgsize, kaddr, set_ref, load, store, present, page2pa, pa2page, pte_p, pte_w,
  pte_u, ppn, pte_addr, pml4, pdpe, pdx, ptx,
}
use mit_jos_f22_advanced_os.Pmap.Alloc.{page_alloc, page_decref}

-- `pp->pp_ref++` on a `uint16_t`
unfoldable pub incref : ℕ → M Machine (Unit {0})
incref pp m = set_ref pp ((m.pages pp).pp_ref + 1) m

-- What the first part of a walk's function did at a table entry: `full`, page_alloc failed and the
-- function returns NULL; `kept`, nothing was allocated; `grown page`, a new table was entered.
pub data Grown : Type 0 where
  full : Grown
  kept : Grown
  grown : ℕ → Grown

-- A new, zeroed table: page = page_alloc(ALLOC_ZERO); page->pp_ref++; *entry = page2pa(page) | ...
unfoldable pub enter : Slot → Option ℕ → M Machine Grown
unfolding incref
enter entry none = pure full
enter entry (some page) = do
  incref page
  store entry (bit_or (bit_or (bit_or (page2pa page) pte_p) pte_w) pte_u)
  pure (grown page)

-- if (create && !(*entry & PTE_P)) { ... }
unfoldable pub grow : Slot → Bool → M Machine Grown
grow entry create = do
  e ← load entry
  if create && not (present e) then page_alloc true >>= enter entry else pure kept

-- KADDR(PTE_ADDR(*entry)), as the page number of the table
unfoldable pub follow : Slot → M Machine ℕ
follow entry = do e ← load entry; pa ← kaddr (pte_addr e); pure (ppn pa)

-- A pointer into the kernel's map is never NULL, so the test `!pte` never holds.
unfoldable pub pgdir_walk : ℕ → ℕ → Bool → M Machine (Option Slot)
pgdir_walk pgdir va create = do
  g ← grow (pgdir, pdx va) create
  elim g [ full ↦ pure none | _ ↦ (do pt ← follow (pgdir, pdx va); pure (some (pt, ptx va))) ]

-- if (!pte && page) { *entry = 0x0; page_decref(page); }
unfoldable pub ungrow : Slot → Grown → Option Slot → M Machine (Unit {0})
ungrow entry (grown page) none = do store entry 0; page_decref page
ungrow entry _ _ = pure tt

unfoldable pub pdpe_walk : ℕ → ℕ → Bool → M Machine (Option Slot)
pdpe_walk table va create = do
  g ← grow (table, pdpe va) create
  elim g [
    | full ↦ pure none
    | other ↦ (do
      pde ← follow (table, pdpe va)
      pte ← pgdir_walk pde va create
      ungrow (table, pdpe va) other pte
      pure pte)
  ]

unfoldable pub pml4e_walk : ℕ → ℕ → Bool → M Machine (Option Slot)
pml4e_walk table va create = do
  g ← grow (table, pml4 va) create
  elim g [
    | full ↦ pure none
    | other ↦ (do
      pdp ← follow (table, pml4 va)
      pte ← pdpe_walk pdp va create
      ungrow (table, pml4 va) other pte
      pure pte)
  ]

-- `n` rounds of the loop, from offset `i` on; NULL from pml4e_walk is a panic.
unfoldable pub map_from : ℕ → ℕ → ℕ → ℕ → ℕ → ℕ → M Machine (Unit {0})
map_from zero i table la pa perm = pure tt
map_from (suc n) i table la pa perm = do
  pte ← pml4e_walk table (la + i) true
  elim pte [ none ↦ panic | some slot ↦ store slot (bit_or (bit_or (pa + i) perm) pte_p) ]
  map_from n (i + pgsize) table la pa perm

unfoldable pub boot_map_region : ℕ → ℕ → ℕ → ℕ → ℕ → M Machine (Unit {0})
boot_map_region table la size pa perm = map_from ((size + pgsize - 1) / pgsize) 0 table la pa perm

-- The page and the slot of its entry, which the C function stores through `pte_store`.
unfoldable pub page_lookup : ℕ → ℕ → M Machine (Option (ℕ × Slot))
page_lookup table va = do
  pte ← pml4e_walk table va true
  elim pte [
    | none ↦ pure none
    | some slot ↦ (do pa ← load slot; pp ← pa2page pa; pure (some (pp, slot)))
  ]

-- tlb_invalidate has no effect on this state.
unfoldable pub page_remove : ℕ → ℕ → M Machine (Unit {0})
page_remove table va = do
  found ← page_lookup table va
  elim found [ none ↦ pure tt | some (page, slot) ↦ (do page_decref page; store slot 0) ]

unfoldable pub page_insert : ℕ → ℕ → ℕ → ℕ → M Machine (Ret (Unit {0}))
page_insert table pp va perm = do
  pte ← pml4e_walk table va true
  elim pte [
    | none ↦ pure (err e_no_mem)
    | some slot ↦ (do
      incref pp
      e ← load slot
      if present e then page_remove table va else pure tt
      store slot (bit_or (bit_or (page2pa pp) perm) pte_p)
      pure (ok tt))
  ]
