-- ===== src/Pmap/Tests.antt =====
-- Kernel memory of sixteen pages on which the theorems about kern/pmap.c are run.
use mit_jos_f22_advanced_os.Base.{
  ℕ, ◌+◌, ◌-◌, ◌*◌, ◌%◌, ◌^◌, ◌≤◌, ◌<◌, ◌≡◌, refl, ◌≢◌, Bool, true, false, ◌&&◌, ◌||◌, none, some,
  List, [], ◌∷◌, arith, contains, ltb, leb, ◌==◌, if◌then◌else◌, sym, bit_or,
}
use mit_jos_f22_advanced_os.Base.Ret.{ok, err, e_no_mem}
use mathlib.Core.Path.{subst}
use mit_jos_f22_advanced_os.Pmap.Mem.{PageInfo, Machine, Slot, kernbase, ppn, pte_p, kaddr}
use mit_jos_f22_advanced_os.Pmap.Alloc.{page_init, page_alloc}
use mit_jos_f22_advanced_os.Pmap.FreeList.{IsFreeList}
use mit_jos_f22_advanced_os.Pmap.Allocator.{first_free, IsBooted, initial, page_init_lem}
use mit_jos_f22_advanced_os.Pmap.Walk.{
  grow, follow, enter, pgdir_walk, ungrow, pdpe_walk, pml4e_walk, page_insert,
}
use mit_jos_f22_advanced_os.Pmap.Level.{Finds, Spares}
use mit_jos_f22_advanced_os.Pmap.Walked.{IsRoute, pml4e_walk-Finds}
use mit_jos_f22_advanced_os.Pmap.Mapping.{Maps, entry}
use mit_jos_f22_advanced_os.Pmap.Remap.{page_insert-over, page_insert-no_mem}

-- Pages 3 to 6 are free, 8 to 11 hold the tables that map 0x1000 to page 12.
abbrev pub tiny : Machine
tiny = record {
  npages = 16;
  npages_basemem = 16;
  kernel_end = 0;
  nextfree = 0;
  pages = tiny_pages;
  page_free_list = some 3;
  word = tiny_word;
}
  where
    tiny_pages : ℕ → PageInfo
    tiny_pages i =
        if leb 3 i && ltb i 6
        then record { pp_link = some (i + 1); pp_ref = 0 }
        else if leb 8 i && ltb i 13
        then record { pp_link = none; pp_ref = 1 }
        else record { pp_link = none; pp_ref = 0 }

    tiny_word : ℕ → ℕ → ℕ
    tiny_word p i =
        if (leb 8 p && ltb p 11) && (i == 0)
        then (p + 1) * 4096 + 7
        else if (p == 11) && (i == 1)
        then 12 * 4096 + 7
        else 0

-- The same memory with no free page.
abbrev pub starved : Machine
starved = record tiny {
  pages = λ i. record (tiny.pages i) { pp_link = none };
  page_free_list = none;
}

-- Memory before page_init, with 300 pages; page_init takes 160 to 275 as used.
abbrev booted : Machine
booted = record {
  npages = 300;
  npages_basemem = 160;
  kernel_end = kernbase + 18 * 4096;
  nextfree = kernbase + 20 * 4096;
  pages = λ _. record { pp_link = none; pp_ref = 0 };
  page_free_list = none;
  word = λ _ _. 0;
}

abbrev pub free_pages : List ℕ
free_pages = 3 ∷ 4 ∷ 5 ∷ 6 ∷ []

pub tiny-IsFreeList : IsFreeList tiny free_pages
tiny-IsFreeList = record {
  chain = (
    refl,
    omega arith,
    refl,
    refl,
    (
      refl,
      omega arith,
      refl,
      refl,
      (refl, omega arith, refl, refl, (refl, omega arith, refl, refl, refl)),
    ),
  );
  unlinked = λ i h. ground arith;
  few = omega arith;
}

pub starved-IsFreeList : IsFreeList starved []
starved-IsFreeList = record { chain = refl; unlinked = λ i h. refl; few = omega arith }

booted-IsBooted : IsBooted booted
booted-IsBooted = record {
  blank = λ i. refl;
  empty = refl;
  few = omega arith;
  low = omega arith;
  started = omega arith;
  fits = omega arith;
  room = omega arith;
}

pub walk_word :
    (m : Machine) (va : ℕ) (s : Slot)
    → ((c : Bool) (n : Machine)
        → let n' : Machine = record n { npages = m.npages; word = m.word } in
          pml4e_walk 8 va c n' ≡ some (some s, n'))
    → Maps m 8 va s
walk_word m va s base c n w p =
    let e : record n { npages = m.npages; word = m.word } ≡ n =
      λ i. record n { npages = sym p i; word = sym w i } in
    subst (λ x. pml4e_walk 8 va c x ≡ some (some s, x)) e (base c n)

pub mapped : Maps tiny 8 0x1000 (11, 1)
unfolding pml4e_walk pdpe_walk pgdir_walk grow follow kaddr ungrow
mapped = walk_word tiny 0x1000 (11, 1) base
  where
    base :
        (c : Bool) (n : Machine)
        → let n' : Machine = record n { npages = 16; word = tiny.word } in
          pml4e_walk 8 0x1000 c n' ≡ some (some (11, 1), n')
    base true n = refl
    base false n = refl

pub unmapped : Maps tiny 8 0x2000 (11, 2)
unfolding pml4e_walk pdpe_walk pgdir_walk grow follow kaddr ungrow
unmapped = walk_word tiny 0x2000 (11, 2) base
  where
    base :
        (c : Bool) (n : Machine)
        → let n' : Machine = record n { npages = 16; word = tiny.word } in
          pml4e_walk 8 0x2000 c n' ≡ some (some (11, 2), n')
    base true n = refl
    base false n = refl

tiny-IsRoute : IsRoute tiny free_pages 0x40000000 3 8
tiny-IsRoute = (omega arith, refl, λ _. (omega arith, refl, λ on. ground arith))

starved-IsRoute : IsRoute starved [] 0x40000000 3 8
starved-IsRoute = (omega arith, refl, λ _. (omega arith, refl, λ on. ground arith))

starved-walk : pml4e_walk 8 0x40000000 true starved ≡ some (none, starved)
unfolding pml4e_walk pdpe_walk pgdir_walk grow enter follow kaddr ungrow page_alloc
starved-walk = refl

page_init_lem_example :
    (m' : Machine) × (page_init booted ≡ some (tt, m'))
    × IsFreeList m' (initial booted)
    × ((j : ℕ)
        → contains j (initial booted)
          ≡ ((leb (first_free booted) j && ltb j booted.npages) || (leb 1 j && ltb j 7)))
    × ((j : ℕ) → booted.npages_basemem ≤ j → j < first_free booted → (m'.pages j).pp_ref ≡ 1)
page_init_lem_example = page_init_lem booted booted-IsBooted

pml4e_walk-Finds_example : Finds (pml4e_walk 8 0x40000000) tiny free_pages
pml4e_walk-Finds_example =
    pml4e_walk-Finds tiny free_pages 0x40000000 8 tiny-IsFreeList tiny-IsRoute

page_insert-over_example :
    (m' : Machine) × (page_insert 8 13 0x1000 6 tiny ≡ some (ok tt, m'))
    × IsFreeList m' (
        if (tiny.pages (ppn (entry tiny (11, 1)))).pp_ref == 1
        then ppn (entry tiny (11, 1)) ∷ free_pages
        else free_pages)
    × ((m'.pages (ppn (entry tiny (11, 1)))).pp_ref
        ≡ (tiny.pages (ppn (entry tiny (11, 1)))).pp_ref - 1)
    × ((m'.pages 13).pp_ref ≡ (tiny.pages 13).pp_ref + 1)
    × ((j : ℕ) → j ≢ ppn (entry tiny (11, 1)) → j ≢ 13 → m'.pages j ≡ tiny.pages j)
    × (ppn (entry m' (11, 1)) ≡ 13)
    × (entry m' (11, 1) % 2 ^ 12 ≡ bit_or 6 pte_p)
page_insert-over_example =
    page_insert-over tiny 8 13 0x1000 6 (11, 1) free_pages tiny-IsFreeList mapped refl (omega arith)
      (omega arith) (λ e. omega (arith, e)) refl (omega arith) (omega arith) refl (omega arith)
      (omega arith)

page_insert-no_mem_example :
    (page_insert 8 13 0x40000000 6 starved ≡ some (err e_no_mem, starved))
    × IsFreeList starved []
    × ((starved.pages 13).pp_ref ≡ (starved.pages 13).pp_ref)
    × Spares starved starved []
page_insert-no_mem_example =
    page_insert-no_mem starved starved 8 13 0x40000000 6 [] starved-IsFreeList starved-IsRoute refl
      starved-walk
