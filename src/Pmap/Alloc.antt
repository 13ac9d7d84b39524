-- ===== src/Pmap/Alloc.antt =====
-- boot_alloc, page_init, page_alloc, page_free and page_decref of kern/pmap.c.
use mit_jos_f22_advanced_os.Base.{
  ℕ, zero, suc, ◌+◌, ◌-◌, ◌*◌, ◌/◌, ◌%◌, ◌^◌, Bool, true, false, ◌||◌, not, Option, none, some, ltb,
  ◌==◌, if◌then◌else◌,
}
use mit_jos_f22_advanced_os.Base.Ret.{M, pure, ◌>>=◌, ◌>>◌}
use mit_jos_f22_advanced_os.Pmap.Mem.{
  Machine, pgsize, kernbase, mpentry_paddr, roundup, page2kva, zero_page, set_link, set_ref,
  set_free_list,
}

abbrev pub is_some : Option ℕ → Bool
is_some none = false
is_some (some _) = true

-- `n` is a `uint32_t`; `kernel_end` is the linker's symbol `end`.
unfoldable pub boot_alloc : ℕ → M Machine ℕ
boot_alloc n m =
    let nextfree = if m.nextfree == 0 then roundup m.kernel_end pgsize else m.nextfree in
    if ltb ((m.npages * pgsize + kernbase) % 2 ^ 64) ((nextfree + n) % 2 ^ 64)
    then none
    else some (
      nextfree,
      record m { nextfree = if n == 0 then nextfree else roundup ((nextfree + n) % 2 ^ 64) pgsize },
    )

-- pages[i].pp_ref = 0; pages[i].pp_link = page_free_list; page_free_list = &pages[i];
abbrev pub free_page : ℕ → Machine → Machine
free_page i m = record m {
  pages = λ j. if i == j then record { pp_link = m.page_free_list; pp_ref = 0 } else m.pages j;
  page_free_list = some i;
}

-- `n` rounds of the first and the third loop of page_init, from `i` on.
unfoldable pub free_range : ℕ → ℕ → Machine → Machine
free_range zero i m = m
free_range (suc n) i m = free_range n (i + 1) (free_page i m)

-- `n` rounds of its second loop, which marks pages as in use.
unfoldable pub use_range : ℕ → ℕ → Machine → Machine
use_range zero i m = m
use_range (suc n) i m =
    use_range n (i + 1)
      (record m { pages = λ j. if i == j then record (m.pages i) { pp_ref = 1 } else m.pages j })

abbrev pub num_iohole : ℕ
num_iohole = 96

unfoldable pub page_init : M Machine (Unit {0})
page_init = do
  first ← boot_alloc 0
  let num_alloc = (first + 2 ^ 64 - kernbase) % 2 ^ 64 / pgsize
  λ m.
      (let m₁ = free_range (mpentry_paddr / pgsize - 1) 1 m in
        let i = m.npages_basemem + num_iohole + num_alloc in
        let m₂ = use_range (i - m.npages_basemem) m.npages_basemem m₁ in
        some (tt, free_range (m.npages - i) i m₂))

-- The argument says whether ALLOC_ZERO is set.
unfoldable pub page_alloc : Bool → M Machine (Option ℕ)
page_alloc alloc_zero m = elim m.page_free_list [
  | none ↦ some (none, m)
  | some page ↦
      (do
        set_free_list (m.pages page).pp_link
        if alloc_zero then (do kva ← page2kva page; zero_page kva) else pure tt
        set_link page none
        pure (some page))
        m
]

unfoldable pub page_free : ℕ → M Machine (Unit {0})
page_free pp m =
    if not ((m.pages pp).pp_ref == 0) || is_some (m.pages pp).pp_link
    then none
    else (do set_link pp m.page_free_list; set_free_list (some pp)) m

-- `--pp->pp_ref` on a `uint16_t`
unfoldable pub page_decref : ℕ → M Machine (Unit {0})
page_decref pp m =
    let ref = ((m.pages pp).pp_ref + 2 ^ 16 - 1) % 2 ^ 16 in
    (do set_ref pp ref; if ref == 0 then page_free pp else pure tt) m
