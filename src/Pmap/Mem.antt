-- ===== src/Pmap/Mem.antt =====
-- The memory that kern/pmap.c works on: the `pages` array, the free list, and the words of
-- physical memory that hold page tables (inc/memlayout.h, inc/mmu.h, kern/pmap.h).
--
-- A `struct PageInfo *` is an index of `pages`. A pointer into the kernel's map of physical memory
-- at KERNBASE is the physical address that it maps; a pointer to a page table entry is the number
-- of the page that holds the table, with the entry's index.
use mit_jos_f22_advanced_os.Base.{
  ℕ, ◌+◌, ◌-◌, ◌*◌, ◌/◌, ◌%◌, ◌^◌, Bool, not, Option, none, some, bit_and, leb, ◌==◌, if◌then◌else◌,
  update,
}
use mit_jos_f22_advanced_os.Base.Ret.{M}

-- `pp_link` is NULL or an index of `pages`; `pp_ref` is a `uint16_t`.
pub record PageInfo : Type 0 where
  pub pp_link : Option ℕ
  pub pp_ref : ℕ

-- A page table entry's place: page number, index below 512.
abbrev pub Slot : Type 0
Slot = ℕ × ℕ

-- `word p i` is the 64-bit word with index `i` of physical page `p`.
pub record Machine : Type 0 where
  pub npages : ℕ
  pub npages_basemem : ℕ
  pub kernel_end : ℕ
  pub nextfree : ℕ
  pub pages : ℕ → PageInfo
  pub page_free_list : Option ℕ
  pub word : ℕ → ℕ → ℕ

abbrev pub pgsize : ℕ
pgsize = 4096

abbrev pub kernbase : ℕ
kernbase = 0x8004000000

abbrev pub mpentry_paddr : ℕ
mpentry_paddr = 0x7000

abbrev pub pte_p : ℕ
pte_p = 1

abbrev pub pte_w : ℕ
pte_w = 2

abbrev pub pte_u : ℕ
pte_u = 4

-- PPN, PTE_ADDR and the index macros of inc/mmu.h: shifts and masks as division and remainder.
abbrev pub ppn : ℕ → ℕ
ppn pa = pa / 4096

abbrev pub pte_addr : ℕ → ℕ
pte_addr pte = pte - pte % 4096

abbrev pub pml4 : ℕ → ℕ
pml4 la = la / 2 ^ 39 % 512

abbrev pub pdpe : ℕ → ℕ
pdpe la = la / 2 ^ 30 % 512

abbrev pub pdx : ℕ → ℕ
pdx la = la / 2 ^ 21 % 512

abbrev pub ptx : ℕ → ℕ
ptx la = la / 2 ^ 12 % 512

-- `pte & PTE_P`
abbrev pub present : ℕ → Bool
present pte = not (bit_and pte pte_p == 0)

-- ROUNDDOWN and ROUNDUP of inc/types.h on 64-bit values.
abbrev pub rounddown : ℕ → ℕ → ℕ
rounddown a n = a - a % n

abbrev pub roundup : ℕ → ℕ → ℕ
roundup a n = rounddown ((a + n + 2 ^ 64 - 1) % 2 ^ 64) n

abbrev pub page2pa : ℕ → ℕ
page2pa pp = pp * 4096 % 2 ^ 64

-- KADDR: the page number is cut to 32 bits for the check.
unfoldable pub kaddr : ℕ → M Machine ℕ
kaddr pa m = if leb m.npages (ppn pa % 2 ^ 32) then none else some (pa, m)

unfoldable pub page2kva : ℕ → M Machine ℕ
unfolding kaddr
page2kva pp = kaddr (page2pa pp)

unfoldable pub pa2page : ℕ → M Machine ℕ
pa2page pa m = if leb m.npages (ppn pa) then none else some (ppn pa, m)

abbrev pub load : Slot → M Machine ℕ
load (p, i) m = some (m.word p i, m)

abbrev pub store : Slot → ℕ → M Machine (Unit {0})
store (p, i) w m = some (tt, record m { word = update m.word p (update (m.word p) i w) })

-- memset(kva, 0, PGSIZE) on a page-aligned address
abbrev pub zero_page : ℕ → M Machine (Unit {0})
zero_page kva m = some (tt, record m { word = update m.word (ppn kva) (λ _. 0) })

abbrev pub set_link : ℕ → Option ℕ → M Machine (Unit {0})
set_link p l m =
    some (tt, record m { pages = update m.pages p (record (m.pages p) { pp_link = l }) })

-- Stores into the `uint16_t` reference count.
abbrev pub set_ref : ℕ → ℕ → M Machine (Unit {0})
set_ref p n m =
    some (tt, record m { pages = update m.pages p (record (m.pages p) { pp_ref = n % 2 ^ 16 }) })

abbrev pub set_free_list : Option ℕ → M Machine (Unit {0})
set_free_list l m = some (tt, record m { page_free_list = l })
