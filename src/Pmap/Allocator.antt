-- ===== src/Pmap/Allocator.antt =====
-- What page_init of kern/pmap.c guarantees.
use mit_jos_f22_advanced_os.Base.{
  ℕ, ◌+◌, ◌-◌, ◌*◌, ◌/◌, ◌%◌, ◌^◌, ◌≤◌, ◌<◌, ◌≡◌, refl, false, ◌&&◌, ◌||◌, none, some, List, [],
  arith, contains, ltb, leb, ◌==◌, ◌∙◌, le→ltb, ==_ne,
}
use mit_jos_f22_advanced_os.Pmap.Mem.{Machine, pgsize, kernbase}
use mit_jos_f22_advanced_os.Pmap.Alloc.{free_range, use_range, page_init, num_iohole, boot_alloc}
use mit_jos_f22_advanced_os.Pmap.FreeList.{IsFreeList}
use mit_jos_f22_advanced_os.Base.Ret.{◌>>=◌}
use mit_jos_f22_advanced_os.Pmap.Init.{
  put_range, contains-put_range, free_range-IsFreeList, free_range-other, free_range-npages,
  use_range-IsFreeList, use_range-pages, use_range-rest,
}

-- The first page behind the I/O hole and what boot_alloc has handed out, as page_init counts it.
abbrev pub first_free : Machine → ℕ
first_free m = m.npages_basemem + num_iohole + (m.nextfree - kernbase) / pgsize

-- The machine as x64_vm_init leaves it when it calls page_init.
pub record IsBooted (m : Machine) : Type 0 where
  pub blank : (i : ℕ) → m.pages i ≡ record { pp_link = none; pp_ref = 0 }
  pub empty : m.page_free_list ≡ none
  pub few : m.npages ≤ 2 ^ 32
  pub low : 7 ≤ m.npages_basemem
  pub started : kernbase < m.nextfree
  pub fits : m.nextfree ≤ m.npages * pgsize + kernbase
  pub room : first_free m ≤ m.npages

boot_alloc-zero : (m : Machine) → IsBooted m → boot_alloc 0 m ≡ some (m.nextfree, m)
unfolding boot_alloc
boot_alloc-zero m b =
    let ne : (m.nextfree == 0) ≡ false = ==_ne _ _ (omega (arith, b.started)) in
    let fit : ltb ((m.npages * pgsize + kernbase) % 2 ^ 64) ((m.nextfree + 0) % 2 ^ 64) ≡ false =
      le→ltb _ _ (omega (arith, b.fits, b.few)) in
    rw ne (rw fit)

abbrev low_pages : List ℕ
low_pages = put_range 6 1 []

-- The free list that page_init builds.
abbrev pub initial : Machine → List ℕ
initial m = put_range (m.npages - first_free m) (first_free m) low_pages

abbrev inited : Machine → Machine
inited m =
    free_range (m.npages - first_free m) (first_free m)
      (use_range (first_free m - m.npages_basemem) m.npages_basemem (free_range 6 1 m))

page_init-eq : (m : Machine) → IsBooted m → page_init m ≡ some (tt, inited m)
unfolding page_init
page_init-eq m b =
    let e : (m.nextfree + 2 ^ 64 - kernbase) % 2 ^ 64 ≡ m.nextfree - kernbase =
      omega (arith, b.started, b.fits, b.few) in
    rw (boot_alloc-zero m b, ◌>>=◌) (rw e)

inited-IsFreeList : (m : Machine) → IsBooted m → IsFreeList (inited m) (initial m)
inited-IsFreeList m b =
    let i = first_free m in
    let m₁ = free_range 6 1 m in
    let m₂ = use_range (i - m.npages_basemem) m.npages_basemem m₁ in
    let start : IsFreeList m [] = record {
      chain = b.empty;
      unlinked = λ j h. ground (arith, b.blank j);
      few = b.few;
    } in
    let v₁ : IsFreeList m₁ low_pages =
      free_range-IsFreeList 6 1 m [] start (λ j h k. refl) (omega (arith, b.low, b.room)) in
    let v₂ : IsFreeList m₂ low_pages =
      use_range-IsFreeList (i - m.npages_basemem) m.npages_basemem m₁ low_pages v₁
        (λ j h k. contains-put_range 6 1 j [] ∙ ground (arith, b.low)) in
    let n : m₂.npages ≡ m.npages =
      use_range-rest (i - m.npages_basemem) m.npages_basemem m₁ ∙ free_range-npages 6 1 m in
    free_range-IsFreeList (m.npages - i) i m₂ low_pages v₂
      (λ j h k. contains-put_range 6 1 j [] ∙ ground (arith, b.low)) (omega (arith, b.room, n))

inited-used :
    (m : Machine)
    → IsBooted m
    → (j : ℕ) → m.npages_basemem ≤ j
    → j < first_free m
    → ((inited m).pages j).pp_ref ≡ 1
inited-used m b j lo hi =
    let i = first_free m in
    let m₁ = free_range 6 1 m in
    let m₂ = use_range (i - m.npages_basemem) m.npages_basemem m₁ in
    ground (
      arith,
      free_range-other (m.npages - i) i j m₂,
      use_range-pages (i - m.npages_basemem) m.npages_basemem j m₁,
    )

-- page_init on a zeroed `pages` array does not panic. The free list that it builds holds exactly
-- the pages 1 to 6 and those from the end of the kernel's boot allocations up to npages; each of
-- its pages is distinct, unreferenced and below npages; the pages of the I/O hole and of the boot
-- allocations have reference count 1.
pub page_init_lem :
    (m : Machine)
    → IsBooted m
    → (m' : Machine) × (page_init m ≡ some (tt, m'))
      × IsFreeList m' (initial m)
      × ((j : ℕ)
          → contains j (initial m)
            ≡ ((leb (first_free m) j && ltb j m.npages) || (leb 1 j && ltb j 7)))
      × ((j : ℕ) → m.npages_basemem ≤ j → j < first_free m → (m'.pages j).pp_ref ≡ 1)
page_init_lem m b = (
  inited m,
  page_init-eq m b,
  inited-IsFreeList m b,
  (λ j. ground (
    arith,
    b.room,
    contains-put_range (m.npages - first_free m) (first_free m) j low_pages,
    contains-put_range 6 1 j [],
  )),
  inited-used m b,
)
