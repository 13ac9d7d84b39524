-- ===== src/Pmap/Mmio.antt =====
-- mmio_map_region of kern/pmap.c. The static `base` is an argument, and its new value a result.
use mit_jos_f22_advanced_os.Base.{ℕ, ◌+◌, ◌-◌, ◌*◌, ◌%◌, ◌^◌, leb, if◌then◌else◌}
use mit_jos_f22_advanced_os.Base.Ret.{M, pure, panic, ◌>>◌}
use mit_jos_f22_advanced_os.Pmap.Mem.{Machine, kernbase, pgsize, rounddown, roundup}
use mit_jos_f22_advanced_os.Pmap.Walk.{boot_map_region}

abbrev pub mmiolim : ℕ
mmiolim = kernbase - 512 * pgsize

-- PTE_PCD | PTE_PWT | PTE_W
abbrev pub pte_device : ℕ
pte_device = 0x1a

-- The address of the region, and the next `base`.
unfoldable pub mmio_map_region : ℕ → ℕ → ℕ → ℕ → M Machine (ℕ × ℕ)
mmio_map_region boot_pml4e base pa size =
    let start = rounddown pa pgsize in
    let s_size = (roundup ((pa + size) % 2 ^ 64) pgsize + 2 ^ 64 - start) % 2 ^ 64 in
    if leb mmiolim ((base + s_size) % 2 ^ 64) then panic else (do
      boot_map_region boot_pml4e base s_size start pte_device
      pure (base, (base + s_size) % 2 ^ 64))
