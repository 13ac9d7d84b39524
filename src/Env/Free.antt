-- ===== src/Env/Free.antt =====
-- env_free and env_destroy of kern/env.c, and region_alloc.
use mit_jos_f22_advanced_os.Base.{
  ℕ, zero, suc, ◌+◌, ◌-◌, ◌*◌, ◌/◌, ◌%◌, ◌^◌, Bool, false, ◌&&◌, not, Option, none, some, ◌==◌,
  if◌then◌else◌, update,
}
use mit_jos_f22_advanced_os.Base.Ret.{M, pure, panic, ◌>>=◌, ◌>>◌, ok, err}
use mit_jos_f22_advanced_os.Pmap.Mem.{
  Machine, Slot, kaddr, pa2page, load, store, ppn, pte_addr, present, pdx, pgsize, rounddown,
  roundup,
}
use mit_jos_f22_advanced_os.Pmap.Alloc.{page_alloc, page_decref}
use mit_jos_f22_advanced_os.Pmap.Walk.{incref, page_remove, page_insert}
use mit_jos_f22_advanced_os.Env.State.{env_free, env_dying, Env, Kernel, is_running, on_mem}
use mit_jos_f22_advanced_os.Env.Sched.{Next, set_status, sched_yield}

-- PGADDR(0, pdpe_index, pdeno, pteno, 0)
abbrev pub pgaddr : ℕ → ℕ → ℕ → ℕ
pgaddr pdpe_index pdeno pteno = pdpe_index * 2 ^ 30 + pdeno * 2 ^ 21 + pteno * 2 ^ 12

-- `n` rounds of the loop over a page table, from `pteno` on.
unfoldable pub free_ptes : ℕ → ℕ → (ℕ → ℕ) → ℕ → ℕ → M Machine (Unit {0})
free_ptes zero pteno addr pt table = pure tt
free_ptes (suc n) pteno addr pt table = do
  e ← load (pt, pteno)
  if present e then page_remove table (addr pteno) else pure tt
  free_ptes n (pteno + 1) addr pt table

-- The page that an entry names loses a reference, and the entry is cleared.
unfoldable pub drop_entry : Slot → ℕ → M Machine (Unit {0})
drop_entry entry pa = do store entry 0; page ← pa2page pa; page_decref page

-- One page table of a directory; PTX(~0) is 511.
unfoldable pub free_table : ℕ → ℕ → ℕ → ℕ → M Machine (Unit {0})
unfolding free_ptes drop_entry
free_table pgdir pdpe_index pdeno table = do
  e ← load (pgdir, pdeno)
  if not (present e) then pure tt else (do
    pt ← kaddr (pte_addr e)
    free_ptes 511 0 (pgaddr pdpe_index pdeno) (ppn pt) table
    drop_entry (pgdir, pdeno) (pte_addr e))

unfoldable pub free_tables : ℕ → ℕ → ℕ → ℕ → ℕ → M Machine (Unit {0})
unfolding free_table
free_tables zero pdeno pgdir pdpe_index table = pure tt
free_tables (suc n) pdeno pgdir pdpe_index table = do
  free_table pgdir pdpe_index pdeno table
  free_tables n (pdeno + 1) pgdir pdpe_index table

-- pdpe_index==3 ? PDX(UTOP) : PDX(0xFFFFFFFF)
abbrev pub pdeno_limit : ℕ → ℕ
pdeno_limit pdpe_index = if pdpe_index == 3 then pdx 0x8000800000 else pdx 0xffffffff

unfoldable pub free_directory : ℕ → ℕ → ℕ → M Machine (Unit {0})
unfolding free_tables drop_entry
free_directory env_pdpe pdpe_index table = do
  e ← load (env_pdpe, pdpe_index)
  if not (present e) then pure tt else (do
    pgdir ← kaddr (pte_addr e)
    free_tables (pdeno_limit pdpe_index) 0 (ppn pgdir) pdpe_index table
    drop_entry (env_pdpe, pdpe_index) (pte_addr e))

unfoldable pub free_directories : ℕ → ℕ → ℕ → ℕ → M Machine (Unit {0})
unfolding free_directory
free_directories zero pdpe_index env_pdpe table = pure tt
free_directories (suc n) pdpe_index env_pdpe table = do
  free_directory env_pdpe pdpe_index table
  free_directories n (pdpe_index + 1) env_pdpe table

-- The user part of the address space with top-level table `table`, and that table's page.
unfoldable pub free_space : ℕ → ℕ → M Machine (Unit {0})
unfolding free_directories drop_entry
free_space table cr3 = do
  e ← load (table, 0)
  if not (present e) then pure tt else (do
    env_pdpe ← kaddr (pte_addr e)
    free_directories 4 0 (ppn env_pdpe) table
    page ← pa2page (pte_addr e)
    page_decref page)
  drop_entry (table, 0) cr3

-- The fields of the freed slot; NULL for env_pml4e is 0.
abbrev pub freed_env : Option ℕ → Env → Env
freed_env link v = record v { env_pml4e = 0; env_cr3 = 0; env_status = env_free; env_link = link }

unfoldable pub free_env : ℕ → M Kernel (Unit {0})
unfolding free_space
free_env e k =
    (do
      on_mem (free_space (k.envs e).env_pml4e (k.envs e).env_cr3)
      λ k₁. some (
        tt,
        record k₁ {
          envs = update k₁.envs e (freed_env k₁.env_free_list (k₁.envs e));
          env_free_list = some e;
        },
      ))
      k

abbrev pub runs_here : ℕ → ℕ → Kernel → Bool
runs_here c e k = elim (k.curenv c) [ none ↦ false | some p ↦ p == e ]

-- On CPU `c`; `some` is where sched_yield takes the CPU if `e` was its own environment.
unfoldable pub env_destroy : ℕ → ℕ → M Kernel (Option Next)
env_destroy c e k =
    if is_running (k.envs e).env_status && not (runs_here c e k)
    then some (none, record k { envs = update k.envs e (set_status env_dying (k.envs e)) })
    else (do
      free_env e
      λ k₁.
          if runs_here c e k₁
          then (let (next, k₂) = sched_yield c (record k₁ { curenv = update k₁.curenv c none }) in
              some (some next, k₂))
          else some (none, k₁))
        k

-- `n` rounds of the loop of region_alloc, from `start` on.
unfoldable pub alloc_pages : ℕ → ℕ → ℕ → M Machine (Unit {0})
alloc_pages zero start table = pure tt
alloc_pages (suc n) start table = do
  page ← page_alloc false
  elim page [
    | none ↦ panic
    | some pp ↦ (do
      incref pp
      r ← page_insert table pp start 6
      elim r [ ok _ ↦ pure tt | err _ ↦ panic ])
  ]
  alloc_pages n (start + pgsize) table

unfoldable pub region_alloc : ℕ → ℕ → ℕ → M Machine (Unit {0})
unfolding alloc_pages
region_alloc table va len =
    let start = rounddown va pgsize in
    let end = roundup ((va + len) % 2 ^ 64) pgsize in
    alloc_pages ((end - start) / pgsize) start table
