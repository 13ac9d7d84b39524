-- ===== src/Syscall/Pgfault.antt =====
-- pgfault and fork of lib/fork.c and set_pgfault_handler of lib/pgfault.c.
--
-- The windows uvpml4e, uvpde, uvpd and uvpt onto the caller's own page tables are read through
-- functions on the state. `move` stands for memmove in the caller's address space.
use mit_jos_f22_advanced_os.Base.{
  ℕ, zero, suc, ◌+◌, ◌-◌, ◌*◌, ◌/◌, ◌%◌, ◌^◌, true, false, not, ◌&&◌, none, some, bit_and, leb,
  ◌==◌, if◌then◌else◌, Bool,
}
use mit_jos_f22_advanced_os.Base.Ret.{M, pure, panic, ◌>>=◌, ◌>>◌, Ret, ok, err}
use mit_jos_f22_advanced_os.Env.State.{Kernel}
use mit_jos_f22_advanced_os.Syscall.Calls.{
  sys_page_alloc, sys_page_map, sys_page_unmap, sys_exofork, sys_env_set_pgfault_upcall,
  sys_env_set_status,
}
use mit_jos_f22_advanced_os.Syscall.Duppage.{duppage, pte_cow}

abbrev pub pftemp : ℕ
pftemp = 0x5ff000

abbrev pub utext : ℕ
utext = 0x800000

abbrev pub ustacktop : ℕ
ustacktop = 0xef7fe000

abbrev pub uxstacktop : ℕ
uxstacktop = 0xef800000

-- PTE_P | PTE_W | PTE_U
abbrev pub pte_user : ℕ
pte_user = 7

-- `if (r < 0) panic(...)`
abbrev pub or_panic : {A : Type 0} → M Kernel (Ret A) → M Kernel (Unit {0})
or_panic m = m >>= λ r. elim r [ ok a ↦ pure tt | err x ↦ panic ]

-- The address and the error code of the fault, and uvpt[PPN(addr)].
unfoldable pub pgfault : (ℕ → ℕ → ℕ → M Kernel (Unit {0})) → ℕ → ℕ → ℕ → ℕ → M Kernel (Unit {0})
pgfault move cur addr code pte =
    if (bit_and code 2 == 0) && not (bit_and pte pte_cow == 0) then panic else (do
      or_panic (sys_page_alloc cur 0 pftemp pte_user)
      move pftemp (addr - addr % 4096) 4096
      or_panic (sys_page_map cur 0 pftemp 0 (addr - addr % 4096) pte_user)
      or_panic (sys_page_unmap cur 0 pftemp))

-- `first` is the test that no handler is registered.
unfoldable pub set_pgfault_handler : ℕ → ℕ → ℕ → M Kernel (Unit {0})
set_pgfault_handler cur upcall handler = do
  if handler == 0 then or_panic (sys_page_alloc cur 0 (uxstacktop - 4096) pte_user) else pure tt
  or_panic (sys_env_set_pgfault_upcall cur 0 upcall)

-- The entries that the windows show, by the index that fork computes.
pub record Windows (S : Type 0) : Type 0 where
  pub uvpml4e : ℕ → S → ℕ
  pub uvpde : ℕ → S → ℕ
  pub uvpd : ℕ → S → ℕ
  pub uvpt : ℕ → S → ℕ

-- & PTE_P
abbrev pub is_set : ℕ → Bool
is_set e = not (bit_and e 1 == 0)

-- `addr -= n` on uint64_t
abbrev pub back : ℕ → ℕ → ℕ
back n addr = (addr + 2 ^ 64 - n % 2 ^ 64) % 2 ^ 64

-- What the loop of fork takes off `addr` besides a page, for a page that is not copied.
abbrev pub skip : {S : Type 0} → Windows S → ℕ → S → ℕ
skip w addr s =
    if is_set (w.uvpml4e (addr / 2 ^ 39) s)
    then (if is_set (w.uvpde (addr / 2 ^ 30) s)
        then (if is_set (w.uvpd (addr / 2 ^ 21) s) then 0 else 512 * 4096)
        else 512 * 512 * 4096)
    else (addr / 2 ^ 39 + 1) * 2 ^ 39

-- The page of `addr` is mapped, by all four levels.
abbrev pub is_page : {S : Type 0} → Windows S → ℕ → S → Bool
is_page w addr s =
    is_set (w.uvpml4e (addr / 2 ^ 39) s)
    && is_set (w.uvpde (addr / 2 ^ 30) s)
    && is_set (w.uvpd (addr / 2 ^ 21) s)
    && is_set (w.uvpt (addr / 2 ^ 12) s)

-- The body of the loop, where `visit` is duppage.
abbrev pub visit_page : {S : Type 0} → Windows S → (ℕ → ℕ → M S (Unit {0})) → ℕ → M S (Unit {0})
visit_page w visit addr s =
    if is_page w addr s then visit (addr / 2 ^ 12) (w.uvpt (addr / 2 ^ 12) s) s else some (tt, s)

-- The loop over the pages from `addr` down to UTEXT, on fuel.
unfoldable pub fork_pages :
    {S : Type 0} → Windows S → (ℕ → ℕ → M S (Unit {0})) → ℕ → ℕ → M S (Unit {0})
fork_pages w visit zero addr s = none
fork_pages w visit (suc fuel) addr s = elim (leb utext addr) [
  | false ↦ some (tt, s)
  | true ↦
      (do visit_page w visit addr; fork_pages w visit fuel (back 4096 (back (skip w addr s) addr)))
        s
]

-- fork, in the parent: the results of the system calls behind the loop are dropped. A round takes off
-- at least a page, so that the fuel is enough while uvpml4e has the entry of these addresses.
unfoldable pub fork : Windows Kernel → (ℕ → ℕ → ℕ → M Kernel (Unit {0})) → ℕ → ℕ → ℕ → M Kernel ℕ
unfolding fork_pages set_pgfault_handler
fork w move upcall handler cur = do
  set_pgfault_handler cur upcall handler
  r ← sys_exofork cur
  elim r [ err x ↦ panic | ok envid ↦ copy_all envid ]
  where
    copy_all : ℕ → M Kernel ℕ
    copy_all envid = do
      fork_pages w (λ pn pte. duppage cur envid pn pte >>= λ _. pure tt) (ustacktop / 4096)
          (ustacktop - 4096)
      r₁ ← sys_page_alloc cur envid (uxstacktop - 4096) pte_user
      r₂ ← sys_page_alloc cur envid (ustacktop - 4096) pte_user
      r₃ ← sys_page_map cur envid (ustacktop - 4096) 0 pftemp pte_user
      move pftemp (ustacktop - 4096) 4096
      r₄ ← sys_page_unmap cur 0 pftemp
      k ← (λ k. some (k, k))
      r₅ ← sys_env_set_pgfault_upcall cur envid (k.envs cur).env_pgfault_upcall
      r₆ ← sys_env_set_status cur envid 2
      pure envid
