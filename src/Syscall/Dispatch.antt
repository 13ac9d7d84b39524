-- ===== src/Syscall/Dispatch.antt =====
-- The dispatcher syscall of kern/syscall.c, with sys_cputs, and user_mem_assert of kern/pmap.c, on
-- CPU `c` with the current environment `cur`. The console has no state here: `input` is what
-- cons_getc returns.
use mit_jos_f22_advanced_os.Base.{ℕ, ◌%◌, ◌^◌, Option, none, some, bit_or, ◌==◌, if◌then◌else◌}
use mit_jos_f22_advanced_os.Base.Ret.{M, pure, ◌>>=◌, Ret, ok, err, e_inval}
use mit_jos_f22_advanced_os.Env.State.{Kernel, on_mem}
use mit_jos_f22_advanced_os.Env.Sched.{Next}
use mit_jos_f22_advanced_os.Env.Free.{env_destroy}
use mit_jos_f22_advanced_os.Pmap.Mem.{pte_u}
use mit_jos_f22_advanced_os.Pmap.Check.{user_mem_check}
use mit_jos_f22_advanced_os.Syscall.Calls.{
  sys_getenvid, sys_exofork, sys_env_set_status, sys_env_set_pgfault_upcall, sys_page_alloc,
  sys_page_map, sys_page_unmap, sys_ipc_try_send, sys_ipc_recv,
}
use mit_jos_f22_advanced_os.Syscall.Destroy.{sys_env_destroy, sys_yield}

-- `some next` if the environment was destroyed and the CPU goes elsewhere.
unfoldable pub user_mem_assert : ℕ → ℕ → ℕ → ℕ → ℕ → M Kernel (Option Next)
user_mem_assert c e va len perm k =
    (do
      bad ← on_mem (user_mem_check (k.envs e).env_pml4e va len (bit_or perm pte_u))
      elim bad [ none ↦ pure none | some _ ↦ env_destroy c e ])
      k

unfoldable pub sys_cputs : ℕ → ℕ → ℕ → ℕ → M Kernel (Option Next)
sys_cputs c cur s len = user_mem_assert c cur s len pte_u

-- How a system call ends: with a value for the caller, or in sched_yield.
pub data Result : Type 0 where
  value : Ret ℕ → Result
  left : Next → Result

-- A call whose success is 0.
abbrev pub status : M Kernel (Ret (Unit {0})) → M Kernel Result
status m = m >>= λ r. elim r [ ok _ ↦ pure (value (ok 0)) | err x ↦ pure (value (err x)) ]

-- A call that may not return; its success is 0.
abbrev pub may_leave : Ret (Option Next) → Result
may_leave (err x) = value (err x)
may_leave (ok none) = value (ok 0)
may_leave (ok (some next)) = left next

-- An `int` or `unsigned` parameter, as a 32-bit pattern.
abbrev pub int : ℕ → ℕ
int a = a % 2 ^ 32

unfoldable pub syscall : ℕ → ℕ → ℕ → ℕ → ℕ → ℕ → ℕ → ℕ → ℕ → M Kernel Result
syscall c cur input syscallno a1 a2 a3 a4 a5 =
    if syscallno == 0
    then sys_cputs c cur a1 a2 >>= (λ next. pure (may_leave (ok next)))
    else if syscallno == 11
    then (λ k. let (next, k') = sys_yield c k in some (left next, k'))
    else if syscallno == 1
    then pure (value (ok input))
    else if syscallno == 2
    then (λ k. some (value (ok (sys_getenvid cur k)), k))
    else if syscallno == 3
    then sys_env_destroy c cur (int a1) >>= (λ r. pure (may_leave r))
    else if syscallno == 7
    then sys_exofork cur >>= (λ r. pure (value r))
    else if syscallno == 8
    then status (sys_env_set_status cur (int a1) (int a2))
    else if syscallno == 4
    then status (sys_page_alloc cur (int a1) a2 (int a3))
    else if syscallno == 5
    then status (sys_page_map cur (int a1) a2 (int a3) a4 (int a5))
    else if syscallno == 6
    then status (sys_page_unmap cur (int a1) a2)
    else if syscallno == 10
    then status (sys_env_set_pgfault_upcall cur (int a1) a2)
    else if syscallno == 13
    then status (sys_ipc_recv cur a1)
    else if syscallno == 12
    then status (sys_ipc_try_send cur (int a1) a2 a3 (int a4))
    else pure (value (err e_inval))
