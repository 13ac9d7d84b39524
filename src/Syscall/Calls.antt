-- ===== src/Syscall/Calls.antt =====
-- The system calls of kern/syscall.c. `cur` is `curenv`, which trap has checked not to be NULL; a
-- call with result `ok` returns the value, one with `err` the negated code.
use mit_jos_f22_advanced_os.Base.{
  ℕ, ◌%◌, ◌^◌, Bool, true, false, ◌&&◌, ◌||◌, not, Option, none, some, update, ltb, leb, ◌==◌,
  if◌then◌else◌, bit_or, bit_and,
}
use mit_jos_f22_advanced_os.Base.Ret.{
  M, ◌>>=◌, ◌>>◌, Ret, ok, err, Error, e_inval, e_no_mem, e_ipc_not_recv,
}
use mit_jos_f22_advanced_os.Pmap.Mem.{Slot, load, pte_p, pte_w, pte_u}
use mit_jos_f22_advanced_os.Pmap.Alloc.{page_alloc, page_free}
use mit_jos_f22_advanced_os.Pmap.Walk.{page_insert, page_lookup, page_remove}
use mit_jos_f22_advanced_os.Env.State.{
  EnvStatus, env_runnable, env_not_runnable, Trapframe, Env, Kernel, on_mem, set_env,
}
use mit_jos_f22_advanced_os.Env.Alloc.{envid2env, env_alloc}
use mit_jos_f22_advanced_os.Env.Sched.{set_status}

abbrev pub utop : ℕ
utop = 0x8000800000

abbrev pub pte_syscall : ℕ
pte_syscall = 0xe07

-- `return -E`
abbrev pub fail : {A : Type 0} → Error → M Kernel (Ret A)
fail x k = some (err x, k)

abbrev pub done : M Kernel (Ret (Unit {0}))
done k = some (ok tt, k)

-- `if ((r = ...) < 0) return r;` and the rest with the value
infixl 5 ◌>>!◌
abbrev pub ◌>>!◌ : {A B : Type 0} → M Kernel (Ret A) → (A → M Kernel (Ret B)) → M Kernel (Ret B)
m >>! f = m >>= λ r. elim r [ ok a ↦ f a | err x ↦ fail x ]

abbrev pub find_env : ℕ → ℕ → Bool → M Kernel (Ret ℕ)
find_env cur envid checkperm k = some (envid2env cur envid checkperm k, k)

-- va < UTOP, and va is page-aligned
abbrev pub is_user_page : ℕ → Bool
is_user_page va = not (leb utop va || not (va % 4096 == 0))

-- (perm | PTE_SYSCALL) == PTE_SYSCALL
abbrev pub is_syscall_perm : ℕ → Bool
is_syscall_perm perm = bit_or perm pte_syscall == pte_syscall

unfoldable pub sys_getenvid : ℕ → Kernel → ℕ
sys_getenvid cur k = (k.envs cur).env_id

abbrev pub child_frame : Trapframe → Trapframe
child_frame tf = record tf { tf_regs = record (tf.tf_regs) { reg_rax = 0 } }

unfoldable pub sys_exofork : ℕ → M Kernel (Ret ℕ)
sys_exofork cur k =
    (env_alloc (k.envs cur).env_id >>! λ e k₁.
    (let v = record (k₁.envs e) {
      env_status = env_not_runnable;
      env_tf = child_frame (k₁.envs cur).env_tf;
    } in
      some (ok v.env_id, record k₁ { envs = update k₁.envs e v })))
      k

-- The values 2 and 4 of `enum` in inc/env.h.
abbrev pub status_of : ℕ → Option EnvStatus
status_of status =
    if status == 2 then some env_runnable else if status == 4 then some env_not_runnable else none

unfoldable pub sys_env_set_status : ℕ → ℕ → ℕ → M Kernel (Ret (Unit {0}))
sys_env_set_status cur envid status = elim (status_of status) [
  | none ↦ fail e_inval
  | some st ↦ find_env cur envid true >>! λ e k. (set_env e (set_status st (k.envs e)) >> done) k
]

unfoldable pub sys_env_set_pgfault_upcall : ℕ → ℕ → ℕ → M Kernel (Ret (Unit {0}))
sys_env_set_pgfault_upcall cur envid func = find_env cur envid true >>! λ e k.
    (set_env e (record (k.envs e) { env_pgfault_upcall = func }) >> done) k

-- page_insert, and page_free of the page if it fails
unfoldable pub insert_new : ℕ → ℕ → ℕ → ℕ → M Kernel (Ret (Unit {0}))
insert_new e pp va perm k =
    (do
      r ← on_mem (page_insert (k.envs e).env_pml4e pp va perm)
      elim r [ ok _ ↦ done | err x ↦ (do on_mem (page_free pp); fail x) ])
      k

unfoldable pub sys_page_alloc : ℕ → ℕ → ℕ → ℕ → M Kernel (Ret (Unit {0}))
unfolding insert_new
sys_page_alloc cur envid va perm =
    if leb utop va || not (va % 4096 == 0)
    then fail e_inval
    else if not (is_syscall_perm perm)
    then fail e_inval
    else find_env cur envid true >>! λ e. do
      page ← on_mem (page_alloc true)
      elim page [ none ↦ fail e_no_mem | some pp ↦ insert_new e pp va perm ]

-- The checks of the two mappings, and page_insert.
unfoldable pub share : ℕ → ℕ → ℕ → Option (ℕ × Slot) → M Kernel (Ret (Unit {0}))
share dst dstva perm none k = fail e_inval k
share dst dstva perm (some (pp, slot)) k =
    (do
      pte ← on_mem (load slot)
      if (bit_and pte pte_w == 0) && not (bit_and perm pte_w == 0)
          then fail e_inval
          else on_mem (page_insert (k.envs dst).env_pml4e pp dstva perm))
      k

unfoldable pub sys_page_map : ℕ → ℕ → ℕ → ℕ → ℕ → ℕ → M Kernel (Ret (Unit {0}))
unfolding share
sys_page_map cur srcenvid srcva dstenvid dstva perm = find_env cur srcenvid true >>! λ src.
    find_env cur dstenvid true >>! λ dst.
    if leb utop srcva || not (srcva % 4096 == 0)
    then fail e_inval
    else if leb utop dstva || not (dstva % 4096 == 0)
    then fail e_inval
    else if not (is_syscall_perm perm)
    then fail e_inval
    else (λ k. (on_mem (page_lookup (k.envs src).env_pml4e srcva) >>= share dst dstva perm) k)

unfoldable pub sys_page_unmap : ℕ → ℕ → ℕ → M Kernel (Ret (Unit {0}))
sys_page_unmap cur envid va = find_env cur envid true >>! λ e.
    if leb utop va || not (va % 4096 == 0)
    then fail e_inval
    else (λ k. (on_mem (page_remove (k.envs e).env_pml4e va) >> done) k)

-- The page part of sys_ipc_try_send, for srcva < UTOP: the sender's page at srcva is mapped at the
-- address that the receiver gave.
unfoldable pub send_page : ℕ → ℕ → ℕ → ℕ → M Kernel (Ret (Unit {0}))
unfolding share
send_page cur e srcva perm =
    if not (srcva % 4096 == 0)
    then fail e_inval
    else if not (bit_and perm (bit_or pte_u pte_p) == bit_or pte_u pte_p)
    then fail e_inval
    else if not (bit_and perm 0xfffff1f8 == 0)
    then fail e_inval
    else (λ k.
        (on_mem (page_lookup (k.envs cur).env_pml4e srcva)
            >>= share e (k.envs e).env_ipc_dstva perm)
          k)

-- The fields that a message sets in the receiver; `value` is cut to a `uint32_t`.
abbrev pub received : ℕ → ℕ → ℕ → Env → Env
received from value perm v = record v {
  env_ipc_perm = perm;
  env_ipc_recving = false;
  env_ipc_from = from;
  env_ipc_value = value % 2 ^ 32;
  env_status = env_runnable;
}

abbrev pub deliver : ℕ → ℕ → ℕ → ℕ → M Kernel (Ret (Unit {0}))
deliver cur e value perm k =
    (set_env e (received (k.envs cur).env_id value perm (k.envs e)) >> done) k

unfoldable pub sys_ipc_try_send : ℕ → ℕ → ℕ → ℕ → ℕ → M Kernel (Ret (Unit {0}))
unfolding send_page
sys_ipc_try_send cur envid value srcva perm = find_env cur envid false >>! λ e k.
    (if not (k.envs e).env_ipc_recving
        then fail e_ipc_not_recv
        else if ltb srcva utop
        then send_page cur e srcva perm >>! (λ _. deliver cur e value perm)
        else deliver cur e value 0)
      k

abbrev pub receiving : ℕ → Env → Env
receiving dstva v = record v {
  env_ipc_recving = true;
  env_ipc_dstva = dstva;
  env_status = env_not_runnable;
}

unfoldable pub sys_ipc_recv : ℕ → ℕ → M Kernel (Ret (Unit {0}))
sys_ipc_recv cur dstva =
    if ltb dstva utop && not (dstva % 4096 == 0)
    then fail e_inval
    else (λ k. (set_env cur (receiving dstva (k.envs cur)) >> done) k)
