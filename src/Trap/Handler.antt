-- ===== src/Trap/Handler.antt =====
-- trap, trap_dispatch and page_fault_handler of kern/trap.c, on CPU `c`.
--
-- `fault_va` is the register cr2 and `input` what cons_getc returns. The lock, `panicstr` and the
-- status of the CPU are outside the state. A result is where the CPU goes: into an environment, to
-- sleep, or into the monitor, which is not followed further.
use mit_jos_f22_advanced_os.Base.{
  ℕ, ◌-◌, ◌%◌, ◌^◌, Bool, ◌&&◌, not, Option, none, some, leb, ◌==◌, if◌then◌else◌, update,
}
use mit_jos_f22_advanced_os.Base.Ret.{M, pure, panic, ◌>>=◌, ◌>>◌, Ret, ok, err, code}
use mit_jos_f22_advanced_os.Pmap.Mem.{pte_w}
use mit_jos_f22_advanced_os.Env.State.{
  Env, Kernel, Trapframe, is_dying, is_running, on_mem, set_env,
}
use mit_jos_f22_advanced_os.Env.Sched.{Next, user, monitor, env_run, sched_yield}
use mit_jos_f22_advanced_os.Env.Free.{free_env, env_destroy}
use mit_jos_f22_advanced_os.Syscall.Dispatch.{value, left, syscall, user_mem_assert}
use mit_jos_f22_advanced_os.Trap.Push.{store_words, utrapframe}

abbrev pub t_brkpt : ℕ
t_brkpt = 3

abbrev pub t_pgflt : ℕ
t_pgflt = 14

abbrev pub t_syscall : ℕ
t_syscall = 48

-- IRQ_OFFSET + IRQ_TIMER
abbrev pub irq_timer : ℕ
irq_timer = 32

-- IRQ_OFFSET + IRQ_SPURIOUS
abbrev pub irq_spurious : ℕ
irq_spurious = 39

abbrev pub uxstacktop : ℕ
uxstacktop = 0xef800000

-- sizeof(struct UTrapframe)
abbrev pub utf_size : ℕ
utf_size = 160

-- An `int64_t` result in a register.
abbrev pub register : Ret ℕ → ℕ
register (ok n) = n
register (err x) = 2 ^ 64 - code x

-- tf->tf_cs & 3
abbrev pub is_user : Trapframe → Bool
is_user tf = tf.tf_cs % 4 == 3

-- Where a function ends: `some next` if it does not return.
abbrev pub yield_on : ℕ → M Kernel (Option Next)
yield_on c k = let (next, k') = sched_yield c k in some (some next, k')

abbrev pub run_on : ℕ → ℕ → M Kernel (Option Next)
run_on c e k = some (some (user e), env_run c e k)

-- The address of the frame on the exception stack.
abbrev pub utf_address : ℕ → ℕ
utf_address rsp =
    if leb (uxstacktop - 4096) rsp && leb rsp (uxstacktop - 1)
    then rsp - utf_size - 4
    else uxstacktop - utf_size

-- The frame is stored, and the environment continues in its upcall.
unfoldable pub enter_upcall : ℕ → ℕ → ℕ → Trapframe → M Kernel (Option Next)
enter_upcall c e fault_va tf = do
  λ k. on_mem (store_words (utrapframe fault_va tf) (k.envs e).env_pml4e (utf_address tf.tf_rsp)) k
  λ k.
      let v = k.envs e in
      let tf' = record (v.env_tf) {
        tf_rip = v.env_pgfault_upcall;
        tf_rsp = utf_address tf.tf_rsp;
      } in
      set_env e (record v { env_tf = tf' }) k
  run_on c e

-- `e` is curenv.
unfoldable pub page_fault_handler : ℕ → ℕ → ℕ → Trapframe → M Kernel (Option Next)
unfolding enter_upcall
page_fault_handler c e fault_va tf k =
    if not (is_user tf)
    then none
    else if not ((k.envs e).env_pgfault_upcall == 0)
    then (do
      gone ← user_mem_assert c e (utf_address tf.tf_rsp) 1 pte_w
      elim gone [ some next ↦ pure (some next) | none ↦ enter_upcall c e fault_va tf ])
        k
    else env_destroy c e k

-- tf->tf_regs.reg_rax = r, where `tf` is the frame of `e`
abbrev pub set_rax : ℕ → Env → Env
set_rax r v = record v {
  env_tf = record (v.env_tf) { tf_regs = record (v.env_tf.tf_regs) { reg_rax = r } };
}

unfoldable pub do_syscall : ℕ → ℕ → ℕ → Trapframe → M Kernel (Option Next)
do_syscall c e input tf =
    let r = tf.tf_regs in
    syscall c e input r.reg_rax r.reg_rdx r.reg_rcx r.reg_rbx r.reg_rdi r.reg_rsi >>= (λ res.
      elim res [
        | left next ↦ pure (some next)
        | value v ↦ (λ k. (set_env e (set_rax (register v) (k.envs e)) >> pure none) k)
      ])

-- A trap from user mode; `e` is curenv and `tf` its saved frame.
unfoldable pub trap_dispatch : ℕ → ℕ → ℕ → ℕ → Trapframe → M Kernel (Option Next)
unfolding page_fault_handler do_syscall
trap_dispatch c e fault_va input tf =
    if tf.tf_trapno == t_pgflt
    then page_fault_handler c e fault_va tf
    else if tf.tf_trapno == t_brkpt
    then pure (some monitor)
    else if tf.tf_trapno == t_syscall
    then do_syscall c e input tf
    else if tf.tf_trapno == irq_spurious
    then pure none
    else if tf.tf_trapno == irq_timer
    then yield_on c
    else env_destroy c e

-- A trap in the kernel: a halted CPU takes interrupts there, and the kernel itself makes no system
-- call.
unfoldable pub kernel_dispatch : ℕ → Trapframe → M Kernel (Option Next)
kernel_dispatch c tf =
    if tf.tf_trapno == t_pgflt
    then panic
    else if tf.tf_trapno == t_brkpt
    then pure (some monitor)
    else if tf.tf_trapno == irq_spurious
    then pure none
    else if tf.tf_trapno == irq_timer
    then yield_on c
    else panic

-- The end of trap.
abbrev pub resume : ℕ → Option Next → Kernel → Option (Next × Kernel)
resume c (some next) k = some (next, k)
resume c none k = elim (k.curenv c) [
  | none ↦ some (sched_yield c k)
  | some e ↦
      if is_running (k.envs e).env_status
      then some (user e, env_run c e k)
      else some (sched_yield c k)
]

-- curenv->env_tf = *tf
abbrev pub save_frame : ℕ → Trapframe → Kernel → Kernel
save_frame e tf k = record k { envs = update k.envs e (record (k.envs e) { env_tf = tf }) }

abbrev pub finish_dying : ℕ → ℕ → Kernel → Option (Next × Kernel)
finish_dying c e k = elim (free_env e k) [
  | none ↦ none
  | some (_, k₁) ↦ some (sched_yield c (record k₁ { curenv = update k₁.curenv c none }))
]

unfoldable pub trap : ℕ → ℕ → ℕ → Trapframe → Kernel → Option (Next × Kernel)
unfolding trap_dispatch kernel_dispatch
trap c fault_va input tf k =
    if is_user tf
    then elim (k.curenv c) [
      | none ↦ none
      | some e ↦
          if is_dying (k.envs e).env_status
          then finish_dying c e k
          else (trap_dispatch c e fault_va input tf >>= resume c) (save_frame e tf k)
    ]
    else (kernel_dispatch c tf >>= resume c) k
