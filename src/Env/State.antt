-- ===== src/Env/State.antt =====
-- `struct Env`, the `envs` array and the variables of kern/env.c, inc/env.h and inc/trap.h.
--
-- A `struct Env *` is an index of `envs`; `env_pml4e` is the number of the page that holds the
-- table. An `envid_t` is the 32-bit pattern of its value.
use mit_jos_f22_advanced_os.Base.{ℕ, ◌%◌, Bool, true, false, Option, none, some, update}
use mit_jos_f22_advanced_os.Base.Ret.{M}
use mit_jos_f22_advanced_os.Pmap.Mem.{Machine}

pub data EnvStatus : Type 0 where
  env_free : EnvStatus
  env_dying : EnvStatus
  env_runnable : EnvStatus
  env_running : EnvStatus
  env_not_runnable : EnvStatus

pub data EnvType : Type 0 where
  env_type_user : EnvType
  env_type_fs : EnvType

pub record PushRegs : Type 0 where
  pub reg_r15 : ℕ
  pub reg_r14 : ℕ
  pub reg_r13 : ℕ
  pub reg_r12 : ℕ
  pub reg_r11 : ℕ
  pub reg_r10 : ℕ
  pub reg_r9 : ℕ
  pub reg_r8 : ℕ
  pub reg_rsi : ℕ
  pub reg_rdi : ℕ
  pub reg_rbp : ℕ
  pub reg_rdx : ℕ
  pub reg_rcx : ℕ
  pub reg_rbx : ℕ
  pub reg_rax : ℕ

pub record Trapframe : Type 0 where
  pub tf_regs : PushRegs
  pub tf_es : ℕ
  pub tf_ds : ℕ
  pub tf_trapno : ℕ
  pub tf_err : ℕ
  pub tf_rip : ℕ
  pub tf_cs : ℕ
  pub tf_eflags : ℕ
  pub tf_rsp : ℕ
  pub tf_ss : ℕ

pub record Env : Type 0 where
  pub env_tf : Trapframe
  pub env_link : Option ℕ
  pub env_id : ℕ
  pub env_parent_id : ℕ
  pub env_type : EnvType
  pub env_status : EnvStatus
  pub env_runs : ℕ
  pub env_pml4e : ℕ
  pub env_cr3 : ℕ
  pub env_pgfault_upcall : ℕ
  pub env_ipc_recving : Bool
  pub env_ipc_dstva : ℕ
  pub env_ipc_value : ℕ
  pub env_ipc_from : ℕ
  pub env_ipc_perm : ℕ

-- `curenv c` is the environment that CPU `c` runs, or NULL.
pub record Kernel : Type 0 where
  pub mem : Machine
  pub envs : ℕ → Env
  pub env_free_list : Option ℕ
  pub curenv : ℕ → Option ℕ
  pub boot_pml4e : ℕ

abbrev pub nenv : ℕ
nenv = 1024

-- ENVX
abbrev pub envx : ℕ → ℕ
envx envid = envid % 1024

abbrev pub is_free : EnvStatus → Bool
is_free env_free = true
is_free _ = false

abbrev pub is_runnable : EnvStatus → Bool
is_runnable env_runnable = true
is_runnable _ = false

abbrev pub is_running : EnvStatus → Bool
is_running env_running = true
is_running _ = false

abbrev pub is_dying : EnvStatus → Bool
is_dying env_dying = true
is_dying _ = false

-- A call of kern/pmap.c from the kernel's state.
abbrev pub on_mem : {A : Type 0} → M Machine A → M Kernel A
on_mem f k = elim (f k.mem) [ none ↦ none | some (a, m) ↦ some (a, record k { mem = m }) ]

abbrev pub set_env : ℕ → Env → M Kernel (Unit {0})
set_env e v k = some (tt, record k { envs = update k.envs e v })
