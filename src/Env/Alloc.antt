-- ===== src/Env/Alloc.antt =====
-- envid2env, env_init, env_setup_vm and env_alloc of kern/env.c.
use mit_jos_f22_advanced_os.Base.{
  ℕ, zero, suc, ◌+◌, ◌-◌, ◌*◌, ◌%◌, ◌^◌, Bool, true, false, ◌&&◌, ◌||◌, not, Option, none, some,
  bit_or, leb, ◌==◌, if◌then◌else◌, update,
}
use mit_jos_f22_advanced_os.Base.Ret.{
  M, pure, ◌>>=◌, ◌>>◌, Ret, ok, err, e_bad_env, e_no_free_env, e_no_mem,
}
use mit_jos_f22_advanced_os.Pmap.Mem.{page2pa, page2kva, load, store, ppn, pte_p, pte_u, pml4}
use mit_jos_f22_advanced_os.Pmap.Alloc.{page_alloc}
use mit_jos_f22_advanced_os.Pmap.Walk.{incref}
use mit_jos_f22_advanced_os.Env.State.{
  env_free, env_runnable, env_type_user, PushRegs, Trapframe, Env, Kernel, nenv, envx, is_free,
  on_mem, set_env,
}

-- `cur` is `curenv`, which is not NULL where a system call calls this.
unfoldable pub envid2env : ℕ → ℕ → Bool → Kernel → Ret ℕ
envid2env cur envid checkperm k =
    let e = k.envs (envx envid) in
    if envid == 0
    then ok cur
    else if is_free e.env_status || not (e.env_id == envid)
    then err e_bad_env
    else if checkperm && not (envx envid == cur) && not (e.env_parent_id == (k.envs cur).env_id)
    then err e_bad_env
    else ok (envx envid)

abbrev pub set_link : Option ℕ → Env → Env
set_link l e = record e { env_link = l }

-- One round of the loop of env_init on `envs` and `last`.
abbrev pub init_step : ℕ → (ℕ → Env) × Option ℕ → (ℕ → Env) × Option ℕ
init_step i (envs, last) =
    let blank = record (envs i) { env_id = 0; env_status = env_free; env_link = none } in
    let envs₁ = update envs i blank in
    elim last [
      | none ↦ (envs₁, some i)
      | some l ↦
          let envs₂ = update envs₁ l (set_link (some i) (envs₁ l)) in (envs₂, (envs₂ l).env_link)
    ]

-- `n` rounds, from `i` on.
unfoldable pub init_loop : ℕ → ℕ → (ℕ → Env) × Option ℕ → (ℕ → Env) × Option ℕ
init_loop zero i s = s
init_loop (suc n) i s = init_loop n (i + 1) (init_step i s)

unfoldable pub env_init : Kernel → Kernel
env_init k = record k { env_free_list = some 0; envs = (init_loop nenv 0 (k.envs, none)).0 }

abbrev pub uvpt : ℕ
uvpt = 0x10000000000

-- The new table gets the kernel's entry 1, and itself at UVPT.
unfoldable pub env_setup_vm : ℕ → M Kernel (Ret (Unit {0}))
env_setup_vm e k = elim (page_alloc true k.mem) [
  | none ↦ none
  | some (none, m) ↦ some (err e_no_mem, record k { mem = m })
  | some (some p, m) ↦
      (do
        kva ← on_mem (page2kva p)
        λ k₁. set_env e (record (k₁.envs e) { env_pml4e = ppn kva; env_cr3 = page2pa p }) k₁
        on_mem (incref p)
        shared ← on_mem (load (k.boot_pml4e, 1))
        on_mem (store (ppn kva, 1) shared)
        on_mem (store (ppn kva, pml4 uvpt) (bit_or (bit_or (page2pa p) pte_p) pte_u))
        pure (ok tt))
        (record k { mem = m })
]

-- (e->env_id + (1 << ENVGENSHIFT)) & ~(NENV - 1), or 1 << ENVGENSHIFT if that is not positive as
-- an `int32_t`; then `| (e - envs)`.
unfoldable pub next_id : ℕ → ℕ → ℕ
next_id old e =
    let sum = (old + 4096) % 2 ^ 32 in
    let generation = sum - sum % 1024 in
    bit_or (if generation == 0 || leb (2 ^ 31) generation then 4096 else generation) e

abbrev pub ustacktop : ℕ
ustacktop = 0xef800000 - 2 * 4096

abbrev pub zero_regs : PushRegs
zero_regs = record {
  reg_r15 = 0;
  reg_r14 = 0;
  reg_r13 = 0;
  reg_r12 = 0;
  reg_r11 = 0;
  reg_r10 = 0;
  reg_r9 = 0;
  reg_r8 = 0;
  reg_rsi = 0;
  reg_rdi = 0;
  reg_rbp = 0;
  reg_rdx = 0;
  reg_rcx = 0;
  reg_rbx = 0;
  reg_rax = 0;
}

-- GD_UD | 3, GD_UT | 3, and FL_IF in a cleared frame.
abbrev pub user_frame : Trapframe
user_frame = record {
  tf_regs = zero_regs;
  tf_es = 0x23;
  tf_ds = 0x23;
  tf_trapno = 0;
  tf_err = 0;
  tf_rip = 0;
  tf_cs = 0x1b;
  tf_eflags = 0x200;
  tf_rsp = ustacktop;
  tf_ss = 0x23;
}

-- The fields that env_alloc sets once the address space exists.
abbrev pub fresh : ℕ → ℕ → Env → Env
fresh e parent_id v = record v {
  env_id = next_id v.env_id e;
  env_parent_id = parent_id;
  env_type = env_type_user;
  env_status = env_runnable;
  env_runs = 0;
  env_tf = user_frame;
  env_pgfault_upcall = 0;
  env_ipc_recving = false;
}

unfoldable pub env_alloc : ℕ → M Kernel (Ret ℕ)
env_alloc parent_id k = elim k.env_free_list [
  | none ↦ some (err e_no_free_env, k)
  | some e ↦ elim (env_setup_vm e k) [
    | none ↦ none
    | some (err x, k₁) ↦ some (err x, k₁)
    | some (ok _, k₁) ↦
        let v = k₁.envs e in
        some (
          ok e,
          record k₁ { envs = update k₁.envs e (fresh e parent_id v); env_free_list = v.env_link },
        )
  ]
]
