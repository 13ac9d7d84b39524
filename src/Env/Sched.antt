-- ===== src/Env/Sched.antt =====
-- env_run of kern/env.c, sched_yield and sched_halt of kern/sched.c, on CPU `c`.
use mit_jos_f22_advanced_os.Base.{
  ℕ, zero, suc, ◌+◌, ◌%◌, ◌^◌, Bool, false, ◌||◌, Option, none, some, if◌then◌else◌, update,
}
use mit_jos_f22_advanced_os.Env.State.{
  EnvStatus, env_runnable, env_running, Env, Kernel, nenv, envx, is_runnable, is_running, is_dying,
}

abbrev pub set_status : EnvStatus → Env → Env
set_status s e = record e { env_status = s }

-- The first step of env_run: the environment that ran until now becomes runnable.
abbrev pub preempt : Option ℕ → (ℕ → Env) → ℕ → Env
preempt none envs = envs
preempt (some p) envs =
    if is_running (envs p).env_status
    then update envs p (set_status env_runnable (envs p))
    else envs

-- The kernel as env_run leaves it for user mode; `env_runs` is a `uint32_t`.
unfoldable pub env_run : ℕ → ℕ → Kernel → Kernel
env_run c e k =
    let envs = preempt (k.curenv c) k.envs in
    record k {
      curenv = update k.curenv c (some e);
      envs = update envs e (record (envs e) {
        env_status = env_running;
        env_runs = ((envs e).env_runs + 1) % 2 ^ 32;
      });
    }

-- The first runnable environment among `n`, from `i` on, going round.
unfoldable pub first_runnable : ℕ → ℕ → (ℕ → Env) → Option ℕ
first_runnable zero i envs = none
first_runnable (suc n) i envs =
    let rest = first_runnable n (i + 1) envs in
    if is_runnable (envs (i % nenv)).env_status then some (i % nenv) else rest

-- Where a CPU goes when it leaves the kernel: into an environment, to sleep, or into the monitor.
pub data Next : Type 0 where
  user : ℕ → Next
  asleep : Next
  monitor : Next

abbrev pub is_live : EnvStatus → Bool
is_live s = is_runnable s || is_running s || is_dying s

unfoldable pub any_live : ℕ → (ℕ → Env) → Bool
any_live zero envs = false
any_live (suc n) envs = is_live (envs n).env_status || any_live n envs

unfoldable pub sched_halt : ℕ → Kernel → Next × Kernel
sched_halt c k =
    if any_live nenv k.envs
    then (asleep, record k { curenv = update k.curenv c none })
    else (monitor, k)

-- envs[ENVX(curenv->env_id)], or 0 with no current environment
abbrev pub start : ℕ → Kernel → ℕ
start c k = elim (k.curenv c) [ none ↦ 0 | some p ↦ envx (k.envs p).env_id ]

abbrev pub still_running : ℕ → Kernel → Option ℕ
still_running c k = elim (k.curenv c) [
  | none ↦ none
  | some p ↦ if is_running (k.envs p).env_status then some p else none
]

unfoldable pub sched_yield : ℕ → Kernel → Next × Kernel
sched_yield c k = elim (first_runnable nenv (start c k) k.envs) [
  | some e ↦ (user e, env_run c e k)
  | none ↦ elim (still_running c k) [ some p ↦ (user p, env_run c p k) | none ↦ sched_halt c k ]
]
