-- ===== src/Syscall/Destroy.antt =====
-- sys_env_destroy and sys_yield of kern/syscall.c, on CPU `c` with the current environment `cur`.
use mit_jos_f22_advanced_os.Base.{ℕ, true, Option, some}
use mit_jos_f22_advanced_os.Base.Ret.{M, ◌>>=◌, Ret, ok, err}
use mit_jos_f22_advanced_os.Env.State.{Kernel}
use mit_jos_f22_advanced_os.Env.Alloc.{envid2env}
use mit_jos_f22_advanced_os.Env.Sched.{Next, sched_yield}
use mit_jos_f22_advanced_os.Env.Free.{env_destroy}

-- `ok (some next)` is a call that does not return: sched_yield has taken the CPU elsewhere.
unfoldable pub sys_env_destroy : ℕ → ℕ → ℕ → M Kernel (Ret (Option Next))
sys_env_destroy c cur envid k = elim (envid2env cur envid true k) [
  | err x ↦ some (err x, k)
  | ok e ↦ (env_destroy c e >>= λ next k₁. some (ok next, k₁)) k
]

unfoldable pub sys_yield : ℕ → Kernel → Next × Kernel
sys_yield c k = sched_yield c k
