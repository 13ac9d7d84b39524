-- ===== src/Syscall/Tests.antt =====
-- The theorems about kern/syscall.c run on a kernel with a few environments.
use mit_jos_f22_advanced_os.Base.{ℕ, ◌≡◌, refl, ◌≢◌, true, some, [], ◌∷◌, arith, update}
use mit_jos_f22_advanced_os.Base.Ret.{ok, err}
use mit_jos_f22_advanced_os.Pmap.FreeList.{IsFreeList}
use mit_jos_f22_advanced_os.Pmap.Tests.{tiny-IsFreeList}
use mit_jos_f22_advanced_os.Env.State.{env_running, env_not_runnable, Kernel}
use mit_jos_f22_advanced_os.Env.Ids.{IsFresh}
use mit_jos_f22_advanced_os.Env.Alloc.{envid2env}
use mit_jos_f22_advanced_os.Env.Sched.{set_status}
use mit_jos_f22_advanced_os.Env.Tests.{family}
use mit_jos_f22_advanced_os.Syscall.Calls.{child_frame, sys_exofork}
use mit_jos_f22_advanced_os.Syscall.Fork.{sys_exofork_lem}
use mit_jos_f22_advanced_os.Base.Ret.{e_bad_env}

-- CPU 1 runs environment 2, a child of environment 0.
abbrev busy : Kernel
busy = record family {
  envs = update family.envs 2 (set_status env_running (family.envs 2));
  curenv = update family.curenv 1 (some 2);
}

sys_exofork_lem_example :
    (k' : Kernel) × (sys_exofork 0 family ≡ some (ok (k'.envs 1).env_id, k'))
    × IsFresh (family.envs 1).env_id 1 (k'.envs 1).env_id
    × ((k'.envs 1).env_parent_id ≡ (family.envs 0).env_id)
    × ((k'.envs 1).env_status ≡ env_not_runnable)
    × ((k'.envs 1).env_tf ≡ child_frame (family.envs 0).env_tf)
    × ((k'.envs 1).env_pml4e ≡ 3)
    × ((j : ℕ) → j ≢ 1 → k'.envs j ≡ family.envs j)
    × IsFreeList k'.mem (4 ∷ 5 ∷ 6 ∷ [])
sys_exofork_lem_example =
    sys_exofork_lem 0 1 3 (4 ∷ 5 ∷ 6 ∷ []) family refl tiny-IsFreeList (λ e. omega (arith, e))
      (λ e. omega (arith, e)) (omega arith) (omega arith)

missing : envid2env 0 0x1005 true family ≡ err e_bad_env
unfolding envid2env
missing = refl
