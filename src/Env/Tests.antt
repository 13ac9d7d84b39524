-- ===== src/Env/Tests.antt =====
-- A kernel with a few environments on which the theorems about kern/env.c and kern/sched.c are run.
use mit_jos_f22_advanced_os.Base.{
  ℕ, ◌+◌, ◌*◌, ◌<◌, ◌≡◌, refl, ◌≢◌, ◌⊎◌, true, false, not, Option, none, some, [], ◌∷◌, arith,
  update, ◌==◌, if◌then◌else◌,
}
use mit_jos_f22_advanced_os.Base.Ret.{ok}
use mit_jos_f22_advanced_os.Pmap.FreeList.{IsFreeList}
use mit_jos_f22_advanced_os.Pmap.Tests.{tiny, tiny-IsFreeList}
use mit_jos_f22_advanced_os.Env.State.{
  EnvStatus, env_free, env_runnable, env_running, env_not_runnable, env_type_user, Env, Kernel,
  nenv, envx, is_free, is_running,
}
use mit_jos_f22_advanced_os.Env.Alloc.{envid2env, user_frame, env_alloc}
use mit_jos_f22_advanced_os.Env.Sched.{
  user, asleep, start, sched_yield, first_runnable, sched_halt, any_live,
}
use mit_jos_f22_advanced_os.Env.Ids.{IsFresh, envid2env_iff}
use mit_jos_f22_advanced_os.Env.Create.{env_alloc_lem}
use mit_jos_f22_advanced_os.Env.Running.{IsNearest, sched_yield-runnable}
use mit_jos_f22_advanced_os.Env.Exclusive.{IsExclusive, sched_yield-IsExclusive}

abbrev env_of : EnvStatus → ℕ → ℕ → Option ℕ → Env
env_of status id parent link = record {
  env_tf = user_frame;
  env_link = link;
  env_id = id;
  env_parent_id = parent;
  env_type = env_type_user;
  env_status = status;
  env_runs = 0;
  env_pml4e = 8;
  env_cr3 = 8 * 4096;
  env_pgfault_upcall = 0;
  env_ipc_recving = false;
  env_ipc_dstva = 0;
  env_ipc_value = 0;
  env_ipc_from = 0;
  env_ipc_perm = 0;
}

-- CPU 0 runs environment 0; its child 2 is runnable and its child 3 is not; slot 1 was used before
-- and is the first free one.
abbrev pub family : Kernel
family = record {
  mem = tiny;
  envs = λ i.
      if i == 0
      then env_of env_running 0x1000 0 none
      else if i == 1
      then env_of env_free 0x1001 0 (some 4)
      else if i == 2
      then env_of env_runnable 0x1002 0x1000 none
      else if i == 3
      then env_of env_not_runnable 0x1003 0x1000 none
      else env_of env_free 0 0 none;
  env_free_list = some 1;
  curenv = λ c. if c == 0 then some 0 else none;
  boot_pml4e = 8;
}

-- Environment 0 runs on CPU 0 and nothing is runnable.
abbrev quiet : Kernel
quiet = record family {
  envs = λ i. if i == 0 then env_of env_running 0x1000 0 none else env_of env_free 0 0 none;
}

abbrev child : ℕ
child = 2

quiet-yield : sched_yield 1 quiet ≡ (asleep, record quiet { curenv = update quiet.curenv 1 none })
unfolding sched_yield first_runnable sched_halt any_live
quiet-yield = refl

pub family-IsExclusive : IsExclusive (λ d. not (d == 0)) family
family-IsExclusive = record { alone = λ c d e p q. ground arith; taken = λ d e p q. ground arith }

envid2env_iff_example :
    (envid2env 0 0x1002 true family ≡ ok child
      → (child ≡ envx 0x1002)
        × (is_free (family.envs child).env_status ≡ false)
        × ((family.envs child).env_id ≡ 0x1002)
        × ((child ≡ 0) ⊎ ((family.envs child).env_parent_id ≡ (family.envs 0).env_id)))
    × ((child ≡ envx 0x1002)
        → is_free (family.envs child).env_status ≡ false
        → (family.envs child).env_id ≡ 0x1002
        → (child ≡ 0) ⊎ ((family.envs child).env_parent_id ≡ (family.envs 0).env_id)
        → envid2env 0 0x1002 true family ≡ ok child)
envid2env_iff_example = envid2env_iff 0 0x1002 child family (λ e. omega (arith, e))

env_alloc_lem_example :
    (k' : Kernel) × (env_alloc 0x1000 family ≡ some (ok 1, k'))
    × IsFresh (family.envs 1).env_id 1 (k'.envs 1).env_id
    × ((k'.envs 1).env_parent_id ≡ 0x1000)
    × ((k'.envs 1).env_status ≡ env_runnable)
    × ((k'.envs 1).env_tf ≡ user_frame)
    × ((k'.envs 1).env_pml4e ≡ 3)
    × (k'.env_free_list ≡ (family.envs 1).env_link)
    × ((j : ℕ) → j ≢ 1 → k'.envs j ≡ family.envs j)
    × IsFreeList k'.mem (4 ∷ 5 ∷ 6 ∷ [])
    × ((k'.mem.pages 3).pp_ref ≡ 1)
    × (k'.mem.word 3 1 ≡ family.mem.word family.boot_pml4e 1)
    × (k'.mem.word 3 2 ≡ 3 * 4096 + 5)
    × ((i : ℕ) → i ≢ 1 → i ≢ 2 → k'.mem.word 3 i ≡ 0)
env_alloc_lem_example =
    env_alloc_lem 0x1000 1 3 (4 ∷ 5 ∷ 6 ∷ []) family refl tiny-IsFreeList (λ e. omega (arith, e))
      (omega arith) (omega arith)

sched_yield-runnable_example :
    (d : ℕ) × (e' : ℕ) × (d < nenv)
    × IsNearest family.envs (start 0 family) d e'
    × (let (next, k') = sched_yield 0 family in
        (next ≡ user e')
        × (k'.curenv 0 ≡ some e')
        × (is_running (k'.envs e').env_status ≡ true)
        × ((c' : ℕ) → c' ≢ 0 → k'.curenv c' ≡ family.curenv c'))
sched_yield-runnable_example = sched_yield-runnable 0 family 2 (omega arith) refl

sched_yield-IsExclusive_example : IsExclusive (λ d. true) (sched_yield 0 family).1
sched_yield-IsExclusive_example =
    sched_yield-IsExclusive 0 family (λ e h. ground (arith, h)) family-IsExclusive
