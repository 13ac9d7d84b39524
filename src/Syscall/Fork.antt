-- ===== src/Syscall/Fork.antt =====
-- sys_exofork and sys_env_set_status of kern/syscall.c.
use mit_jos_f22_advanced_os.Base.{
  ℕ, ◌^◌, ◌<◌, sym, ◌≡◌, refl, ◌≢◌, true, none, some, List, [], ◌∷◌, arith, update, ◌∙◌, ap, ==_ne,
}
use mathlib.Core.Path.{subst}
use mit_jos_f22_advanced_os.Base.Ret.{◌>>=◌, ok, err, e_inval, e_no_mem, e_no_free_env}
use mit_jos_f22_advanced_os.Pmap.FreeList.{IsFreeList}
use mit_jos_f22_advanced_os.Env.State.{env_runnable, env_not_runnable, Kernel, nenv}
use mit_jos_f22_advanced_os.Env.Alloc.{envid2env}
use mit_jos_f22_advanced_os.Env.Ids.{IsFresh}
use mit_jos_f22_advanced_os.Env.Create.{env_alloc_lem, env_alloc-fails}
use mit_jos_f22_advanced_os.Env.Sched.{set_status}
use mit_jos_f22_advanced_os.Syscall.Calls.{child_frame, sys_exofork, sys_env_set_status}

-- sys_exofork with a free slot `e`, which is not the caller's, and a free page returns the
-- identifier that slot `e` then has: positive as an `int32_t`, with index `e`, and not the one the
-- slot had before. The child has the caller as its parent, is not runnable, and has the
-- caller's frame but for a zero in rax, what the child returns; no other slot changes, the
-- caller's included, and the free page is its top-level table.
pub sys_exofork_lem :
    (cur e p : ℕ) (ps : List ℕ) (k : Kernel)
    → k.env_free_list ≡ some e
    → IsFreeList k.mem (p ∷ ps)
    → k.boot_pml4e ≢ p
    → cur ≢ e
    → e < nenv
    → (k.envs e).env_id < 2 ^ 31
    → (k' : Kernel) × (sys_exofork cur k ≡ some (ok (k'.envs e).env_id, k'))
      × IsFresh (k.envs e).env_id e (k'.envs e).env_id
      × ((k'.envs e).env_parent_id ≡ (k.envs cur).env_id)
      × ((k'.envs e).env_status ≡ env_not_runnable)
      × ((k'.envs e).env_tf ≡ child_frame (k.envs cur).env_tf)
      × ((k'.envs e).env_pml4e ≡ p)
      × ((j : ℕ) → j ≢ e → k'.envs j ≡ k.envs j)
      × IsFreeList k'.mem ps
unfolding sys_exofork
sys_exofork_lem cur e p ps k head v ne apart lt small =
    let (k₁, run, id, parent, status, frame, table, list, others, free, rc, w1, w2, w0) =
      env_alloc_lem (k.envs cur).env_id e p ps k head v ne lt small in
    let same = others cur apart in
    let w = record (k₁.envs e) {
      env_status = env_not_runnable;
      env_tf = child_frame (k₁.envs cur).env_tf;
    } in
    let stored : update k₁.envs e w e ≡ w = ground arith in
    (
      record k₁ { envs = update k₁.envs e w },
      rw (run, ◌>>=◌)
          (ap (λ u. some (ok u.env_id, record k₁ { envs = update k₁.envs e w })) (sym stored)),
      subst (λ u. IsFresh (k.envs e).env_id e u.env_id) (sym stored) id,
      ground (arith, parent),
      ground arith,
      ap (λ u. u.env_tf) stored ∙ ap (λ u. child_frame u.env_tf) same,
      ground (arith, table),
      (λ j h. ground (arith, others j h)),
      free,
    )

-- sys_exofork with no free slot returns -E_NO_FREE_ENV; with a free slot and no free page it
-- returns -E_NO_MEM. In both cases it changes nothing.
pub sys_exofork-fails :
    (cur : ℕ) (k : Kernel)
    → (k.env_free_list ≡ none → sys_exofork cur k ≡ some (err e_no_free_env, k))
      × ((e : ℕ)
          → k.env_free_list ≡ some e
          → IsFreeList k.mem []
          → sys_exofork cur k ≡ some (err e_no_mem, k))
unfolding sys_exofork
sys_exofork-fails cur k =
    let (slots, pages) = env_alloc-fails (k.envs cur).env_id k in
    (λ h. rw (slots h, ◌>>=◌) refl, λ e h v. rw (pages e h v, ◌>>=◌) refl)

-- sys_env_set_status with status 2 on an environment `e` that the caller may change makes it
-- runnable and changes nothing else, also while a CPU `c` runs `e`: the environment is then in the
-- scheduler's sight and still `curenv` of `c`. Any status but 2 and 4 is refused.
pub sys_env_set_status-current :
    (cur envid e c : ℕ) (k : Kernel)
    → envid2env cur envid true k ≡ ok e
    → k.curenv c ≡ some e
    → ((k' : Kernel) × (sys_env_set_status cur envid 2 k ≡ some (ok tt, k'))
        × (k'.envs ≡ update k.envs e (set_status env_runnable (k.envs e)))
        × (k'.curenv c ≡ some e))
      × ((status : ℕ)
          → status ≢ 2
          → status ≢ 4
          → sys_env_set_status cur envid status k ≡ some (err e_inval, k))
unfolding sys_env_set_status
sys_env_set_status-current cur envid e c k h on = (
  (
    record k { envs = update k.envs e (set_status env_runnable (k.envs e)) },
    rw (h, ◌>>=◌) refl,
    refl,
    on,
  ),
  λ status a b. rw (==_ne status 2 a, sys_env_set_status) (rw (==_ne status 4 b) refl),
)
