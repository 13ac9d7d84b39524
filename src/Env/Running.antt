-- ===== src/Env/Running.antt =====
-- Who runs after sched_yield: round robin, and never one environment on two CPUs.
use mit_jos_f22_advanced_os.Base.{
  ℕ, zero, suc, ◌+◌, ◌-◌, ◌%◌, ◌<◌, ◌≡◌, refl, ◌≢◌, inl, inr, Bool, true, false, none, some, arith,
  update, ◌∙◌, sym, ap, Bool-cases, Option-cases,
}
use mit_jos_f22_advanced_os.Env.State.{Env, Kernel, nenv, is_runnable, is_running}
use mit_jos_f22_advanced_os.Env.Sched.{
  env_run, first_runnable, Next, user, asleep, monitor, any_live, sched_halt, start, still_running,
  sched_yield,
}

-- `e` is the runnable environment nearest to `i`, going round; it is `d` steps away.
pub record IsNearest (envs : ℕ → Env) (i d e : ℕ) : Type 0 where
  pub place : e ≡ (i + d) % nenv
  pub ready : is_runnable (envs e).env_status ≡ true
  pub first : (j : ℕ) → j < d → is_runnable (envs ((i + j) % nenv)).env_status ≡ false

abbrev ready_at : (ℕ → Env) → ℕ → Bool
ready_at envs i = is_runnable (envs (i % nenv)).env_status

shift :
    (envs : ℕ → Env) (i d : ℕ)
    → ready_at envs i ≡ false
    → ((j : ℕ) → j < d → ready_at envs (i + 1 + j) ≡ false)
    → (j : ℕ) → j < d + 1
    → ready_at envs (i + j) ≡ false
shift envs i d off h zero lt = let q : i + 0 ≡ i = omega arith in rw q off
shift envs i d off h (suc j) lt =
    let q : i + suc j ≡ i + 1 + j = omega arith in rw q (h j (omega arith))

pub first_runnable-some :
    (n i : ℕ) (envs : ℕ → Env) (e : ℕ)
    → first_runnable n i envs ≡ some e
    → (d : ℕ) × (d < n) × IsNearest envs i d e
unfolding first_runnable
first_runnable-some zero i envs e h = cc
first_runnable-some (suc n) i envs e h =
    elim (Bool-cases (is_runnable (envs (i % nenv)).env_status)) [
      | inl on ↦
          let q : i % nenv ≡ e = ground arith in
          (
            0,
            omega arith,
            record { place = omega arith; ready = rw q at on; first = λ j k. absurd (omega arith) },
          )
      | inr off ↦
          let (d, lt, near) = first_runnable-some n (i + 1) envs e (ground arith) in
          (
            d + 1,
            omega arith,
            record {
              place = omega (arith, near.place);
              ready = near.ready;
              first = shift envs i d off near.first;
            },
          )
    ]

first_runnable-none :
    (n i : ℕ) (envs : ℕ → Env)
    → first_runnable n i envs ≡ none
    → (j : ℕ) → j < n
    → is_runnable (envs ((i + j) % nenv)).env_status ≡ false
unfolding first_runnable
first_runnable-none zero i envs h j lt = absurd (omega arith)
first_runnable-none (suc n) i envs h j lt =
    shift envs i n (ground arith) (first_runnable-none n (i + 1) envs (ground arith)) j
      (omega arith)

-- Going round all the slots from any start meets every slot.
meets : (i e : ℕ) → e < nenv → (j : ℕ) × (j < nenv) × ((i + j) % nenv ≡ e)
meets i e lt = ((e + nenv - i % nenv) % nenv, omega arith, omega arith)

pub sched_yield-some :
    (c : ℕ) (k : Kernel) (e : ℕ)
    → first_runnable nenv (start c k) k.envs ≡ some e
    → sched_yield c k ≡ (user e, env_run c e k)
unfolding sched_yield
sched_yield-some c k e q = rw (q, sched_yield)

pub sched_yield-none :
    (c : ℕ) (k : Kernel)
    → first_runnable nenv (start c k) k.envs ≡ none
    → sched_yield c k
      ≡ elim (still_running c k) [ some p ↦ (user p, env_run c p k) | none ↦ sched_halt c k ]
unfolding sched_yield
sched_yield-none c k q = rw (q, sched_yield)

pub no_runnable :
    (c : ℕ) (k : Kernel)
    → first_runnable nenv (start c k) k.envs ≡ none
    → (e : ℕ) → e < nenv
    → is_runnable (k.envs e).env_status ≡ false
no_runnable c k q e lt =
    let (j, j_lt, hit) = meets (start c k) e lt in
    let off = first_runnable-none nenv (start c k) k.envs q j j_lt in rw hit at off

-- env_run leaves the environment current and running on its CPU.
env_run_lem :
    (c e : ℕ) (k : Kernel)
    → ((env_run c e k).curenv c ≡ some e)
      × (is_running ((env_run c e k).envs e).env_status ≡ true)
      × ((c' : ℕ) → c' ≢ c → (env_run c e k).curenv c' ≡ k.curenv c')
unfolding env_run
env_run_lem c e k = (ground arith, ground arith, λ c' h. ground arith)

-- Where some environment is runnable, sched_yield on CPU `c` runs the runnable one that is nearest
-- to the slot where it starts to look, that of the CPU's current environment itself or slot 0,
-- going round: it becomes the current one, with status
-- ENV_RUNNING, and no other CPU's current environment changes.
pub sched_yield-runnable :
    (c : ℕ) (k : Kernel) (e : ℕ)
    → e < nenv
    → is_runnable (k.envs e).env_status ≡ true
    → (d : ℕ) × (e' : ℕ) × (d < nenv)
      × IsNearest k.envs (start c k) d e'
      × (let (next, k') = sched_yield c k in
          (next ≡ user e')
          × (k'.curenv c ≡ some e')
          × (is_running (k'.envs e').env_status ≡ true)
          × ((c' : ℕ) → c' ≢ c → k'.curenv c' ≡ k.curenv c'))
sched_yield-runnable c k e lt on = elim (Option-cases (first_runnable nenv (start c k) k.envs)) [
  | inl q ↦ let off = no_runnable c k q e lt in absurd (cc)
  | inr (e', q) ↦
      let (d, d_lt, near) = first_runnable-some nenv (start c k) k.envs e' q in
      let (r, s, t) = env_run_lem c e' k in
      (d, e', d_lt, near, rw (sched_yield-some c k e' q) (refl, r, s, t))
]

pub still_running-none :
    (c p : ℕ) (k : Kernel)
    → still_running c k ≡ none
    → k.curenv c ≡ some p
    → is_running (k.envs p).env_status ≡ false
still_running-none c p k h q = ground arith

sched_halt-asleep :
    (c : ℕ) (k k' : Kernel)
    → sched_halt c k ≡ (asleep, k')
    → (k'.curenv c ≡ none) × (k'.envs ≡ k.envs)
unfolding sched_halt
sched_halt-asleep c k k' h = elim (Bool-cases (any_live nenv k.envs)) [
  | inl live ↦
      let e : record k { curenv = update k.curenv c none } ≡ k' =
        ap (λ (r : Next × Kernel). r.1) (sym (halted live) ∙ h) in
      rw (← e) (ground arith, refl)
  | inr dead ↦
      let clash : monitor ≡ asleep = ap (λ (r : Next × Kernel). r.0) (sym (stuck dead) ∙ h) in cc
]
  where
    halted :
        any_live nenv k.envs ≡ true
        → sched_halt c k ≡ (asleep, record k { curenv = update k.curenv c none })
    halted e = rw e

    stuck : any_live nenv k.envs ≡ false → sched_halt c k ≡ (monitor, k)
    stuck e = rw e

-- sched_yield puts the CPU to sleep only if no environment is runnable and the current one, if
-- there is one, is not running; the CPU then has no current environment.
pub sched_yield-asleep :
    (c : ℕ) (k k' : Kernel)
    → sched_yield c k ≡ (asleep, k')
    → ((e : ℕ) → e < nenv → is_runnable (k.envs e).env_status ≡ false)
      × ((p : ℕ) → k.curenv c ≡ some p → is_running (k.envs p).env_status ≡ false)
      × (k'.curenv c ≡ none)
      × (k'.envs ≡ k.envs)
sched_yield-asleep c k k' h = elim (Option-cases (first_runnable nenv (start c k) k.envs)) [
  | inl q ↦ elim (Option-cases (still_running c k)) [
    | inl stop ↦
        let e : sched_yield c k ≡ sched_halt c k = sched_yield-none c k q ∙ rw stop in
        let (gone, same) = sched_halt-asleep c k k' (sym e ∙ h) in
        (no_runnable c k q, (λ p r. still_running-none c p k stop r), gone, same)
    | inr (p, run) ↦
        let e : sched_yield c k ≡ (user p, env_run c p k) = sched_yield-none c k q ∙ rw run in
        let clash : user p ≡ asleep = ap (λ (r : Next × Kernel). r.0) (sym e ∙ h) in cc
  ]
  | inr (e, q) ↦
      let clash : user e ≡ asleep =
        ap (λ (r : Next × Kernel). r.0) (sym (sched_yield-some c k e q) ∙ h) in
      cc
]
