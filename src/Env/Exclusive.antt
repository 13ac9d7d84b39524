-- ===== src/Env/Exclusive.antt =====
-- No environment is current on two CPUs: what env_run and sched_yield keep.
use mit_jos_f22_advanced_os.Base.{
  ℕ, ◌<◌, ◌≡◌, refl, ◌≢◌, inl, inr, Bool, true, false, not, Option, none, some, arith, ◌==◌,
  Bool-cases, Option-cases,
}
use mit_jos_f22_advanced_os.Env.State.{Env, Kernel, nenv, is_runnable}
use mit_jos_f22_advanced_os.Env.Sched.{
  preempt, env_run, first_runnable, any_live, sched_halt, start, still_running, sched_yield,
}
use mit_jos_f22_advanced_os.Env.Running.{
  first_runnable-some, sched_yield-some, sched_yield-none, no_runnable,
}

-- No environment is current on two CPUs, and none that is current on a CPU of `others` is runnable.
pub record IsExclusive (others : ℕ → Bool) (k : Kernel) : Type 0 where
  pub alone : (c d e : ℕ) → k.curenv c ≡ some e → k.curenv d ≡ some e → c ≡ d
  pub taken :
      (d e : ℕ) → others d ≡ true → k.curenv d ≡ some e → is_runnable (k.envs e).env_status ≡ false

preempt_other : (o : Option ℕ) (envs : ℕ → Env) (f : ℕ) → o ≢ some f → preempt o envs f ≡ envs f
preempt_other none envs f h = refl
preempt_other (some p) envs f h = ground arith

-- env_run of an environment that no other CPU runs.
env_run-IsExclusive :
    (c e : ℕ) (k : Kernel)
    → IsExclusive (λ d. not (d == c)) k
    → ((d : ℕ) → d ≢ c → k.curenv d ≢ some e)
    → IsExclusive (λ d. true) (env_run c e k)
unfolding env_run
env_run-IsExclusive c e k x free = record {
  alone = λ a b f p q. ground (arith, x.alone a b f, free a, free b);
  taken = λ d f t p.
      ground (arith, preempt_other (k.curenv c) k.envs f, x.taken d f, free d, x.alone c d f);
}

sched_halt-IsExclusive :
    (c : ℕ) (k : Kernel) → IsExclusive (λ d. true) k → IsExclusive (λ d. true) (sched_halt c k).1
unfolding sched_halt
sched_halt-IsExclusive c k x = elim (Bool-cases (any_live nenv k.envs)) [
  | inl live ↦ rw live (record {
    alone = λ a b f p q. ground (arith, x.alone a b f);
    taken = λ d f t p. ground (arith, x.taken d f);
  })
  | inr dead ↦ rw dead x
]

-- sched_yield on CPU `c`: where no other CPU's current environment is runnable and none is current
-- on two CPUs, this still holds after it, and the environment that `c` now runs is not runnable
-- either, so no other CPU will choose it.
pub sched_yield-IsExclusive :
    (c : ℕ) (k : Kernel)
    → ((e : ℕ) → k.curenv c ≡ some e → e < nenv)
    → IsExclusive (λ d. not (d == c)) k
    → IsExclusive (λ d. true) (sched_yield c k).1
sched_yield-IsExclusive c k valid x = elim (Option-cases (first_runnable nenv (start c k) k.envs)) [
  | inr (e, q) ↦
      let (d, lt, near) = first_runnable-some nenv (start c k) k.envs e q in
      rw (sched_yield-some c k e q)
        (env_run-IsExclusive c e k x (λ b h p. ground (arith, x.taken b e, near.ready)))
  | inl q ↦ rw (sched_yield-none c k q) (elim (Option-cases (still_running c k)) [
    | inr (p, r) ↦
        let own : k.curenv c ≡ some p = ground arith in
        rw r (env_run-IsExclusive c p k x (λ b h t. h (x.alone b c p t own)))
    | inl stop ↦ rw stop (
        sched_halt-IsExclusive c k (record {
          alone = x.alone;
          taken = λ d e t p. elim (Bool-cases (d == c)) [
            | inl here ↦
                let d' : d ≡ c = ground arith in
                let p' : k.curenv c ≡ some e = rw d' at p in no_runnable c k q e (valid e p')
            | inr other ↦ x.taken d e (rw other) p
          ];
        }))
  ])
]
