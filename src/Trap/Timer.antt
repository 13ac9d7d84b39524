-- ===== src/Trap/Timer.antt =====
-- A timer interrupt: the environment's registers are kept, and the scheduler runs.
use mit_jos_f22_advanced_os.Base.{
  ℕ, ◌<◌, ◌≡◌, refl, ◌∙◌, ◌≢◌, inl, inr, Bool, true, false, not, some, ◌==◌, arith, Option-cases,
}
use mit_jos_f22_advanced_os.Env.State.{Kernel, Trapframe, is_dying, nenv}
use mit_jos_f22_advanced_os.Env.Sched.{
  Next, env_run, sched_yield, sched_halt, first_runnable, start, still_running,
}
use mit_jos_f22_advanced_os.Env.Running.{sched_yield-some, sched_yield-none}
use mit_jos_f22_advanced_os.Env.Exclusive.{IsExclusive, sched_yield-IsExclusive}
use mit_jos_f22_advanced_os.Trap.Handler.{trap, trap_dispatch, is_user, irq_timer, save_frame}

pub env_run-env_tf : (c e j : ℕ) (k : Kernel) → ((env_run c e k).envs j).env_tf ≡ (k.envs j).env_tf
unfolding env_run
env_run-env_tf c e j k = ground arith

sched_halt-env_tf : (c j : ℕ) (k : Kernel) → ((sched_halt c k).1.envs j).env_tf ≡ (k.envs j).env_tf
unfolding sched_halt
sched_halt-env_tf c j k = ground arith

-- The scheduler changes no saved frame.
pub sched_yield-env_tf :
    (c j : ℕ) (k : Kernel) → ((sched_yield c k).1.envs j).env_tf ≡ (k.envs j).env_tf
sched_yield-env_tf c j k = elim (Option-cases (first_runnable nenv (start c k) k.envs)) [
  | inl e ↦ elim (Option-cases (still_running c k)) [
    | inl q ↦ rw (sched_yield-none c k e) (rw q (sched_halt-env_tf c j k))
    | inr (p, q) ↦ rw (sched_yield-none c k e) (rw q (env_run-env_tf c p j k))
  ]
  | inr (p, e) ↦ rw (sched_yield-some c k p e) (env_run-env_tf c p j k)
]

save_frame-IsExclusive :
    (others : ℕ → Bool) (e : ℕ) (tf : Trapframe) (k : Kernel)
    → IsExclusive others k
    → IsExclusive others (save_frame e tf k)
save_frame-IsExclusive others e tf k x = record {
  alone = x.alone;
  taken = λ d j t p. ground (arith, x.taken d j);
}

-- A timer interrupt in user mode, while CPU `c` runs environment `e`: the CPU goes where
-- sched_yield sends it, called once the interrupted registers are saved. The registers of `e` are the interrupted ones, no other environment's change,
-- and no environment is current on two CPUs or current and runnable, if none was on the others.
pub trap-timer :
    (c e fault_va input : ℕ) (tf : Trapframe) (k : Kernel)
    → k.curenv c ≡ some e
    → e < nenv
    → is_user tf ≡ true
    → tf.tf_trapno ≡ irq_timer
    → is_dying (k.envs e).env_status ≡ false
    → IsExclusive (λ d. not (d == c)) k
    → (next : Next) × (k' : Kernel) × (trap c fault_va input tf k ≡ some (next, k'))
      × ((next, k') ≡ sched_yield c (save_frame e tf k))
      × ((k'.envs e).env_tf ≡ tf)
      × ((j : ℕ) → j ≢ e → (k'.envs j).env_tf ≡ (k.envs j).env_tf)
      × IsExclusive (λ d. true) k'
unfolding trap trap_dispatch
trap-timer c e fault_va input tf k cur lt mode timer alive x =
    let k₁ = save_frame e tf k in
    let (next, k') = sched_yield c k₁ in
    (
      next,
      k',
      rw mode (rw (cur, trap) (rw alive (rw timer refl))),
      refl,
      sched_yield-env_tf c e k₁ ∙ ground arith,
      (λ j h. sched_yield-env_tf c j k₁ ∙ ground (arith, h)),
      sched_yield-IsExclusive c k₁ (λ j p. ground (arith, p, cur, lt))
          (save_frame-IsExclusive (λ d. not (d == c)) e tf k x),
    )
