-- ===== src/Trap/Upcall.antt =====
-- What page_fault_handler leaves on the exception stack, when the environment has an upcall.
use mit_jos_f22_advanced_os.Base.{
  ℕ, zero, suc, ◌+◌, ◌-◌, ◌*◌, ◌^◌, ◌<◌, ◌≡◌, refl, ap, ◌∙◌, ◌≢◌, true, List, [], ◌∷◌, none, some,
  arith, update, length, All, ==_ne, bit_or,
}
use mathlib.Core.Path.{subst}
use mit_jos_f22_advanced_os.Base.Ret.{◌>>=◌}
use mit_jos_f22_advanced_os.Trap.Timer.{env_run-env_tf}
use mit_jos_f22_advanced_os.Pmap.Mem.{Machine, pte_w, pte_u}
use mit_jos_f22_advanced_os.Pmap.Check.{IsAllowed, user_mem_check-IsAllowed}
use mit_jos_f22_advanced_os.Env.State.{Kernel, Trapframe}
use mit_jos_f22_advanced_os.Env.Sched.{user, env_run}
use mit_jos_f22_advanced_os.Syscall.Dispatch.{user_mem_assert}
use mit_jos_f22_advanced_os.Trap.Push.{store_words, utrapframe}
use mit_jos_f22_advanced_os.Trap.Handler.{
  page_fault_handler, enter_upcall, is_user, uxstacktop, utf_size, utf_address,
}
use mit_jos_f22_advanced_os.Trap.Fault.{IsStack, fill, put, store_words-fill}

-- The `n` words from word `s` of page `p` on.
unfoldable pub words_at : Machine → ℕ → ℕ → ℕ → List ℕ
words_at m p s zero = []
words_at m p s (suc n) = m.word p s ∷ words_at m p (suc s) n

fill_before :
    (ws : List ℕ) (p s t : ℕ) (m : Machine) → t < s → (fill ws p s m).word p t ≡ m.word p t
unfolding fill
fill_before [] p s t m h = refl
fill_before (w ∷ ws) p s t m h =
    fill_before ws p (suc s) t (put p s w m) (omega (arith, h)) ∙ ground (arith, h)

fill_other :
    (ws : List ℕ) (p s b i : ℕ) (m : Machine) → b ≢ p → (fill ws p s m).word b i ≡ m.word b i
unfolding fill
fill_other [] p s b i m h = refl
fill_other (w ∷ ws) p s b i m h = fill_other ws p (suc s) b i (put p s w m) h ∙ ground (arith, h)

words_at-fill :
    (ws : List ℕ) (p s : ℕ) (m : Machine) → words_at (fill ws p s m) p s (length ws) ≡ ws
unfolding words_at fill
words_at-fill [] p s m = refl
words_at-fill (w ∷ ws) p s m =
    let head : (fill ws p (suc s) (put p s w m)).word p s ≡ w =
      fill_before ws p (suc s) s (put p s w m) (omega arith) ∙ ground arith in
    rw (head, words_at-fill ws p (suc s) (put p s w m)) refl

normal_address : (rsp : ℕ) → rsp < uxstacktop - 4096 → utf_address rsp ≡ uxstacktop - utf_size
normal_address rsp h = ground (arith, h)

user_mem_assert-some :
    (c e : ℕ) (k : Kernel)
    → IsAllowed k.mem (k.envs e).env_pml4e (bit_or pte_w pte_u) (uxstacktop - 4096)
    → user_mem_assert c e (uxstacktop - utf_size) 1 pte_w k ≡ some (none, k)
unfolding user_mem_assert
user_mem_assert-some c e k h =
    rw
      (
        user_mem_check-IsAllowed (k.envs e).env_pml4e (uxstacktop - utf_size) 1 (bit_or pte_w pte_u)
            k.mem
            (λ i lt.
              let z : 0 ≡ i = omega (arith, lt) in
              subst
                (λ j.
                  IsAllowed k.mem (k.envs e).env_pml4e (bit_or pte_w pte_u)
                    (uxstacktop - 4096 + j * 4096))
                z h),
        ◌>>=◌,
      )
      refl

env_run-mem : (c e : ℕ) (k : Kernel) → (env_run c e k).mem ≡ k.mem
unfolding env_run
env_run-mem c e k = refl

enter_upcall_lem :
    (c e fault_va : ℕ) (tf : Trapframe) (k : Kernel) (m : Machine)
    → store_words (utrapframe fault_va tf) (k.envs e).env_pml4e (utf_address tf.tf_rsp) k.mem
      ≡ some (tt, m)
    → (k' : Kernel) × (enter_upcall c e fault_va tf k ≡ some (some (user e), k'))
      × (k'.mem ≡ m)
      × ((k'.envs e).env_tf.tf_rip ≡ (k.envs e).env_pgfault_upcall)
      × ((k'.envs e).env_tf.tf_rsp ≡ utf_address tf.tf_rsp)
unfolding enter_upcall
enter_upcall_lem c e fault_va tf k m h =
    let v = k.envs e in
    let tf' = record (v.env_tf) { tf_rip = v.env_pgfault_upcall; tf_rsp = utf_address tf.tf_rsp } in
    let k₁ = record k { mem = m; envs = update k.envs e (record v { env_tf = tf' }) } in
    let frame : (k₁.envs e).env_tf ≡ tf' = ground arith in
    let kept : ((env_run c e k₁).envs e).env_tf ≡ tf' = env_run-env_tf c e e k₁ ∙ frame in
    (
      env_run c e k₁,
      rw (h, ◌>>=◌) refl,
      env_run-mem c e k₁,
      ap (λ t. t.tf_rip) kept,
      ap (λ t. t.tf_rsp) kept,
    )

-- A page fault in user mode while `e` runs on its normal stack, with an upcall and its exception
-- stack mapped for it to write: the frame `struct UTrapframe` lies at the top of the exception
-- stack, no other page changes, and the environment continues in the upcall with its stack pointer at that frame.
pub page_fault_handler-upcall :
    (c e fault_va p : ℕ) (tf : Trapframe) (k : Kernel)
    → is_user tf ≡ true
    → tf.tf_rsp < uxstacktop - 4096
    → (k.envs e).env_pgfault_upcall ≢ 0
    → IsAllowed k.mem (k.envs e).env_pml4e (bit_or pte_w pte_u) (uxstacktop - 4096)
    → IsStack k.mem (k.envs e).env_pml4e (uxstacktop - utf_size) p utf_size
    → ((i : ℕ) → k.mem.word p i < 2 ^ 64)
    → All (λ w. w < 2 ^ 64) (utrapframe fault_va tf)
    → (k' : Kernel) × (page_fault_handler c e fault_va tf k ≡ some (some (user e), k'))
      × (words_at k'.mem p 492 20 ≡ utrapframe fault_va tf)
      × ((b i : ℕ) → b ≢ p → k'.mem.word b i ≡ k.mem.word b i)
      × ((k'.envs e).env_tf.tf_rip ≡ (k.envs e).env_pgfault_upcall)
      × ((k'.envs e).env_tf.tf_rsp ≡ uxstacktop - utf_size)
unfolding page_fault_handler
page_fault_handler-upcall c e fault_va p tf k mode below upcall allowed stack words small =
    let ws = utrapframe fault_va tf in
    let m = fill ws p 492 k.mem in
    let at : utf_address tf.tf_rsp ≡ uxstacktop - utf_size = normal_address tf.tf_rsp below in
    let good : user_mem_assert c e (utf_address tf.tf_rsp) 1 pte_w k ≡ some (none, k) =
      rw at (user_mem_assert-some c e k allowed) in
    let stored : store_words ws (k.envs e).env_pml4e (uxstacktop - utf_size) k.mem ≡ some (tt, m) =
      store_words-fill ws (k.envs e).env_pml4e (uxstacktop - utf_size) p k.mem refl (omega arith)
        stack words small in
    let (k', run, mem, rip, rsp) = enter_upcall_lem c e fault_va tf k m (rw at stored) in
    (
      k',
      rw mode (rw (==_ne _ _ upcall) (rw (good, ◌>>=◌) run)),
      rw mem (words_at-fill ws p 492 k.mem),
      (λ b i ne. rw mem (fill_other ws p 492 b i k.mem ne)),
      rip,
      rsp ∙ at,
    )
