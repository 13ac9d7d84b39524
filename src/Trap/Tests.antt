-- ===== src/Trap/Tests.antt =====
-- The theorems about kern/trap.c run on a kernel whose environment 0 takes a timer interrupt, and on
-- one where it takes a page fault.
use mit_jos_f22_advanced_os.Base.{
  ℕ, ◌+◌, ◌-◌, ◌*◌, ◌^◌, ◌<◌, ◌≡◌, refl, ◌≢◌, Bool, true, false, ◌&&◌, some, List, [], ◌∷◌, ◌==◌,
  if◌then◌else◌, ltb, arith, All, bit_or,
}
use mit_jos_f22_advanced_os.Base.Ret.{◌>>=◌}
use mit_jos_f22_advanced_os.Pmap.Mem.{Machine, kaddr, pte_w, pte_u, pml4, pdpe, pdx, ptx}
use mit_jos_f22_advanced_os.Pmap.Mapping.{Maps}
use mit_jos_f22_advanced_os.Pmap.Walk.{grow, follow, pgdir_walk, ungrow, pdpe_walk, pml4e_walk}
use mit_jos_f22_advanced_os.Pmap.Check.{IsAllowed}
use mit_jos_f22_advanced_os.Pmap.Tests.{tiny, walk_word}
use mit_jos_f22_advanced_os.Env.State.{Kernel, Trapframe}
use mit_jos_f22_advanced_os.Env.Alloc.{user_frame}
use mit_jos_f22_advanced_os.Env.Sched.{Next, user}
use mit_jos_f22_advanced_os.Env.Exclusive.{IsExclusive}
use mit_jos_f22_advanced_os.Env.Tests.{family, family-IsExclusive}
use mit_jos_f22_advanced_os.Env.Sched.{sched_yield}
use mit_jos_f22_advanced_os.Trap.Push.{translate, writable, utrapframe}
use mit_jos_f22_advanced_os.Trap.Handler.{
  save_frame, trap, irq_timer, page_fault_handler, uxstacktop, utf_size,
}
use mit_jos_f22_advanced_os.Trap.Timer.{trap-timer}
use mit_jos_f22_advanced_os.Trap.Fault.{IsStack}
use mit_jos_f22_advanced_os.Trap.Upcall.{words_at, page_fault_handler-upcall}

abbrev tick : Trapframe
tick = record user_frame { tf_trapno = irq_timer; tf_rip = 0x800020 }

trap-timer_example :
    (next : Next) × (k' : Kernel) × (trap 0 0 0 tick family ≡ some (next, k'))
    × ((next, k') ≡ sched_yield 0 (save_frame 0 tick family))
    × ((k'.envs 0).env_tf ≡ tick)
    × ((j : ℕ) → j ≢ 0 → (k'.envs j).env_tf ≡ (family.envs j).env_tf)
    × IsExclusive (λ d. true) k'
trap-timer_example =
    trap-timer 0 0 0 0 tick family refl (omega arith) refl refl refl family-IsExclusive

-- Pages 8 to 11 hold the tables that map the exception stack to page 12.
abbrev stack_word : ℕ → ℕ → ℕ
stack_word p i =
    if (p == 8) && (i == 0)
    then 9 * 4096 + 7
    else if (p == 9) && (i == 3)
    then 10 * 4096 + 7
    else if (p == 10) && (i == 379)
    then 11 * 4096 + 7
    else if (p == 11) && (i == 511)
    then 12 * 4096 + 7
    else 0

abbrev faulting : Kernel
faulting = record family {
  mem = record tiny { word = stack_word };
  envs = λ i. record (family.envs i) { env_pgfault_upcall = 0x800200 };
}

abbrev fault : Trapframe
fault = record user_frame {
  tf_trapno = 14;
  tf_err = 6;
  tf_rip = 0x800020;
  tf_rsp = 0xef7fe000 - 64;
}

faulting-Maps : Maps faulting.mem 8 (uxstacktop - 4096) (11, 511)
unfolding pml4e_walk pdpe_walk pgdir_walk grow follow kaddr ungrow
faulting-Maps = walk_word (faulting.mem) (uxstacktop - 4096) (11, 511) base
  where
    base :
        (c : Bool) (n : Machine)
        → let n' : Machine = record n { npages = 16; word = stack_word } in
          pml4e_walk 8 (uxstacktop - 4096) c n' ≡ some (some (11, 511), n')
    base true n = refl
    base false n = refl

faulting-IsAllowed : IsAllowed faulting.mem 8 (bit_or pte_w pte_u) (uxstacktop - 4096)
faulting-IsAllowed = (omega arith, ((11, 511), faulting-Maps, refl, refl))

faulting_small : (i : ℕ) → faulting.mem.word 12 i < 2 ^ 64
faulting_small i = omega arith

faulting-IsStack : IsStack faulting.mem 8 (uxstacktop - utf_size) 12 utf_size
unfolding translate writable
faulting-IsStack j h q agree =
    let a : pml4 (uxstacktop - utf_size + j) ≡ 0 = omega (arith, h) in
    let b : pdpe (uxstacktop - utf_size + j) ≡ 3 = omega (arith, h) in
    let c : pdx (uxstacktop - utf_size + j) ≡ 379 = omega (arith, h) in
    let d : ptx (uxstacktop - utf_size + j) ≡ 511 = omega (arith, h) in
    rw (a, ◌>>=◌)
      (rw (agree 8 0 (λ e. omega (arith, e)), ◌>>=◌)
        (rw (b, ◌>>=◌)
          (rw (agree 9 3 (λ e. omega (arith, e)), ◌>>=◌)
            (rw (c, ◌>>=◌)
              (rw (agree 10 379 (λ e. omega (arith, e)), ◌>>=◌)
                (rw d (rw (agree 11 511 (λ e. omega (arith, e))) refl)))))))

abbrev all_small : List ℕ → Bool
all_small [] = true
all_small (w ∷ ws) = ltb w (2 ^ 64) && all_small ws

all_small_lem : (ws : List ℕ) → all_small ws ≡ true → All (λ w. w < 2 ^ 64) ws
all_small_lem [] e = tt
all_small_lem (w ∷ ws) e = (ground (arith, e), all_small_lem ws (ground (arith, e)))

page_fault_handler-upcall_example :
    (k' : Kernel) × (page_fault_handler 0 0 0xdeadbeef fault faulting ≡ some (some (user 0), k'))
    × (words_at k'.mem 12 492 20 ≡ utrapframe 0xdeadbeef fault)
    × ((b i : ℕ) → b ≢ 12 → k'.mem.word b i ≡ faulting.mem.word b i)
    × ((k'.envs 0).env_tf.tf_rip ≡ (faulting.envs 0).env_pgfault_upcall)
    × ((k'.envs 0).env_tf.tf_rsp ≡ uxstacktop - utf_size)
page_fault_handler-upcall_example =
    page_fault_handler-upcall 0 0 0xdeadbeef 12 fault faulting refl (omega arith)
      (λ e. omega (arith, e)) faulting-IsAllowed faulting-IsStack faulting_small
      (all_small_lem (utrapframe 0xdeadbeef fault) refl)
