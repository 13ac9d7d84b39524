-- ===== src/Lock/Spin.antt =====
-- spin_lock and spin_unlock of kern/spinlock.c, compiled with DEBUG_SPINLOCK, as atomic steps of
-- several CPUs on one lock.
use mit_jos_f22_advanced_os.Base.{
  ℕ, ◌≡◌, Bool, false, ◌&&◌, not, Option, none, some, update, ◌==◌, if◌then◌else◌,
}

-- How far a CPU is: not in a function of the lock and without it; in the loop of spin_lock; behind
-- the loop; returned from spin_lock; in spin_unlock before `lk->cpu = 0`; before the last xchg.
pub data Phase : Type 0 where
  outside : Phase
  spinning : Phase
  recording : Phase
  inside : Phase
  clearing : Phase
  opening : Phase

-- `struct spinlock`, where a NULL `cpu` is none, and the phase of each CPU.
pub record Lock : Type 0 where
  pub locked : ℕ
  pub cpu : Option ℕ
  pub pcs : ℕ → ℕ
  pub phase : ℕ → Phase

-- __spin_initlock
unfoldable pub spin_initlock : (ℕ → ℕ) → Lock
spin_initlock pcs = record { locked = 0; cpu = none; pcs = pcs; phase = λ c. outside }

abbrev pub is_cpu : ℕ → Option ℕ → Bool
is_cpu c none = false
is_cpu c (some d) = c == d

unfoldable pub holding : ℕ → Lock → Bool
holding c s = not (s.locked == 0) && is_cpu c s.cpu

abbrev pub go : ℕ → Phase → Lock → Lock
go c p s = record s { phase = update s.phase c p }

-- The test at the start of spin_lock; `none` is its panic.
unfoldable pub begin_lock : ℕ → Lock → Option Lock
unfolding holding
begin_lock c s = if holding c s then none else some (go c spinning s)

-- One round of `while (xchg(&lk->locked, 1) != 0)`.
unfoldable pub exchange : ℕ → Lock → Lock
exchange c s =
    if s.locked == 0 then go c recording (record s { locked = 1 }) else record s { locked = 1 }

-- lk->cpu = thiscpu, and the call stack
unfoldable pub record_cpu : ℕ → (ℕ → ℕ) → Lock → Lock
record_cpu c pcs s = go c inside (record s { cpu = some c; pcs = pcs })

-- The test at the start of spin_unlock, whose failure ends in a panic, and `lk->pcs[0] = 0`.
unfoldable pub begin_unlock : ℕ → Lock → Option Lock
unfolding holding
begin_unlock c s =
    if not (holding c s) then none else some (go c clearing (record s { pcs = update s.pcs 0 0 }))

unfoldable pub clear_cpu : ℕ → Lock → Lock
clear_cpu c s = go c opening (record s { cpu = none })

-- xchg(&lk->locked, 0)
unfoldable pub release : ℕ → Lock → Lock
release c s = go c outside (record s { locked = 0 })

-- One step of some CPU. A CPU calls spin_lock only outside and spin_unlock only inside.
pub data Step (s t : Lock) : Type 0 where
  locks : (c : ℕ) → s.phase c ≡ outside → begin_lock c s ≡ some t → Step s t
  tries : (c : ℕ) → s.phase c ≡ spinning → t ≡ exchange c s → Step s t
  records : (c : ℕ) (pcs : ℕ → ℕ) → s.phase c ≡ recording → t ≡ record_cpu c pcs s → Step s t
  unlocks : (c : ℕ) → s.phase c ≡ inside → begin_unlock c s ≡ some t → Step s t
  clears : (c : ℕ) → s.phase c ≡ clearing → t ≡ clear_cpu c s → Step s t
  releases : (c : ℕ) → s.phase c ≡ opening → t ≡ release c s → Step s t

pub data Reach (s : Lock) : Lock → Type 0 where
  here : Reach s s
  next : {t u : Lock} → Reach s t → Step t u → Reach s u
