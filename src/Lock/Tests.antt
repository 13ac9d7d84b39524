-- ===== src/Lock/Tests.antt =====
-- The theorem about kern/spinlock.c at a lock that two CPUs want.
use mit_jos_f22_advanced_os.Base.{ℕ, ◌≡◌, refl, ◌≢◌, true, none, some, update}
use mit_jos_f22_advanced_os.Lock.Spin.{
  outside, spinning, recording, inside, Lock, spin_initlock, begin_lock, exchange, record_cpu,
  begin_unlock, locks, tries, records, Reach, here, next,
}
use mit_jos_f22_advanced_os.Lock.Mutual.{has_lock, Reach-spin_lock}

abbrev stack : ℕ → ℕ
stack _ = 0x8004000000

-- CPU 0 has the lock and CPU 1 waits in the loop.
abbrev waiting : Lock
waiting = record {
  locked = 1;
  cpu = some 0;
  pcs = stack;
  phase =
      update (update (update (update (λ _. outside) 0 spinning) 0 recording) 1 spinning) 0 inside;
}

waiting-Reach : Reach (spin_initlock stack) waiting
unfolding spin_initlock begin_lock exchange record_cpu
waiting-Reach =
    next
      (next (next (next (next here (locks 0 refl refl)) (tries 0 refl refl)) (locks 1 refl refl))
        (records 0 stack refl refl))
      (tries 1 refl refl)

Reach-spin_lock_example :
    ((c d : ℕ) → has_lock (waiting.phase c) ≡ true → has_lock (waiting.phase d) ≡ true → c ≡ d)
    × ((c : ℕ) → waiting.phase c ≡ outside → begin_lock c waiting ≢ none)
    × ((c : ℕ) → waiting.phase c ≡ inside → begin_unlock c waiting ≢ none)
Reach-spin_lock_example = Reach-spin_lock stack waiting waiting-Reach
