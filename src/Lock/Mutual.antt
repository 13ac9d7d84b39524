-- ===== src/Lock/Mutual.antt =====
-- At most one CPU is between the loop of spin_lock and the end of spin_unlock, and the tests of
-- DEBUG_SPINLOCK never fail.
use mit_jos_f22_advanced_os.Base.{
  ℕ, ◌≡◌, ◌≢◌, Bool, true, false, Option, none, some, update, ◌==◌, arith, sym, ap,
}
use mathlib.Core.Path.{subst}
use mit_jos_f22_advanced_os.Lock.Spin.{
  Phase, outside, spinning, recording, inside, clearing, opening, Lock, spin_initlock, holding,
  begin_lock, exchange, record_cpu, begin_unlock, clear_cpu, release, Step, locks, tries, records,
  unlocks, clears, releases, Reach, here, next, go,
}

-- The phases in which a CPU has the lock.
abbrev pub has_lock : Phase → Bool
has_lock outside = false
has_lock spinning = false
has_lock _ = true

-- The phases in which `lk->cpu` is the CPU's.
abbrev pub is_named : Phase → Bool
is_named inside = true
is_named clearing = true
is_named _ = false

pub record IsOwned (s : Lock) : Type 0 where
  pub taken : (c : ℕ) → has_lock (s.phase c) ≡ true → (s.locked == 0) ≡ false
  pub alone : (c d : ℕ) → has_lock (s.phase c) ≡ true → has_lock (s.phase d) ≡ true → c ≡ d
  pub named : (c : ℕ) → is_named (s.phase c) ≡ true → s.cpu ≡ some c
  pub only : (c : ℕ) → s.cpu ≡ some c → is_named (s.phase c) ≡ true

spin_initlock-IsOwned : (pcs : ℕ → ℕ) → IsOwned (spin_initlock pcs)
unfolding spin_initlock
spin_initlock-IsOwned pcs = ground arith

exchange-IsOwned : (c : ℕ) (s : Lock) → s.phase c ≡ spinning → IsOwned s → IsOwned (exchange c s)
unfolding exchange
exchange-IsOwned c s h v = record {
  taken = λ d p. ground arith;
  alone = λ d e p q. ground (arith, v.alone d e, v.taken d, v.taken e);
  named = λ d p. ground (arith, v.named d);
  only = λ d p. ground (arith, v.only d);
}

record_cpu-IsOwned :
    (c : ℕ) (pcs : ℕ → ℕ) (s : Lock)
    → s.phase c ≡ recording
    → IsOwned s
    → IsOwned (record_cpu c pcs s)
unfolding record_cpu
record_cpu-IsOwned c pcs s h v = record {
  taken = λ d p. ground (arith, v.taken d, v.taken c);
  alone = λ d e p q. ground (arith, v.alone d e, v.alone c d, v.alone c e);
  named = λ d p. ground (arith, v.named d, v.alone c d);
  only = λ d p. ground (arith, v.only d);
}

clear_cpu-IsOwned : (c : ℕ) (s : Lock) → s.phase c ≡ clearing → IsOwned s → IsOwned (clear_cpu c s)
unfolding clear_cpu
clear_cpu-IsOwned c s h v = record {
  taken = λ d p. ground (arith, v.taken d, v.taken c);
  alone = λ d e p q. ground (arith, v.alone d e, v.alone c d, v.alone c e);
  named = λ d p. ground (arith, v.named d, v.alone c d);
  only = λ d p. ground (arith, v.only d);
}

release-IsOwned : (c : ℕ) (s : Lock) → s.phase c ≡ opening → IsOwned s → IsOwned (release c s)
unfolding release
release-IsOwned c s h v = record {
  taken = λ d p. ground (arith, v.taken d, v.alone c d);
  alone = λ d e p q. ground (arith, v.alone d e, v.alone c d, v.alone c e);
  named = λ d p. ground (arith, v.named d, v.alone c d);
  only = λ d p. ground (arith, v.only d);
}

or_else : Lock → Option Lock → Lock
or_else s none = s
or_else s (some t) = t

holding-outside : (c : ℕ) (s : Lock) → s.phase c ≡ outside → IsOwned s → holding c s ≡ false
unfolding holding
holding-outside c s h v = ground (arith, v.only c)

holding-inside : (c : ℕ) (s : Lock) → s.phase c ≡ inside → IsOwned s → holding c s ≡ true
unfolding holding
holding-inside c s h v = ground (arith, v.named c, v.taken c)

begin_lock-IsOwned :
    (c : ℕ) (s t : Lock) → s.phase c ≡ outside → begin_lock c s ≡ some t → IsOwned s → IsOwned t
unfolding begin_lock or_else
begin_lock-IsOwned c s t h e v =
    let off = holding-outside c s h v in
    let same : some (go c spinning s) ≡ some t = rw off at e in
    subst IsOwned (ap (or_else s) same) (record {
      taken = λ d p. ground (arith, v.taken d);
      alone = λ d e p q. ground (arith, v.alone d e);
      named = λ d p. ground (arith, v.named d);
      only = λ d p. ground (arith, v.only d);
    })

begin_unlock-IsOwned :
    (c : ℕ) (s t : Lock) → s.phase c ≡ inside → begin_unlock c s ≡ some t → IsOwned s → IsOwned t
unfolding begin_unlock or_else
begin_unlock-IsOwned c s t h e v =
    let on = holding-inside c s h v in
    let same : some (go c clearing (record s { pcs = update s.pcs 0 0 })) ≡ some t = rw on at e in
    subst IsOwned (ap (or_else s) same) (record {
      taken = λ d p. ground (arith, v.taken d, v.taken c);
      alone = λ d e p q. ground (arith, v.alone d e, v.alone c d, v.alone c e);
      named = λ d p. ground (arith, v.named d, v.named c);
      only = λ d p. ground (arith, v.only d);
    })

Step-IsOwned : {s t : Lock} → Step s t → IsOwned s → IsOwned t
Step-IsOwned {s} {t} (locks c h e) v = begin_lock-IsOwned c s t h e v
Step-IsOwned {s} {t} (tries c h e) v = subst IsOwned (sym e) (exchange-IsOwned c s h v)
Step-IsOwned {s} {t} (records c pcs h e) v = subst IsOwned (sym e) (record_cpu-IsOwned c pcs s h v)
Step-IsOwned {s} {t} (unlocks c h e) v = begin_unlock-IsOwned c s t h e v
Step-IsOwned {s} {t} (clears c h e) v = subst IsOwned (sym e) (clear_cpu-IsOwned c s h v)
Step-IsOwned {s} {t} (releases c h e) v = subst IsOwned (sym e) (release-IsOwned c s h v)

Reach-IsOwned : (pcs : ℕ → ℕ) {t : Lock} → Reach (spin_initlock pcs) t → IsOwned t
Reach-IsOwned pcs here = spin_initlock-IsOwned pcs
Reach-IsOwned pcs (next r s) = Step-IsOwned s (Reach-IsOwned pcs r)

-- In every state that the CPUs reach from __spin_initlock, in any order of their steps, at most one
-- CPU has the lock; a CPU outside that calls spin_lock does not panic, and neither does one inside
-- that calls spin_unlock.
pub Reach-spin_lock :
    (pcs : ℕ → ℕ) (t : Lock)
    → Reach (spin_initlock pcs) t
    → ((c d : ℕ) → has_lock (t.phase c) ≡ true → has_lock (t.phase d) ≡ true → c ≡ d)
      × ((c : ℕ) → t.phase c ≡ outside → begin_lock c t ≢ none)
      × ((c : ℕ) → t.phase c ≡ inside → begin_unlock c t ≢ none)
unfolding begin_lock begin_unlock
Reach-spin_lock pcs t r =
    let v = Reach-IsOwned pcs r in
    (
      v.alone,
      λ c h e. ground (arith, holding-outside c t h v, e),
      λ c h e. ground (arith, holding-inside c t h v, e),
    )
