-- ===== src/Pmap/Check.antt =====
-- user_mem_check of kern/pmap.c.
use mit_jos_f22_advanced_os.Base.{
  ℕ, zero, suc, ◌+◌, ◌-◌, ◌*◌, ◌/◌, ◌%◌, ◌^◌, ◌<◌, ◌≡◌, refl, Bool, true, false, ◌||◌, not, Option,
  none, some, bit_and, ltb, leb, ◌==◌, if◌then◌else◌, arith, lt→leb,
}
use mathlib.Core.Path.{subst}
use mit_jos_f22_advanced_os.Base.Ret.{M, pure, ◌>>=◌}
use mit_jos_f22_advanced_os.Pmap.Mem.{Machine, Slot, load, present, rounddown, roundup, pgsize}
use mit_jos_f22_advanced_os.Pmap.Walk.{pml4e_walk}
use mit_jos_f22_advanced_os.Pmap.Mapping.{Maps, entry}

abbrev pub ulim : ℕ
ulim = 0x8003c00000

-- What makes a page bad, from the result of pml4e_walk.
unfoldable pub refuses : ℕ → ℕ → Option Slot → M Machine Bool
refuses start perm none = pure true
refuses start perm (some slot) = do
  pte ← load slot
  pure (leb ulim start || not (bit_and pte perm == perm) || not (present pte))

-- `n` rounds of the loop from `start` on: NULL for success, or the first bad page.
unfoldable pub check_from : ℕ → ℕ → ℕ → ℕ → M Machine (Option ℕ)
check_from zero start perm table = pure none
check_from (suc n) start perm table = do
  slot ← pml4e_walk table start false
  bad ← refuses start perm slot
  if bad then pure (some start) else check_from n (start + pgsize) perm table

-- `none` for 0; for -E_FAULT the value of user_mem_check_addr.
unfoldable pub user_mem_check : ℕ → ℕ → ℕ → ℕ → M Machine (Option ℕ)
user_mem_check table va len perm =
    let end = roundup ((va + len) % 2 ^ 64) pgsize in
    let start = rounddown va pgsize in
    do
      bad ← check_from ((end - start) / pgsize) start perm table
      elim bad [ none ↦ pure none | some page ↦ pure (some (if ltb page va then va else page)) ]

-- The page at `start` lies below ULIM and is mapped with all of `perm`.
abbrev pub IsAllowed : Machine → ℕ → ℕ → ℕ → Type 0
IsAllowed m table perm start =
    (start < ulim)
    × ((s : Slot) × Maps m table start s
        × (bit_and (entry m s) perm ≡ perm)
        × (present (entry m s) ≡ true))

check_from-IsAllowed :
    (n start perm table : ℕ) (m : Machine)
    → ((i : ℕ) → i < n → IsAllowed m table perm (start + i * 4096))
    → check_from n start perm table m ≡ some (none, m)
unfolding check_from refuses
check_from-IsAllowed zero start perm table m h = refl
check_from-IsAllowed (suc n) start perm table m h =
    let zeroth : start + 0 * 4096 ≡ start = omega arith in
    let (lt, ((p, i), maps, perms, on)) =
      subst (IsAllowed m table perm) zeroth (h 0 (omega arith)) in
    let good : (leb ulim start
          || not (bit_and (m.word p i) perm == perm)
          || not (present (m.word p i)))
        ≡ false =
      rw (lt→leb ulim start lt) (rw perms (rw on (ground arith))) in
    let rest = check_from-IsAllowed n (start + pgsize) perm table m (λ j less.
      let e : start + suc j * 4096 ≡ start + 4096 + j * 4096 = omega arith in
      subst (IsAllowed m table perm) e (h (suc j) (omega (arith, less)))) in
    rw (maps false m refl refl, ◌>>=◌) (rw good rest)

-- The bytes from `va` to `va + len` lie in the pages of this number.
abbrev pub pages_of : ℕ → ℕ → ℕ
pages_of va len = (roundup ((va + len) % 2 ^ 64) pgsize - rounddown va pgsize) / pgsize

-- user_mem_check accepts a range, and changes nothing, if every page of it lies below ULIM and is
-- mapped with all the permissions asked for.
pub user_mem_check-IsAllowed :
    (table va len perm : ℕ) (m : Machine)
    → ((i : ℕ) → i < pages_of va len → IsAllowed m table perm (rounddown va pgsize + i * 4096))
    → user_mem_check table va len perm m ≡ some (none, m)
unfolding user_mem_check
user_mem_check-IsAllowed table va len perm m h =
    rw (check_from-IsAllowed (pages_of va len) (rounddown va pgsize) perm table m h, ◌>>=◌) refl
