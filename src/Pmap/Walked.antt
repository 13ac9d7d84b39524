-- ===== src/Pmap/Walked.antt =====
-- pgdir_walk, pdpe_walk and pml4e_walk of kern/pmap.c with `create` set: which entries they
-- change, what a failed allocation undoes, and that the entry found is there for the next walk.
use mit_jos_f22_advanced_os.Base.{
  ℕ, zero, suc, ◌<◌, ◌≡◌, refl, Bool, true, false, Option, some, List, ◌∷◌, arith, contains, ap,
  fun_ext,
}
use mit_jos_f22_advanced_os.Base.Ret.{M, pure}
use mit_jos_f22_advanced_os.Pmap.Mem.{Machine, Slot, present, pml4, pdpe, pdx, ptx}
use mit_jos_f22_advanced_os.Pmap.FreeList.{IsFreeList}
use mit_jos_f22_advanced_os.Pmap.Walk.{pgdir_walk, pdpe_walk, pml4e_walk, ungrow}
use mit_jos_f22_advanced_os.Pmap.Table.{target, extended, extended-IsFreeList, extended-fresh}
use mit_jos_f22_advanced_os.Pmap.Level.{Finds, level, level-Finds, IsWalked-refl}

-- The tables on the way of `va`, from table `t` with `k` levels below it, lie below npages and are
-- not free; an entry that is not present ends the way.
abbrev pub index : ℕ → ℕ → ℕ
index zero va = pdx va
index (suc zero) va = pdpe va
index (suc (suc k)) va = pml4 va

abbrev pub IsRoute : Machine → List ℕ → ℕ → ℕ → ℕ → Type 0
IsRoute m xs va zero t = (t < m.npages) × (contains t xs ≡ false)
IsRoute m xs va (suc k) t =
    (t < m.npages)
    × (contains t xs ≡ false)
    × (present (m.word t (index k va)) ≡ true → IsRoute m xs va k (target m (t, index k va)))

-- pgdir_walk is a level above a walk that only takes the entry's place.
last : ℕ → Bool → ℕ → M Machine (Option Slot)
last va create pt = pure (some (pt, ptx va))

pgdir_walk-level :
    (t va : ℕ) (create : Bool) (m : Machine)
    → pgdir_walk t va create m ≡ level (last va) (t, pdx va) create m
unfolding pgdir_walk last ungrow
pgdir_walk-level t va create m = ground arith

extended-IsRoute :
    (m : Machine) (t i x k va : ℕ) (ys : List ℕ)
    → IsFreeList m (x ∷ ys)
    → contains t (x ∷ ys) ≡ false
    → IsRoute (extended (t, i) x m) ys va k x
extended-IsRoute m t i x zero va ys v out = (v.chain.1, v.chain.3)
extended-IsRoute m t i x (suc k) va ys v out = (
  v.chain.1,
  v.chain.3,
  λ on.
      let off : present ((extended (t, i) x m).word x (index k va)) ≡ false =
        ap present (extended-fresh m t i x (index k va) (ground arith)) in
      absurd (cc),
)

last-Finds :
    (m : Machine) (xs : List ℕ) (va pt : ℕ)
    → IsFreeList m xs
    → contains pt xs ≡ false
    → Finds (λ c. last va c pt) m xs
unfolding last
last-Finds m xs va pt v out = (
  some (pt, ptx va),
  m,
  refl,
  IsWalked-refl m xs _ v (λ s h. ground arith),
  λ s h c n w k. ground arith,
)

-- A table just entered is a way with nothing below it.
entered :
    (m : Machine) (t i x k va : ℕ) (xs ys : List ℕ)
    → IsFreeList m xs
    → contains t xs ≡ false
    → xs ≡ x ∷ ys
    → IsFreeList (extended (t, i) x m) ys × IsRoute (extended (t, i) x m) ys va k x
entered m t i x k va xs ys v out e =
    let v' : IsFreeList m (x ∷ ys) = rw e at v in
    let out' : contains t (x ∷ ys) ≡ false = rw e at out in
    (extended-IsFreeList m t i x ys v', extended-IsRoute m t i x k va ys v' out')

pgdir_walk-Finds :
    (m : Machine) (xs : List ℕ) (va t : ℕ)
    → IsFreeList m xs
    → IsRoute m xs va 1 t
    → Finds (pgdir_walk t va) m xs
pgdir_walk-Finds m xs va t v r =
    let step : pgdir_walk t va ≡ level (last va) (t, pdx va) =
      fun_ext (λ c. fun_ext (λ m₁. pgdir_walk-level t va c m₁)) in
    rw step (
      level-Finds (last va) m t (pdx va) xs v r.1
        (λ on. ((r.2 on).0, last-Finds m xs va (target m (t, pdx va)) v (r.2 on).1))
        (λ x ys e.
          let (w, q) = entered m t (pdx va) x 0 va xs ys v r.1 e in
          last-Finds (extended (t, pdx va) x m) ys va x w q.1))

pdpe_walk-Finds :
    (m : Machine) (xs : List ℕ) (va t : ℕ)
    → IsFreeList m xs
    → IsRoute m xs va 2 t
    → Finds (pdpe_walk t va) m xs
unfolding pdpe_walk
pdpe_walk-Finds m xs va t v r =
    level-Finds (λ c pde. pgdir_walk pde va c) m t (pdpe va) xs v r.1
      (λ on. ((r.2 on).0, pgdir_walk-Finds m xs va (target m (t, pdpe va)) v (r.2 on)))
      (λ x ys e.
        let (w, q) = entered m t (pdpe va) x 1 va xs ys v r.1 e in
        pgdir_walk-Finds (extended (t, pdpe va) x m) ys va x w q)

-- pml4e_walk with `create` set, where the tables on the way of `va` are in memory and not free,
-- does not panic. It changes no entry that is present and no page's `struct PageInfo` but those of
-- pages that were free, and the free list stays one. If it returns NULL, the free list is the one
-- it started with. If it returns an entry, a walk from then on, with `create` or without, finds
-- that entry and changes nothing, as long as the words of memory stay.
pub pml4e_walk-Finds :
    (m : Machine) (xs : List ℕ) (va t : ℕ)
    → IsFreeList m xs
    → IsRoute m xs va 3 t
    → Finds (pml4e_walk t va) m xs
unfolding pml4e_walk
pml4e_walk-Finds m xs va t v r =
    level-Finds (λ c pdp. pdpe_walk pdp va c) m t (pml4 va) xs v r.1
      (λ on. ((r.2 on).0, pdpe_walk-Finds m xs va (target m (t, pml4 va)) v (r.2 on)))
      (λ x ys e.
        let (w, q) = entered m t (pml4 va) x 2 va xs ys v r.1 e in
        pdpe_walk-Finds (extended (t, pml4 va) x m) ys va x w q)
