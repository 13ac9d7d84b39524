-- ===== src/Pmap/Pool.antt =====
-- What page_alloc and page_free of kern/pmap.c promise a client that gives back only pages it holds.
use mit_jos_f22_advanced_os.Base.{
  ℕ, ◌<◌, ◌≡◌, refl, Bool, true, false, Option, none, some, List, [], ◌∷◌, arith, contains, update,
  if◌then◌else◌, Bool-cases, inl, inr,
}
use mathlib.Core.Path.{subst}
use mit_jos_f22_advanced_os.Base.Ret.{M, pure, ◌>>=◌, ◌>>◌}
use mit_jos_f22_advanced_os.Pmap.Mem.{Machine}
use mit_jos_f22_advanced_os.Pmap.Alloc.{page_alloc, page_free}
use mit_jos_f22_advanced_os.Pmap.FreeList.{
  IsFreeList, alloced, alloced-IsFreeList, page_alloc-cons, page_alloc-nil, freed, freed-IsFreeList,
  page_free-eq,
}

-- A client's calls: page_alloc, with or without ALLOC_ZERO, and page_free.
pub data Call : Type 0 where
  take : Bool → Call
  give : ℕ → Call

-- The specification: a stack of free pages, and the pages that the client holds.
pub record Pool : Type 0 where
  pub free : List ℕ
  pub held : ℕ → Bool

-- A call's result, `none` for NULL and for page_free. No step gives back a page that is not held.
abbrev pub pool_step : Call → Pool → Option (Option ℕ × Pool)
pool_step (take z) s = elim s.free [
  | [] ↦ some (none, s)
  | x ∷ xs ↦ some (some x, record { free = xs; held = update s.held x true })
]
pool_step (give p) s =
    if s.held p
    then some (none, record { free = p ∷ s.free; held = update s.held p false })
    else none

unfoldable pub machine_step : Call → M Machine (Option ℕ)
machine_step (take z) = page_alloc z
machine_step (give p) = page_free p >> pure none

-- The results of some calls in turn, the same for the specification and for the code.
unfoldable pub run : {S : Type 0} → (Call → M S (Option ℕ)) → List Call → M S (List (Option ℕ))
run step [] = pure []
run step (c ∷ cs) = do r ← step c; rs ← run step cs; pure (r ∷ rs)

-- The machine's free list is the specification's, and a page held is no part of it.
pub record IsPool (m : Machine) (s : Pool) : Type 0 where
  pub list : IsFreeList m s.free
  pub apart : (i : ℕ) → s.held i ≡ true → contains i s.free ≡ false
  pub unused : (i : ℕ) → s.held i ≡ true → (m.pages i).pp_ref ≡ 0
  pub inside : (i : ℕ) → s.held i ≡ true → i < m.npages

take_step :
    (z : Bool) (m : Machine) (x : ℕ) (xs : List ℕ) (held : ℕ → Bool)
    → IsPool m (record { free = x ∷ xs; held = held })
    → IsPool (alloced z x m) (record { free = xs; held = update held x true })
take_step z m x xs held v = record {
  list = alloced-IsFreeList z m x xs v.list;
  apart = λ i h. ground (arith, v.apart i, v.list.chain.3, h);
  unused = λ i h. ground (arith, v.unused i, v.list.chain.2, h);
  inside = λ i h. ground (arith, v.inside i, v.list.chain.1, h);
}

give_step :
    (p : ℕ) (m : Machine) (s : Pool)
    → s.held p ≡ true
    → IsPool m s
    → IsPool (freed p m) (record { free = p ∷ s.free; held = update s.held p false })
give_step p m s h v = record {
  list = freed-IsFreeList m p s.free v.list (v.apart p h) (v.inside p h) (v.unused p h);
  apart = λ i k. ground (arith, v.apart i, k);
  unused = λ i k. ground (arith, v.unused i, k);
  inside = λ i k. ground (arith, v.inside i, k);
}

-- What the code does, given what the specification does.
abbrev Matches : {A : Type 0} → Option (A × Pool) → Option (A × Machine) → Type 0
Matches none r = Unit {0}
Matches (some (a, s)) r = (m : Machine) × (r ≡ some (a, m)) × IsPool m s

step-Matches :
    (c : Call) (m : Machine) (s : Pool) → IsPool m s → Matches (pool_step c s) (machine_step c m)
unfolding machine_step
step-Matches (take z) m s v = go s.free s.held v
  where
    go :
        (free : List ℕ) (held : ℕ → Bool)
        → IsPool m (record { free = free; held = held })
        → Matches (pool_step (take z) (record { free = free; held = held })) (page_alloc z m)
    go [] held w = (m, page_alloc-nil z m w.list, w)
    go (x ∷ xs) held w = (alloced z x m, page_alloc-cons z m x xs w.list, take_step z m x xs held w)
step-Matches (give p) m s v = elim (Bool-cases (s.held p)) [
  | inl h ↦
      let e = page_free-eq m p s.free v.list (v.apart p h) (v.unused p h) in
      rw h (freed p m, rw (e, ◌>>=◌) refl, give_step p m s h v)
  | inr h ↦ rw h tt
]

bind-Matches :
    {A B : Type 0} (x : M Pool A) (y : M Machine A) (f : A → M Pool B) (g : A → M Machine B)
    (s : Pool) (m : Machine)
    → Matches (x s) (y m)
    → ((a : A) (s' : Pool) (m' : Machine) → IsPool m' s' → Matches (f a s') (g a m'))
    → Matches ((x >>= f) s) ((y >>= g) m)
bind-Matches {A = A} {B = B} x y f g s m w next = go (x s) (y m) w
  where
    go :
        (r : Option (A × Pool)) (r' : Option (A × Machine))
        → Matches r r'
        → Matches
            (elim r [ none ↦ none | some (a, s') ↦ f a s' ])
            (elim r' [ none ↦ none | some (a, m') ↦ g a m' ])
    go none r' w = tt
    go (some (a, s')) r' (m', e, v) = rw e (next a s' m' v)

run-Matches :
    (cs : List Call) (m : Machine) (s : Pool)
    → IsPool m s
    → Matches (run pool_step cs s) (run machine_step cs m)
unfolding run
run-Matches [] m s v = (m, refl, v)
run-Matches (c ∷ cs) m s v =
    bind-Matches (pool_step c) (machine_step c) (λ r. run pool_step cs >>= (λ rs. pure (r ∷ rs)))
      (λ r. run machine_step cs >>= (λ rs. pure (r ∷ rs))) s m (step-Matches c m s v)
      (λ r s' m' w.
        bind-Matches (run pool_step cs) (run machine_step cs) (λ rs. pure (r ∷ rs))
          (λ rs. pure (r ∷ rs)) s' m' (run-Matches cs m' s' w) (λ rs t n w'. (n, refl, w')))

-- page_alloc and page_free refine a stack of free pages and a set of held ones: whatever calls a
-- client makes, if it gives back only pages that it holds, no call panics, the results are those of
-- the specification, and the free list is its stack, with no page in it that is held.
pub run_refines :
    (cs : List Call) (m : Machine) (s s' : Pool) (rs : List (Option ℕ))
    → IsPool m s
    → run pool_step cs s ≡ some (rs, s')
    → (m' : Machine) × (run machine_step cs m ≡ some (rs, m')) × IsPool m' s'
run_refines cs m s s' rs v e =
    subst (λ r. Matches r (run machine_step cs m)) e (run-Matches cs m s v)
