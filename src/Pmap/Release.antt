-- ===== src/Pmap/Release.antt =====
-- What page_alloc, page_free and page_decref of kern/pmap.c guarantee.
use mit_jos_f22_advanced_os.Base.{
  ℕ, ◌-◌, ◌^◌, ◌<◌, ◌≡◌, refl, ◌≢◌, Bool, true, false, Option, none, some, ◌⊎◌, inl, inr, List, [],
  ◌∷◌, arith, contains, ◌==◌, if◌then◌else◌, Bool-cases,
}
use mit_jos_f22_advanced_os.Pmap.Mem.{PageInfo, Machine}
use mit_jos_f22_advanced_os.Pmap.Alloc.{page_alloc, page_free, page_decref}
use mit_jos_f22_advanced_os.Pmap.FreeList.{
  Chain, IsFreeList, alloced, page_alloc-cons, alloced-IsFreeList, page_alloc-nil, freed,
  page_free-unlinked, page_free-eq, freed-IsFreeList, released, released-IsFreeList, unreferenced,
  unreferenced-IsFreeList, page_decref-many, page_decref-last,
}

-- page_alloc on a machine whose free list is `x ∷ xs` returns page `x` with a NULL link and no
-- reference, zeroed if ALLOC_ZERO is set; the free list is then `xs`, and every other page's
-- entry and words are as before. On an empty free list it returns NULL and changes nothing.
pub page_alloc_lem :
    (z : Bool) (m : Machine) (xs : List ℕ)
    → IsFreeList m xs
    → ((xs ≡ []) × (page_alloc z m ≡ some (none, m)))
      ⊎ ((x : ℕ) × (ys : List ℕ) × (m' : Machine) × (xs ≡ x ∷ ys)
          × (page_alloc z m ≡ some (some x, m'))
          × IsFreeList m' ys
          × (m'.pages x ≡ record { pp_link = none; pp_ref = 0 })
          × (z ≡ true → (i : ℕ) → m'.word x i ≡ 0)
          × ((j : ℕ) → j ≢ x → m'.pages j ≡ m.pages j)
          × ((j : ℕ) → j ≢ x → m'.word j ≡ m.word j))
page_alloc_lem z m [] v = inl (refl, page_alloc-nil z m v)
page_alloc_lem z m (x ∷ ys) v =
    let ref : (m.pages x).pp_ref ≡ 0 = v.chain.2 in
    inr (
      x,
      ys,
      alloced z x m,
      refl,
      page_alloc-cons z m x ys v,
      alloced-IsFreeList z m x ys v,
      ground arith,
      (λ e i. ground arith),
      (λ j h. ground arith),
      (λ j h. ground arith),
    )

-- A page taken by page_alloc and given back by page_free is the head of the free list again, and
-- the free list behind it is the one that page_alloc left.
pub page_alloc-page_free :
    (z : Bool) (m : Machine) (x : ℕ) (xs : List ℕ)
    → IsFreeList m (x ∷ xs)
    → (m₁ : Machine) × (m₂ : Machine) × (page_alloc z m ≡ some (some x, m₁))
      × (page_free x m₁ ≡ some (tt, m₂))
      × IsFreeList m₂ (x ∷ xs)
page_alloc-page_free z m x xs v =
    let m₁ = alloced z x m in
    let w = alloced-IsFreeList z m x xs v in
    let ref : (m₁.pages x).pp_ref ≡ 0 = ground (arith, v.chain.2) in
    (
      m₁,
      freed x m₁,
      page_alloc-cons z m x xs v,
      page_free-eq m₁ x xs w v.chain.3 ref,
      freed-IsFreeList m₁ x xs w v.chain.3 v.chain.1 ref,
    )

-- The page that ends a free list, if there is one.
abbrev pub get_last? : List ℕ → Option ℕ
get_last? [] = none
get_last? (x ∷ []) = some x
get_last? (x ∷ y ∷ xs) = get_last? (y ∷ xs)

Chain-link :
    (n : ℕ) (f : ℕ → PageInfo) (p : Option ℕ) (xs : List ℕ) (x : ℕ)
    → Chain n f p xs
    → contains x xs ≡ true
    → get_last? xs ≢ some x
    → (y : ℕ) × ((f x).pp_link ≡ some y)
Chain-link n f p [] x c h k = cc
Chain-link n f p (y ∷ []) x c h k = absurd (k (ground arith))
Chain-link n f p (y ∷ z ∷ xs) x c h k = elim (Bool-cases (x == y)) [
  | inl e ↦ (z, ground (arith, c.4.0))
  | inr e ↦ Chain-link n f (f y).pp_link (z ∷ xs) x c.4 (ground arith) k
]

-- page_free panics on a page that is on the free list already, unless it is the last one of it.
pub page_free-double :
    (m : Machine) (x : ℕ) (xs : List ℕ)
    → IsFreeList m xs
    → contains x xs ≡ true
    → get_last? xs ≢ some x
    → page_free x m ≡ none
unfolding page_free
page_free-double m x xs v h k =
    let (y, e) = Chain-link m.npages m.pages m.page_free_list xs x v.chain h k in ground arith

Chain-last :
    (n : ℕ) (f : ℕ → PageInfo) (p : Option ℕ) (xs : List ℕ) (x : ℕ)
    → Chain n f p xs
    → get_last? xs ≡ some x
    → ((f x).pp_link ≡ none) × ((f x).pp_ref ≡ 0) × (contains x xs ≡ true)
Chain-last n f p [] x c h = cc
Chain-last n f p (y ∷ []) x c h = ground arith
Chain-last n f p (y ∷ z ∷ xs) x c h = ground (arith, Chain-last n f (f y).pp_link (z ∷ xs) x c.4 h)

-- Two chains from one page over the same links, up to page `t`: both meet `t`.
Chain-meets :
    (n : ℕ) (f g : ℕ → PageInfo) (p : Option ℕ) (xs ys : List ℕ) (t : ℕ)
    → Chain n f p xs
    → Chain n g p ys
    → ((i : ℕ) → i ≢ t → (g i).pp_link ≡ (f i).pp_link)
    → contains t xs ≡ true
    → contains t ys ≡ true
Chain-meets n f g p [] ys t c d same h = cc
Chain-meets n f g p (x ∷ xs) [] t c d same h = ground (arith, c.0)
Chain-meets n f g p (x ∷ xs) (y ∷ ys) t c d same h =
    let e : x ≡ y = ground (arith, c.0, d.0) in
    elim (Bool-cases (t == x)) [
      | inl hit ↦ ground arith
      | inr miss ↦
          let l : (g y).pp_link ≡ (f x).pp_link = ground (arith, same y) in
          let r = Chain-meets n f g (f x).pp_link xs ys t c.4 (rw l at (d.4)) same (ground arith) in
          ground arith
    ]

not-IsFreeList-freed :
    (m : Machine) (x : ℕ) (xs : List ℕ)
    → IsFreeList m xs
    → contains x xs ≡ true
    → (ys : List ℕ) → ¬ (IsFreeList (freed x m) ys)
not-IsFreeList-freed m x xs v h [] w = let c = w.chain in cc
not-IsFreeList-freed m x xs v h (y ∷ ys) w =
    let c = w.chain in
    let e : x ≡ y = ground (arith, c.0) in
    let l : ((freed x m).pages y).pp_link ≡ m.page_free_list = ground arith in
    let meets =
      Chain-meets m.npages m.pages (freed x m).pages m.page_free_list xs ys x v.chain
        (rw l at (c.4)) (λ i k. ground arith) h in
    ground (arith, c.3)

-- Freeing the last page of the free list a second time is not detected: page_free returns, and
-- what it leaves is no free list of any length, since the links then run in a circle.
pub page_free-double_last :
    (m : Machine) (x : ℕ) (xs : List ℕ)
    → IsFreeList m xs
    → get_last? xs ≡ some x
    → (m' : Machine) × (page_free x m ≡ some (tt, m')) × ((ys : List ℕ) → ¬ (IsFreeList m' ys))
page_free-double_last m x xs v h =
    let (link, ref, mem) = Chain-last m.npages m.pages m.page_free_list xs x v.chain h in
    (freed x m, page_free-unlinked m x ref link, not-IsFreeList-freed m x xs v mem)

-- page_decref on a page off the free list: the last reference frees the page, which becomes the
-- head of the free list; with two references or more the count goes down by one and the free list
-- stays. The words of memory and every other page's entry stay.
pub page_decref_lem :
    (m : Machine) (x : ℕ) (xs : List ℕ)
    → IsFreeList m xs
    → contains x xs ≡ false
    → x < m.npages
    → 0 < (m.pages x).pp_ref
    → (m.pages x).pp_ref < 2 ^ 16
    → (m' : Machine) × (page_decref x m ≡ some (tt, m'))
      × ((m'.pages x).pp_ref ≡ (m.pages x).pp_ref - 1)
      × IsFreeList m' (if (m.pages x).pp_ref == 1 then x ∷ xs else xs)
      × (m'.word ≡ m.word)
      × (m'.npages ≡ m.npages)
      × ((j : ℕ) → j ≢ x → m'.pages j ≡ m.pages j)
page_decref_lem m x xs v out lt pos fits = elim (Bool-cases ((m.pages x).pp_ref == 1)) [
  | inl one ↦ rw one (
    released x m,
    page_decref-last m x xs v out (ground arith),
    ground arith,
    released-IsFreeList m x xs v out lt,
    refl,
    refl,
    (λ j h. ground arith),
  )
  | inr more ↦ rw more (
    unreferenced x m,
    page_decref-many m x (ground arith) fits,
    ground arith,
    unreferenced-IsFreeList m x xs v out,
    refl,
    refl,
    (λ j h. ground arith),
  )
]
