-- ===== src/Pmap/FreeList.antt =====
-- The free list of kern/pmap.c as a list of page numbers, and what each allocator function does
-- to it.
use mit_jos_f22_advanced_os.Base.{
  ℕ, ◌+◌, ◌-◌, ◌*◌, ◌/◌, ◌%◌, ◌^◌, ◌≤◌, ◌<◌, ◌≡◌, refl, ◌≢◌, Bool, true, false, Option, none, some,
  List, [], ◌∷◌, arith, contains, update, ◌==◌, if◌then◌else◌, lt→leb, fun_ext, ◌∙◌,
}
use mit_jos_f22_advanced_os.Pmap.Mem.{PageInfo, Machine, page2kva}
use mit_jos_f22_advanced_os.Pmap.Alloc.{page_alloc, page_free, page_decref}

-- From `p` the links lead through the distinct pages `xs`, which nothing refers to, to NULL.
abbrev pub Chain : ℕ → (ℕ → PageInfo) → Option ℕ → List ℕ → Type 0
Chain n f p [] = p ≡ none
Chain n f p (x ∷ xs) =
    (p ≡ some x)
    × (x < n)
    × ((f x).pp_ref ≡ 0)
    × (contains x xs ≡ false)
    × Chain n f (f x).pp_link xs

-- `xs` is the free list of `m`, and a page outside it has no link.
pub record IsFreeList (m : Machine) (xs : List ℕ) : Type 0 where
  pub chain : Chain m.npages m.pages m.page_free_list xs
  pub unlinked : (i : ℕ) → contains i xs ≡ false → (m.pages i).pp_link ≡ none
  pub few : m.npages ≤ 2 ^ 32

pub contains_ne : (i x : ℕ) (xs : List ℕ) → contains i xs ≡ true → contains x xs ≡ false → i ≢ x
contains_ne i x xs h k e = ground arith

-- A chain survives a change of pages that are not on it.
pub Chain-frame :
    (n : ℕ) (f g : ℕ → PageInfo) (p : Option ℕ) (xs : List ℕ)
    → ((i : ℕ) → contains i xs ≡ true → g i ≡ f i)
    → Chain n f p xs
    → Chain n g p xs
Chain-frame n f g p [] same c = c
Chain-frame n f g p (x ∷ xs) same c =
    ground (arith, same x, Chain-frame n f g (f x).pp_link xs (λ i h. same i (ground arith)) c.4)

-- The state after page_alloc has taken page `x`.
abbrev pub alloced : Bool → ℕ → Machine → Machine
alloced z x m = record m {
  page_free_list = (m.pages x).pp_link;
  pages = update m.pages x (record (m.pages x) { pp_link = none });
  word = if z then update m.word x (λ _. 0) else m.word;
}

pub page2kva_lem :
    (m : Machine) (x : ℕ) → x < m.npages → m.npages ≤ 2 ^ 32 → page2kva x m ≡ some (x * 4096, m)
unfolding page2kva
page2kva_lem m x lt few =
    let e : x * 4096 % 2 ^ 64 ≡ x * 4096 = omega arith in
    rw e (rw (lt→leb m.npages (x * 4096 / 4096 % 2 ^ 32) (omega arith)))

page_alloc-head :
    (z : Bool) (m : Machine) (x : ℕ)
    → m.page_free_list ≡ some x
    → x < m.npages
    → m.npages ≤ 2 ^ 32
    → page_alloc z m ≡ some (some x, alloced z x m)
unfolding page_alloc
page_alloc-head true m x e lt few =
    let kva = page2kva_lem (record m { page_free_list = (m.pages x).pp_link }) x lt few in
    let q : x * 4096 / 4096 ≡ x = omega arith in ground (arith, kva)
page_alloc-head false m x e lt few = ground arith

pub page_alloc-cons :
    (z : Bool) (m : Machine) (x : ℕ) (xs : List ℕ)
    → IsFreeList m (x ∷ xs)
    → page_alloc z m ≡ some (some x, alloced z x m)
page_alloc-cons z m x xs v = page_alloc-head z m x v.chain.0 v.chain.1 v.few

pub alloced-IsFreeList :
    (z : Bool) (m : Machine) (x : ℕ) (xs : List ℕ)
    → IsFreeList m (x ∷ xs)
    → IsFreeList (alloced z x m) xs
alloced-IsFreeList z m x xs v = record {
  chain = Chain-frame m.npages m.pages _ _ xs (λ i h. ground (arith, contains_ne i x xs)) v.chain.4;
  unlinked = λ i h. ground (arith, v.unlinked i);
  few = v.few;
}

pub page_alloc-nil : (z : Bool) (m : Machine) → IsFreeList m [] → page_alloc z m ≡ some (none, m)
unfolding page_alloc
page_alloc-nil z m v = let c : m.page_free_list ≡ none = v.chain in ground arith

-- The state after page_free has put page `x` back.
abbrev pub freed : ℕ → Machine → Machine
freed x m = record m {
  page_free_list = some x;
  pages = update m.pages x (record (m.pages x) { pp_link = m.page_free_list });
}

pub page_free-unlinked :
    (m : Machine) (x : ℕ)
    → (m.pages x).pp_ref ≡ 0
    → (m.pages x).pp_link ≡ none
    → page_free x m ≡ some (tt, freed x m)
unfolding page_free
page_free-unlinked m x ref link = ground arith

pub page_free-eq :
    (m : Machine) (x : ℕ) (xs : List ℕ)
    → IsFreeList m xs
    → contains x xs ≡ false
    → (m.pages x).pp_ref ≡ 0
    → page_free x m ≡ some (tt, freed x m)
page_free-eq m x xs v out ref = page_free-unlinked m x ref (v.unlinked x out)

pub freed-IsFreeList :
    (m : Machine) (x : ℕ) (xs : List ℕ)
    → IsFreeList m xs
    → contains x xs ≡ false
    → x < m.npages
    → (m.pages x).pp_ref ≡ 0
    → IsFreeList (freed x m) (x ∷ xs)
freed-IsFreeList m x xs v out lt ref = record {
  chain = (
    refl,
    lt,
    ground arith,
    out,
    (let e : (update m.pages x (record (m.pages x) { pp_link = m.page_free_list }) x).pp_link
            ≡ m.page_free_list =
          ground arith in
        rw e (
          Chain-frame m.npages m.pages _ _ xs (λ i h. ground (arith, contains_ne i x xs)) v.chain)),
  );
  unlinked = λ i h. ground (arith, v.unlinked i);
  few = v.few;
}

-- The state after one of several references to page `x` is given up.
abbrev pub unreferenced : ℕ → Machine → Machine
unreferenced x m = record m {
  pages = update m.pages x (record (m.pages x) { pp_ref = (m.pages x).pp_ref - 1 });
}

pub unreferenced-IsFreeList :
    (m : Machine) (x : ℕ) (xs : List ℕ)
    → IsFreeList m xs
    → contains x xs ≡ false
    → IsFreeList (unreferenced x m) xs
unreferenced-IsFreeList m x xs v out = record {
  chain = Chain-frame m.npages m.pages _ _ xs (λ i h. ground (arith, contains_ne i x xs)) v.chain;
  unlinked = λ i h. ground (arith, v.unlinked i);
  few = v.few;
}

pub page_decref-many :
    (m : Machine) (x : ℕ)
    → 1 < (m.pages x).pp_ref
    → (m.pages x).pp_ref < 2 ^ 16
    → page_decref x m ≡ some (tt, unreferenced x m)
unfolding page_decref
page_decref-many m x h lt =
    let e : ((m.pages x).pp_ref + 2 ^ 16 - 1) % 2 ^ 16 % 2 ^ 16 ≡ (m.pages x).pp_ref - 1 =
      omega arith in
    let t : (((m.pages x).pp_ref + 2 ^ 16 - 1) % 2 ^ 16 == 0) ≡ false = ground arith in rw t (rw e)

abbrev pub released : ℕ → Machine → Machine
released x m = record m {
  page_free_list = some x;
  pages = update m.pages x (record { pp_link = m.page_free_list; pp_ref = 0 });
}

pub page_decref-last :
    (m : Machine) (x : ℕ) (xs : List ℕ)
    → IsFreeList m xs
    → contains x xs ≡ false
    → (m.pages x).pp_ref ≡ 1
    → page_decref x m ≡ some (tt, released x m)
unfolding page_decref
page_decref-last m x xs v out e =
    let r = ((m.pages x).pp_ref + 2 ^ 16 - 1) % 2 ^ 16 in
    let m₁ = record m { pages = update m.pages x (record (m.pages x) { pp_ref = r % 2 ^ 16 }) } in
    let t : (r == 0) ≡ true = ground arith in
    let ref : (m₁.pages x).pp_ref ≡ 0 = ground arith in
    let link : (m₁.pages x).pp_link ≡ none = ground (arith, v.unlinked x) in
    let same : (freed x m₁).pages ≡ (released x m).pages = fun_ext (λ j. ground arith) in
    rw t
      (page_free-unlinked m₁ x ref link ∙ λ i. some (tt, record (released x m) { pages = same i }))

pub released-IsFreeList :
    (m : Machine) (x : ℕ) (xs : List ℕ)
    → IsFreeList m xs
    → contains x xs ≡ false
    → x < m.npages
    → IsFreeList (released x m) (x ∷ xs)
released-IsFreeList m x xs v out lt =
    let p = (released x m).pages in
    let link : (p x).pp_link ≡ m.page_free_list = ground arith in
    let rest =
      Chain-frame m.npages m.pages p _ xs (λ i h. ground (arith, contains_ne i x xs)) v.chain in
    record {
      chain = (refl, lt, ground arith, out, rw link rest);
      unlinked = λ i h. ground (arith, v.unlinked i);
      few = v.few;
    }
