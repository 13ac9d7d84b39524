-- ===== src/Pmap/Init.antt =====
-- What page_init of kern/pmap.c makes of a zeroed `pages` array.
use mit_jos_f22_advanced_os.Base.{
  ℕ, zero, suc, ◌+◌, ◌≤◌, ◌<◌, ◌≡◌, refl, false, ◌&&◌, ◌||◌, List, ◌∷◌, arith, contains, ltb, leb,
  ◌==◌, if◌then◌else◌,
}
use mit_jos_f22_advanced_os.Pmap.Mem.{Machine}
use mit_jos_f22_advanced_os.Pmap.Alloc.{free_page, free_range, use_range}
use mit_jos_f22_advanced_os.Pmap.FreeList.{IsFreeList, Chain-frame, contains_ne}

-- The pages `i`, ..., `i + n - 1` put in front of `xs` one by one.
abbrev pub put_range : ℕ → ℕ → List ℕ → List ℕ
put_range zero i xs = xs
put_range (suc n) i xs = put_range n (i + 1) (i ∷ xs)

pub contains-put_range :
    (n i j : ℕ) (xs : List ℕ)
    → contains j (put_range n i xs) ≡ ((leb i j && ltb j (i + n)) || contains j xs)
contains-put_range zero i j xs = ground arith
contains-put_range (suc n) i j xs = ground (arith, contains-put_range n (i + 1) j (i ∷ xs))

free_page-IsFreeList :
    (i : ℕ) (m : Machine) (xs : List ℕ)
    → IsFreeList m xs
    → contains i xs ≡ false
    → i < m.npages
    → IsFreeList (free_page i m) (i ∷ xs)
free_page-IsFreeList i m xs v out lt =
    let p = (free_page i m).pages in
    let link : (p i).pp_link ≡ m.page_free_list = ground arith in
    let rest =
      Chain-frame m.npages m.pages p _ xs (λ j h. ground (arith, contains_ne j i xs)) v.chain in
    record {
      chain = (refl, lt, ground arith, out, rw link rest);
      unlinked = λ j h. ground (arith, v.unlinked j);
      few = v.few;
    }

pub free_range-IsFreeList :
    (n i : ℕ) (m : Machine) (xs : List ℕ)
    → IsFreeList m xs
    → ((j : ℕ) → i ≤ j → j < i + n → contains j xs ≡ false)
    → i + n ≤ m.npages
    → IsFreeList (free_range n i m) (put_range n i xs)
unfolding free_range
free_range-IsFreeList zero i m xs v out le = v
free_range-IsFreeList (suc n) i m xs v out le =
    free_range-IsFreeList n (i + 1) (free_page i m) (i ∷ xs)
      (free_page-IsFreeList i m xs v (out i (omega arith) (omega arith)) (omega arith))
      (λ j h k. ground (arith, out j (omega arith) (omega arith))) (omega arith)

-- Pages outside the range stay as they were; so does the rest of the machine.
pub free_range-other :
    (n i j : ℕ) (m : Machine)
    → (leb i j && ltb j (i + n)) ≡ false
    → (free_range n i m).pages j ≡ m.pages j
unfolding free_range
free_range-other zero i j m h = refl
free_range-other (suc n) i j m h = ground (arith, free_range-other n (i + 1) j (free_page i m))

pub free_range-npages : (n i : ℕ) (m : Machine) → (free_range n i m).npages ≡ m.npages
unfolding free_range
free_range-npages zero i m = refl
free_range-npages (suc n) i m = free_range-npages n (i + 1) (free_page i m)

use_page : ℕ → Machine → Machine
use_page i m = record m {
  pages = λ j. if i == j then record (m.pages i) { pp_ref = 1 } else m.pages j;
}

pub use_range-IsFreeList :
    (n i : ℕ) (m : Machine) (xs : List ℕ)
    → IsFreeList m xs
    → ((j : ℕ) → i ≤ j → j < i + n → contains j xs ≡ false)
    → IsFreeList (use_range n i m) xs
unfolding use_range use_page
use_range-IsFreeList zero i m xs v out = v
use_range-IsFreeList (suc n) i m xs v out =
    let p = (use_page i m).pages in
    let off : contains i xs ≡ false = out i (omega arith) (omega arith) in
    use_range-IsFreeList n (i + 1) (use_page i m) xs
      (record {
        chain =
            Chain-frame m.npages m.pages p _ xs (λ j h. ground (arith, contains_ne j i xs)) v.chain;
        unlinked = λ j h. ground (arith, v.unlinked j, v.unlinked i);
        few = v.few;
      })
      (λ j h k. out j (omega arith) (omega arith))

pub use_range-pages :
    (n i j : ℕ) (m : Machine)
    → (use_range n i m).pages j
      ≡ (if leb i j && ltb j (i + n) then record (m.pages j) { pp_ref = 1 } else m.pages j)
unfolding use_range use_page
use_range-pages zero i j m = ground arith
use_range-pages (suc n) i j m = ground (arith, use_range-pages n (i + 1) j (use_page i m))

pub use_range-rest : (n i : ℕ) (m : Machine) → (use_range n i m).npages ≡ m.npages
unfolding use_range use_page
use_range-rest zero i m = refl
use_range-rest (suc n) i m = use_range-rest n (i + 1) (use_page i m)
