-- ===== src/Syscall/Copied.antt =====
-- What the loop of fork visits, given which entries of the page tables are present.
use mit_jos_f22_advanced_os.Base.{
  ℕ, zero, suc, ◌+◌, ◌*◌, ◌/◌, ◌^◌, ◌≤◌, ◌<◌, ◌≡◌, refl, ap, ◌∙◌, Bool, true, false, ◌&&◌,
  if◌then◌else◌, some, leb, Option-cases, Bool-cases, arith, inl, inr,
}
use mathlib.Core.Option.{some-injective}
use mathlib.Core.Path.{subst, sym}
use mit_jos_f22_advanced_os.Base.Ret.{M, ◌>>=◌, ◌>>◌}
use mit_jos_f22_advanced_os.Syscall.Pgfault.{
  Windows, is_set, is_page, visit_page, fork_pages, skip, back, utext,
}

-- Which entries of the four levels are present, by the index in their window.
pub record Layout : Type 0 where
  pub has_pml4e : ℕ → Bool
  pub has_pdpe : ℕ → Bool
  pub has_pde : ℕ → Bool
  pub has_pte : ℕ → Bool

-- Page `n` from UTEXT on.
abbrev pub page_at : ℕ → ℕ
page_at n = (2048 + n) * 4096

abbrev pub is_mapped : Layout → ℕ → Bool
is_mapped l addr =
    l.has_pml4e (addr / 2 ^ 39)
    && l.has_pdpe (addr / 2 ^ 30)
    && l.has_pde (addr / 2 ^ 21)
    && l.has_pte (addr / 2 ^ 12)

abbrev pub IsUnmapped : Layout → ℕ → ℕ → Type 0
IsUnmapped l m n = (q : ℕ) → m ≤ q → q < n → is_mapped l (page_at q) ≡ false

-- What a run of the loop that starts with `n` pages left, and so at page `n - 1`, meets. Where the
-- page has its tables, the page below is next. Where its page table is missing, the run goes on
-- 513 pages below, and where the page directory is missing, 262145 pages below, and no page that it
-- jumps over is mapped.
pub data IsCovered (l : Layout) : ℕ → Type 0 where
  bottom : IsCovered l 0
  page :
      (n : ℕ)
      → l.has_pml4e (page_at n / 2 ^ 39) ≡ true
      → l.has_pdpe (page_at n / 2 ^ 30) ≡ true
      → l.has_pde (page_at n / 2 ^ 21) ≡ true
      → IsCovered l n
      → IsCovered l (suc n)
  gap :
      (n m : ℕ)
      → n ≡ 512 + m
      → l.has_pml4e (page_at n / 2 ^ 39) ≡ true
      → l.has_pdpe (page_at n / 2 ^ 30) ≡ true
      → l.has_pde (page_at n / 2 ^ 21) ≡ false
      → IsUnmapped l m n
      → IsCovered l m
      → IsCovered l (suc n)
  hole :
      (n m : ℕ)
      → n ≡ 262144 + m
      → l.has_pml4e (page_at n / 2 ^ 39) ≡ true
      → l.has_pdpe (page_at n / 2 ^ 30) ≡ false
      → IsUnmapped l m n
      → IsCovered l m
      → IsCovered l (suc n)
  last_gap :
      (n : ℕ)
      → n < 512
      → l.has_pml4e (page_at n / 2 ^ 39) ≡ true
      → l.has_pdpe (page_at n / 2 ^ 30) ≡ true
      → l.has_pde (page_at n / 2 ^ 21) ≡ false
      → IsUnmapped l 0 n
      → IsCovered l (suc n)

module _ {S : Type 0} (w : Windows S) (visit : ℕ → ℕ → M S (Unit {0})) (l : Layout) where
  -- The windows show the layout.
  abbrev pub IsShown : S → Type 0
  IsShown s =
      (i : ℕ)
      → (is_set (w.uvpml4e i s) ≡ l.has_pml4e i)
        × (is_set (w.uvpde i s) ≡ l.has_pdpe i)
        × (is_set (w.uvpd i s) ≡ l.has_pde i)
        × (is_set (w.uvpt i s) ≡ l.has_pte i)

  -- What is done with a page leaves the layout.
  abbrev pub IsKept : Type 0
  IsKept = (p e : ℕ) (s s' : S) → IsShown s → visit p e s ≡ some (tt, s') → IsShown s'

  -- Each mapped page of the `n` pages from UTEXT on, from the top down.
  abbrev pub all_pages : ℕ → M S (Unit {0})
  all_pages zero s = some (tt, s)
  all_pages (suc n) s = (visit_page w visit (page_at n) >> all_pages n) s

  is_page-is_mapped : (addr : ℕ) (s : S) → IsShown s → is_page w addr s ≡ is_mapped l addr
  is_page-is_mapped addr s i =
      let a = (i (addr / 2 ^ 39)).0 in
      let b = (i (addr / 2 ^ 30)).1 in
      let c = (i (addr / 2 ^ 21)).2 in
      let d = (i (addr / 2 ^ 12)).3 in rw a (rw b (rw c (rw d refl)))

  -- A page that is visited leaves the layout.
  visit_page-IsShown :
      IsKept
      → (addr : ℕ) (s s' : S) → IsShown s
      → visit_page w visit addr s ≡ some (tt, s')
      → IsShown s'
  visit_page-IsShown keep addr s s' i run = elim (Bool-cases (is_page w addr s)) [
    | inl on ↦
        let seen : visit_page w visit addr s ≡ visit (addr / 2 ^ 12) (w.uvpt (addr / 2 ^ 12) s) s =
          rw on refl in
        keep (addr / 2 ^ 12) (w.uvpt (addr / 2 ^ 12) s) s s' i (sym seen ∙ run)
    | inr off ↦
        let none_there : visit_page w visit addr s ≡ some (tt, s) = rw off refl in
        subst IsShown
          (ap (λ (x : Unit {0} × S). x.1) (some-injective (tt, s) (tt, s') (sym none_there ∙ run)))
          i
  ]

  all_pages-IsUnmapped :
      (k n m : ℕ) (s : S) → n ≡ k + m → IsShown s → IsUnmapped l m n → all_pages n s ≡ all_pages m s
  all_pages-IsUnmapped zero n m s e i h =
      let same : n ≡ m = omega (arith, e) in ap (λ x. all_pages x s) same
  all_pages-IsUnmapped (suc k) zero m s e i h = absurd (omega (arith, e))
  all_pages-IsUnmapped (suc k) (suc n) m s e i h =
      let off : is_page w (page_at n) s ≡ false =
        is_page-is_mapped (page_at n) s i ∙ h n (omega (arith, e)) (omega arith) in
      rw (off, ◌>>=◌)
        (all_pages-IsUnmapped k n m s (omega (arith, e)) i (λ q a b. h q a (omega (arith, b))))

  fork_pages-end :
      (fuel addr : ℕ) (s : S)
      → 0 < fuel
      → leb utext addr ≡ false
      → fork_pages w visit fuel addr s ≡ some (tt, s)
  unfolding fork_pages
  fork_pages-end zero addr s h e = absurd (omega (arith, h))
  fork_pages-end (suc fuel) addr s h e = rw (e, fork_pages) refl

  -- A round, with what the loop does behind it.
  round_lem :
      (n fuel next : ℕ) (s : S)
      → back 4096 (back (skip w (page_at n) s) (page_at n)) ≡ next
      → ((s' : S)
          → visit_page w visit (page_at n) s ≡ some (tt, s')
          → fork_pages w visit fuel next s' ≡ all_pages n s')
      → fork_pages w visit (suc fuel) (page_at n) s ≡ all_pages (suc n) s
  unfolding fork_pages
  round_lem n fuel next s at rest =
      let on : leb utext (page_at n) ≡ true = ground arith in
      elim (Option-cases (visit_page w visit (page_at n) s)) [
        | inl e ↦ rw (on, fork_pages) (rw (e, ◌>>=◌) refl)
        | inr ((u, s'), e) ↦ rw (on, fork_pages) (rw (e, ◌>>=◌) (rw at (rest s' e)))
      ]

  -- What the loop takes off, from what the windows show.
  skip-page :
      (addr : ℕ) (s : S)
      → IsShown s
      → l.has_pml4e (addr / 2 ^ 39) ≡ true
      → l.has_pdpe (addr / 2 ^ 30) ≡ true
      → skip w addr s ≡ (if l.has_pde (addr / 2 ^ 21) then 0 else 512 * 4096)
  skip-page addr s i t₄ t₃ =
      let a = (i (addr / 2 ^ 39)).0 ∙ t₄ in
      let b = (i (addr / 2 ^ 30)).1 ∙ t₃ in let c = (i (addr / 2 ^ 21)).2 in rw a (rw b (rw c refl))

  skip-hole :
      (addr : ℕ) (s : S)
      → IsShown s
      → l.has_pml4e (addr / 2 ^ 39) ≡ true
      → l.has_pdpe (addr / 2 ^ 30) ≡ false
      → skip w addr s ≡ 512 * 512 * 4096
  skip-hole addr s i t₄ t₃ =
      let a = (i (addr / 2 ^ 39)).0 ∙ t₄ in let b = (i (addr / 2 ^ 30)).1 ∙ t₃ in rw a (rw b refl)

  fork_pages-all_pages_lem :
      IsKept
      → (n fuel : ℕ) (s : S) → IsCovered l n
      → IsShown s
      → n < 2 ^ 20
      → n < fuel
      → fork_pages w visit fuel ((2047 + n) * 4096) s ≡ all_pages n s
  fork_pages-all_pages_lem keep n zero s c i small enough = absurd (omega (arith, enough))
  fork_pages-all_pages_lem keep zero (suc fuel) s bottom i small enough =
      fork_pages-end (suc fuel) (2047 * 4096) s (omega arith) refl
  fork_pages-all_pages_lem keep (suc n) (suc fuel) s (page _ t₄ t₃ t₂ c) i small enough =
      let size : skip w (page_at n) s ≡ 0 = skip-page (page_at n) s i t₄ t₃ ∙ rw t₂ refl in
      let start : (2047 + suc n) * 4096 ≡ page_at n = omega arith in
      ap (λ a. fork_pages w visit (suc fuel) a s) start
      ∙ round_lem n fuel ((2047 + n) * 4096) s (rw size (omega (arith, small))) (λ s' e.
        fork_pages-all_pages_lem keep n fuel s' c (visit_page-IsShown keep (page_at n) s s' i e)
          (omega (arith, small)) (omega (arith, enough)))
  fork_pages-all_pages_lem keep (suc n) (suc fuel) s (gap _ m far t₄ t₃ t₂ none_there c) i small
        enough =
      let size : skip w (page_at n) s ≡ 512 * 4096 = skip-page (page_at n) s i t₄ t₃ ∙ rw t₂ refl in
      let start : (2047 + suc n) * 4096 ≡ page_at n = omega arith in
      ap (λ a. fork_pages w visit (suc fuel) a s) start
      ∙ round_lem n fuel ((2047 + m) * 4096) s (rw size (omega (arith, small, far))) (λ s' e.
        let i' = visit_page-IsShown keep (page_at n) s s' i e in
        fork_pages-all_pages_lem keep m fuel s' c i' (omega (arith, small, far))
          (omega (arith, enough, far))
        ∙ sym (all_pages-IsUnmapped 512 n m s' far i' none_there))
  fork_pages-all_pages_lem keep (suc n) (suc fuel) s (hole _ m far t₄ t₃ none_there c) i small
        enough =
      let size = skip-hole (page_at n) s i t₄ t₃ in
      let start : (2047 + suc n) * 4096 ≡ page_at n = omega arith in
      ap (λ a. fork_pages w visit (suc fuel) a s) start
      ∙ round_lem n fuel ((2047 + m) * 4096) s (rw size (omega (arith, small, far))) (λ s' e.
        let i' = visit_page-IsShown keep (page_at n) s s' i e in
        fork_pages-all_pages_lem keep m fuel s' c i' (omega (arith, small, far))
          (omega (arith, enough, far))
        ∙ sym (all_pages-IsUnmapped 262144 n m s' far i' none_there))
  fork_pages-all_pages_lem keep (suc n) (suc fuel) s (last_gap _ few t₄ t₃ t₂ none_there) i small
        enough =
      let size : skip w (page_at n) s ≡ 512 * 4096 = skip-page (page_at n) s i t₄ t₃ ∙ rw t₂ refl in
      let start : (2047 + suc n) * 4096 ≡ page_at n = omega arith in
      ap (λ a. fork_pages w visit (suc fuel) a s) start
      ∙ round_lem n fuel ((1535 + n) * 4096) s (rw size (omega (arith, small, few))) (λ s' e.
        let i' = visit_page-IsShown keep (page_at n) s s' i e in
        fork_pages-end fuel ((1535 + n) * 4096) s' (omega (arith, enough)) (ground (arith, few))
        ∙ sym (all_pages-IsUnmapped n n 0 s' (omega arith) i' none_there))

-- The loop of fork ends and visits each mapped page once, from the top page on down to UTEXT, for
-- page tables that are present as the layout says and that the visits leave so. Of the layout it
-- takes that the pages that the loop jumps over where a table is missing are not mapped: 513 pages
-- where it is a page table, 262145 pages where it is a page directory.
pub fork_pages-all_pages :
    {S : Type 0} (w : Windows S) (visit : ℕ → ℕ → M S (Unit {0})) (l : Layout) (n fuel : ℕ) (s : S)
    → IsKept w visit l
    → IsCovered l n
    → IsShown w visit l s
    → n < 2 ^ 20
    → n < fuel
    → fork_pages w visit fuel ((2047 + n) * 4096) s ≡ all_pages w visit l n s
fork_pages-all_pages w visit l n fuel s keep c i small enough =
    fork_pages-all_pages_lem w visit l keep n fuel s c i small enough
