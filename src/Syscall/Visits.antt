-- ===== src/Syscall/Visits.antt =====
-- The loop of fork on concrete page tables.
use mit_jos_f22_advanced_os.Base.{
  ℕ, zero, suc, ◌*◌, ◌≤◌, ◌≡◌, refl, true, not, List, [], ◌∷◌, ◌==◌, if◌then◌else◌, some, arith,
}
use mit_jos_f22_advanced_os.Base.Ret.{M}
use mit_jos_f22_advanced_os.Syscall.Pgfault.{Windows, fork_pages}
use mit_jos_f22_advanced_os.Syscall.Copied.{
  Layout, IsShown, IsCovered, bottom, page, gap, IsUnmapped, all_pages, fork_pages-all_pages,
}

-- All entries are set.
abbrev all_mapped : Windows (List ℕ)
all_mapped = record { uvpml4e = λ i s. 7; uvpde = λ i s. 7; uvpd = λ i s. 7; uvpt = λ i s. 7 }

abbrev note : ℕ → ℕ → M (List ℕ) (Unit {0})
note pn pte s = some (tt, pn ∷ s)

visited : fork_pages all_mapped note 9 (2050 * 4096) [] ≡ some (tt, 2048 ∷ 2049 ∷ 2050 ∷ [])
unfolding fork_pages
visited = refl

-- No table for the region of the pages 3072 to 3583.
abbrev with_gap : Windows (List ℕ)
with_gap = record {
  uvpml4e = λ i s. 7;
  uvpde = λ i s. 7;
  uvpd = λ i s. if i == 6 then 0 else 7;
  uvpt = λ i s. if i == 3071 then 7 else if i == 3070 then 7 else 0;
}

-- From the top page of that region the loop goes on with page 3070: page 3071, which is mapped, is
-- not visited.
skipped : fork_pages with_gap note 1030 (3583 * 4096) [] ≡ some (tt, 3070 ∷ [])
unfolding fork_pages
skipped = refl

-- The same tables without page 3071, of which fork copies all that is mapped.
abbrev with_room : Windows (List ℕ)
with_room = record with_gap { uvpt = λ i s. if i == 3070 then 7 else 0 }

abbrev roomy : Layout
roomy = record {
  has_pml4e = λ i. true;
  has_pdpe = λ i. true;
  has_pde = λ i. not (i == 6);
  has_pte = λ i. i == 3070;
}

roomy-IsShown : (s : List ℕ) → IsShown with_room note roomy s
roomy-IsShown s i = (refl, refl, ground arith, ground arith)

roomy-below : (n : ℕ) → n ≤ 1024 → IsCovered roomy n
roomy-below zero h = bottom
roomy-below (suc n) h = page n refl refl (ground (arith, h)) (roomy-below n (omega (arith, h)))

roomy-IsUnmapped : IsUnmapped roomy 1023 1535
roomy-IsUnmapped q lo hi = ground (arith, lo)

roomy-IsCovered : IsCovered roomy 1536
roomy-IsCovered =
    gap 1535 1023 refl refl refl refl roomy-IsUnmapped (roomy-below 1023 (omega arith))

fork_pages-all_pages_example :
    fork_pages with_room note 1600 (3583 * 4096) [] ≡ all_pages with_room note roomy 1536 []
fork_pages-all_pages_example =
    fork_pages-all_pages with_room note roomy 1536 1600 [] (λ p e s s' i run. i) roomy-IsCovered
      (roomy-IsShown []) (omega arith) (omega arith)
