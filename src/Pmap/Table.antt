-- ===== src/Pmap/Table.antt =====
-- One step of a page table walk of kern/pmap.c: what `grow` and `follow` do to a table entry.
use mit_jos_f22_advanced_os.Base.{
  ℕ, ◌+◌, ◌*◌, ◌%◌, ◌^◌, ◌≤◌, ◌<◌, ◌≡◌, refl, ◌≢◌, true, false, not, none, some, List, [], ◌∷◌,
  arith, contains, bit_or, update, ◌==◌, ◌∙◌, lt→leb, fun_ext,
}
use mit_jos_f22_advanced_os.Base.Words.{zero-bit_or, bit_or_low, bit_and-bit0}
use mit_jos_f22_advanced_os.Base.Ret.{◌>>=◌}
use mit_jos_f22_advanced_os.Pmap.Mem.{
  PageInfo, Machine, Slot, present, page2pa, pte_p, pte_w, pte_u, ppn, pte_addr, kaddr,
}
use mit_jos_f22_advanced_os.Pmap.FreeList.{
  Chain-frame, contains_ne, IsFreeList, alloced, page_alloc-cons, page_alloc-nil,
}
use mit_jos_f22_advanced_os.Pmap.Walk.{full, kept, grown, enter, grow, follow}

pub present_odd : (e : ℕ) → present e ≡ not (e % 2 == 0)
present_odd e = rw (bit_and-bit0 e)

-- Permission bits put into the low bits of a page's physical address stay apart from it.
pub bit_or-page : (x p : ℕ) → x < 2 ^ 32 → p < 2 ^ 12 → bit_or (page2pa x) p ≡ x * 4096 + p
bit_or-page x p hx hp =
    let e : page2pa x ≡ x * 2 ^ 12 + 0 = omega arith in
    rw e (bit_or_low 12 x 0 p (omega arith) hp ∙ omega (arith, zero-bit_or p))

pub table_entry :
    (x : ℕ) → x < 2 ^ 32 → bit_or (bit_or (bit_or (page2pa x) pte_p) pte_w) pte_u ≡ x * 4096 + 7
table_entry x h = rw (bit_or-page x 1 h (omega arith)) (
    rw (bit_or_low 12 x 1 2 (omega arith) (omega arith))
      (bit_or_low 12 x 3 4 (omega arith) (omega arith)))

-- The page that an entry names.
abbrev pub target : Machine → Slot → ℕ
target m (t, i) = ppn (pte_addr (m.word t i))

kaddr_lem :
    (pa : ℕ) (m : Machine) → ppn pa < m.npages → m.npages ≤ 2 ^ 32 → kaddr pa m ≡ some (pa, m)
unfolding kaddr
kaddr_lem pa m lt few = rw (lt→leb m.npages (ppn pa % 2 ^ 32) (omega arith))

pub follow_lem :
    (m : Machine) (t i : ℕ)
    → target m (t, i) < m.npages
    → m.npages ≤ 2 ^ 32
    → follow (t, i) m ≡ some (target m (t, i), m)
unfolding follow
follow_lem m t i lt few = rw (kaddr_lem (pte_addr (m.word t i)) m lt few, ◌>>=◌)

pub grow-kept :
    (m : Machine) (t i : ℕ) → present (m.word t i) ≡ true → grow (t, i) true m ≡ some (kept, m)
unfolding grow
grow-kept m t i e = rw e

pub grow-off : (m : Machine) (t i : ℕ) → grow (t, i) false m ≡ some (kept, m)
unfolding grow
grow-off m t i = refl

pub grow-full :
    (m : Machine) (t i : ℕ)
    → IsFreeList m []
    → present (m.word t i) ≡ false
    → grow (t, i) true m ≡ some (full, m)
unfolding grow enter
grow-full m t i v e = rw e (rw (page_alloc-nil true m v, ◌>>=◌))

-- The machine after the free page `x` has become the table behind entry `(t, i)`.
abbrev pub extended : Slot → ℕ → Machine → Machine
extended (t, i) x m = record m {
  page_free_list = (m.pages x).pp_link;
  pages = update m.pages x (record { pp_link = none; pp_ref = 1 });
  word = update (update m.word x (λ _. 0)) t (update (update m.word x (λ _. 0) t) i (x * 4096 + 7));
}

incref_of : ℕ → Machine → ℕ → PageInfo
incref_of x m = update m.pages x (record (m.pages x) { pp_ref = ((m.pages x).pp_ref + 1) % 2 ^ 16 })

pub grow-grown :
    (m : Machine) (t i x : ℕ) (xs : List ℕ)
    → IsFreeList m (x ∷ xs)
    → present (m.word t i) ≡ false
    → grow (t, i) true m ≡ some (grown x, extended (t, i) x m)
unfolding grow enter incref_of
grow-grown m t i x xs v e =
    let ref : (m.pages x).pp_ref ≡ 0 = v.chain.2 in
    let small : x < 2 ^ 32 = omega (arith, v.chain.1, v.few) in
    let after = extended (t, i) x m in
    let same : (incref_of x (alloced true x m)) ≡ after.pages = fun_ext (λ j. ground arith) in
    rw e (
      rw (page_alloc-cons true m x xs v, ◌>>=◌)
        (rw (table_entry x small) (λ k. some (grown x, record after { pages = same k }))))

pub extended-IsFreeList :
    (m : Machine) (t i x : ℕ) (xs : List ℕ)
    → IsFreeList m (x ∷ xs)
    → IsFreeList (extended (t, i) x m) xs
extended-IsFreeList m t i x xs v =
    let c : contains x xs ≡ false = v.chain.3 in
    record {
      chain =
          Chain-frame m.npages m.pages _ _ xs (λ j h. ground (arith, contains_ne j x xs)) v.chain.4;
      unlinked = λ j h. ground (arith, v.unlinked j);
      few = v.few;
    }

-- The new entry is present and names the new table, which holds no entry.
pub extended-entry :
    (m : Machine) (t i x : ℕ)
    → (present ((extended (t, i) x m).word t i) ≡ true) × (target (extended (t, i) x m) (t, i) ≡ x)
extended-entry m t i x =
    let w : (extended (t, i) x m).word t i ≡ x * 4096 + 7 = ground arith in
    (rw w (present_odd (x * 4096 + 7) ∙ ground arith), rw w (omega arith))

pub extended-fresh : (m : Machine) (t i x j : ℕ) → x ≢ t → (extended (t, i) x m).word x j ≡ 0
extended-fresh m t i x j h = ground arith
