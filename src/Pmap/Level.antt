-- ===== src/Pmap/Level.antt =====
-- One level of a page table walk of kern/pmap.c, from what the walk below it does: pdpe_walk and
-- pml4e_walk are both such a level.
use mit_jos_f22_advanced_os.Base.{
  ℕ, ◌^◌, ◌≤◌, ◌<◌, ◌≡◌, refl, ◌≢◌, ◌⊎◌, inl, inr, Bool, true, false, ◌&&◌, Option, none, some,
  List, [], ◌∷◌, arith, contains, update, ◌==◌, ◌∙◌, ap, Bool-cases,
}
use mit_jos_f22_advanced_os.Base.Ret.{M, ◌>>=◌, ◌>>◌, pure}
use mit_jos_f22_advanced_os.Pmap.Mem.{Machine, Slot, present, ppn, pte_addr}
use mit_jos_f22_advanced_os.Pmap.FreeList.{
  IsFreeList, released, page_decref-last, released-IsFreeList,
}
use mit_jos_f22_advanced_os.Pmap.Walk.{full, kept, grown, grow, follow, ungrow}
use mit_jos_f22_advanced_os.Pmap.Table.{
  target, follow_lem, grow-kept, grow-off, grow-full, extended, grow-grown, extended-entry,
}

-- Outside the pages `xs` only entries that were not present have changed.
abbrev pub Spares : Machine → Machine → List ℕ → Type 0
Spares m m' xs =
    (p i : ℕ) → contains p xs ≡ false → (m'.word p i ≡ m.word p i) ⊎ (present (m.word p i) ≡ false)

-- What a walk with `create` set, from `m` with free list `xs`, leaves behind.
pub record IsWalked (m m' : Machine) (xs : List ℕ) (res : Option Slot) : Type 0 where
  pub left : List ℕ
  pub list : IsFreeList m' left
  pub sub : (j : ℕ) → contains j xs ≡ false → contains j left ≡ false
  pub spares : Spares m m' xs
  pub pages : (j : ℕ) → contains j xs ≡ false → m'.pages j ≡ m.pages j
  pub npages : m'.npages ≡ m.npages
  pub whole : res ≡ none → left ≡ xs
  pub held : (s : Slot) → res ≡ some s → contains s.0 left ≡ false

-- From `m` on, as long as the words of memory stay, the walk takes this entry and changes nothing,
-- with `create` set or not.
abbrev pub Reaches : (Bool → M Machine (Option Slot)) → Machine → Slot → Type 0
Reaches walk m s =
    (c : Bool) (n : Machine) → n.word ≡ m.word → n.npages ≡ m.npages → walk c n ≡ some (some s, n)

-- A walk with `create` set does not panic; if it returns an entry, walks from then on reach it.
abbrev pub Finds : (Bool → M Machine (Option Slot)) → Machine → List ℕ → Type 0
Finds walk m xs =
    (res : Option Slot) × (m' : Machine) × (walk true m ≡ some (res, m'))
    × IsWalked m m' xs res
    × ((s : Slot) → res ≡ some s → Reaches walk m' s)

-- The shape of pdpe_walk and pml4e_walk.
abbrev pub level : (Bool → ℕ → M Machine (Option Slot)) → Slot → Bool → M Machine (Option Slot)
level inner entry create = do
  g ← grow entry create
  elim g [
    | full ↦ pure none
    | other ↦ (do table ← follow entry; pte ← inner create table; ungrow entry other pte; pure pte)
  ]

pub IsWalked-refl :
    (m : Machine) (xs : List ℕ) (res : Option Slot)
    → IsFreeList m xs
    → ((s : Slot) → res ≡ some s → contains s.0 xs ≡ false)
    → IsWalked m m xs res
IsWalked-refl m xs res v h = record {
  left = xs;
  list = v;
  sub = λ j k. k;
  spares = λ p i k. inl refl;
  pages = λ j k. refl;
  npages = refl;
  whole = λ e. refl;
  held = h;
}

grow-present :
    (c : Bool) (m : Machine) (t i : ℕ)
    → present (m.word t i) ≡ true
    → grow (t, i) c m ≡ some (kept, m)
grow-present true m t i e = grow-kept m t i e
grow-present false m t i e = grow-off m t i

-- A walk through an entry that is present.
level-Reaches :
    (inner : Bool → ℕ → M Machine (Option Slot)) (m : Machine) (t i x : ℕ) (s : Slot)
    → m.npages ≤ 2 ^ 32
    → present (m.word t i) ≡ true
    → target m (t, i) ≡ x
    → x < m.npages
    → Reaches (λ c. inner c x) m s
    → Reaches (level inner (t, i)) m s
unfolding ungrow
level-Reaches inner m t i x s few on e lt reach c n w k =
    let on' : present (n.word t i) ≡ true = rw w on in
    let e' : target n (t, i) ≡ x = rw w e in
    let lt' : target n (t, i) < n.npages = omega arith in
    rw (grow-present c n t i on', ◌>>=◌)
      (rw (follow_lem n t i lt' (omega arith), ◌>>=◌) (rw e' (rw (reach c n w k, ◌>>=◌))))

module _ (inner : Bool → ℕ → M Machine (Option Slot)) (m : Machine) (t i : ℕ) where
  level-kept :
      (xs : List ℕ)
      → IsFreeList m xs
      → contains t xs ≡ false
      → present (m.word t i) ≡ true
      → target m (t, i) < m.npages
      → Finds (λ c. inner c (target m (t, i))) m xs
      → Finds (level inner (t, i)) m xs
  unfolding ungrow
  level-kept xs v out e lt (res, m', run, w, look) =
      let same : m'.word t i ≡ m.word t i = ground (arith, w.spares t i) in
      (
        res,
        m',
        rw (grow-kept m t i e, ◌>>=◌) (rw (follow_lem m t i lt v.few, ◌>>=◌) (rw (run, ◌>>=◌))),
        w,
        λ s h.
            level-Reaches inner m' t i (target m (t, i)) s w.list.few (ap present same ∙ e)
              (ap (λ e. ppn (pte_addr e)) same) (omega (arith, w.npages)) (look s h),
      )

  -- The state after *entry = 0x0 and page_decref on the new table.
  abbrev undone : ℕ → Machine → Machine
  undone x m₂ = released x (record m₂ { word = update m₂.word t (update (m₂.word t) i 0) })

  extended-word :
      (x p j : ℕ) → p ≢ x → ((extended (t, i) x m).word p j ≡ m.word p j) ⊎ ((p ≡ t) × (j ≡ i))
  extended-word x p j h = elim (Bool-cases ((t == p) && (i == j))) [
    | inl e ↦ inr (ground arith)
    | inr e ↦ inl (ground arith)
  ]

  module _ (x : ℕ) (ys : List ℕ) (v : IsFreeList m (x ∷ ys)) (out : contains t (x ∷ ys) ≡ false)
      (off : present (m.word t i) ≡ false) where
    extended-Spares : (m₂ : Machine) → Spares (extended (t, i) x m) m₂ ys → Spares m m₂ (x ∷ ys)
    extended-Spares m₂ s p j h = elim (extended-word x p j (ground arith)) [
      | inl e ↦ ground (arith, s p j)
      | inr e ↦ inr (rw (e.0) (rw (e.1) off))
    ]

    grown-some :
        (s : Slot) (m₂ : Machine)
        → IsWalked (extended (t, i) x m) m₂ ys (some s)
        → IsWalked m m₂ (x ∷ ys) (some s)
    grown-some s m₂ w = record {
      left = w.left;
      list = w.list;
      sub = λ j h. w.sub j (ground arith);
      spares = extended-Spares m₂ w.spares;
      pages = λ j h. ground (arith, w.pages j);
      npages = w.npages;
      whole = λ e. cc;
      held = w.held;
    }

    undone-Spares :
        (m₂ : Machine) → Spares (extended (t, i) x m) m₂ ys → Spares m (undone x m₂) (x ∷ ys)
    undone-Spares m₂ s p j h = elim (Bool-cases ((t == p) && (i == j))) [
      | inl e ↦
          let p' : p ≡ t = ground arith in let j' : j ≡ i = ground arith in inr (rw p' (rw j' off))
      | inr e ↦ ground (arith, extended-Spares m₂ s p j)
    ]

    grown-none :
        (m₂ : Machine)
        → IsWalked (extended (t, i) x m) m₂ ys none
        → (ungrow (t, i) (grown x) none m₂ ≡ some (tt, undone x m₂))
          × IsWalked m (undone x m₂) (x ∷ ys) none
    unfolding ungrow
    grown-none m₂ w =
        let m₃ = record m₂ { word = update m₂.word t (update (m₂.word t) i 0) } in
        let fresh : contains x ys ≡ false = v.chain.3 in
        let list : IsFreeList m₂ ys = rw (w.whole refl) at w.list in
        let list₃ : IsFreeList m₃ ys = record {
          chain = list.chain;
          unlinked = list.unlinked;
          few = list.few;
        } in
        let one : (m₂.pages x).pp_ref ≡ 1 = ground (arith, w.pages x) in
        let lt : x < m₂.npages = omega (arith, v.chain.1, w.npages) in
        (
          page_decref-last m₃ x ys list₃ fresh one,
          record {
            left = x ∷ ys;
            list = released-IsFreeList m₃ x ys list₃ fresh lt;
            sub = λ j h. h;
            spares = undone-Spares m₂ w.spares;
            pages = λ j h. ground (arith, w.pages j);
            npages = w.npages;
            whole = λ e. refl;
            held = λ s h. cc;
          },
        )

    -- The level has entered the new table and runs the walk below.
    level-enter :
        level inner (t, i) true m
        ≡ (inner true x >>= λ pte. ungrow (t, i) (grown x) pte >> pure pte) (extended (t, i) x m)
    level-enter =
        let (e, eq) = extended-entry m t i x in
        let lt : target (extended (t, i) x m) (t, i) < m.npages = omega (arith, eq, v.chain.1) in
        rw (grow-grown m t i x ys v off, ◌>>=◌)
          (rw (follow_lem (extended (t, i) x m) t i lt v.few, ◌>>=◌) (rw eq))

    level-grown :
        Finds (λ c. inner c x) (extended (t, i) x m) ys → Finds (level inner (t, i)) m (x ∷ ys)
    unfolding ungrow
    level-grown (none, m₂, run, w, look) =
        let (undo, w') = grown-none m₂ w in
        (none, undone x m₂, level-enter ∙ rw (run, ◌>>=◌) (rw (undo, ◌>>=◌)), w', λ s h. cc)
    level-grown (some s, m₂, run, w, look) =
        let (e, eq) = extended-entry m t i x in
        let same : m₂.word t i ≡ (extended (t, i) x m).word t i = ground (arith, w.spares t i) in
        (
          some s,
          m₂,
          level-enter ∙ rw (run, ◌>>=◌),
          grown-some s m₂ w,
          λ s' h.
              level-Reaches inner m₂ t i x s' w.list.few (ap present same ∙ e)
                (ap (λ e. ppn (pte_addr e)) same ∙ eq) (omega (arith, w.npages, v.chain.1))
                (look s' h),
        )

  level-full : IsFreeList m [] → present (m.word t i) ≡ false → Finds (level inner (t, i)) m []
  level-full v off =
      (none, m, rw (grow-full m t i v off, ◌>>=◌), IsWalked-refl m [] none v (λ s h. cc), λ s h. cc)

  -- A level of the walk, from the walk below it in both cases.
  pub level-Finds :
      (xs : List ℕ)
      → IsFreeList m xs
      → contains t xs ≡ false
      → (present (m.word t i) ≡ true
          → (target m (t, i) < m.npages) × Finds (λ c. inner c (target m (t, i))) m xs)
      → ((x : ℕ) (ys : List ℕ) → xs ≡ x ∷ ys → Finds (λ c. inner c x) (extended (t, i) x m) ys)
      → Finds (level inner (t, i)) m xs
  level-Finds [] v out old new = elim (Bool-cases (present (m.word t i))) [
    | inl on ↦ level-kept [] v out on (old on).0 (old on).1
    | inr off ↦ level-full v off
  ]
  level-Finds (x ∷ ys) v out old new = elim (Bool-cases (present (m.word t i))) [
    | inl on ↦ level-kept (x ∷ ys) v out on (old on).0 (old on).1
    | inr off ↦ level-grown x ys v out off (new x ys refl)
  ]
