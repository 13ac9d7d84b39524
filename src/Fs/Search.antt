-- ===== src/Fs/Search.antt =====
-- What the loops of dir_lookup and dir_alloc_file find, and the bytes that strcpy changes.
use mit_jos_f22_advanced_os.Base.{
  ℕ, zero, suc, ◌+◌, ◌*◌, ◌≤◌, ◌<◌, ◌≡◌, refl, ap, ◌∙◌, sym, ◌≢◌, ◌⊎◌, inl, inr, Bool, true, false,
  List, [], ◌∷◌, ◌==◌, arith, some, none, Bool-cases, length, All,
}
use mathlib.Core.Path.{subst}
use mit_jos_f22_advanced_os.Base.Ret.{◌>>=◌, ok}
use mit_jos_f22_advanced_os.Fs.Disk.{Disk, Place}
use mit_jos_f22_advanced_os.Fs.Content.{byte_at, put_byte}
use mit_jos_f22_advanced_os.Fs.Spread.{byte_at-put_byte}
use mit_jos_f22_advanced_os.Fs.Loops.{IsSame, IsLaid}
use mit_jos_f22_advanced_os.Fs.Dir.{entry, first_entry, search_dir, name_byte, is_named, strcpy}

zero_add : (j : ℕ) → j ≡ 0 + j
zero_add j = omega arith

module _ (test : Place → Disk → Bool) where
  first_entry-none :
      (n j b : ℕ) (q : Disk)
      → ((i : ℕ) → i < n → test (entry b (j + i)) q ≡ false)
      → first_entry test n j b q ≡ none
  unfolding first_entry
  first_entry-none zero j b q h = refl
  first_entry-none (suc n) j b q h =
      let z : j + 0 ≡ j = omega arith in
      let here : test (entry b j) q ≡ false =
        subst (λ i. test (entry b i) q ≡ false) z (h 0 (omega arith)) in
      let later : (i : ℕ) → i < n → test (entry b (j + 1 + i)) q ≡ false = λ i lt.
        let e : j + suc i ≡ j + 1 + i = omega arith in
        subst (λ t. test (entry b t) q ≡ false) e (h (suc i) (omega (arith, lt))) in
      rw here (first_entry-none n (j + 1) b q later)

  first_entry-some :
      (n j b e : ℕ) (q : Disk)
      → e < n
      → ((i : ℕ) → i < e → test (entry b (j + i)) q ≡ false)
      → test (entry b (j + e)) q ≡ true
      → first_entry test n j b q ≡ some (entry b (j + e))
  unfolding first_entry
  first_entry-some zero j b e q lt h on = absurd (omega (arith, lt))
  first_entry-some (suc n) j b zero q lt h on =
      let z : j + 0 ≡ j = omega arith in
      let here : test (entry b j) q ≡ true = subst (λ i. test (entry b i) q ≡ true) z on in
      rw here (ap (λ i. some (entry b i)) (sym z))
  first_entry-some (suc n) j b (suc e) q lt h on =
      let z : j + 0 ≡ j = omega arith in
      let here : test (entry b j) q ≡ false =
        subst (λ i. test (entry b i) q ≡ false) z (h 0 (omega arith)) in
      let step : (i : ℕ) → j + suc i ≡ j + 1 + i = λ i. omega arith in
      let later : (i : ℕ) → i < e → test (entry b (j + 1 + i)) q ≡ false = λ i less.
        subst (λ t. test (entry b t) q ≡ false) (step i) (h (suc i) (omega (arith, less))) in
      let found =
        first_entry-some n (j + 1) b e q (omega (arith, lt)) later
          (subst (λ t. test (entry b t) q ≡ true) (step e) on) in
      rw here (found ∙ ap (λ i. some (entry b i)) (sym (step e)))

  module _ (dir : Place) (blocks : ℕ → ℕ) (n : ℕ) (d : Disk) (laid : IsLaid dir blocks n d) where
    pub search_dir-none :
        (m i : ℕ) (q : Disk)
        → IsSame dir blocks n d q
        → i + m ≤ n
        → ((k j : ℕ) → k < n → j < 16 → test (entry (blocks k) j) q ≡ false)
        → search_dir test m i dir q ≡ some (ok none, q)
    unfolding search_dir
    search_dir-none zero i q same h off = refl
    search_dir-none (suc m) i q same h off =
        let lt : i < n = omega (arith, h) in
        rw (laid.found q same i lt, ◌>>=◌)
          (rw
            (first_entry-none 16 0 (blocks i) q (λ j less.
              subst (λ t. test (entry (blocks i) t) q ≡ false) (zero_add j) (off i j lt less)))
            (search_dir-none m (i + 1) q same (omega (arith, h)) off))

    -- The entry that the loops find: entry `e` of block `t` of the directory.
    pub search_dir-some :
        (m i t e : ℕ) (q : Disk)
        → IsSame dir blocks n d q
        → i + m ≤ n
        → i ≤ t
        → t < i + m
        → e < 16
        → ((k j : ℕ) → k < t → j < 16 → test (entry (blocks k) j) q ≡ false)
        → ((j : ℕ) → j < e → test (entry (blocks t) j) q ≡ false)
        → test (entry (blocks t) e) q ≡ true
        → search_dir test m i dir q ≡ some (ok (some (entry (blocks t) e)), q)
    unfolding search_dir
    search_dir-some zero i t e q same h lo hi small off before on = absurd (omega (arith, lo, hi))
    search_dir-some (suc m) i t e q same h lo hi small off before on = elim (Bool-cases (t == i)) [
      | inl this ↦
          let z : t ≡ i = ground (arith, this) in
          let found =
            first_entry-some 16 0 (blocks t) e q small
              (λ j less.
                subst (λ x. test (entry (blocks t) x) q ≡ false) (zero_add j) (before j less))
              (subst (λ x. test (entry (blocks t) x) q ≡ true) (zero_add e) on) in
          let found' : first_entry test 16 0 (blocks i) q ≡ some (entry (blocks t) e) =
            subst (λ x. first_entry test 16 0 (blocks x) q ≡ some (entry (blocks t) e)) z
              (found ∙ ap (λ x. some (entry (blocks t) x)) (sym (zero_add e))) in
          rw (laid.found q same i (omega (arith, h)), ◌>>=◌) (rw found' refl)
      | inr other ↦
          let less : i < t = ground (arith, other, lo) in
          let lt : i < n = omega (arith, h) in
          let missed = first_entry-none 16 0 (blocks i) q (λ j k.
            subst (λ x. test (entry (blocks i) x) q ≡ false) (zero_add j) (off i j less k)) in
          rw (laid.found q same i lt, ◌>>=◌)
            (rw missed (
              search_dir-some m (i + 1) t e q same (omega (arith, h)) (omega (arith, less))
                (omega (arith, hi)) small off before on))
    ]

-- The bytes that strcpy writes at `j` are those of the name and a null.
pub strcpy_other :
    (name : List ℕ) (b i j b' o : ℕ) (d : Disk)
    → All (λ c. c < 256) name
    → (b ≢ b') ⊎ ((o < 4 * i + j) ⊎ (4 * i + j + length name < o))
    → byte_at b' o (strcpy (b, i) j name d) ≡ byte_at b' o d
unfolding strcpy
strcpy_other [] b i j b' o d small away =
    byte_at-put_byte b (4 * i + j) b' o 0 d (omega arith) ∙ ground (arith, away)
strcpy_other (c ∷ name) b i j b' o d small away =
    strcpy_other name b i (j + 1) b' o (put_byte b (4 * i + j) c d) small.1 (ground (arith, away))
    ∙ byte_at-put_byte b (4 * i + j) b' o c d small.0
    ∙ ground (arith, away)

pub strcpy_block :
    (name : List ℕ) (b i j b' o : ℕ) (d : Disk) → b' ≢ b → strcpy (b, i) j name d b' o ≡ d b' o
unfolding strcpy
strcpy_block [] b i j b' o d ne = ground (arith, ne)
strcpy_block (c ∷ name) b i j b' o d ne =
    strcpy_block name b i (j + 1) b' o (put_byte b (4 * i + j) c d) ne ∙ ground (arith, ne)

-- strcmp says that a name is the one that strcpy wrote.
pub is_named-strcpy :
    (name : List ℕ) (b i j : ℕ) (d : Disk)
    → All (λ c. c < 256) name
    → is_named name (b, i) j (strcpy (b, i) j name d) ≡ true
unfolding is_named strcpy
is_named-strcpy [] b i j d small =
    rw (byte_at-put_byte b (4 * i + j) b (4 * i + j) 0 d (omega arith)) (ground arith)
is_named-strcpy (c ∷ name) b i j d small =
    let first : byte_at b (4 * i + j) (strcpy (b, i) (j + 1) name (put_byte b (4 * i + j) c d))
        ≡ c =
      strcpy_other name b i (j + 1) b (4 * i + j) (put_byte b (4 * i + j) c d) small.1
        (inr (inl (omega arith)))
      ∙ byte_at-put_byte b (4 * i + j) b (4 * i + j) c d small.0
      ∙ ground arith in
    rw (first, is_named-strcpy name b i (j + 1) (put_byte b (4 * i + j) c d) small.1) (ground arith)

-- strcmp reads no byte of f_name behind the name's length.
pub is_named_same :
    (name : List ℕ) (g : Place) (j : ℕ) (d d' : Disk)
    → ((t : ℕ) → j ≤ t → t ≤ j + length name → name_byte g t d' ≡ name_byte g t d)
    → is_named name g j d' ≡ is_named name g j d
unfolding is_named
is_named_same [] g j d d' same = rw (same j (omega arith) (omega arith)) refl
is_named_same (c ∷ name) g j d d' same =
    rw
      (
        same j (omega arith) (omega arith),
        is_named_same name g (j + 1) d d'
            (λ t lo hi. same t (omega (arith, lo)) (omega (arith, hi))),
      )
      refl
