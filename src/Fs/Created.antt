-- ===== src/Fs/Created.antt =====
-- file_create of a file in the root directory, and file_open of it.
use mit_jos_f22_advanced_os.Base.{
  ℕ, suc, ◌+◌, ◌*◌, ◌/◌, ◌%◌, ◌≤◌, ◌<◌, ◌≡◌, refl, ◌∙◌, sym, ◌≢◌, ◌⊎◌, inl, inr, false, List, [],
  ◌∷◌, leb, ◌==◌, arith, some, none, length, All,
}
use mit_jos_f22_advanced_os.Base.Ret.{◌>>=◌, Ret, ok, err, e_not_found, e_file_exists}
use mit_jos_f22_advanced_os.Fs.Disk.{Disk, Place}
use mit_jos_f22_advanced_os.Fs.Dir.{
  entry, name_byte, is_named, strcpy, s_root, dir_blocks, dir_lookup, dir_alloc_file, element,
  skip_slash, walk_from, walk_path, Walk, reached, not_last,
}
use mit_jos_f22_advanced_os.Fs.Files.{file_create, create_in, file_open}
use mit_jos_f22_advanced_os.Fs.Loops.{IsSame, IsLaid}
use mit_jos_f22_advanced_os.Fs.Direct.{IsDirect, IsDirect-IsLaid, file_flush-IsDirect}
use mit_jos_f22_advanced_os.Fs.Search.{
  search_dir-none, search_dir-some, strcpy_other, strcpy_block, is_named-strcpy, is_named_same,
}

-- A name that stands for one element of a path.
abbrev pub IsName : List ℕ → Type 0
IsName name = (name ≢ []) × (length name < 128) × All (λ c. c < 256) name × All (λ c. c ≢ b'/') name

element-IsName : (name : List ℕ) → All (λ c. c ≢ b'/') name → element name ≡ (name, [])
unfolding element
element-IsName [] h = refl
element-IsName (c ∷ name) h =
    let off : (c == b'/') ≡ false = ground (arith, h.0) in
    rw off (rw (element-IsName name h.1) refl)

skip_slash-IsName : (name : List ℕ) → All (λ c. c ≢ b'/') name → skip_slash (b'/' ∷ name) ≡ name
unfolding skip_slash
skip_slash-IsName [] h = refl
skip_slash-IsName (c ∷ name) h = let off : (c == b'/') ≡ false = ground (arith, h.0) in rw off refl

-- The root directory has `n` whole blocks.
pub record IsRoot (blocks : ℕ → ℕ) (n : ℕ) (d : Disk) : Type 0 where
  pub direct : IsDirect s_root blocks n d
  pub size : d 1 34 ≡ 4096 * n
  pub directory : d 1 35 ≡ 1
  pub no_indirect : d 1 46 ≡ 0

walk_from_end :
    (fuel : ℕ) (f : Place) (q : Disk)
    → walk_from fuel [] (some s_root) f q ≡ some (some (reached (some s_root) f), q)
unfolding walk_from
walk_from_end fuel f q = refl

-- Where walk_path ends with the result `r` of dir_lookup for the last element.
abbrev last : List ℕ → Ret Place → Walk
last name (err x) = not_last [] s_root name x
last name (ok g) = reached (some s_root) g

walk_from-dir_lookup :
    (fuel c : ℕ) (cs : List ℕ) (q : Disk) (r : Ret Place)
    → IsName (c ∷ cs)
    → q 1 35 ≡ 1
    → dir_lookup s_root (c ∷ cs) q ≡ some (r, q)
    → walk_from (suc fuel) (c ∷ cs) none s_root q ≡ some (some (last (c ∷ cs) r), q)
unfolding walk_from skip_slash
walk_from-dir_lookup fuel c cs q (err x) (some_byte, short, bytes, plain) type e =
    let fits : leb 128 (suc (length cs)) ≡ false = ground (arith, short) in
    rw (element-IsName (c ∷ cs) plain)
      (rw fits (rw type (rw (e, ◌>>=◌) (rw (element-IsName (c ∷ cs) plain) refl))))
walk_from-dir_lookup fuel c cs q (ok g) (some_byte, short, bytes, plain) type e =
    let fits : leb 128 (suc (length cs)) ≡ false = ground (arith, short) in
    rw (element-IsName (c ∷ cs) plain) (
      rw fits
        (rw type (rw (e, ◌>>=◌) (rw (element-IsName (c ∷ cs) plain) (walk_from_end fuel g q)))))

walk_path-dir_lookup :
    (name : List ℕ) (q : Disk) (r : Ret Place)
    → IsName name
    → q 1 35 ≡ 1
    → dir_lookup s_root name q ≡ some (r, q)
    → walk_path (b'/' ∷ name) q ≡ some (last name r, q)
unfolding walk_path
walk_path-dir_lookup [] q r good type e = absurd (good.0 refl)
walk_path-dir_lookup (c ∷ cs) q r good type e =
    rw (skip_slash-IsName (c ∷ cs) good.3)
      (rw (walk_from-dir_lookup (suc (length cs)) c cs q r good type e, ◌>>=◌) refl)

-- Entry `e` of block `r` is the first free entry of the directory, and none has the name.
pub record IsVacant (blocks : ℕ → ℕ) (n r e : ℕ) (name : List ℕ) (d : Disk) : Type 0 where
  pub block : r < n
  pub place : e < 16
  pub empty : name_byte (entry (blocks r) e) 0 d ≡ 0
  pub earlier : (k j : ℕ) → k < r → j < 16 → name_byte (entry (blocks k) j) 0 d ≢ 0
  pub before : (j : ℕ) → j < e → name_byte (entry (blocks r) j) 0 d ≢ 0
  pub absent : (k j : ℕ) → k < n → j < 16 → is_named name (entry (blocks k) j) 0 d ≡ false

module _ (blocks : ℕ → ℕ) (n : ℕ) (d : Disk) (root : IsRoot blocks n d) where
  dir_blocks_lem : (q : Disk) → q 1 34 ≡ 4096 * n → dir_blocks s_root q ≡ some (n, q)
  unfolding dir_blocks
  dir_blocks_lem q h =
      let whole : 4096 * n % 4096 ≡ 0 = omega arith in
      let count : 4096 * n / 4096 ≡ n = omega arith in rw h (rw whole (rw count refl))

  laid : IsLaid s_root blocks n d
  laid = IsDirect-IsLaid s_root blocks n d root.direct

  module _ (r e : ℕ) (name : List ℕ) (good : IsName name)
      (vacant : IsVacant blocks n r e name d) where
    abbrev free : Place
    free = entry (blocks r) e

    abbrev after : Disk
    after = strcpy free 0 name d

    after-IsSame : IsSame s_root blocks n d after
    after-IsSame b i away meta = strcpy_block name (blocks r) (64 * e) 0 b i d (away r vacant.block)

    dir_alloc_file-free : dir_alloc_file s_root d ≡ some (ok free, d)
    unfolding dir_alloc_file laid
    dir_alloc_file-free =
        let found =
          search_dir-some (λ f q. name_byte f 0 q == 0) s_root blocks n d laid n 0 r e d
            (λ b i away meta. refl) (omega arith) (omega arith) (omega (arith, vacant.block))
            vacant.place (λ k j lt less. ground (arith, vacant.earlier k j lt less))
            (λ j less. ground (arith, vacant.before j less)) (ground (arith, vacant.empty)) in
        rw (dir_blocks_lem d root.size, ◌>>=◌) (rw (found, ◌>>=◌) refl)

    dir_lookup-before : dir_lookup s_root name d ≡ some (err e_not_found, d)
    unfolding dir_lookup
    dir_lookup-before =
        let missed =
          search_dir-none (λ f q. is_named name f 0 q) s_root blocks n d laid n 0 d
            (λ b i away meta. refl) (omega arith) vacant.absent in
        rw (dir_blocks_lem d root.size, ◌>>=◌) (rw (missed, ◌>>=◌) refl)

    apart :
        (k j t : ℕ)
        → k < n
        → t ≤ 0 + length name
        → (k ≢ r) ⊎ (j ≢ e)
        → (blocks r ≢ blocks k)
          ⊎ ((4 * (64 * j) + t < 4 * (64 * e) + 0)
              ⊎ (4 * (64 * e) + 0 + length name < 4 * (64 * j) + t))
    apart k j t lt hi (inl ne) = inl (λ z. ne (root.direct.distinct k r lt vacant.block (sym z)))
    apart k j t lt hi (inr ne) = inr (ground (arith, ne, hi, good.1))

    -- The other entries keep their names.
    other_entry :
        (k j : ℕ)
        → k < n
        → j < 16
        → (k ≢ r) ⊎ (j ≢ e)
        → is_named name (entry (blocks k) j) 0 after ≡ false
    other_entry k j lt less other =
        is_named_same name (entry (blocks k) j) 0 d after (λ t lo hi.
          strcpy_other name (blocks r) (64 * e) 0 (blocks k) (4 * (64 * j) + t) d good.2
            (apart k j t lt hi other))
        ∙ vacant.absent k j lt less

    size : after 1 34 ≡ 4096 * n
    size =
        strcpy_block name (blocks r) (64 * e) 0 1 34 d (root.direct.outside r vacant.block)
        ∙ root.size

    dir_lookup-after : dir_lookup s_root name after ≡ some (ok free, after)
    unfolding dir_lookup
    dir_lookup-after =
        let found =
          search_dir-some (λ f q. is_named name f 0 q) s_root blocks n d laid n 0 r e after
            after-IsSame (omega arith) (omega arith) (omega (arith, vacant.block)) vacant.place
            (λ k j lt less.
              other_entry k j (omega (arith, lt, vacant.block)) less
                (inl (λ z. omega (arith, lt, z))))
            (λ j less.
              other_entry r j vacant.block (omega (arith, less, vacant.place))
                (inr (λ z. omega (arith, less, z))))
            (is_named-strcpy name (blocks r) (64 * e) 0 d good.2) in
        rw (dir_blocks_lem after size, ◌>>=◌) (rw (found, ◌>>=◌) refl)

    create_in-free : create_in s_root name d ≡ some (ok free, after)
    unfolding create_in
    create_in-free =
        let flushed =
          file_flush-IsDirect s_root blocks n d root.direct after after-IsSame size
            root.no_indirect in
        rw (dir_alloc_file-free, ◌>>=◌) (rw (flushed, ◌>>=◌) refl)

-- In a root directory of whole direct blocks that has a free entry and no entry of this name,
-- file_create of "/name" takes the first free entry; file_open then finds that entry, a second
-- file_create fails with -E_FILE_EXISTS, and only the block of the entry has changed.
pub file_create-file_open :
    (blocks : ℕ → ℕ) (n r e : ℕ) (name : List ℕ) (d : Disk)
    → IsRoot blocks n d
    → IsName name
    → IsVacant blocks n r e name d
    → (d' : Disk) × (file_create (b'/' ∷ name) d ≡ some (ok (entry (blocks r) e), d'))
      × (file_open (b'/' ∷ name) d' ≡ some (ok (entry (blocks r) e), d'))
      × (file_create (b'/' ∷ name) d' ≡ some (err e_file_exists, d'))
      × ((b i : ℕ) → b ≢ blocks r → d' b i ≡ d b i)
unfolding file_create file_open
file_create-file_open blocks n r e name d root good vacant =
    let d' = strcpy (entry (blocks r) e) 0 name d in
    let away : 1 ≢ blocks r = root.direct.outside r vacant.block in
    let before =
      walk_path-dir_lookup name d (err e_not_found) good root.directory
        (dir_lookup-before blocks n d root r e name good vacant) in
    let directory : d' 1 35 ≡ 1 =
      strcpy_block name (blocks r) (64 * e) 0 1 35 d away ∙ root.directory in
    let later =
      walk_path-dir_lookup name d' (ok (entry (blocks r) e)) good directory
        (dir_lookup-after blocks n d root r e name good vacant) in
    (
      d',
      rw (before, ◌>>=◌) (create_in-free blocks n d root r e name good vacant),
      rw (later, ◌>>=◌) refl,
      rw (later, ◌>>=◌) refl,
      λ b i ne. strcpy_block name (blocks r) (64 * e) 0 b i d ne,
    )
