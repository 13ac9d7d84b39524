-- ===== src/Fs/Dir.antt =====
-- Directories, paths and the operations on them: fs/fs.c.
--
-- A string is the list of its bytes before the null. `super->s_root` is the `struct File` at word 2
-- of block 1. flush_block leaves the words alone.
use mit_jos_f22_advanced_os.Base.{
  ℕ, zero, suc, ◌+◌, ◌*◌, ◌/◌, ◌%◌, Bool, ◌&&◌, not, List, [], ◌∷◌, Option, none, some, leb, ◌==◌,
  if◌then◌else◌, length,
}
use mit_jos_f22_advanced_os.Base.Ret.{
  M, pure, panic, ◌>>=◌, ◌>>◌, Ret, ok, err, Error, e_bad_path, e_not_found,
}
use mit_jos_f22_advanced_os.Fs.Disk.{Disk, Place, load, store, f_size, file_get_block}
use mit_jos_f22_advanced_os.Fs.Content.{byte_at, put_byte}

abbrev pub maxnamelen : ℕ
maxnamelen = 128

-- BLKFILES: a `struct File` has 64 words.
abbrev pub blkfiles : ℕ
blkfiles = 16

abbrev pub s_root : Place
s_root = (1, 2)

abbrev pub f_type : Place → Place
f_type (b, i) = (b, i + 33)

abbrev pub ftype_dir : ℕ
ftype_dir = 1

-- Byte `j` of f_name.
abbrev pub name_byte : Place → ℕ → Disk → ℕ
name_byte (b, i) j d = byte_at b (4 * i + j) d

-- strcmp(f_name, name) == 0, from byte `j` of f_name on.
unfoldable pub is_named : List ℕ → Place → ℕ → Disk → Bool
is_named [] f j d = name_byte f j d == 0
is_named (c ∷ name) f j d = (name_byte f j d == c) && is_named name f (j + 1) d

-- strcpy to f_name, from byte `j` on.
unfoldable pub strcpy : Place → ℕ → List ℕ → Disk → Disk
strcpy (b, i) j [] d = put_byte b (4 * i + j) 0 d
strcpy (b, i) j (c ∷ name) d = strcpy (b, i) (j + 1) name (put_byte b (4 * i + j) c d)

-- &f[j], for `f` at the start of block `b`
abbrev pub entry : ℕ → ℕ → Place
entry b j = (b, 64 * j)

-- The first of `n` entries of block `b`, from `j` on, that passes the test.
unfoldable pub first_entry : (Place → Disk → Bool) → ℕ → ℕ → ℕ → Disk → Option Place
first_entry test zero j b d = none
first_entry test (suc n) j b d =
    let rest = first_entry test n (j + 1) b d in
    if test (entry b j) d then some (entry b j) else rest

-- The two loops over `n` blocks of the directory, from block `i` on: `none` if no entry passes.
unfoldable pub search_dir : (Place → Disk → Bool) → ℕ → ℕ → Place → M Disk (Ret (Option Place))
unfolding first_entry
search_dir test zero i dir = pure (ok none)
search_dir test (suc n) i dir = do
  r ← file_get_block dir i
  elim r [
    | err x ↦ pure (err x)
    | ok b ↦ λ d. elim (first_entry test blkfiles 0 b d) [
      | some f ↦ some (ok (some f), d)
      | none ↦ search_dir test n (i + 1) dir d
    ]
  ]

-- assert((dir->f_size % BLKSIZE) == 0), and the number of blocks.
unfoldable pub dir_blocks : Place → M Disk ℕ
dir_blocks dir = do size ← load (f_size dir); if size % 4096 == 0 then pure (size / 4096) else panic

unfoldable pub dir_lookup : Place → List ℕ → M Disk (Ret Place)
unfolding search_dir dir_blocks
dir_lookup dir name = do
  nblock ← dir_blocks dir
  r ← search_dir (λ f d. is_named name f 0 d) nblock 0 dir
  elim r [ err x ↦ pure (err x) | ok none ↦ pure (err e_not_found) | ok (some f) ↦ pure (ok f) ]

unfoldable pub dir_alloc_file : Place → M Disk (Ret Place)
unfolding search_dir dir_blocks
dir_alloc_file dir = do
  nblock ← dir_blocks dir
  r ← search_dir (λ f d. name_byte f 0 d == 0) nblock 0 dir
  elim r [
    | err x ↦ pure (err x)
    | ok (some f) ↦ pure (ok f)
    | ok none ↦ do
      size ← load (f_size dir)
      store (f_size dir) (size + 4096)
      block ← file_get_block dir nblock
      elim block [ err x ↦ pure (err x) | ok b ↦ pure (ok (entry b 0)) ]
  ]

unfoldable pub skip_slash : List ℕ → List ℕ
skip_slash [] = []
skip_slash (c ∷ p) = let rest = skip_slash p in if c == b'/' then rest else c ∷ p

-- The bytes up to the next slash, and the path from there on.
unfoldable pub element : List ℕ → List ℕ × List ℕ
element [] = ([], [])
element (c ∷ p) =
    let (name, rest) = element p in if c == b'/' then ([], c ∷ p) else (c ∷ name, rest)

-- What walk_path leaves in its parameters: on success the directory, if any, and the file; when
-- only the last element is missing, its directory and its name.
pub data Walk : Type 0 where
  reached : Option Place → Place → Walk
  missing : Place → List ℕ → Walk
  failed : Error → Walk

abbrev pub not_last : List ℕ → Place → List ℕ → Error → Walk
not_last [] dir name e_not_found = missing dir name
not_last rest dir name x = failed x

-- One round of the loop, from the first byte of an element of the path on; `next` is the rest.
abbrev pub walk_round : List ℕ → Place → (Place → M Disk (Option Walk)) → M Disk (Option Walk)
walk_round path f next =
    let name = (element path).0 in
    if leb maxnamelen (length name) then pure (some (failed e_bad_path)) else (do
      type ← load (f_type f)
      if not (type == ftype_dir) then pure (some (failed e_not_found)) else (do
        r ← dir_lookup f name
        elim r [
          | err x ↦ pure (some (not_last (skip_slash (element path).1) f name x))
          | ok g ↦ next g
        ]))

-- The loop; every round takes a byte or more off the path. `none` as the result means that the
-- fuel ran out.
unfoldable pub walk_from : ℕ → List ℕ → Option Place → Place → M Disk (Option Walk)
walk_from fuel [] dir f = pure (some (reached dir f))
walk_from zero (c ∷ path) dir f = pure none
walk_from (suc fuel) (c ∷ path) dir f =
    walk_round (c ∷ path) f (walk_from fuel (skip_slash (element (c ∷ path)).1) (some f))

-- A loop without an end has no result.
abbrev pub ended : Option Walk → M Disk Walk
ended none d = none
ended (some w) d = some (w, d)

unfoldable pub walk_path : List ℕ → M Disk Walk
unfolding walk_from skip_slash
walk_path path = do r ← walk_from (length path) (skip_slash path) none s_root; ended r
