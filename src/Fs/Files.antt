-- ===== src/Fs/Files.antt =====
-- file_create, file_open, file_flush and file_remove of fs/fs.c.
--
-- flush_block of fs/bc.c writes a block back to the disk and leaves its words alone.
use mit_jos_f22_advanced_os.Base.{
  ℕ, zero, suc, ◌+◌, ◌*◌, ◌/◌, false, List, some, ◌==◌, if◌then◌else◌,
}
use mit_jos_f22_advanced_os.Base.Ret.{
  M, pure, ◌>>=◌, ◌>>◌, Ret, ok, err, e_file_exists, e_not_found,
}
use mit_jos_f22_advanced_os.Fs.Disk.{
  Disk, Place, load, store, diskaddr, f_size, f_indirect, file_block_walk, file_truncate_blocks,
}
use mit_jos_f22_advanced_os.Fs.Content.{put_byte}
use mit_jos_f22_advanced_os.Fs.Dir.{
  Walk, reached, missing, failed, walk_path, dir_alloc_file, strcpy,
}

-- flush_block(diskaddr(x)), or nothing for a block number 0.
abbrev pub flush : ℕ → M Disk (Unit {0})
flush x = if x == 0 then pure tt else (diskaddr x >>= λ b. pure tt)

-- `n` rounds of the loop of file_flush, from block `i` of the file on.
unfoldable pub flush_from : ℕ → ℕ → Place → M Disk (Unit {0})
flush_from zero i f = pure tt
flush_from (suc n) i f = do
  r ← file_block_walk f i false
  elim r [ err x ↦ pure tt | ok slot ↦ load slot >>= flush ]
  flush_from n (i + 1) f

unfoldable pub file_flush : Place → M Disk (Unit {0})
unfolding flush_from
file_flush f = do
  size ← load (f_size f)
  flush_from ((size + 4095) / 4096) 0 f
  x ← load (f_indirect f)
  flush x

-- From dir_alloc_file on.
unfoldable pub create_in : Place → List ℕ → M Disk (Ret Place)
create_in dir name = do
  r ← dir_alloc_file dir
  elim r [
    | err x ↦ pure (err x)
    | ok f ↦ do λ d. some (tt, strcpy f 0 name d); file_flush dir; pure (ok f)
  ]

unfoldable pub file_create : List ℕ → M Disk (Ret Place)
unfolding create_in
file_create path = do
  w ← walk_path path
  elim w [
    | reached dir f ↦ pure (err e_file_exists)
    | missing dir name ↦ create_in dir name
    | failed x ↦ pure (err x)
  ]

abbrev pub file_of : Walk → Ret Place
file_of (reached dir f) = ok f
file_of (missing dir name) = err e_not_found
file_of (failed x) = err x

unfoldable pub file_open : List ℕ → M Disk (Ret Place)
file_open path = do w ← walk_path path; pure (file_of w)

-- file_truncate_blocks(f, 0), f->f_name[0] = 0, f->f_size = 0
unfoldable pub erase : Place → M Disk (Unit {0})
erase (b, i) = do
  file_truncate_blocks (b, i) 0
  λ d. some (tt, put_byte b (4 * i) 0 d)
  store (f_size (b, i)) 0

unfoldable pub file_remove : List ℕ → M Disk (Ret (Unit {0}))
unfolding file_open erase
file_remove path = do
  r ← file_open path
  elim r [ err x ↦ pure (err x) | ok f ↦ erase f >> pure (ok tt) ]
