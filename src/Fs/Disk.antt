-- ===== src/Fs/Disk.antt =====
-- The block bitmap and the block pointers of a file: fs/fs.c and diskaddr of fs/bc.c.
--
-- The disk is the words of its blocks, as the block cache maps them at DISKMAP; a pointer into the
-- map is a block number and the index of a 32-bit word. A `struct File *` points to the first word
-- of its structure (inc/fs.h). flush_block writes a block back to the disk and leaves the words
-- alone. A size is an `off_t` of at least 0.
use mit_jos_f22_advanced_os.Base.{
  ℕ, zero, suc, ◌+◌, ◌-◌, ◌/◌, ◌%◌, ◌^◌, Bool, true, false, ◌&&◌, ◌||◌, not, Option, none, some,
  update, ltb, leb, ◌==◌, if◌then◌else◌, bit_or, bit_and,
}
use mit_jos_f22_advanced_os.Base.Ret.{
  M, pure, panic, ◌>>=◌, ◌>>◌, Ret, ok, err, e_inval, e_no_disk, e_not_found,
}

abbrev pub Disk : Type 0
Disk = ℕ → ℕ → ℕ

abbrev pub Place : Type 0
Place = ℕ × ℕ

abbrev pub load : Place → M Disk ℕ
load (b, i) d = some (d b i, d)

abbrev pub store : Place → ℕ → M Disk (Unit {0})
store (b, i) w d = some (tt, update d b (update (d b) i w))

-- super->s_nblocks
abbrev pub s_nblocks : Disk → ℕ
s_nblocks d = d 1 1

-- &bitmap[k]: the bitmap begins with block 2, and a block has 1024 words.
abbrev pub bitmap : ℕ → Place
bitmap k = (2 + k / 1024, k % 1024)

-- The fields of the `struct File` at a place.
abbrev pub f_size : Place → Place
f_size (b, i) = (b, i + 32)

abbrev pub f_direct : Place → ℕ → Place
f_direct (b, i) n = (b, i + 34 + n)

abbrev pub f_indirect : Place → Place
f_indirect (b, i) = (b, i + 44)

abbrev pub ndirect : ℕ
ndirect = 10

abbrev pub nindirect : ℕ
nindirect = 1024

-- diskaddr, as a block number
unfoldable pub diskaddr : ℕ → M Disk ℕ
diskaddr blockno d = if (blockno == 0) || leb (s_nblocks d) blockno then none else some (blockno, d)

-- memset(diskaddr(x), 0, BLKSIZE)
unfoldable pub clear : ℕ → M Disk (Unit {0})
clear x = do b ← diskaddr x; λ d. some (tt, update d b (λ _. 0))

unfoldable pub block_is_free : ℕ → Disk → Bool
block_is_free blockno d =
    let (b, i) = bitmap (blockno / 32) in
    if leb (s_nblocks d) blockno then false else not (bit_and (d b i) (2 ^ (blockno % 32)) == 0)

unfoldable pub free_block : ℕ → M Disk (Unit {0})
free_block blockno = if blockno == 0 then panic else (do
  w ← load (bitmap (blockno / 32))
  store (bitmap (blockno / 32)) (bit_or w (2 ^ (blockno % 32))))

-- bitmap[i / 32] &= ~(1 << (i % 32))
unfoldable pub take_block : ℕ → M Disk (Unit {0})
take_block i = do
  w ← load (bitmap (i / 32))
  store (bitmap (i / 32)) (bit_and w (2 ^ 32 - 1 - 2 ^ (i % 32)))

-- The loop of alloc_block: the first free block among `n`, from `i` on.
unfoldable pub first_block : ℕ → ℕ → Disk → Option ℕ
first_block zero i d = none
first_block (suc n) i d =
    let rest = first_block n (i + 1) d in if block_is_free i d then some i else rest

unfoldable pub alloc_block : M Disk (Ret ℕ)
unfolding take_block
alloc_block d = elim (first_block (s_nblocks d) 0 d) [
  | none ↦ some (err e_no_disk, d)
  | some i ↦ (do take_block i; pure (ok i)) d
]

-- The loop of check_bitmap over `n` bitmap blocks.
unfoldable pub in_use : ℕ → Disk → Bool
in_use zero d = true
in_use (suc n) d = in_use n d && not (block_is_free (2 + n) d)

unfoldable pub check_bitmap : M Disk (Unit {0})
unfolding in_use
check_bitmap d =
    if in_use ((s_nblocks d + 32767) / 32768) d
      && not (block_is_free 0 d)
      && not (block_is_free 1 d)
    then some (tt, d)
    else none

-- The place behind an indirect block, which file_block_walk has allocated if there was none.
unfoldable pub indirect_slot : Place → ℕ → M Disk (Ret Place)
indirect_slot f filebno = do
  x ← load (f_indirect f)
  b ← diskaddr x
  pure (ok (b, filebno - ndirect))

unfoldable pub new_indirect : Place → ℕ → Ret ℕ → M Disk (Ret Place)
unfolding indirect_slot clear
new_indirect f filebno (err _) = pure (err e_no_disk)
new_indirect f filebno (ok x) = do store (f_indirect f) x; clear x; indirect_slot f filebno

unfoldable pub file_block_walk : Place → ℕ → Bool → M Disk (Ret Place)
unfolding new_indirect indirect_slot
file_block_walk f filebno alloc =
    if leb (ndirect + nindirect) filebno
    then pure (err e_inval)
    else if ltb filebno ndirect
    then pure (ok (f_direct f filebno))
    else (do
      x ← load (f_indirect f)
      if not (x == 0)
          then indirect_slot f filebno
          else if not alloc
          then pure (err e_not_found)
          else alloc_block >>= new_indirect f filebno)

-- *pdiskno = x, the new block cleared
unfoldable pub fill : Place → Ret ℕ → M Disk (Ret (Unit {0}))
unfolding clear
fill pdiskno (err _) = pure (err e_no_disk)
fill pdiskno (ok x) = do store pdiskno x; clear x; pure (ok tt)

-- The block number, which the C function returns as its address.
unfoldable pub block_of : Place → Ret (Unit {0}) → M Disk (Ret ℕ)
block_of pdiskno (err x) = pure (err x)
block_of pdiskno (ok _) = do x ← load pdiskno; b ← diskaddr x; pure (ok b)

unfoldable pub get_slot : Ret Place → M Disk (Ret ℕ)
unfolding fill block_of
get_slot (err x) = pure (err x)
get_slot (ok pdiskno) = do
  x ← load pdiskno
  r ← (if x == 0 then alloc_block >>= fill pdiskno else pure (ok tt))
  block_of pdiskno r

unfoldable pub file_get_block : Place → ℕ → M Disk (Ret ℕ)
unfolding get_slot
file_get_block f filebno = file_block_walk f filebno true >>= get_slot

unfoldable pub drop_slot : Ret Place → M Disk (Ret (Unit {0}))
drop_slot (err x) = pure (err x)
drop_slot (ok ptr) = do
  x ← load ptr
  if x == 0 then pure tt else (do free_block x; store ptr 0)
  pure (ok tt)

unfoldable pub file_free_block : Place → ℕ → M Disk (Ret (Unit {0}))
unfolding drop_slot
file_free_block f filebno = file_block_walk f filebno false >>= drop_slot

-- `n` rounds of the loop of file_truncate_blocks; an error is only printed.
unfoldable pub free_blocks : ℕ → ℕ → Place → M Disk (Unit {0})
free_blocks zero bno f = pure tt
free_blocks (suc n) bno f = do r ← file_free_block f bno; free_blocks n (bno + 1) f

unfoldable pub file_truncate_blocks : Place → ℕ → M Disk (Unit {0})
unfolding free_blocks
file_truncate_blocks f newsize = do
  size ← load (f_size f)
  let old_nblocks = (size + 4095) / 4096
  let new_nblocks = (newsize + 4095) / 4096
  free_blocks (old_nblocks - new_nblocks) new_nblocks f
  x ← load (f_indirect f)
  if leb new_nblocks ndirect && not (x == 0)
      then (do free_block x; store (f_indirect f) 0)
      else pure tt

unfoldable pub file_set_size : Place → ℕ → M Disk (Unit {0})
unfolding file_truncate_blocks
file_set_size f newsize = do
  size ← load (f_size f)
  if ltb newsize size then file_truncate_blocks f newsize else pure tt
  store (f_size f) newsize
