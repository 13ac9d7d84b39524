-- ===== src/Fs/Cache.antt =====
-- bc_pgfault, flush_block, va_is_mapped and va_is_dirty of fs/bc.c.
--
-- The cache is the words of the mapped blocks with the bits PTE_P and PTE_D of their pages. The disk
-- behind it is any state `D` with ide_read and ide_write of one block at a sector, where `none` is a
-- negative result. `room` says whether sys_page_alloc gets a page. A read of the bitmap's own block
-- while it is not mapped would fault again, and is not followed.
use mit_jos_f22_advanced_os.Base.{
  ℕ, ◌+◌, ◌-◌, ◌*◌, ◌/◌, ◌≡◌, ◌≢◌, Bool, true, false, ◌&&◌, ◌||◌, not, Option, none, some, update,
  ltb, leb, if◌then◌else◌,
}
use mit_jos_f22_advanced_os.Fs.Disk.{Disk, s_nblocks, block_is_free}

-- A block's words.
abbrev pub Block : Type 0
Block = ℕ → ℕ

-- fs/ide.c for the sectors of one block, with what the file server relies on: a write succeeds or
-- not by its sector alone, and a block that has been written is what is read there.
pub record Ide (D : Type 0) : Type 0 where
  pub ide_read : ℕ → D → Option Block
  pub ide_write : ℕ → Block → D → Option D
  pub read_written :
      (secno : ℕ) (w : Block) (d d' : D)
      → ide_write secno w d ≡ some d'
      → ide_read secno d' ≡ some w
  pub read_other :
      (secno other : ℕ) (w : Block) (d d' : D)
      → ide_write secno w d ≡ some d'
      → secno ≢ other
      → ide_read other d' ≡ ide_read other d

abbrev pub diskmap : ℕ
diskmap = 0x10000000

abbrev pub disksize : ℕ
disksize = 0xC0000000

-- BLKSECTS
abbrev pub blksects : ℕ
blksects = 8

-- `super_set` and `bitmap_set`: the pointers `super` and `bitmap` are not NULL.
pub record Cache (D : Type 0) : Type 0 where
  pub words : Disk
  pub mapped : ℕ → Bool
  pub dirty : ℕ → Bool
  pub disk : D
  pub super_set : Bool
  pub bitmap_set : Bool

abbrev pub blockno_of : ℕ → ℕ
blockno_of addr = (addr - diskmap) / 4096

abbrev pub is_outside : ℕ → Bool
is_outside addr = ltb addr diskmap || leb (diskmap + disksize) addr

module _ {D : Type 0} (ide : Ide D) where
  -- The page of a block with new words and no PTE_D.
  abbrev pub loaded : ℕ → Block → Cache D → Cache D
  loaded b w c = record c {
    words = update c.words b w;
    mapped = update c.mapped b true;
    dirty = update c.dirty b false;
  }

  -- `none` is a panic.
  unfoldable pub bc_pgfault : Bool → ℕ → Cache D → Option (Cache D)
  bc_pgfault room addr c =
      let b = blockno_of addr in
      if is_outside addr
      then none
      else if c.super_set && leb (s_nblocks c.words) b
      then none
      else if not room
      then none
      else elim (ide.ide_read (b * blksects) c.disk) [
        | none ↦ none
        | some w ↦
            if c.bitmap_set && block_is_free b (loaded b w c).words
            then none
            else some (loaded b w c)
      ]

  unfoldable pub flush_block : ℕ → Cache D → Option (Cache D)
  flush_block addr c =
      let b = blockno_of addr in
      if is_outside addr
      then none
      else if not (c.mapped b) || not (c.dirty b)
      then some c
      else elim (ide.ide_write (b * blksects) (c.words b) c.disk) [
        | none ↦ none
        | some d ↦ some (record c { disk = d; dirty = update c.dirty b false })
      ]

  -- A store through the map, which sets PTE_D.
  unfoldable pub store_word : ℕ → ℕ → ℕ → Cache D → Cache D
  store_word b i v c = record c {
    words = update c.words b (update (c.words b) i v);
    dirty = update c.dirty b true;
  }

  -- sys_page_unmap(0, diskaddr(b)); `lost` stands for the words of a block that is not mapped, which
  -- nobody can read.
  unfoldable pub unmap : Block → ℕ → Cache D → Cache D
  unmap lost b c = record c {
    words = update c.words b lost;
    mapped = update c.mapped b false;
    dirty = update c.dirty b false;
  }
