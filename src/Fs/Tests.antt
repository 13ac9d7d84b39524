-- ===== src/Fs/Tests.antt =====
-- The theorems about fs/fs.c run on a small disk.
use mit_jos_f22_advanced_os.Base.{
  ℕ, ◌<◌, ◌≡◌, refl, ◌⊎◌, true, false, ◌&&◌, not, some, update, ◌==◌, if◌then◌else◌,
}
use mit_jos_f22_advanced_os.Base.Ret.{ok, err, e_no_disk}
use mit_jos_f22_advanced_os.Fs.Disk.{
  Disk, s_nblocks, block_is_free, alloc_block, take_block, first_block,
}
use mit_jos_f22_advanced_os.Fs.Bitmap.{alloc_block_lem}

-- Eight blocks of which 5 and 6 are free.
abbrev small : Disk
small b i = if (b == 1) && (i == 1) then 8 else if (b == 2) && (i == 0) then 0x60 else 0

abbrev after : Disk
after = update small 2 (update (small 2) 0 0x40)

small-run : (block_is_free 0 small ≡ false) × (alloc_block small ≡ some (ok 5, after))
unfolding alloc_block first_block block_is_free take_block
small-run = (refl, refl)

alloc_block_lem_example :
    ((i : ℕ) × (d' : Disk) × (alloc_block small ≡ some (ok i, d'))
      × (block_is_free i small ≡ true)
      × ((j : ℕ) → j < i → block_is_free j small ≡ false)
      × ((j : ℕ) → block_is_free j d' ≡ (not (i == j) && block_is_free j small))
      × (s_nblocks d' ≡ s_nblocks small))
    ⊎ ((alloc_block small ≡ some (err e_no_disk, small))
        × ((j : ℕ) → block_is_free j small ≡ false))
alloc_block_lem_example = alloc_block_lem small
