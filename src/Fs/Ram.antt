-- ===== src/Fs/Ram.antt =====
-- The block cache on a disk in memory.
use mit_jos_f22_advanced_os.Base.{
  ℕ, ◌≡◌, ◌≢◌, refl, ap, ◌∙◌, sym, true, false, some, update, ◌==◌, if◌then◌else◌, arith,
}
use mathlib.Core.Option.{some-injective}
use mit_jos_f22_advanced_os.Fs.Disk.{block_is_free}
use mit_jos_f22_advanced_os.Fs.Cache.{Block, Ide, Cache, bc_pgfault, flush_block, unmap}
use mit_jos_f22_advanced_os.Fs.Cached.{flush_block-bc_pgfault}

abbrev Ram : Type 0
Ram = ℕ → Block

ram_written :
    (secno : ℕ) (w : Block) (d d' : Ram)
    → some (update d secno w) ≡ some d'
    → some (d' secno) ≡ some w
ram_written secno w d d' e =
    let same : update d secno w ≡ d' = some-injective (update d secno w) d' e in
    let stored : update d secno w secno ≡ w = ground arith in
    ap some (ap (λ (f : Ram). f secno) (sym same) ∙ stored)

ram_other :
    (secno other : ℕ) (w : Block) (d d' : Ram)
    → some (update d secno w) ≡ some d'
    → secno ≢ other
    → some (d' other) ≡ some (d other)
ram_other secno other w d d' e ne =
    let same : update d secno w ≡ d' = some-injective (update d secno w) d' e in
    let kept : update d secno w other ≡ d other = ground (arith, ne) in
    ap some (ap (λ (f : Ram). f other) (sym same) ∙ kept)

abbrev ram_disk : Ide Ram
ram_disk = record {
  ide_read = λ secno d. some (d secno);
  ide_write = λ secno w d. some (update d secno w);
  read_written = ram_written;
  read_other = ram_other;
}

-- A file system of 8 blocks; block 3 has been written to since it was loaded.
abbrev stale : Cache Ram
stale = record {
  words = λ b i. if b == 1 then 8 else if b == 3 then 7 else 0;
  mapped = λ b. true;
  dirty = λ b. b == 3;
  disk = λ secno i. if secno == 8 then 8 else 0;
  super_set = true;
  bitmap_set = true;
}

abbrev address : ℕ
address = 0x10003010

in_use : block_is_free 3 stale.words ≡ false
unfolding block_is_free
in_use = refl

flush_block-bc_pgfault_example :
    (c₁ : Cache Ram) × (c₂ : Cache Ram) × (flush_block ram_disk address stale ≡ some c₁)
    × (bc_pgfault ram_disk true address (unmap ram_disk (λ i. 99) 3 c₁) ≡ some c₂)
    × (c₂.words ≡ stale.words)
    × (c₂.mapped 3 ≡ true)
    × (c₂.dirty 3 ≡ false)
flush_block-bc_pgfault_example =
    flush_block-bc_pgfault ram_disk address (λ i. 99) stale (update stale.disk 24 (stale.words 3))
      refl refl refl refl refl in_use
