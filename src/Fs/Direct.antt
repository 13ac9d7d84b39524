-- ===== src/Fs/Direct.antt =====
-- A file that lies in the direct blocks of its `struct File`.
use mit_jos_f22_advanced_os.Base.{
  ℕ, zero, suc, ◌+◌, ◌*◌, ◌/◌, ◌≤◌, ◌<◌, ◌≡◌, refl, ◌∙◌, ◌≢◌, inr, Bool, true, false, ltb, leb,
  ◌==◌, arith, some,
}
use mit_jos_f22_advanced_os.Base.Ret.{◌>>=◌, ok}
use mit_jos_f22_advanced_os.Fs.Disk.{
  Disk, Place, load, diskaddr, s_nblocks, f_direct, file_block_walk, file_get_block, get_slot,
  block_of,
}
use mit_jos_f22_advanced_os.Fs.Spread.{IsDistinct}
use mit_jos_f22_advanced_os.Fs.Loops.{IsSame, IsLaid}
use mit_jos_f22_advanced_os.Fs.Files.{flush, flush_from, file_flush}

-- `blocks` are the `n` blocks of the file `f`: different ones, below the end of the disk, not the
-- super block and not the block of `f`.
pub record IsDirect (f : Place) (blocks : ℕ → ℕ) (n : ℕ) (d : Disk) : Type 0 where
  pub few : n ≤ 10
  pub named : (k : ℕ) → k < n → d (f_direct f k).0 (f_direct f k).1 ≡ blocks k
  pub inside : (k : ℕ) → k < n → (1 < blocks k) × (blocks k < s_nblocks d)
  pub outside : (k : ℕ) → k < n → f.0 ≢ blocks k
  pub distinct : IsDistinct blocks n

module _ (f : Place) (blocks : ℕ → ℕ) (n : ℕ) (d : Disk) (direct : IsDirect f blocks n d) where
  diskaddr-inside :
      (q : Disk)
      → IsSame f blocks n d q
      → (k : ℕ) → k < n
      → diskaddr (blocks k) q ≡ some (blocks k, q)
  unfolding diskaddr
  diskaddr-inside q same k lt =
      let (lo, hi) = direct.inside k lt in
      let super : q 1 1 ≡ d 1 1 =
        same 1 1 (λ j l e. omega (arith, direct.inside j l, e)) (inr (λ e. omega (arith, e))) in
      let room : leb (q 1 1) (blocks k) ≡ false = rw super (ground (arith, hi)) in
      let pos : (blocks k == 0) ≡ false = ground (arith, lo) in rw pos (rw room refl)

  named-IsSame :
      (q : Disk) → IsSame f blocks n d q → (k : ℕ) → k < n → q f.0 (f.1 + 34 + k) ≡ blocks k
  named-IsSame q same k lt =
      same f.0 (f.1 + 34 + k) direct.outside (inr (λ e. omega (arith, e))) ∙ direct.named k lt

  slot_lem :
      (q : Disk) (alloc : Bool) (k : ℕ)
      → k < n
      → file_block_walk f k alloc q ≡ some (ok (f_direct f k), q)
  unfolding file_block_walk
  slot_lem q alloc k lt =
      let far : leb 1034 k ≡ false = ground (arith, lt, direct.few) in
      let near : ltb k 10 ≡ true = ground (arith, lt, direct.few) in rw far (rw near refl)

  get_block :
      (q : Disk)
      → IsSame f blocks n d q
      → (k : ℕ) → k < n
      → file_get_block f k q ≡ some (ok (blocks k), q)
  unfolding file_get_block get_slot block_of
  get_block q same k lt =
      let x = named-IsSame q same k lt in
      let pos : (blocks k == 0) ≡ false = ground (arith, direct.inside k lt) in
      rw (slot_lem q true k lt, ◌>>=◌)
        (rw x (rw pos (rw x (rw (diskaddr-inside q same k lt, ◌>>=◌) refl))))

  flush_from-IsDirect :
      (m i : ℕ) (q : Disk) → IsSame f blocks n d q → i + m ≤ n → flush_from m i f q ≡ some (tt, q)
  unfolding flush_from
  flush_from-IsDirect zero i q same h = refl
  flush_from-IsDirect (suc m) i q same h =
      let lt : i < n = omega (arith, h) in
      let pos : (blocks i == 0) ≡ false = ground (arith, direct.inside i lt) in
      let flushed : (load (f_direct f i) >>= flush) q ≡ some (tt, q) =
        rw (named-IsSame q same i lt) (rw pos (rw (diskaddr-inside q same i lt, ◌>>=◌) refl)) in
      let rest = flush_from-IsDirect m (i + 1) q same (omega (arith, h)) in
      rw (slot_lem q false i lt, ◌>>=◌) (rw (flushed, ◌>>=◌) rest)

  -- file_flush of a file of `n` whole blocks, without an indirect block.
  pub file_flush-IsDirect :
      (q : Disk)
      → IsSame f blocks n d q
      → q f.0 (f.1 + 32) ≡ 4096 * n
      → d f.0 (f.1 + 44) ≡ 0
      → file_flush f q ≡ some (tt, q)
  unfolding file_flush
  file_flush-IsDirect q same size no_indirect =
      let rounds : (4096 * n + 4095) / 4096 ≡ n = omega arith in
      let x : q f.0 (f.1 + 44) ≡ 0 =
        same f.0 (f.1 + 44) direct.outside (inr (λ e. omega (arith, e))) ∙ no_indirect in
      rw size (rw rounds (rw (flush_from-IsDirect n 0 q same (omega arith), ◌>>=◌) (rw x refl)))

  pub IsDirect-IsLaid : IsLaid f blocks n d
  IsDirect-IsLaid = record {
    found = get_block;
    outside = direct.outside;
    distinct = direct.distinct;
  }
