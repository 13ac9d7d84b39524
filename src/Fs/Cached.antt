-- ===== src/Fs/Cached.antt =====
-- The block cache keeps the disk's blocks: what is flushed is what a later fault loads.
use mit_jos_f22_advanced_os.Base.{
  ℕ, ◌*◌, ◌≡◌, ◌≢◌, ◌⊎◌, inl, inr, refl, ap, ◌∙◌, sym, Bool, true, false, ◌&&◌, ◌||◌, not, none,
  some, update, leb, ◌==◌, arith, Bool-cases, Option-cases, fun_ext,
}
use mit_jos_f22_advanced_os.Fs.Disk.{s_nblocks, block_is_free}
use mit_jos_f22_advanced_os.Fs.Cache.{
  Block, Ide, Cache, blockno_of, is_outside, bc_pgfault, flush_block, unmap, loaded, blksects,
}

-- Every mapped block without PTE_D has the words that are on the disk.
abbrev pub IsCoherent : {D : Type 0} → Ide D → Cache D → Type 0
IsCoherent ide c =
    (b : ℕ)
    → c.mapped b ≡ true
    → c.dirty b ≡ false
    → ide.ide_read (b * blksects) c.disk ≡ some (c.words b)

-- flush_block keeps the cache coherent, changes no word of it, and leaves the block clean; it does
-- nothing for a block that is not mapped or is clean. It panics outside the map and when the disk
-- fails.
pub flush_block-IsCoherent :
    {D : Type 0} (ide : Ide D) (addr : ℕ) (c : Cache D)
    → IsCoherent ide c
    → (flush_block ide addr c ≡ none)
      ⊎ ((c' : Cache D) × (flush_block ide addr c ≡ some c')
          × IsCoherent ide c'
          × (c'.words ≡ c.words)
          × ((c'.mapped (blockno_of addr) ≡ false) ⊎ (c'.dirty (blockno_of addr) ≡ false)))
unfolding flush_block
flush_block-IsCoherent {D} ide addr c coherent =
    let b = blockno_of addr in
    elim (Bool-cases (is_outside addr)) [
      | inl out ↦ inl (rw (out, flush_block) refl)
      | inr within ↦ elim (Bool-cases (not (c.mapped b) || not (c.dirty b))) [
        | inl clean ↦ inr (
          c,
          rw (within, flush_block) (rw (clean, flush_block) refl),
          coherent,
          refl,
          ground (arith, clean),
        )
        | inr stale ↦ elim (Option-cases (ide.ide_write (b * blksects) (c.words b) c.disk)) [
          | inl e ↦
              inl (rw (within, flush_block) (rw (stale, flush_block) (rw (e, flush_block) refl)))
          | inr (d, e) ↦
              let c' : Cache D = record c { disk = d; dirty = update c.dirty b false } in
              let kept : IsCoherent ide c' = λ x on off. elim (Bool-cases (b == x)) [
                | inl same ↦
                    let at : b ≡ x = ground (arith, same) in
                    rw (sym at) (ide.read_written (b * blksects) (c.words b) c.disk d e)
                | inr other ↦
                    let apart : b * blksects ≢ x * blksects =
                      λ h. absurd (ground (arith, other, h)) in
                    ide.read_other (b * blksects) (x * blksects) (c.words b) c.disk d e apart
                    ∙ coherent x on (ground (arith, off, other))
              ] in
              inr (
                c',
                rw (within, flush_block) (rw (stale, flush_block) (rw (e, flush_block) refl)),
                kept,
                refl,
                inr (ground arith),
              )
        ]
      ]
    ]

loaded-IsCoherent :
    {D : Type 0} (ide : Ide D) (b : ℕ) (w : Block) (c : Cache D)
    → ide.ide_read (b * blksects) c.disk ≡ some w
    → IsCoherent ide c
    → IsCoherent ide (loaded ide b w c)
loaded-IsCoherent ide b w c e coherent x on off = elim (Bool-cases (b == x)) [
  | inl same ↦
      let at : b ≡ x = ground (arith, same) in
      let here : update c.words b w b ≡ w = ground arith in rw (sym at) (rw here e)
  | inr other ↦
      let there : update c.words b w x ≡ c.words x = ground (arith, other) in
      rw there (coherent x (ground (arith, on, other)) (ground (arith, off, other)))
]

-- bc_pgfault keeps the cache coherent, and makes the block of the address mapped and clean; it
-- panics outside the map, for a block that the file system does not have or that is free, without
-- memory, and when the disk fails.
pub bc_pgfault-IsCoherent :
    {D : Type 0} (ide : Ide D) (room : Bool) (addr : ℕ) (c : Cache D)
    → IsCoherent ide c
    → (bc_pgfault ide room addr c ≡ none)
      ⊎ ((c' : Cache D) × (bc_pgfault ide room addr c ≡ some c')
          × IsCoherent ide c'
          × (c'.mapped (blockno_of addr) ≡ true)
          × (c'.dirty (blockno_of addr) ≡ false))
unfolding bc_pgfault
bc_pgfault-IsCoherent {D} ide room addr c coherent =
    let b = blockno_of addr in
    elim (Bool-cases (is_outside addr)) [
      | inl out ↦ inl (rw (out, bc_pgfault) refl)
      | inr within ↦ elim (Bool-cases (c.super_set && leb (s_nblocks c.words) b)) [
        | inl behind ↦ inl (rw (within, bc_pgfault) (rw (behind, bc_pgfault) refl))
        | inr known ↦ elim (Bool-cases room) [
          | inr full ↦ inl (rw (within, bc_pgfault) (rw (known, bc_pgfault) (rw full refl)))
          | inl free ↦ elim (Option-cases (ide.ide_read (b * blksects) c.disk)) [
            | inl e ↦ inl (
                rw (within, bc_pgfault)
                  (rw (known, bc_pgfault) (rw free (rw (e, bc_pgfault) refl))))
            | inr (w, e) ↦
                let c' = loaded ide b w c in
                elim (Bool-cases (c.bitmap_set && block_is_free b c'.words)) [
                  | inl unused ↦ inl (
                      rw (within, bc_pgfault)
                        (rw (known, bc_pgfault) (rw free (rw (e, bc_pgfault) (rw unused refl)))))
                  | inr used ↦ inr (
                    c',
                    rw (within, bc_pgfault)
                        (rw (known, bc_pgfault) (rw free (rw (e, bc_pgfault) (rw used refl)))),
                    loaded-IsCoherent ide b w c e coherent,
                    ground arith,
                    ground arith,
                  )
                ]
          ]
        ]
      ]
    ]

own_lem : {A : Type 0} (f : ℕ → A) (b : ℕ) (y : A) (x : ℕ) → update (update f b y) b (f b) x ≡ f x
own_lem f b y x = elim (Bool-cases (b == x)) [
  | inl on ↦ let at : b ≡ x = ground (arith, on) in rw on (ap f at)
  | inr off ↦ rw off refl
]

update_own : {A : Type 0} (f : ℕ → A) (b : ℕ) (y : A) → update (update f b y) b (f b) ≡ f
update_own f b y = fun_ext λ x. own_lem f b y x

-- A dirty block of the file system that is flushed, unmapped and then read again has the words that
-- it had, whatever is in its place while it is not mapped, as long as the disk takes the write, the
-- block is in use and, if `super` is set, the size of the file system, read while the block is not
-- mapped, is above the block's number.
pub flush_block-bc_pgfault :
    {D : Type 0} (ide : Ide D) (addr : ℕ) (lost : Block) (c : Cache D) (d : D)
    → is_outside addr ≡ false
    → c.mapped (blockno_of addr) ≡ true
    → c.dirty (blockno_of addr) ≡ true
    → ide.ide_write (blockno_of addr * blksects) (c.words (blockno_of addr)) c.disk ≡ some d
    → (c.super_set && leb (s_nblocks (update c.words (blockno_of addr) lost)) (blockno_of addr))
      ≡ false
    → block_is_free (blockno_of addr) c.words ≡ false
    → (c₁ : Cache D) × (c₂ : Cache D) × (flush_block ide addr c ≡ some c₁)
      × (bc_pgfault ide true addr (unmap ide lost (blockno_of addr) c₁) ≡ some c₂)
      × (c₂.words ≡ c.words)
      × (c₂.mapped (blockno_of addr) ≡ true)
      × (c₂.dirty (blockno_of addr) ≡ false)
unfolding flush_block bc_pgfault unmap
flush_block-bc_pgfault {D} ide addr lost c d within on stale e known used =
    let b = blockno_of addr in
    let c₁ : Cache D = record c { disk = d; dirty = update c.dirty b false } in
    let w = c.words b in
    let back = ide.read_written (b * blksects) w c.disk d e in
    let keep : (not (c.mapped b) || not (c.dirty b)) ≡ false = ground (arith, on, stale) in
    let same = update_own c.words b lost in
    let used' : (c.bitmap_set && block_is_free b (update (update c.words b lost) b w)) ≡ false =
      rw same (ground (arith, used)) in
    (
      c₁,
      loaded ide b w (unmap ide lost b c₁),
      rw (within, flush_block) (rw (keep, flush_block) (rw (e, flush_block) refl)),
      rw (within, bc_pgfault) (rw (known, bc_pgfault) (rw (back, bc_pgfault) (rw used' refl))),
      same,
      ground arith,
      ground arith,
    )
