-- ===== src/Fs/Stored.antt =====
-- file_write and file_read one after the other, on a file whose blocks are allocated.
use mit_jos_f22_advanced_os.Base.{
  ◌/◌, ◌%◌, ◌^◌, ◌⊎◌, ◌≢◌, ℕ, ◌+◌, ◌*◌, ◌≤◌, ◌<◌, ◌≡◌, refl, ap, ◌∙◌, sym, inl, inr, false, List,
  update, ltb, if◌then◌else◌, length, arith, All, fun_ext, some, Bool-cases,
}
use mit_jos_f22_advanced_os.Base.Ret.{◌>>=◌, ok}
use mit_jos_f22_advanced_os.Fs.Disk.{Disk, Place, f_size, file_set_size}
use mit_jos_f22_advanced_os.Fs.Content.{more, file_read, file_write}
use mit_jos_f22_advanced_os.Fs.Spread.{byte, spread}
use mit_jos_f22_advanced_os.Fs.Loops.{
  byte-spread_outside, IsSame, IsLaid, spread_other, write_from-spread, file_read-span, span-spread,
}

-- The size of a file after `count` bytes were written at `offset`.
abbrev pub grown : Place → ℕ → Disk → ℕ
grown f end d = let (b, i) = f_size f in if ltb (d b i) end then end else d b i

sized : Place → ℕ → Disk → Disk
sized f end d = let (b, i) = f_size f in update d b (update (d b) i (grown f end d))

size-sized : (f : Place) (end : ℕ) (d : Disk) → sized f end d f.0 (f.1 + 32) ≡ grown f end d
unfolding sized
size-sized f end d = ground arith

grown_lem : (f : Place) (end : ℕ) (d : Disk) → end ≤ grown f end d
grown_lem f end d = ground arith

set_size_lem :
    (f : Place) (end : ℕ) (d : Disk)
    → (if ltb (d f.0 (f.1 + 32)) end then file_set_size f end else (λ q. some (tt, q))) d
      ≡ some (tt, sized f end d)
unfolding sized file_set_size
set_size_lem f end d = elim (Bool-cases (ltb (d f.0 (f.1 + 32)) end)) [
  | inl less ↦
      let keep : ltb end (d f.0 (f.1 + 32)) ≡ false = ground (arith, less) in rw less (rw keep refl)
  | inr more ↦
      let same : update d f.0 (update (d f.0) (f.1 + 32) (d f.0 (f.1 + 32))) ≡ d =
        fun_ext (λ x. fun_ext (λ y. ground arith)) in
      rw more (ap (λ q. some (tt, q)) (sym same))
]

sized-IsSame :
    (f : Place) (blocks : ℕ → ℕ) (n end : ℕ) (d : Disk) → IsSame f blocks n d (sized f end d)
unfolding sized
sized-IsSame f blocks n end d b i away (inl ne) = ground (arith, ne)
sized-IsSame f blocks n end d b i away (inr ne) = ground (arith, ne)

byte-sized :
    (f : Place) (blocks : ℕ → ℕ) (n end r : ℕ) (d : Disk)
    → ((k : ℕ) → k < n → f.0 ≢ blocks k)
    → r < 4096 * n
    → byte blocks (sized f end d) r ≡ byte blocks d r
unfolding sized
byte-sized f blocks n end r d outside lt =
    let away : f.0 ≢ blocks (r / 4096) = outside (r / 4096) (omega (arith, lt)) in
    let same : sized f end d (blocks (r / 4096)) (r % 4096 / 4)
        ≡ d (blocks (r / 4096)) (r % 4096 / 4) =
      ground (arith, away) in
    ap (λ w. w / 256 ^ (r % 4096 % 4) % 256) same

-- file_write stores the bytes of a buffer in a file whose blocks are allocated and different ones,
-- at an offset for which they fit: it returns their number, file_read reads them back from there,
-- the size grows to the end of what was written if it was less, no other byte of these blocks
-- changes, and no other word of the disk.
pub file_write-file_read :
    (f : Place) (blocks : ℕ → ℕ) (n : ℕ) (buf : List ℕ) (offset : ℕ) (d : Disk)
    → IsLaid f blocks n d
    → offset + length buf ≤ 4096 * n
    → All (λ c. c < 256) buf
    → (d' : Disk) × (file_write f buf offset d ≡ some (ok (length buf), d'))
      × (file_read f (length buf) offset d' ≡ some (ok buf, d'))
      × (d' (f_size f).0 (f_size f).1 ≡ grown f (offset + length buf) d)
      × ((r : ℕ)
          → r < 4096 * n
          → (r < offset) ⊎ (offset + length buf ≤ r)
          → byte blocks d' r ≡ byte blocks d r)
      × IsSame f blocks n d d'
unfolding file_write file_read
file_write-file_read f blocks n buf offset d laid h small =
    let end = offset + length buf in
    let d₁ = sized f end d in
    let d' = spread blocks buf offset d₁ in
    let same : IsSame f blocks n d d₁ = sized-IsSame f blocks n end d in
    let same' : IsSame f blocks n d d' =
      λ b i away meta. spread_other blocks n buf offset b i d₁ h away ∙ same b i away meta in
    let wrote =
      write_from-spread f blocks n d laid (length buf) buf offset d₁ (omega arith) h same in
    let size =
      spread_other blocks n buf offset f.0 (f.1 + 32) d₁ h laid.outside ∙ size-sized f end d in
    let kept : (r : ℕ)
        → r < 4096 * n
        → (r < offset) ⊎ (offset + length buf ≤ r)
        → byte blocks d' r ≡ byte blocks d r =
      λ r lt out.
        byte-spread_outside blocks n laid.distinct buf offset r d₁ h small lt out
        ∙ byte-sized f blocks n end r d laid.outside lt in
    let room : end ≤ d' f.0 (f.1 + 32) = rw size (grown_lem f end d) in
    let read =
      file_read-span f blocks n d laid (length buf) offset d' h room same'
      ∙ ap (λ s. some (ok s, d')) (span-spread blocks n laid.distinct buf offset d₁ h small) in
    (d', rw (set_size_lem f end d, ◌>>=◌) (rw (wrote, ◌>>=◌) refl), read, size, kept, same')
