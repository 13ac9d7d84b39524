-- ===== src/Fs/Loops.antt =====
-- The loops of file_read and file_write on a file whose blocks are allocated.
use mit_jos_f22_advanced_os.Base.{
  ℕ, zero, suc, ◌+◌, ◌-◌, ◌*◌, ◌/◌, ◌%◌, ◌≤◌, ◌<◌, ◌≡◌, refl, ap, ◌∙◌, sym, ◌≢◌, ◌⊎◌, inl, inr,
  false, List, [], ◌∷◌, ◌++◌, leb, length, arith, All, some, Bool-cases,
}
use mathlib.Core.Path.{subst}
use mit_jos_f22_advanced_os.Base.Ret.{◌>>=◌, ok}
use mit_jos_f22_advanced_os.Fs.Disk.{Disk, Place, f_size, file_get_block}
use mit_jos_f22_advanced_os.Fs.Content.{
  put_byte, min, bytes_at, put_bytes, drop, chunk, read_from, write_from, file_read,
}
use mit_jos_f22_advanced_os.Fs.Spread.{
  byte, span, spread, span_add, bytes_at-span, put_bytes-spread, IsDistinct, byte-put_byte,
}

-- `q` is `d` but for the first `n` blocks and the size of the file `f`.
abbrev pub IsSame : Place → (ℕ → ℕ) → ℕ → Disk → Disk → Type 0
IsSame f blocks n d q =
    (b i : ℕ)
    → ((k : ℕ) → k < n → b ≢ blocks k)
    → (b ≢ (f_size f).0) ⊎ (i ≢ (f_size f).1)
    → q b i ≡ d b i

-- The first `n` blocks of the file `f` are `blocks`, all different and not the one with its
-- `struct File`, and no content of theirs changes this.
pub record IsLaid (f : Place) (blocks : ℕ → ℕ) (n : ℕ) (d : Disk) : Type 0 where
  pub found :
      (q : Disk)
      → IsSame f blocks n d q
      → (k : ℕ) → k < n
      → file_get_block f k q ≡ some (ok (blocks k), q)
  pub outside : (k : ℕ) → k < n → f.0 ≢ blocks k
  pub distinct : IsDistinct blocks n

length-drop : (k : ℕ) (buf : List ℕ) → length (drop k buf) ≡ length buf - k
unfolding drop
length-drop zero buf = omega arith
length-drop (suc k) [] = omega arith
length-drop (suc k) (c ∷ buf) = omega (arith, length-drop k buf)

put_bytes_other :
    (k : ℕ) (buf : List ℕ) (b o b' i : ℕ) (d : Disk) → b' ≢ b → put_bytes k buf b o d b' i ≡ d b' i
unfolding put_bytes
put_bytes_other zero buf b o b' i d ne = refl
put_bytes_other (suc k) [] b o b' i d ne = refl
put_bytes_other (suc k) (c ∷ buf) b o b' i d ne =
    put_bytes_other k buf b (o + 1) b' i (put_byte b o c d) ne ∙ ground (arith, ne)

pub spread_other :
    (blocks : ℕ → ℕ) (n : ℕ) (buf : List ℕ) (p b i : ℕ) (d : Disk)
    → p + length buf ≤ 4096 * n
    → ((k : ℕ) → k < n → b ≢ blocks k)
    → spread blocks buf p d b i ≡ d b i
unfolding spread
spread_other blocks n [] p b i d h ne = refl
spread_other blocks n (c ∷ buf) p b i d h ne =
    let away = ne (p / 4096) (omega (arith, h)) in
    spread_other blocks n buf (p + 1) b i (put_byte (blocks (p / 4096)) (p % 4096) c d)
      (omega (arith, h)) ne
    ∙ ground (arith, away)

module _ (blocks : ℕ → ℕ) (n : ℕ) (distinct : IsDistinct blocks n) where
  -- Only the bytes of the buffer change.
  pub byte-spread_outside :
      (buf : List ℕ) (p r : ℕ) (d : Disk)
      → p + length buf ≤ 4096 * n
      → All (λ c. c < 256) buf
      → r < 4096 * n
      → (r < p) ⊎ (p + length buf ≤ r)
      → byte blocks (spread blocks buf p d) r ≡ byte blocks d r
  unfolding spread
  byte-spread_outside [] p r d h small inside out = refl
  byte-spread_outside (c ∷ buf) p r d h small inside out =
      byte-spread_outside buf (p + 1) r (put_byte (blocks (p / 4096)) (p % 4096) c d)
        (omega (arith, h)) small.1 inside (ground (arith, out))
      ∙ byte-put_byte blocks n p r c d distinct (omega (arith, h)) inside small.0
      ∙ ground (arith, out)

  pub span-spread :
      (buf : List ℕ) (p : ℕ) (d : Disk)
      → p + length buf ≤ 4096 * n
      → All (λ c. c < 256) buf
      → span blocks (length buf) p (spread blocks buf p d) ≡ buf
  unfolding spread span
  span-spread [] p d h small = refl
  span-spread (c ∷ buf) p d h small =
      let d' = put_byte (blocks (p / 4096)) (p % 4096) c d in
      let lt : p < 4096 * n = omega (arith, h) in
      let first : byte blocks (spread blocks buf (p + 1) d') p ≡ c =
        byte-spread_outside buf (p + 1) p d' (omega (arith, h)) small.1 lt (inl (omega arith))
        ∙ byte-put_byte blocks n p p c d distinct lt lt small.0
        ∙ ground arith in
      rw (first, span-spread buf (p + 1) d' (omega (arith, h)) small.1) refl

chunk_bounds :
    (p m : ℕ)
    → (1 ≤ chunk p (suc m)) × (chunk p (suc m) ≤ suc m) × (p % 4096 + chunk p (suc m) ≤ 4096)
chunk_bounds p m = (ground arith, ground arith, ground arith)

whole : (bn m : ℕ) → bn ≤ suc m → bn + (suc m - bn) ≡ suc m
whole bn m h = omega (arith, h)

page_of : (p : ℕ) → 4096 * (p / 4096) + p % 4096 ≡ p
page_of p = omega arith

module _ (f : Place) (blocks : ℕ → ℕ) (n : ℕ) (d : Disk) (laid : IsLaid f blocks n d) where
  span_zero : (p : ℕ) (q : Disk) → span blocks 0 p q ≡ []
  unfolding span
  span_zero p q = refl

  bytes_at-page :
      (k p : ℕ) (q : Disk)
      → p % 4096 + k ≤ 4096
      → bytes_at k (blocks (p / 4096)) (p % 4096) q ≡ span blocks k p q
  bytes_at-page k p q h =
      bytes_at-span blocks k (p / 4096) (p % 4096) q h ∙ ap (λ r. span blocks k r q) (page_of p)

  put_bytes-page :
      (k p : ℕ) (buf : List ℕ) (q : Disk)
      → p % 4096 + k ≤ 4096
      → k ≤ length buf
      → spread blocks buf p q
        ≡ spread blocks (drop k buf) (p + k) (put_bytes k buf (blocks (p / 4096)) (p % 4096) q)
  put_bytes-page k p buf q h g =
      subst
        (λ r.
          spread blocks buf r q
          ≡ spread blocks (drop k buf) (r + k) (put_bytes k buf (blocks (p / 4096)) (p % 4096) q))
        (page_of p) (put_bytes-spread blocks k (p / 4096) (p % 4096) buf q h g)

  read_from-span :
      (fuel p count : ℕ) (q : Disk)
      → count ≤ fuel
      → p + count ≤ 4096 * n
      → IsSame f blocks n d q
      → read_from fuel f p count q ≡ some (ok (span blocks count p q), q)
  unfolding read_from
  read_from-span zero p zero q h g same = rw (span_zero p q) refl
  read_from-span zero p (suc m) q h g same = absurd (omega (arith, h))
  read_from-span (suc fuel) p zero q h g same = rw (span_zero p q) refl
  read_from-span (suc fuel) p (suc m) q h g same =
      let bn = chunk p (suc m) in
      let (one, few, fits) = chunk_bounds p m in
      let block = laid.found q same (p / 4096) (omega (arith, g)) in
      let rest =
        read_from-span fuel (p + bn) (suc m - bn) q (omega (arith, h, one)) (omega (arith, g, few))
          same in
      rw (block, ◌>>=◌)
        (rw (rest, ◌>>=◌)
          (ap (λ s. some (ok s, q))
            (ap (λ s. s ++ span blocks (suc m - bn) (p + bn) q) (bytes_at-page bn p q fits)
              ∙ sym (span_add blocks bn (suc m - bn) p q)
              ∙ ap (λ k. span blocks k p q) (whole bn m few))))

  pub write_from-spread :
      (fuel : ℕ) (buf : List ℕ) (p : ℕ) (q : Disk)
      → length buf ≤ fuel
      → p + length buf ≤ 4096 * n
      → IsSame f blocks n d q
      → write_from fuel f buf p q ≡ some (ok tt, spread blocks buf p q)
  unfolding write_from spread
  write_from-spread zero [] p q h g same = refl
  write_from-spread zero (c ∷ buf) p q h g same = absurd (omega (arith, h))
  write_from-spread (suc fuel) [] p q h g same = refl
  write_from-spread (suc fuel) (c ∷ buf) p q h g same =
      let bn = chunk p (suc (length buf)) in
      let (one, few, fits) = chunk_bounds p (length buf) in
      let lt : p / 4096 < n = omega (arith, g) in
      let block = laid.found q same (p / 4096) lt in
      let q' = put_bytes bn (c ∷ buf) (blocks (p / 4096)) (p % 4096) q in
      let same' : IsSame f blocks n d q' = λ b i away meta.
        put_bytes_other bn (c ∷ buf) (blocks (p / 4096)) (p % 4096) b i q (away (p / 4096) lt)
        ∙ same b i away meta in
      let left = length-drop bn (c ∷ buf) in
      let rest =
        write_from-spread fuel (drop bn (c ∷ buf)) (p + bn) q' (omega (arith, h, one, left))
          (omega (arith, g, few, left)) same' in
      rw (block, ◌>>=◌)
        (rest ∙ ap (λ z. some (ok tt, z)) (sym (put_bytes-page bn p (c ∷ buf) q fits few)))

  -- file_read of bytes before the end of the file.
  pub file_read-span :
      (count offset : ℕ) (q : Disk)
      → offset + count ≤ 4096 * n
      → offset + count ≤ q f.0 (f.1 + 32)
      → IsSame f blocks n d q
      → file_read f count offset q ≡ some (ok (span blocks count offset q), q)
  unfolding file_read
  file_read-span zero offset q h g same = elim (Bool-cases (leb (q f.0 (f.1 + 32)) offset)) [
    | inl past ↦ rw past (rw (span_zero offset q) refl)
    | inr before ↦
        let none_left : min 0 (q f.0 (f.1 + 32) - offset) ≡ 0 = ground arith in
        rw before (rw none_left (read_from-span 0 offset 0 q (omega arith) h same))
  ]
  file_read-span (suc m) offset q h g same =
      let before : leb (q f.0 (f.1 + 32)) offset ≡ false = ground (arith, g) in
      let all : min (suc m) (q f.0 (f.1 + 32) - offset) ≡ suc m = ground (arith, g) in
      rw before (rw all (read_from-span (suc m) offset (suc m) q (omega arith) h same))
