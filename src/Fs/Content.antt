-- ===== src/Fs/Content.antt =====
-- file_read and file_write of fs/fs.c.
--
-- A buffer is the list of its bytes. The count is a `size_t`, the offset an `off_t` of at least 0, and
-- their sum stays below 2^31, where an `off_t` ends.
use mit_jos_f22_advanced_os.Base.{
  ℕ, zero, suc, ◌+◌, ◌-◌, ◌*◌, ◌/◌, ◌%◌, ◌^◌, List, [], ◌∷◌, ◌++◌, update, ltb, leb, if◌then◌else◌,
  length,
}
use mit_jos_f22_advanced_os.Base.Ret.{M, pure, ◌>>=◌, ◌>>◌, Ret, ok, err}
use mit_jos_f22_advanced_os.Fs.Disk.{Disk, Place, load, f_size, file_get_block, file_set_size}

-- Byte `o` of block `b`, in words of four bytes with the lowest first.
abbrev pub byte_at : ℕ → ℕ → Disk → ℕ
byte_at b o d = d b (o / 4) / 256 ^ (o % 4) % 256

-- `w` with its byte `i` replaced by `c`.
abbrev pub set_byte : ℕ → ℕ → ℕ → ℕ
set_byte w i c = w - w / 256 ^ i % 256 * 256 ^ i + c * 256 ^ i

abbrev pub put_byte : ℕ → ℕ → ℕ → Disk → Disk
put_byte b o c d = update d b (update (d b) (o / 4) (set_byte (d b (o / 4)) (o % 4) c))

abbrev pub min : ℕ → ℕ → ℕ
min a b = if leb a b then a else b

-- memmove out of a block, `n` bytes.
unfoldable pub bytes_at : ℕ → ℕ → ℕ → Disk → List ℕ
bytes_at zero b o d = []
bytes_at (suc n) b o d = byte_at b o d ∷ bytes_at n b (o + 1) d

-- memmove into a block, the first `n` bytes of the buffer.
unfoldable pub put_bytes : ℕ → List ℕ → ℕ → ℕ → Disk → Disk
put_bytes zero buf b o d = d
put_bytes (suc n) [] b o d = d
put_bytes (suc n) (c ∷ buf) b o d = put_bytes n buf b (o + 1) (put_byte b o c d)

unfoldable pub drop : ℕ → List ℕ → List ℕ
drop zero s = s
drop (suc n) [] = []
drop (suc n) (c ∷ s) = drop n s

-- The bytes that a round of a loop copies, at `pos` and with `count` left.
abbrev pub chunk : ℕ → ℕ → ℕ
chunk pos count = min (4096 - pos % 4096) count

abbrev pub more : List ℕ → Ret (List ℕ) → Ret (List ℕ)
more s (err x) = err x
more s (ok t) = ok (s ++ t)

-- A round that copies `bn` bytes of block `b`, and those behind it.
abbrev pub read_rest : ℕ → ℕ → ℕ → (ℕ → M Disk (Ret (List ℕ))) → M Disk (Ret (List ℕ))
read_rest bn b pos rest d = (rest bn >>= (λ r. pure (more (bytes_at bn b (pos % 4096) d) r))) d

-- The loop of file_read with `count` bytes left; each round copies one byte or more.
unfoldable pub read_from : ℕ → Place → ℕ → ℕ → M Disk (Ret (List ℕ))
read_from zero f pos count = pure (ok [])
read_from (suc fuel) f pos zero = pure (ok [])
read_from (suc fuel) f pos (suc n) = do
  r ← file_get_block f (pos / 4096)
  elim r [
    | err x ↦ pure (err x)
    | ok b ↦ read_rest (chunk pos (suc n)) b pos (λ bn. read_from fuel f (pos + bn) (suc n - bn))
  ]

-- The bytes that file_read puts into its buffer; it returns their number.
unfoldable pub file_read : Place → ℕ → ℕ → M Disk (Ret (List ℕ))
unfolding read_from
file_read f count offset = do
  size ← load (f_size f)
  if leb size offset
      then pure (ok [])
      else (let n = min count (size - offset) in read_from n f offset n)

-- The loop of file_write.
unfoldable pub write_from : ℕ → Place → List ℕ → ℕ → M Disk (Ret (Unit {0}))
unfolding drop
write_from zero f buf pos = pure (ok tt)
write_from (suc fuel) f [] pos = pure (ok tt)
write_from (suc fuel) f (c ∷ buf) pos = do
  r ← file_get_block f (pos / 4096)
  let bn = chunk pos (suc (length buf))
  elim r [
    | err x ↦ pure (err x)
    | ok b ↦ λ d.
        write_from fuel f (drop bn (c ∷ buf)) (pos + bn) (put_bytes bn (c ∷ buf) b (pos % 4096) d)
  ]

unfoldable pub file_write : Place → List ℕ → ℕ → M Disk (Ret ℕ)
unfolding write_from
file_write f buf offset = do
  size ← load (f_size f)
  if ltb size (offset + length buf) then file_set_size f (offset + length buf) else pure tt
  r ← write_from (length buf) f buf offset
  pure (elim r [ err x ↦ err x | ok _ ↦ ok (length buf) ])
