-- ===== src/Pipe/Ring.antt =====
-- `struct Pipe`, devpipe_read, devpipe_write and devpipe_stat of lib/pipe.c.
--
-- Where the C code calls sys_yield and tries again, the loop here stops with `waiting` and the
-- count so far; the other environments run, and the call goes on from that count. The positions
-- are of type `off_t`, kept as 32-bit patterns, and wrap around. `closed` is the result of
-- _pipeisclosed.
use mit_jos_f22_advanced_os.Base.{
  ℕ, zero, suc, ◌+◌, ◌-◌, ◌%◌, ◌^◌, Bool, List, [], ◌∷◌, update, ltb, leb, ◌==◌, if◌then◌else◌,
}

pub record Pipe : Type 0 where
  pub p_rpos : ℕ
  pub p_wpos : ℕ
  pub p_buf : ℕ → ℕ

-- PIPEBUFSIZ
abbrev pub pipebufsiz : ℕ
pipebufsiz = 32

-- A position as a `size_t`, sign-extended to 64 bits.
abbrev pub to_size_t : ℕ → ℕ
to_size_t pos = if leb (2 ^ 31) pos then pos + (2 ^ 64 - 2 ^ 32) else pos

-- `pos % PIPEBUFSIZ` as a 64-bit pattern. For a negative position it is 0 or negative and so stands
-- for a place outside the array, which `p_buf` then gives too; that the last of these places are
-- those of the positions themselves is left out.
abbrev pub ring_index : ℕ → ℕ
ring_index pos =
    if leb (2 ^ 31) pos then (2 ^ 64 - (2 ^ 32 - pos) % pipebufsiz) % 2 ^ 64 else pos % pipebufsiz

-- p->p_wpos >= p->p_rpos + sizeof(p->p_buf)
abbrev pub is_full : Pipe → Bool
is_full p = leb ((to_size_t p.p_rpos + pipebufsiz) % 2 ^ 64) (to_size_t p.p_wpos)

pub data Outcome : Type 0 where
  returned : ℕ → Outcome
  waiting : ℕ → Outcome

abbrev pub take_byte : Pipe → Pipe
take_byte p = record p { p_rpos = (p.p_rpos + 1) % 2 ^ 32 }

abbrev pub put_byte : ℕ → Pipe → Pipe
put_byte b p = record p {
  p_buf = update p.p_buf (ring_index p.p_wpos) b;
  p_wpos = (p.p_wpos + 1) % 2 ^ 32;
}

-- Up to `n` more bytes after the first `i`: how the loop ends, the bytes that it stores into the
-- caller's buffer, the pipe.
unfoldable pub devpipe_read : ℕ → ℕ → Bool → Pipe → Outcome × List ℕ × Pipe
devpipe_read zero i closed p = (returned i, [], p)
devpipe_read (suc n) i closed p =
    let (o, bytes, p') = devpipe_read n (i + 1) closed (take_byte p) in
    if p.p_rpos == p.p_wpos
    then (if ltb 0 i then returned i else if closed then returned 0 else waiting i, [], p)
    else (o, p.p_buf (ring_index p.p_rpos) ∷ bytes, p')

-- The bytes `bytes` after the first `i`: how the loop ends, the bytes that are left, the pipe.
unfoldable pub devpipe_write : List ℕ → ℕ → Bool → Pipe → Outcome × List ℕ × Pipe
devpipe_write [] i closed p = (returned i, [], p)
devpipe_write (b ∷ bytes) i closed p =
    let rest = devpipe_write bytes (i + 1) closed (put_byte b p) in
    if is_full p then (if closed then returned 0 else waiting i, b ∷ bytes, p) else rest

-- st_size of devpipe_stat, an `off_t`
unfoldable pub st_size : Pipe → ℕ
st_size p = (p.p_wpos + 2 ^ 32 - p.p_rpos) % 2 ^ 32
