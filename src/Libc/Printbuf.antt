-- ===== src/Libc/Printbuf.antt =====
-- The buffered output of lib/printf.c and lib/fprintf.c, for the text that vprintfmt prints.
--
-- The calls of sys_cputs are a list of the texts they are given. For fprintf, `write` is any
-- function on a state `S`. The buffers hold bytes.
use mit_jos_f22_advanced_os.Base.{
  ℕ, zero, suc, ◌+◌, ◌%◌, true, false, List, [], ◌∷◌, ◌++◌, update, ltb, ◌==◌, if◌then◌else◌,
  Option, none, some,
}
use mit_jos_f22_advanced_os.Base.Ret.{Ret, ok, err, Error}
use mit_jos_f22_advanced_os.Libc.Format.{Arg, vprintfmt}

-- The `n` bytes of a buffer from `i` on.
abbrev pub bytes_from : (ℕ → ℕ) → ℕ → ℕ → List ℕ
bytes_from f i zero = []
bytes_from f i (suc n) = f i ∷ bytes_from f (i + 1) n

-- `struct printbuf` of lib/printf.c
pub record Printbuf : Type 0 where
  pub idx : ℕ
  pub cnt : ℕ
  pub buf : ℕ → ℕ

-- putch of lib/printf.c for each character of a text: the calls of sys_cputs, the buffer.
unfoldable pub putch : List ℕ → Printbuf → List (List ℕ) × Printbuf
putch [] b = ([], b)
putch (ch ∷ out) b =
    let buf = update b.buf b.idx (ch % 256) in
    let (calls, b') =
      putch out
        (record { idx = if b.idx + 1 == 255 then 0 else b.idx + 1; cnt = b.cnt + 1; buf = buf }) in
    (if b.idx + 1 == 255 then bytes_from buf 0 (b.idx + 1) ∷ calls else calls, b')

-- vcprintf of lib/printf.c, where `buf` is what is on the stack: its result, the calls.
unfoldable pub vcprintf : List ℕ → List Arg → (ℕ → ℕ) → Option (ℕ × List (List ℕ))
unfolding putch
vcprintf fmt args buf = elim (vprintfmt fmt args) [
  | none ↦ none
  | some out ↦
      (let (calls, b) = putch out (record { idx = 0; cnt = 0; buf = buf }) in
        some (b.cnt, calls ++ (bytes_from b.buf 0 b.idx ∷ [])))
]

-- `error` of fprintf: 1, 0 or a negative number.
pub data Status : Type 0 where
  fine : Status
  short : Status
  failed : Error → Status

-- `struct printbuf` of lib/fprintf.c without the descriptor.
pub record Filebuf : Type 0 where
  pub idx : ℕ
  pub result : ℕ
  pub error : Status
  pub buf : ℕ → ℕ

-- A write call of writebuf that has returned.
abbrev pub written : {S : Type 0} → Filebuf → Ret ℕ × S → Filebuf × S
written b (ok r, s) =
    (record b { result = b.result + r; error = if r == b.idx then fine else short }, s)
written b (err e, s) = (record b { error = failed e }, s)

-- `b.result ? b.result : b.error`
abbrev pub outcome : Filebuf → Ret ℕ
outcome b =
    if b.result == 0
    then elim b.error [ fine ↦ ok 1 | short ↦ ok 0 | failed e ↦ err e ]
    else ok b.result

module _ {S : Type 0} (write : List ℕ → S → Ret ℕ × S) where
  unfoldable pub writebuf : Filebuf × S → Filebuf × S
  writebuf (b, s) = elim b.error [
    | fine ↦ written b (write (bytes_from b.buf 0 b.idx) s)
    | short ↦ (b, s)
    | failed e ↦ (b, s)
  ]

  -- putch of lib/fprintf.c for each character of a text.
  unfoldable pub fputch : List ℕ → Filebuf × S → Filebuf × S
  unfolding writebuf
  fputch [] st = st
  fputch (ch ∷ out) (b, s) =
      let b₁ = record b { buf = update b.buf b.idx (ch % 256); idx = b.idx + 1 } in
      elim (b.idx + 1 == 256) [
        | true ↦ (let (b₂, s₂) = writebuf (b₁, s) in fputch out (record b₂ { idx = 0 }, s₂))
        | false ↦ fputch out (b₁, s)
      ]

  -- vfprintf, where `buf` is what is on the stack.
  unfoldable pub vfprintf : List ℕ → List Arg → (ℕ → ℕ) → S → Option (Ret ℕ × S)
  unfolding fputch writebuf
  vfprintf fmt args buf s = elim (vprintfmt fmt args) [
    | none ↦ none
    | some out ↦
        (let (b, s₁) = fputch out (record { idx = 0; result = 0; error = fine; buf = buf }, s) in
          let (b₂, s₂) = if ltb 0 b.idx then writebuf (b, s₁) else (b, s₁) in some (outcome b₂, s₂))
  ]
