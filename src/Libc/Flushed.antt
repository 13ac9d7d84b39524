-- ===== src/Libc/Flushed.antt =====
-- Buffering changes nothing: what the buffers of lib/printf.c and lib/fprintf.c pass on is the text.
use mit_jos_f22_advanced_os.Base.{
  ℕ, zero, suc, ◌+◌, ◌%◌, ◌≤◌, ◌<◌, ◌≡◌, refl, ap, sym, ◌∙◌, inl, inr, List, [], ◌∷◌, ◌++◌, update,
  ◌==◌, some, All, length, arith, Bool-cases,
}
use mathlib.Core.List.{append-nil, append_assoc}
use mit_jos_f22_advanced_os.Libc.Format.{Arg, vprintfmt}
use mit_jos_f22_advanced_os.Libc.Printbuf.{bytes_from, Printbuf, putch, vcprintf}

-- The bytes of a text.
abbrev pub as_bytes : List ℕ → List ℕ
as_bytes [] = []
as_bytes (c ∷ out) = c % 256 ∷ as_bytes out

abbrev pub concat : List (List ℕ) → List ℕ
concat [] = []
concat (l ∷ ls) = l ++ concat ls

concat-append : (xs ys : List (List ℕ)) → concat (xs ++ ys) ≡ concat xs ++ concat ys
concat-append [] ys = refl
concat-append (x ∷ xs) ys =
    ap (λ l. x ++ l) (concat-append xs ys) ∙ sym (append_assoc x (concat xs) (concat ys))

bytes_from-suc :
    (f : ℕ → ℕ) (i n : ℕ) → bytes_from f i (suc n) ≡ bytes_from f i n ++ (f (i + n) ∷ [])
bytes_from-suc f i zero = let at : i + 0 ≡ i = omega arith in rw at refl
bytes_from-suc f i (suc n) =
    let at : i + 1 + n ≡ i + suc n = omega arith in
    ap (λ l. f i ∷ l) (bytes_from-suc f (i + 1) n)
    ∙ ap (λ a. f i ∷ (bytes_from f (i + 1) n ++ (f a ∷ []))) at

bytes_from-update :
    (f : ℕ → ℕ) (i n j v : ℕ) → i + n ≤ j → bytes_from (update f j v) i n ≡ bytes_from f i n
bytes_from-update f i zero j v h = refl
bytes_from-update f i (suc n) j v h =
    let first : update f j v i ≡ f i = ground (arith, h) in
    rw first (ap (λ l. f i ∷ l) (bytes_from-update f (i + 1) n j v (omega (arith, h))))

pub length-bytes_from : (f : ℕ → ℕ) (i n : ℕ) → length (bytes_from f i n) ≡ n
length-bytes_from f i zero = refl
length-bytes_from f i (suc n) = ap suc (length-bytes_from f (i + 1) n)

-- The next byte of a buffer.
pub bytes_from-put :
    (f : ℕ → ℕ) (n v : ℕ) → bytes_from (update f n v) 0 (n + 1) ≡ bytes_from f 0 n ++ (v ∷ [])
bytes_from-put f n v =
    let len : n + 1 ≡ suc n = omega arith in
    let at : update f n v (0 + n) ≡ v = ground arith in
    ap (bytes_from (update f n v) 0) len
    ∙ bytes_from-suc (update f n v) 0 n
    ∙ ap (λ l. l ++ (update f n v (0 + n) ∷ [])) (bytes_from-update f 0 n n v (omega arith))
    ∙ ap (λ c. bytes_from f 0 n ++ (c ∷ [])) at

-- What has gone to sys_cputs and what is in the buffer.
abbrev all_bytes : List (List ℕ) → Printbuf → List ℕ
all_bytes calls b = concat calls ++ bytes_from b.buf 0 b.idx

abbrev pub IsSmall : List ℕ → Type 0
IsSmall call = length call < 256

putch_lem :
    (out : List ℕ) (b : Printbuf)
    → b.idx < 255
    → (all_bytes (putch out b).0 (putch out b).1 ≡ bytes_from b.buf 0 b.idx ++ as_bytes out)
      × ((putch out b).1.cnt ≡ b.cnt + length out)
      × ((putch out b).1.idx < 255)
      × All IsSmall (putch out b).0
unfolding putch
putch_lem [] b h = (sym (append-nil (bytes_from b.buf 0 b.idx)), omega arith, h, tt)
putch_lem (ch ∷ out) b h =
    let buf' = update b.buf b.idx (ch % 256) in
    let put = bytes_from-put b.buf b.idx (ch % 256) in
    let held = bytes_from b.buf 0 b.idx in
    let split = append_assoc held (ch % 256 ∷ []) (as_bytes out) in
    elim (Bool-cases (b.idx + 1 == 255)) [
      | inl full ↦
          let b' : Printbuf = record { idx = 0; cnt = b.cnt + 1; buf = buf' } in
          let (same, count, lt, small) = putch_lem out b' (omega arith) in
          let call = bytes_from buf' 0 (b.idx + 1) in
          let rest = putch out b' in
          rw full (
            append_assoc call (concat rest.0) (bytes_from rest.1.buf 0 rest.1.idx)
                ∙ ap (λ l. call ++ l) same
                ∙ ap (λ l. l ++ as_bytes out) put
                ∙ split,
            omega (arith, count),
            lt,
            (omega (arith, length-bytes_from buf' 0 (b.idx + 1), h), small),
          )
      | inr room ↦
          let b' : Printbuf = record { idx = b.idx + 1; cnt = b.cnt + 1; buf = buf' } in
          let (same, count, lt, small) = putch_lem out b' (ground (arith, room, h)) in
          rw room (same ∙ ap (λ l. l ++ as_bytes out) put ∙ split, omega (arith, count), lt, small)
    ]

IsSmall-append :
    (calls : List (List ℕ)) (l : List ℕ)
    → All IsSmall calls
    → IsSmall l
    → All IsSmall (calls ++ (l ∷ []))
IsSmall-append [] l h k = (k, tt)
IsSmall-append (c ∷ calls) l (p, h) k = (p, IsSmall-append calls l h k)

-- vcprintf of lib/printf.c passes the text that vprintfmt prints to sys_cputs, as bytes, in order
-- and complete, in calls of at most 255 bytes, and returns the text's length.
pub vcprintf_lem :
    (fmt out : List ℕ) (args : List Arg) (buf : ℕ → ℕ)
    → vprintfmt fmt args ≡ some out
    → (calls : List (List ℕ)) × (vcprintf fmt args buf ≡ some (length out, calls))
      × (concat calls ≡ as_bytes out)
      × All IsSmall calls
unfolding vcprintf
vcprintf_lem fmt out args buf e =
    let start : Printbuf = record { idx = 0; cnt = 0; buf = buf } in
    let (same, count, lt, small) = putch_lem out start (omega arith) in
    let (calls, b) = putch out start in
    let last = bytes_from b.buf 0 b.idx in
    let count' : b.cnt ≡ length out = omega (arith, count) in
    (
      calls ++ (last ∷ []),
      rw (e, vcprintf) (ap (λ n. some (n, calls ++ (last ∷ []))) count'),
      concat-append calls (last ∷ []) ∙ ap (λ l. concat calls ++ l) (append-nil last) ∙ same,
      IsSmall-append calls last small (omega (arith, lt, length-bytes_from b.buf 0 b.idx)),
    )
