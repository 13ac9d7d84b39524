-- ===== src/Fs/Asserted.antt =====
-- The assertions in devfile_read and devfile_write hold for what the server answers.
use mit_jos_f22_advanced_os.Base.{
  ℕ, zero, suc, ◌+◌, ◌-◌, ◌*◌, ◌/◌, ◌%◌, ◌^◌, ◌≤◌, ◌<◌, ◌≡◌, ◌⊎◌, inl, inr, refl, ap, Bool, true,
  false, List, [], Option, none, some, leb, length, length-append, arith, All, Bool-cases,
  Option-cases,
}
use mathlib.Core.Path.{subst}
use mit_jos_f22_advanced_os.Base.Ret.{
  M, pure, ◌>>=◌, Ret, ok, err, Error, e_bad_env, e_inval, e_no_mem, e_no_free_env, e_fault,
  e_ipc_not_recv, e_no_disk, e_max_open, e_not_found, e_bad_path, e_file_exists, e_not_supp,
}
use mit_jos_f22_advanced_os.Fs.Disk.{Disk, Place, file_get_block}
use mit_jos_f22_advanced_os.Fs.Content.{bytes_at, chunk, min, read_from, read_rest, file_read}
use mit_jos_f22_advanced_os.Fs.Loops.{IsLaid}
use mit_jos_f22_advanced_os.Fs.Server.{
  Server, openfile_lookup, serve_read, is_negative, with_file, failure, on_disk, advance,
}
use mit_jos_f22_advanced_os.Fs.Served.{sought, serve_write-serve_read}
use mit_jos_f22_advanced_os.Fs.Requests.{serve, devfile_read, devfile_write}

length-bytes_at : (n b o : ℕ) (d : Disk) → length (bytes_at n b o d) ≡ n
unfolding bytes_at
length-bytes_at zero b o d = refl
length-bytes_at (suc n) b o d = ap suc (length-bytes_at n b (o + 1) d)

-- At most `n` bytes, where there is a result.
abbrev IsShort : ℕ → Option (Ret (List ℕ) × Disk) → Type 0
IsShort n none = Unit
IsShort n (some (err x, d)) = Unit
IsShort n (some (ok buf, d)) = length buf ≤ n

read_rest-IsShort :
    (bn b pos n : ℕ) (rest : ℕ → M Disk (Ret (List ℕ))) (d : Disk)
    → bn ≤ n
    → IsShort (n - bn) (rest bn d)
    → IsShort n (read_rest bn b pos rest d)
read_rest-IsShort bn b pos n rest d h k = elim (Option-cases (rest bn d)) [
  | inl e ↦ rw (e, ◌>>=◌) tt
  | inr ((err x, d'), e) ↦ rw (e, ◌>>=◌) tt
  | inr ((ok buf, d'), e) ↦
      let le : length buf ≤ n - bn = subst (IsShort (n - bn)) e k in
      let len = length-append (bytes_at bn b (pos % 4096) d) buf in
      let own = length-bytes_at bn b (pos % 4096) d in
      rw (e, ◌>>=◌) (omega (arith, h, le, len, own))
]

read_from-IsShort :
    (fuel : ℕ) (f : Place) (pos n : ℕ) (d : Disk) → IsShort n (read_from fuel f pos n d)
unfolding read_from
read_from-IsShort zero f pos n d = omega arith
read_from-IsShort (suc fuel) f pos zero d = omega arith
read_from-IsShort (suc fuel) f pos (suc n) d =
    elim (Option-cases (file_get_block f (pos / 4096) d)) [
      | inl e ↦ rw (e, ◌>>=◌) tt
      | inr ((err x, d'), e) ↦ rw (e, ◌>>=◌) tt
      | inr ((ok b, d'), e) ↦
          let bn = chunk pos (suc n) in
          rw (e, ◌>>=◌)
            (read_rest-IsShort bn b pos (suc n) (λ bn. read_from fuel f (pos + bn) (suc n - bn)) d'
              (ground arith) (read_from-IsShort fuel f (pos + bn) (suc n - bn) d'))
    ]

IsShort-le : (m n : ℕ) (o : Option (Ret (List ℕ) × Disk)) → m ≤ n → IsShort m o → IsShort n o
IsShort-le m n none h k = tt
IsShort-le m n (some (err x, d)) h k = tt
IsShort-le m n (some (ok buf, d)) h k = omega (arith, h, k)

file_read-IsShort : (f : Place) (n offset : ℕ) (d : Disk) → IsShort n (file_read f n offset d)
unfolding file_read
file_read-IsShort f n offset d = elim (Bool-cases (leb (d f.0 (f.1 + 32)) offset)) [
  | inl on ↦ rw on (omega arith)
  | inr off ↦
      let count = min n (d f.0 (f.1 + 32) - offset) in
      let le : count ≤ n = ground arith in
      rw off (IsShort-le count n _ le (read_from-IsShort count f offset count d))
]

-- What serve_read answers: -E and no bytes, or the bytes and their number, at most `n` and a page.
abbrev IsAnswer : ℕ → Option ((ℕ × List ℕ) × Server) → Type 0
IsAnswer n none = Unit
IsAnswer n (some ((r, buf), s)) = ((is_negative r ≡ true) × (buf ≡ [])) ⊎ ((r ≤ n) × (r ≤ 4096))

failure-is_negative : (x : Error) → is_negative (failure x) ≡ true
failure-is_negative e_bad_env = refl
failure-is_negative e_inval = refl
failure-is_negative e_no_mem = refl
failure-is_negative e_no_free_env = refl
failure-is_negative e_fault = refl
failure-is_negative e_ipc_not_recv = refl
failure-is_negative e_no_disk = refl
failure-is_negative e_max_open = refl
failure-is_negative e_not_found = refl
failure-is_negative e_bad_path = refl
failure-is_negative e_file_exists = refl
failure-is_negative e_not_supp = refl

handler_lem :
    (f : Place) (i n : ℕ) (s : Server)
    → IsAnswer n (
        (do
          r ← on_disk (file_read f (min n 4096) (s.fds i).fd_offset)
          elim r [
            | err x ↦ pure (failure x, [])
            | ok buf ↦ λ t. some ((length buf, buf), advance i (length buf) t)
          ])
          s)
handler_lem f i n s = elim (Option-cases (file_read f (min n 4096) (s.fds i).fd_offset s.disk)) [
  | inl e ↦ rw (e, ◌>>=◌, on_disk) tt
  | inr ((err x, d), e) ↦ rw (e, ◌>>=◌, on_disk) (inl (failure-is_negative x, refl))
  | inr ((ok buf, d), e) ↦
      let short : length buf ≤ min n 4096 =
        subst (IsShort (min n 4096)) e
          (file_read-IsShort f (min n 4096) (s.fds i).fd_offset s.disk) in
      rw (e, ◌>>=◌, on_disk) (inr (ground (arith, short), ground (arith, short)))
]

serve_read-IsAnswer : (fileid n : ℕ) (s : Server) → IsAnswer n (serve_read fileid n s)
unfolding serve_read with_file
serve_read-IsAnswer fileid n s = elim (Option-cases (openfile_lookup fileid s)) [
  | inl e ↦ rw (e, with_file) (inl (refl, refl))
  | inr (i, e) ↦ elim (Option-cases ((s.opentab i).o_file)) [
    | inl e' ↦ rw (e, with_file) (rw e' tt)
    | inr (f, e') ↦ rw (e, with_file) (rw e' (handler_lem f i n s))
  ]
]

-- devfile_write of at most 4080 bytes to an open file whose blocks are allocated, and devfile_read
-- of as many bytes from the old position: the request gets to the server and the answer back, no
-- assertion fails, and the bytes read are the bytes written.
pub devfile_write-devfile_read :
    (room : Bool) (fileid i n : ℕ) (f : Place) (blocks : ℕ → ℕ) (buf : List ℕ) (s : Server)
    → openfile_lookup fileid s ≡ some i
    → (s.opentab i).o_file ≡ some f
    → IsLaid f blocks n s.disk
    → (s.fds i).fd_offset + length buf ≤ 4096 * n
    → (s.fds i).fd_offset + length buf < 2 ^ 32
    → length buf ≤ 4080
    → All (λ c. c < 256) buf
    → (s' : Server) × (t : Server) × (devfile_write room fileid buf s ≡ some (length buf, s'))
      × (devfile_read room fileid (length buf) (sought i (s.fds i).fd_offset s')
          ≡ some ((length buf, buf), t))
unfolding devfile_write devfile_read serve
devfile_write-devfile_read room fileid i n f blocks buf s found file laid fits word page small =
    let (s', t, wrote, at, read, at') =
      serve_write-serve_read fileid i n f blocks buf s found file laid fits word
        (omega (arith, page)) small in
    let a₁ : leb (length buf) 4084 ≡ true = ground (arith, page) in
    let a₀ : leb (length buf) 4080 ≡ true = ground (arith, page) in
    let a₂ : is_negative (length buf) ≡ false = ground (arith, page) in
    let a₃ : leb (length buf) (length buf) ≡ true = ground arith in
    let a₄ : leb (length buf) 4096 ≡ true = ground (arith, page) in
    (
      s',
      t,
      rw (a₁, ◌>>=◌) (rw a₀ (rw (wrote, ◌>>=◌) (rw a₂ (rw a₃ refl)))),
      rw (read, ◌>>=◌) (rw a₂ (rw a₃ (rw a₄ refl))),
    )

-- devfile_read, for any request, server and file, gives what serve_read answers: its assertions on
-- the number of bytes never fail.
pub devfile_read-serve_read :
    (room : Bool) (fileid n : ℕ) (s : Server) → devfile_read room fileid n s ≡ serve_read fileid n s
unfolding devfile_read serve
devfile_read-serve_read room fileid n s =
    let fine = serve_read-IsAnswer fileid n s in
    elim (Option-cases (serve_read fileid n s)) [
      | inl e ↦ rw (e, ◌>>=◌) refl
      | inr (((r, buf), s'), e) ↦
          let fine' : IsAnswer n (some ((r, buf), s')) = subst (IsAnswer n) e fine in
          elim fine' [
            | inl (neg, empty) ↦ rw (e, ◌>>=◌) (rw neg (rw empty refl))
            | inr (le, page) ↦
                let a₁ : is_negative r ≡ false = ground (arith, page) in
                let a₂ : leb r n ≡ true = ground (arith, le) in
                let a₃ : leb r 4096 ≡ true = ground (arith, page) in
                rw (e, ◌>>=◌) (rw a₁ (rw a₂ (rw a₃ refl)))
          ]
    ]
