-- ===== src/Libc/Fprintf.antt =====
-- What fprintf writes to a device that takes all that it is given.
use mit_jos_f22_advanced_os.Base.{
  ℕ, suc, ◌+◌, ◌%◌, ◌<◌, ◌≡◌, refl, ap, sym, ◌∙◌, inl, inr, Bool, true, List, [], ◌∷◌, ◌++◌, update,
  ltb, ◌==◌, if◌then◌else◌, some, length, arith, Bool-cases,
}
use mathlib.Core.List.{append-nil, append_assoc}
use mit_jos_f22_advanced_os.Base.Ret.{Ret, ok}
use mit_jos_f22_advanced_os.Libc.Format.{Arg, vprintfmt}
use mit_jos_f22_advanced_os.Libc.Printbuf.{
  bytes_from, Filebuf, fine, short, written, writebuf, fputch, outcome, vfprintf,
}
use mit_jos_f22_advanced_os.Libc.Flushed.{as_bytes, length-bytes_from, bytes_from-put}

-- A device whose write takes all bytes: `contents` is what has been written to it.
abbrev pub IsComplete : {S : Type 0} → (List ℕ → S → Ret ℕ × S) → (S → List ℕ) → Type 0
IsComplete {S} write contents =
    (l : List ℕ) (s : S)
    → ((write l s).0 ≡ ok (length l)) × (contents (write l s).1 ≡ contents s ++ l)

module _ {S : Type 0} (write : List ℕ → S → Ret ℕ × S) (contents : S → List ℕ)
    (complete : IsComplete write contents) where
  -- The device and the buffer hold `text` in all.
  abbrev IsPending : List ℕ → ℕ → Filebuf × S → Type 0
  IsPending text n (b, s) =
      (contents s ++ bytes_from b.buf 0 b.idx ≡ text) × (b.result + b.idx ≡ n) × (b.error ≡ fine)

  writebuf_lem :
      (b : Filebuf) (s : S)
      → b.error ≡ fine
      → ((writebuf write (b, s)).0 ≡ record b { result = b.result + b.idx; error = fine })
        × (contents (writebuf write (b, s)).1 ≡ contents s ++ bytes_from b.buf 0 b.idx)
  unfolding writebuf
  writebuf_lem b s e =
      let call = bytes_from b.buf 0 b.idx in
      let (r, c) = complete call s in
      let all : write call s ≡ (ok b.idx, (write call s).1) =
        λ i. ((r ∙ ap ok (length-bytes_from b.buf 0 b.idx)) i, (write call s).1) in
      let same : (b.idx == b.idx) ≡ true = ground arith in
      let now = ap (written b) all in
      rw (e, writebuf)
        (
          ap (λ (x : Filebuf × S). x.0) now
              ∙ ap
                  (λ (t : Bool). record b {
                    result = b.result + b.idx;
                    error = if t then fine else short;
                  })
                  same,
          ap (λ (x : Filebuf × S). contents x.1) now ∙ c,
        )

  fputch_lem :
      (out text : List ℕ) (n : ℕ) (b : Filebuf) (s : S)
      → b.idx < 256
      → IsPending text n (b, s)
      → IsPending (text ++ as_bytes out) (n + length out) (fputch write out (b, s))
        × ((fputch write out (b, s)).0.idx < 256)
  unfolding fputch
  fputch_lem [] text n b s lt (same, count, e) =
      ((same ∙ sym (append-nil text), omega (arith, count), e), lt)
  fputch_lem (ch ∷ out) text n b s lt (same, count, e) =
      let b₁ : Filebuf = record b { buf = update b.buf b.idx (ch % 256); idx = b.idx + 1 } in
      let put = bytes_from-put b.buf b.idx (ch % 256) in
      let byte = ch % 256 ∷ [] in
      let held : contents s ++ bytes_from b₁.buf 0 b₁.idx ≡ text ++ byte =
        ap (λ l. contents s ++ l) put
        ∙ sym (append_assoc (contents s) (bytes_from b.buf 0 b.idx) byte)
        ∙ ap (λ l. l ++ byte) same in
      let split = append_assoc text byte (as_bytes out) in
      let longer : n + 1 + length out ≡ n + suc (length out) = omega arith in
      elim (Bool-cases (b.idx + 1 == 256)) [
        | inl full ↦
            let (now, all) = writebuf_lem b₁ s e in
            let st = writebuf write (b₁, s) in
            let b₂ : Filebuf = record st.0 { idx = 0 } in
            let flushed : IsPending (text ++ byte) (n + 1) (b₂, st.1) = (
              append-nil (contents st.1) ∙ all ∙ held,
              omega (arith, ap (λ (x : Filebuf). x.result) now, count),
              ap (λ (x : Filebuf). x.error) now,
            ) in
            let (p, lt') = fputch_lem out (text ++ byte) (n + 1) b₂ st.1 (omega arith) flushed in
            let (p₁, p₂, p₃) = p in rw (full, fputch) ((p₁ ∙ split, p₂ ∙ longer, p₃), lt')
        | inr room ↦
            let more : IsPending (text ++ byte) (n + 1) (b₁, s) = (held, omega (arith, count), e) in
            let (p, lt') =
              fputch_lem out (text ++ byte) (n + 1) b₁ s (ground (arith, room, lt)) more in
            let (p₁, p₂, p₃) = p in rw (room, fputch) ((p₁ ∙ split, p₂ ∙ longer, p₃), lt')
      ]

outcome_fine :
    (b : Filebuf) (n : ℕ)
    → b.error ≡ fine
    → b.result ≡ n
    → outcome b ≡ (if n == 0 then ok 1 else ok n)
outcome_fine b n e r = rw r (rw e refl)

-- vfprintf to a device that takes all bytes writes the text that vprintfmt prints, as bytes, in
-- order and complete, however often its buffer fills. It returns the text's length, but 1 for the
-- empty text.
pub vfprintf_lem :
    {S : Type 0} (write : List ℕ → S → Ret ℕ × S) (contents : S → List ℕ) (fmt out : List ℕ)
    (args : List Arg) (buf : ℕ → ℕ) (s : S)
    → IsComplete write contents
    → vprintfmt fmt args ≡ some out
    → (s' : S) × (vfprintf write fmt args buf s
        ≡ some (if length out == 0 then ok 1 else ok (length out), s'))
      × (contents s' ≡ contents s ++ as_bytes out)
unfolding vfprintf
vfprintf_lem {S} write contents fmt out args buf s complete e =
    let start : Filebuf = record { idx = 0; result = 0; error = fine; buf = buf } in
    let (p, lt) =
      fputch_lem write contents complete out (contents s) 0 start s (omega arith)
        (append-nil (contents s), omega arith, refl) in
    let (same, count, er) = p in
    let (b, s₁) = fputch write out (start, s) in
    let (now, all) = writebuf_lem write contents complete b s₁ er in
    let (b₂, s₂) = writebuf write (b, s₁) in
    elim (Bool-cases (ltb 0 b.idx)) [
      | inl pos ↦
          let total : b₂.result ≡ length out =
            omega (arith, ap (λ (x : Filebuf). x.result) now, count) in
          let left = outcome_fine b₂ (length out) (ap (λ (x : Filebuf). x.error) now) total in
          (s₂, rw (e, vfprintf) (rw pos (λ i. some (left i, s₂))), all ∙ same)
      | inr empty ↦
          let zero_idx : b.idx ≡ 0 = ground (arith, empty) in
          let left = outcome_fine b (length out) er (omega (arith, count, zero_idx)) in
          let nothing =
            sym (append-nil (contents s₁))
            ∙ ap (λ n. contents s₁ ++ bytes_from b.buf 0 n) (sym zero_idx) in
          (s₁, rw (e, vfprintf) (rw empty (λ i. some (left i, s₁))), nothing ∙ same)
    ]
