-- ===== src/Console/Readline.antt =====
-- readline of lib/readline.c.
--
-- The calls of getchar are a list of their results; where the list ends, readline still waits. The
-- prompt and the message for a read error are left out.
use mit_jos_f22_advanced_os.Base.{
  ℕ, ◌+◌, ◌-◌, ◌%◌, Bool, true, false, ◌&&◌, ◌||◌, List, [], ◌∷◌, update, ltb, leb, ◌==◌,
  if◌then◌else◌,
}
use mit_jos_f22_advanced_os.Base.Ret.{Ret, ok, err}

-- What readline returns, with what it has echoed: `line buf`, or NULL, `closed`.
pub data Result : Type 0 where
  line : (ℕ → ℕ) → Result
  closed : Result
  waits : Result

-- BUFLEN
abbrev pub buflen : ℕ
buflen = 1024

abbrev pub is_erase : ℕ → Bool
is_erase c = (c == 8) || (c == 0x7f)

abbrev pub is_end : ℕ → Bool
is_end c = (c == 10) || (c == 13)

-- cputchar(c) if `echoing`, before the rest.
abbrev pub echo : Bool → ℕ → List ℕ × Result → List ℕ × Result
echo echoing c (out, r) = (if echoing then c ∷ out else out, r)

-- The loop with `i` characters in `buf`.
unfoldable pub read_line : Bool → List (Ret ℕ) → ℕ → (ℕ → ℕ) → List ℕ × Result
read_line echoing [] i buf = ([], waits)
read_line echoing (err e ∷ keys) i buf = ([], closed)
read_line echoing (ok c ∷ keys) i buf = elim (is_erase c && ltb 0 i) [
  | true ↦ echo echoing 8 (read_line echoing keys (i - 1) buf)
  | false ↦ elim (leb 32 c && ltb i (buflen - 1)) [
    | true ↦ echo echoing c (read_line echoing keys (i + 1) (update buf i (c % 256)))
    | false ↦ elim (is_end c) [
      | true ↦ echo echoing 10 ([], line (update buf i 0))
      | false ↦ read_line echoing keys i buf
    ]
  ]
]

-- `buf` is the static buffer, with what an earlier call left there.
unfoldable pub readline : Bool → List (Ret ℕ) → (ℕ → ℕ) → List ℕ × Result
unfolding read_line
readline echoing keys buf = read_line echoing keys 0 buf
