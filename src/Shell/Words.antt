-- ===== src/Shell/Words.antt =====
-- The monitor's command line is split at blanks.
use mit_jos_f22_advanced_os.Base.{
  ℕ, zero, suc, ◌+◌, ◌<◌, ◌≡◌, inl, inr, refl, true, false, List, [], ◌∷◌, if◌then◌else◌, length,
  arith, some, Bool-cases,
}
use mit_jos_f22_advanced_os.Libc.Bytes.{Memory}
use mit_jos_f22_advanced_os.Libc.Text.{IsString, IsAt}
use mit_jos_f22_advanced_os.Shell.Token.{is_blank}
use mit_jos_f22_advanced_os.Shell.Split.{after_blanks}
use mit_jos_f22_advanced_os.Shell.Monitor.{is_arg, arg_end}

-- The argument in front of a line, and what is behind it.
abbrev pub arg_of : List ℕ → List ℕ
arg_of [] = []
arg_of (c ∷ cs) = if is_blank c then [] else c ∷ arg_of cs

abbrev pub behind_arg : List ℕ → List ℕ
behind_arg [] = []
behind_arg (c ∷ cs) = if is_blank c then c ∷ cs else behind_arg cs

-- The arguments of a line that does not start with a blank, given how the rest is split.
abbrev pub first_words : (List ℕ → List (List ℕ)) → List ℕ → List (List ℕ)
first_words next [] = []
first_words next (c ∷ rest) = arg_of (c ∷ rest) ∷ next (behind_arg (c ∷ rest))

-- The arguments of a line of less than `n` characters.
abbrev pub words : ℕ → List ℕ → List (List ℕ)
words zero cs = []
words (suc n) cs = first_words (words n) (after_blanks cs)

pub arg_end_lem :
    (fuel : ℕ) (cs : List ℕ) (s : ℕ) (m : Memory)
    → length cs < fuel
    → IsString m s cs
    → (arg_end fuel s m ≡ some (s + length (arg_of cs)))
      × IsAt m s (arg_of cs)
      × IsString m (s + length (arg_of cs)) (behind_arg cs)
      × (length (arg_of cs) + length (behind_arg cs) ≡ length cs)
unfolding arg_end
arg_end_lem zero cs s m h k = absurd (omega (arith, h))
arg_end_lem (suc fuel) [] s m h k =
    let off : is_arg (m s) ≡ false = ground (arith, k) in
    let here : s + 0 ≡ s = omega arith in
    (rw (off, arg_end) (rw here refl), tt, rw here k, omega arith)
arg_end_lem (suc fuel) (c ∷ cs) s m h (e, ne, k) = elim (Bool-cases (is_blank c)) [
  | inl on ↦
      let off : is_arg (m s) ≡ false = ground (arith, e, on) in
      let here : s + 0 ≡ s = omega arith in
      rw on (rw (off, arg_end) (rw here refl), tt, rw here (e, ne, k), omega arith)
  | inr off ↦
      let on : is_arg (m s) ≡ true = ground (arith, e, ne, off) in
      let (run, at, str, len) = arg_end_lem fuel cs (s + 1) m (omega (arith, h)) k in
      let there : s + suc (length (arg_of cs)) ≡ s + 1 + length (arg_of cs) = omega arith in
      rw off (rw there (rw (on, arg_end) run, (e, ne, at), str, omega (arith, len)))
]

-- The entries of argv from `i` on are the strings `ws`, and a NULL is behind them.
abbrev pub IsArgv : Memory → (ℕ → ℕ) → ℕ → List (List ℕ) → Type 0
IsArgv m argv i [] = argv i ≡ 0
IsArgv m argv i (s ∷ ss) = IsString m (argv i) s × IsArgv m argv (i + 1) ss
