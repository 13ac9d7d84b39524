-- ===== src/Shell/Split.antt =====
-- What _gettoken guarantees, against a description of a line's tokens on lists.
use mit_jos_f22_advanced_os.Base.{
  ℕ, zero, suc, ◌+◌, ◌≤◌, ◌<◌, ◌≡◌, inl, inr, refl, ◌∙◌, true, false, List, [], ◌∷◌, update,
  if◌then◌else◌, length, arith, some, Bool-cases,
}
use mit_jos_f22_advanced_os.Libc.Bytes.{Memory}
use mit_jos_f22_advanced_os.Libc.Text.{IsString, IsString-update, IsAt, IsSameBut}
use mit_jos_f22_advanced_os.Shell.Token.{is_blank, is_word, clear_blanks, word_end}

-- A line without the blanks in front.
abbrev pub after_blanks : List ℕ → List ℕ
after_blanks [] = []
after_blanks (c ∷ cs) = if is_blank c then after_blanks cs else c ∷ cs

-- The word in front of a line, and what is behind it.
abbrev pub word_of : List ℕ → List ℕ
word_of [] = []
word_of (c ∷ cs) = if is_word c then c ∷ word_of cs else []

abbrev pub behind_word : List ℕ → List ℕ
behind_word [] = []
behind_word (c ∷ cs) = if is_word c then behind_word cs else c ∷ cs

pub blanks-length : (cs : List ℕ) → length (after_blanks cs) ≤ length cs
blanks-length [] = omega arith
blanks-length (c ∷ cs) = ground (arith, blanks-length cs)

pub words-length : (cs : List ℕ) → length (word_of cs) + length (behind_word cs) ≡ length cs
words-length [] = omega arith
words-length (c ∷ cs) = ground (arith, words-length cs)

pub clear_blanks_lem :
    (fuel : ℕ) (cs : List ℕ) (s : ℕ) (m : Memory)
    → length cs < fuel
    → IsString m s cs
    → (s' : ℕ) × (m' : Memory) × (clear_blanks fuel s m ≡ some (s', m'))
      × (s' + length (after_blanks cs) ≡ s + length cs)
      × IsString m' s' (after_blanks cs)
      × IsSameBut s s' m m'
      × ((a : ℕ) → s ≤ a → a < s' → m' a ≡ 0)
unfolding clear_blanks
clear_blanks_lem zero cs s m h k = absurd (omega (arith, h))
clear_blanks_lem (suc fuel) [] s m h k =
    let off : is_blank (m s) ≡ false = ground (arith, k) in
    (
      s,
      m,
      rw (off, clear_blanks) refl,
      refl,
      k,
      (λ a b. refl),
      λ a lo hi. absurd (omega (arith, lo, hi)),
    )
clear_blanks_lem (suc fuel) (c ∷ cs) s m h (e, ne, k) = elim (Bool-cases (is_blank c)) [
  | inl on ↦
      let on' : is_blank (m s) ≡ true = rw e on in
      let (s', m', run, len, str, same, zeros) =
        clear_blanks_lem fuel cs (s + 1) (update m s 0) (omega (arith, h))
          (IsString-update cs m (s + 1) s 0 (omega arith) k) in
      let le = blanks-length cs in
      rw on (
        s',
        m',
        rw (on', clear_blanks) run,
        omega (arith, len),
        str,
        (λ a far. same a (ground (arith, far, len, le)) ∙ ground (arith, far, len, le)),
        λ a lo hi. ground (arith, lo, hi, same a, zeros a),
      )
  | inr off ↦
      let off' : is_blank (m s) ≡ false = rw e off in
      rw off (
        s,
        m,
        rw (off', clear_blanks) refl,
        refl,
        (e, ne, k),
        (λ a b. refl),
        λ a lo hi. absurd (omega (arith, lo, hi)),
      )
]

pub word_end_lem :
    (fuel : ℕ) (cs : List ℕ) (s : ℕ) (m : Memory)
    → length cs < fuel
    → IsString m s cs
    → (word_end fuel s m ≡ some (s + length (word_of cs)))
      × IsAt m s (word_of cs)
      × IsString m (s + length (word_of cs)) (behind_word cs)
unfolding word_end
word_end_lem zero cs s m h k = absurd (omega (arith, h))
word_end_lem (suc fuel) [] s m h k =
    let off : is_word (m s) ≡ false = ground (arith, k) in
    let here : s + 0 ≡ s = omega arith in (rw (off, word_end) (rw here refl), tt, rw here k)
word_end_lem (suc fuel) (c ∷ cs) s m h (e, ne, k) = elim (Bool-cases (is_word c)) [
  | inl on ↦
      let on' : is_word (m s) ≡ true = rw e on in
      let (run, at, str) = word_end_lem fuel cs (s + 1) m (omega (arith, h)) k in
      let there : s + suc (length (word_of cs)) ≡ s + 1 + length (word_of cs) = omega arith in
      rw on (rw there (rw (on', word_end) run, (e, ne, at), str))
  | inr off ↦
      let off' : is_word (m s) ≡ false = rw e off in
      let here : s + 0 ≡ s = omega arith in
      rw off (rw (off', word_end) (rw here refl), tt, rw here (e, ne, k))
]

-- A line without blanks in front.
abbrev pub IsStripped : List ℕ → Type 0
IsStripped [] = Unit
IsStripped (c ∷ cs) = is_blank c ≡ false

pub after_blanks-IsStripped : (cs : List ℕ) → IsStripped (after_blanks cs)
after_blanks-IsStripped [] = tt
after_blanks-IsStripped (c ∷ cs) = elim (Bool-cases (is_blank c)) [
  | inl on ↦ rw on (after_blanks-IsStripped cs)
  | inr off ↦ rw off off
]
