-- ===== src/Shell/Tokens.antt =====
-- gettoken reads the tokens of a line one after the other and null-terminates the words.
use mit_jos_f22_advanced_os.Base.{
  ℕ, suc, ◌+◌, ◌≤◌, ◌<◌, ◌≡◌, ◌≢◌, ◌⊎◌, inl, inr, refl, ap, ◌∙◌, Bool, true, false, List, [], ◌∷◌,
  update, ◌==◌, if◌then◌else◌, length, arith, some, Bool-cases, ==_ne,
}
use mathlib.Core.Path.{subst, sym}
use mit_jos_f22_advanced_os.Libc.Bytes.{Memory}
use mit_jos_f22_advanced_os.Libc.Text.{IsAt-IsString, IsString, IsString-update, IsAt}
use mit_jos_f22_advanced_os.Shell.Token.{
  is_blank, is_symbol, is_word, Token, token_at, next_token, gettoken,
}
use mit_jos_f22_advanced_os.Shell.Split.{
  IsStripped, after_blanks-IsStripped, after_blanks, word_of, behind_word, blanks-length,
  words-length, clear_blanks_lem, word_end_lem,
}

-- A line that starts with a token, or is empty: the token's kind, its text and what is behind it.
abbrev pub kind_of : List ℕ → ℕ
kind_of [] = 0
kind_of (c ∷ cs) = if is_symbol c then c else b'w'

abbrev pub text_of : List ℕ → List ℕ
text_of [] = []
text_of (c ∷ cs) = if is_symbol c then [] else word_of (c ∷ cs)

abbrev pub rest_of : List ℕ → List ℕ
rest_of [] = []
rest_of (c ∷ cs) = if is_symbol c then cs else behind_word (c ∷ cs)

-- The variables of gettoken stand at the first token of `line`, the text behind it in memory.
abbrev pub IsFirst : List ℕ → Token → Type 0
IsFirst [] t = (t.kind ≡ 0) × (t.p2 ≡ 0)
IsFirst (c ∷ cs) t =
    (t.kind ≡ kind_of (c ∷ cs))
    × (t.p1 < t.p2)
    × (t.p1 + length (text_of (c ∷ cs)) ≤ t.p2)
    × IsAt t.memory t.p1 (text_of (c ∷ cs))
    × ((is_symbol c ≡ true) ⊎ (t.p2 ≡ t.p1 + length (text_of (c ∷ cs))))
    × IsString t.memory t.p2 (rest_of (c ∷ cs))

abbrev pub starts_word : List ℕ → Bool
starts_word [] = false
starts_word (c ∷ cs) = is_word c

behind-starts_word : (cs : List ℕ) → starts_word (behind_word cs) ≡ false
behind-starts_word [] = refl
behind-starts_word (c ∷ cs) = elim (Bool-cases (is_word c)) [
  | inl on ↦ rw on (behind-starts_word cs)
  | inr off ↦ rw off off
]

-- What is known about a token that was read from `s` in memory `m`.
abbrev IsRead : List ℕ → ℕ → Memory → Token → Type 0
IsRead cs s m t =
    IsFirst cs t
    × ((a : ℕ) → a < s → t.memory a ≡ m a)
    × ((starts_word cs ≡ true) ⊎ (t.memory s ≡ 0))

token_at_lem :
    (fuel : ℕ) (cs : List ℕ) (s : ℕ) (m : Memory)
    → length cs < fuel
    → IsString m s cs
    → IsStripped cs
    → (t : Token) × (token_at fuel s m ≡ some t) × IsRead cs s m t
unfolding token_at
token_at_lem fuel [] s m h k st =
    let on : (m s == 0) ≡ true = ground (arith, k) in
    (
      record { kind = 0; p1 = 0; p2 = 0; memory = m },
      rw (on, token_at) refl,
      ((refl, refl), (λ a lt. refl), inr k),
    )
token_at_lem fuel (c ∷ cs) s m h (e, ne, k) st =
    let off : (m s == 0) ≡ false = ground (arith, e, ne) in
    elim (Bool-cases (is_symbol c)) [
      | inl on ↦
          let on' : is_symbol (m s) ≡ true = rw e on in
          rw on (
            record { kind = m s; p1 = s; p2 = s + 1; memory = update m s 0 },
            rw (off, token_at) (rw (on', token_at) refl),
            (
              (
                e,
                omega arith,
                omega arith,
                tt,
                inl refl,
                IsString-update cs m (s + 1) s 0 (omega arith) k,
              ),
              (λ a lt. ground (arith, lt)),
              inr (ground arith),
            ),
          )
      | inr plain ↦
          let plain' : is_symbol (m s) ≡ false = rw e plain in
          let word : is_word c ≡ true = ground (arith, ne, st, plain) in
          let (run, at, str) = word_end_lem fuel (c ∷ cs) s m h (e, ne, k) in
          let t : Token = record {
            kind = b'w';
            p1 = s;
            p2 = s + length (word_of (c ∷ cs));
            memory = m;
          } in
          let run' : token_at fuel s m ≡ some t =
            rw (off, token_at) (rw (plain', token_at) (rw (run, token_at) refl)) in
          let some_more : s < s + length (word_of (c ∷ cs)) = rw word (omega arith) in
          let kind : b'w' ≡ kind_of (c ∷ cs) =
            ap (λ (b : Bool). if b then c else b'w') (sym plain) in
          let tx : word_of (c ∷ cs) ≡ text_of (c ∷ cs) =
            ap (λ (b : Bool). if b then [] else word_of (c ∷ cs)) (sym plain) in
          let rx : behind_word (c ∷ cs) ≡ rest_of (c ∷ cs) =
            ap (λ (b : Bool). if b then cs else behind_word (c ∷ cs)) (sym plain) in
          let first : IsFirst (c ∷ cs) t = (
            kind,
            some_more,
            omega (arith, ap length tx),
            subst (IsAt m s) tx at,
            inr (ap (λ l. s + length l) tx),
            subst (IsString m t.p2) rx str,
          ) in
          (t, run', (first, (λ a lt. refl), inl word))
    ]

-- The byte in front is a null or starts a word, also when blanks were cleared.
first_null :
    (cs : List ℕ) (s s' : ℕ) (m' f : Memory)
    → s' + length (after_blanks cs) ≡ s + length cs
    → ((a : ℕ) → s ≤ a → a < s' → m' a ≡ 0)
    → ((a : ℕ) → a < s' → f a ≡ m' a)
    → (starts_word (after_blanks cs) ≡ true) ⊎ (f s' ≡ 0)
    → (starts_word cs ≡ true) ⊎ (f s ≡ 0)
first_null [] s s' m' f len zeros same h =
    let here : s' ≡ s = omega (arith, len) in
    elim h [ inl p ↦ inl p | inr z ↦ inr (ap f (sym here) ∙ z) ]
first_null (c ∷ cs) s s' m' f len zeros same h = elim (Bool-cases (is_blank c)) [
  | inl on ↦
      let le = blanks-length cs in
      let on_len : s' + length (after_blanks cs) ≡ s + suc (length cs) = ground (arith, len, on) in
      let later : s < s' = omega (arith, on_len, le) in
      inr (same s later ∙ zeros s (omega arith) later)
  | inr off ↦
      let off_len : s' + suc (length cs) ≡ s + suc (length cs) = ground (arith, len, off) in
      let here : s' ≡ s = omega (arith, off_len) in
      let h' : (is_word c ≡ true) ⊎ (f s' ≡ 0) =
        subst
          (λ (b : Bool). (starts_word (if b then after_blanks cs else c ∷ cs) ≡ true) ⊎ (f s' ≡ 0))
          off h in
      elim h' [ inl p ↦ inl p | inr z ↦ inr (ap f (sym here) ∙ z) ]
]

next_token_lem :
    (fuel : ℕ) (cs : List ℕ) (s p1 p2 : ℕ) (m : Memory)
    → s ≢ 0
    → length cs < fuel
    → IsString m s cs
    → (t : Token) × (next_token fuel s p1 p2 m ≡ some t)
      × IsFirst (after_blanks cs) t
      × ((a : ℕ) → a < s → t.memory a ≡ m a)
      × ((starts_word cs ≡ true) ⊎ (t.memory s ≡ 0))
unfolding next_token
next_token_lem fuel cs s p1 p2 m ne h k =
    let off = ==_ne s 0 ne in
    let (s', m', run, len, str, same, zeros) = clear_blanks_lem fuel cs s m h k in
    let le = blanks-length cs in
    let (t, run', (first, same', null)) =
      token_at_lem fuel (after_blanks cs) s' m' (omega (arith, h, le)) str
        (after_blanks-IsStripped cs) in
    (
      t,
      rw (off, next_token) (rw (run, next_token) run'),
      first,
      (λ a lt. same' a (omega (arith, lt, len, le)) ∙ same a (inl lt)),
      first_null cs s s' m' t.memory len zeros same' null,
    )

rest_of-length : (c : ℕ) (cs : List ℕ) → length (rest_of (c ∷ cs)) ≤ length (c ∷ cs)
rest_of-length c cs = ground (arith, words-length (c ∷ cs))

-- A word ends where no word starts.
behind_null :
    (c : ℕ) (cs : List ℕ) (f : Memory) (e : ℕ)
    → is_symbol c ≡ false
    → (starts_word (rest_of (c ∷ cs)) ≡ true) ⊎ (f e ≡ 0)
    → f e ≡ 0
behind_null c cs f e off h =
    let none_there : starts_word (rest_of (c ∷ cs)) ≡ false =
      ap (λ (b : Bool). starts_word (if b then cs else behind_word (c ∷ cs))) off
      ∙ behind-starts_word (c ∷ cs) in
    elim h [ inl p ↦ absurd (ground (arith, none_there, p)) | inr z ↦ z ]

-- The next call of gettoken. It returns the token that the last one has read ahead, as its kind and
-- its start, and reads the next one, which is the first of the rest of the line without blanks. A
-- word now stands null-terminated at its start, and memory in front of the rest keeps its bytes, so
-- that words returned earlier stay as they are. The fuel is more than the length of the line.
pub gettoken-IsFirst :
    (fuel c : ℕ) (cs : List ℕ) (t : Token)
    → length (c ∷ cs) < fuel
    → IsFirst (c ∷ cs) t
    → (t' : Token) × (gettoken fuel t ≡ some (kind_of (c ∷ cs), t.p1, t'))
      × IsFirst (after_blanks (rest_of (c ∷ cs))) t'
      × ((is_symbol c ≡ true) ⊎ IsString t'.memory t.p1 (text_of (c ∷ cs)))
      × ((a : ℕ) → a < t.p2 → t'.memory a ≡ t.memory a)
unfolding gettoken
gettoken-IsFirst fuel c cs t h (kind, lt, le, at, end, str) =
    let shorter = rest_of-length c cs in
    let (t', run, first, same, null) =
      next_token_lem fuel (rest_of (c ∷ cs)) t.p2 t.p1 t.p2 t.memory
        (λ z. absurd (omega (arith, lt, z))) (omega (arith, h, shorter)) str in
    let word : (is_symbol c ≡ true) ⊎ IsString t'.memory t.p1 (text_of (c ∷ cs)) =
      elim (Bool-cases (is_symbol c)) [
        | inl on ↦ inl on
        | inr off ↦ elim end [
          | inl on ↦ inl on
          | inr e ↦ inr (
              IsAt-IsString (text_of (c ∷ cs)) t.memory t'.memory t.p1 t.p2 e same
                (behind_null c cs t'.memory t.p2 off null) at)
        ]
      ] in
    (t', rw (run, gettoken) (λ i. some (kind i, t.p1, t')), first, word, same)
