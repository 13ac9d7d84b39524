-- ===== src/Shell/Options.antt =====
-- argnext against inc/args.h: the flags in order, and the arguments that are left.
use mit_jos_f22_advanced_os.Base.{
  ℕ, ◌+◌, ◌≤◌, ◌<◌, ◌≡◌, ◌≢◌, inl, inr, refl, ap, ◌∙◌, Bool, true, false, not, ◌&&◌, ◌||◌, List, [],
  ◌∷◌, ◌==◌, if◌then◌else◌, arith, Option, none, some, Bool-cases, ==_ne,
}
use mathlib.Core.Path.{subst, sym}
use mit_jos_f22_advanced_os.Libc.Bytes.{Memory}
use mit_jos_f22_advanced_os.Libc.Text.{IsString}
use mit_jos_f22_advanced_os.Shell.Args.{Argstate, argnext, shift_down}

-- The strings `ss` are the arguments from the array's entry `i` on, and the last ones.
abbrev pub IsArgs : Memory → ℕ → (ℕ → ℕ) → ℕ → List (List ℕ) → Type 0
IsArgs m argc argv i [] = argc ≡ i
IsArgs m argc argv i (s ∷ ss) =
    (i < argc) × (argv i ≢ 0) × IsString m (argv i) s × IsArgs m argc argv (i + 1) ss

-- The rest of the current argument is `s`, and the other arguments behind argument 0 are `ss`.
abbrev pub IsState : Memory → List ℕ → List (List ℕ) → Argstate → Type 0
IsState m s ss st = (st.curarg ≢ 0) × IsString m st.curarg s × IsArgs m st.argc st.argv 1 ss

-- inc/args.h: an argument that holds flags, with the flags.
abbrev pub is_flags : List ℕ → Bool
is_flags (c ∷ d ∷ s) = c == b'-'
is_flags s = false

abbrev pub is_dashes : List ℕ → Bool
is_dashes (c ∷ d ∷ []) = (c == b'-') && (d == b'-')
is_dashes s = false

abbrev pub flags_of : List ℕ → Option (ℕ × List ℕ)
flags_of (c ∷ d ∷ s) = some (d, s)
flags_of s = none

-- The next flag of a command line whose current argument has the flags `s` left, with what is left
-- of the two; or no flag, with the arguments that are left.
abbrev pub next_flag : List ℕ → List (List ℕ) → Option (ℕ × List ℕ) × List (List ℕ)
next_flag (c ∷ s) ss = (some (c, s), ss)
next_flag [] [] = (none, [])
next_flag [] (s ∷ ss) =
    if is_dashes s then (none, ss) else if is_flags s then (flags_of s, ss) else (none, s ∷ ss)

-- What argnext returns and leaves agrees with it.
abbrev pub IsNext : Memory → Option (ℕ × List ℕ) → List (List ℕ) → Option ℕ × Argstate → Type 0
IsNext m (some (c, s)) ss (o, st) = (o ≡ some c) × IsState m s ss st
IsNext m none ss (o, st) = (o ≡ none) × (st.curarg ≡ 0) × IsArgs m st.argc st.argv 1 ss

IsArgs-shift_down :
    (m : Memory) (st : Argstate) (i : ℕ) (ss : List (List ℕ))
    → 1 ≤ i
    → IsArgs m st.argc st.argv (i + 1) ss
    → IsArgs m (shift_down st).argc (shift_down st).argv i ss
IsArgs-shift_down m st i [] h k = omega (arith, k)
IsArgs-shift_down m st i (s ∷ ss) h (lt, ne, str, k) =
    let moved : (shift_down st).argv i ≡ st.argv (i + 1) = ground (arith, h, lt) in
    (
      omega (arith, lt),
      (λ z. ne (sym moved ∙ z)),
      subst (λ a. IsString m a s) (sym moved) str,
      IsArgs-shift_down m st (i + 1) ss (omega arith) k,
    )

-- The first test of argnext on a new argument, at the address `a`.
abbrev is_last : Memory → Argstate → Bool
is_last m st = (st.argc == 1) || not (m (st.argv 1) == b'-') || (m (st.argv 1 + 1) == 0)

-- No new argument.
stay_lem :
    (m : Memory) (st : Argstate) (ss : List (List ℕ))
    → st.curarg ≢ 0
    → m st.curarg ≡ 0
    → is_last m st ≡ true
    → IsArgs m st.argc st.argv 1 ss
    → IsNext m none ss (argnext m st)
unfolding argnext
stay_lem m st ss ne z on k =
    let off = ==_ne st.curarg 0 ne in
    let used : (m st.curarg == 0) ≡ true = ground (arith, z) in
    rw (off, argnext) (rw (used, argnext) (rw (on, argnext) (refl, refl, k)))

-- A new argument "--".
dashes_lem :
    (m : Memory) (st : Argstate) (ss : List (List ℕ))
    → st.curarg ≢ 0
    → m st.curarg ≡ 0
    → is_last m st ≡ false
    → ((m (st.argv 1 + 1) == b'-') && (m (st.argv 1 + 1 + 1) == 0)) ≡ true
    → IsArgs m st.argc st.argv 2 ss
    → IsNext m none ss (argnext m st)
unfolding argnext
dashes_lem m st ss ne z last on k =
    let off = ==_ne st.curarg 0 ne in
    let used : (m st.curarg == 0) ≡ true = ground (arith, z) in
    rw (off, argnext)
      (rw (used, argnext)
        (rw (last, argnext)
          (rw (on, argnext) (refl, refl, IsArgs-shift_down m st 1 ss (omega arith) k))))

-- A new argument that holds flags.
flags_lem :
    (m : Memory) (st : Argstate) (d : ℕ) (t : List ℕ) (ss : List (List ℕ))
    → st.curarg ≢ 0
    → m st.curarg ≡ 0
    → is_last m st ≡ false
    → ((m (st.argv 1 + 1) == b'-') && (m (st.argv 1 + 1 + 1) == 0)) ≡ false
    → m (st.argv 1 + 1) ≡ d
    → IsString m (st.argv 1 + 1 + 1) t
    → IsArgs m st.argc st.argv 2 ss
    → IsNext m (some (d, t)) ss (argnext m st)
unfolding argnext
flags_lem m st d t ss ne z last not_end e str k =
    let off = ==_ne st.curarg 0 ne in
    let used : (m st.curarg == 0) ≡ true = ground (arith, z) in
    rw (off, argnext)
      (rw (used, argnext)
        (rw (last, argnext)
          (rw (not_end, argnext)
            (
              ap some e,
              ((λ q. absurd (omega (arith, q))), str, IsArgs-shift_down m st 1 ss (omega arith) k),
            ))))

word_lem :
    (m : Memory) (st : Argstate) (c d : ℕ) (t : List ℕ) (ss : List (List ℕ))
    → (c == b'-') ≡ false
    → IsNext m none ((c ∷ d ∷ t) ∷ ss) (argnext m st)
    → IsNext m
        (next_flag [] ((c ∷ d ∷ t) ∷ ss)).0
        (next_flag [] ((c ∷ d ∷ t) ∷ ss)).1
        (argnext m st)
word_lem m st c d [] ss off k = rw off k
word_lem m st c d (e ∷ t) ss off k = rw off k

dash_lem :
    (m : Memory) (st : Argstate) (c d : ℕ) (t : List ℕ) (ss : List (List ℕ))
    → st.curarg ≢ 0
    → m st.curarg ≡ 0
    → (c == b'-') ≡ true
    → is_last m st ≡ false
    → m (st.argv 1 + 1) ≡ d
    → IsString m (st.argv 1 + 1 + 1) t
    → IsArgs m st.argc st.argv 2 ss
    → IsNext m
        (next_flag [] ((c ∷ d ∷ t) ∷ ss)).0
        (next_flag [] ((c ∷ d ∷ t) ∷ ss)).1
        (argnext m st)
dash_lem m st c d [] ss ne z dash last e str k = elim (Bool-cases (d == b'-')) [
  | inl on ↦
      let both : ((m (st.argv 1 + 1) == b'-') && (m (st.argv 1 + 1 + 1) == 0)) ≡ true =
        ground (arith, e, on, str) in
      rw dash (rw on (dashes_lem m st ss ne z last both k))
  | inr off ↦
      let not_end : ((m (st.argv 1 + 1) == b'-') && (m (st.argv 1 + 1 + 1) == 0)) ≡ false =
        ground (arith, e, off) in
      rw dash (rw off (flags_lem m st d [] ss ne z last not_end e str k))
]
dash_lem m st c d (x ∷ t) ss ne z dash last e (e', xz, str) k =
    let not_end : ((m (st.argv 1 + 1) == b'-') && (m (st.argv 1 + 1 + 1) == 0)) ≡ false =
      ground (arith, e', xz) in
    rw dash (flags_lem m st d (x ∷ t) ss ne z last not_end e (e', xz, str) k)

-- Where the current argument is used up: the next one.
new_argument_lem :
    (m : Memory) (st : Argstate) (ss : List (List ℕ))
    → st.curarg ≢ 0
    → m st.curarg ≡ 0
    → IsArgs m st.argc st.argv 1 ss
    → IsNext m (next_flag [] ss).0 (next_flag [] ss).1 (argnext m st)
new_argument_lem m st [] ne z k =
    let on : is_last m st ≡ true = ground (arith, k) in stay_lem m st [] ne z on k
new_argument_lem m st ([] ∷ ss) ne z (lt, nz, str, k) =
    let on : is_last m st ≡ true = ground (arith, str) in
    stay_lem m st ([] ∷ ss) ne z on (lt, nz, str, k)
new_argument_lem m st ((c ∷ []) ∷ ss) ne z (lt, nz, (e, cz, str), k) =
    let on : is_last m st ≡ true = ground (arith, str) in
    stay_lem m st ((c ∷ []) ∷ ss) ne z on (lt, nz, (e, cz, str), k)
new_argument_lem m st ((c ∷ d ∷ t) ∷ ss) ne z (lt, nz, (e, cz, (e', dz, str)), k) =
    elim (Bool-cases (c == b'-')) [
      | inl dash ↦
          let on : is_last m st ≡ false = ground (arith, e, e', dz, dash, lt) in
          dash_lem m st c d t ss ne z dash on e' str k
      | inr other ↦
          let on : is_last m st ≡ true = ground (arith, e, other) in
          word_lem m st c d t ss other
            (stay_lem m st ((c ∷ d ∷ t) ∷ ss) ne z on (lt, nz, (e, cz, (e', dz, str)), k))
    ]

-- argnext returns the next flag as inc/args.h describes it: the next character of the current
-- argument, or else the first one of the next argument when that starts with '-' and is longer; no
-- flag at the end of the list and before an argument without '-' or the argument "-"; and none at
-- "--", which is taken out. The arguments that hold flags are taken out of the array.
pub argnext-IsNext :
    (m : Memory) (s : List ℕ) (ss : List (List ℕ)) (st : Argstate)
    → IsState m s ss st
    → IsNext m (next_flag s ss).0 (next_flag s ss).1 (argnext m st)
unfolding argnext
argnext-IsNext m [] ss st (ne, z, k) = new_argument_lem m st ss ne z k
argnext-IsNext m (c ∷ s) ss st (ne, (e, nz, str), k) =
    let off = ==_ne st.curarg 0 ne in
    let left : (m st.curarg == 0) ≡ false = ground (arith, e, nz) in
    rw (off, argnext) (rw (left, argnext) (ap some e, ((λ z. absurd (omega (arith, z))), str, k)))
