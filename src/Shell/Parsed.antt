-- ===== src/Shell/Parsed.antt =====
-- The loop of the monitor's runcmd makes argv the arguments of its line.
use mit_jos_f22_advanced_os.Base.{
  ℕ, zero, suc, ◌+◌, ◌-◌, ◌≤◌, ◌<◌, ◌≡◌, ◌⊎◌, inl, inr, refl, ap, ◌∙◌, Bool, true, false, not, List,
  [], ◌∷◌, update, ◌==◌, length, arith, Option, some, Bool-cases,
}
use mathlib.Core.Path.{subst, sym}
use mit_jos_f22_advanced_os.Libc.Bytes.{Memory}
use mit_jos_f22_advanced_os.Libc.Text.{IsString, IsAt-IsString}
use mit_jos_f22_advanced_os.Shell.Token.{is_blank}
use mit_jos_f22_advanced_os.Shell.Split.{
  IsStripped, after_blanks-IsStripped, after_blanks, blanks-length, clear_blanks_lem,
}
use mit_jos_f22_advanced_os.Shell.Monitor.{Parsed, args, too_many, parse, parse_arg, maxargs}
use mit_jos_f22_advanced_os.Shell.Words.{
  arg_of, behind_arg, first_words, words, arg_end_lem, IsArgv,
}

abbrev starts_arg : List ℕ → Bool
starts_arg [] = false
starts_arg (c ∷ cs) = not (is_blank c)

-- What the loop of runcmd does from argument `argc` and address `buf` on, where the arguments that
-- it finds are `ws`.
abbrev IsParsed : ℕ → (ℕ → ℕ) → ℕ → Memory → Bool → List (List ℕ) → Option Parsed → Type 0
IsParsed argc argv buf m starts ws r =
    ((argc + length ws < maxargs)
      × ((argv' : ℕ → ℕ) × (m' : Memory) × (r ≡ some (args (argc + length ws) argv' m'))
          × IsArgv m' argv' argc ws
          × ((j : ℕ) → j < argc → argv' j ≡ argv j)
          × ((a : ℕ) → a < buf → m' a ≡ m a)
          × ((starts ≡ true) ⊎ (m' buf ≡ 0))))
    ⊎ ((maxargs ≤ argc + length ws) × (r ≡ some too_many))

behind-starts_arg : (cs : List ℕ) → starts_arg (behind_arg cs) ≡ false
behind-starts_arg [] = refl
behind-starts_arg (c ∷ cs) = elim (Bool-cases (is_blank c)) [
  | inl on ↦ rw on (rw on refl)
  | inr off ↦ rw off (behind-starts_arg cs)
]

-- The string behind an argument is null-terminated in the end.
null_behind :
    (cs : List ℕ) (f : Memory) (e : ℕ) → (starts_arg (behind_arg cs) ≡ true) ⊎ (f e ≡ 0) → f e ≡ 0
null_behind cs f e h = elim h [
  | inl p ↦ absurd (ground (arith, behind-starts_arg cs, p))
  | inr z ↦ z
]

parse_arg_lem :
    (n fuel argc : ℕ) (argv : ℕ → ℕ) (s c : ℕ) (rest : List ℕ) (m : Memory)
    → IsString m s (c ∷ rest)
    → is_blank c ≡ false
    → length (c ∷ rest) < fuel
    → argc < maxargs
    → ((argc' : ℕ) (argv' : ℕ → ℕ) (e : ℕ)
        → argc' < maxargs
        → IsString m e (behind_arg (c ∷ rest))
        → IsParsed argc' argv' e m
            (starts_arg (behind_arg (c ∷ rest)))
            (words n (behind_arg (c ∷ rest)))
            (parse n fuel argc' argv' e m))
    → IsParsed argc argv s m true
        (first_words (words n) (c ∷ rest))
        (parse_arg (parse n fuel) fuel argc argv s m)
parse_arg_lem n fuel argc argv s c rest m (e₀, ne, k) off h small next =
    let used : (m s == 0) ≡ false = ground (arith, e₀, ne) in
    let w = arg_of (c ∷ rest) in
    let ws = words n (behind_arg (c ∷ rest)) in
    elim (Bool-cases (argc == maxargs - 1)) [
      | inl full ↦ inr (ground (arith, full), rw (used, parse_arg) (rw full refl))
      | inr room ↦
          let (run, at, str, len) = arg_end_lem fuel (c ∷ rest) s m h (e₀, ne, k) in
          let e = s + length w in
          let here : parse_arg (parse n fuel) fuel argc argv s m
              ≡ parse n fuel (argc + 1) (update argv argc s) e m =
            rw (used, parse_arg) (rw room (rw run refl)) in
          elim (next (argc + 1) (update argv argc s) e (ground (arith, small, room)) str) [
            | inr (many, r) ↦ inr (omega (arith, many), here ∙ r)
            | inl (few, (argv', m', r, argvs, kept, same, null)) ↦
                let own : argv' argc ≡ s = kept argc (omega arith) ∙ ground arith in
                let word : IsString m' s w =
                  IsAt-IsString w m m' s e refl same (null_behind (c ∷ rest) m' e null) at in
                let count : argc + 1 + length ws ≡ argc + suc (length ws) = omega arith in
                inl (
                  omega (arith, few),
                  (
                    argv',
                    m',
                    here ∙ r ∙ ap (λ i. some (args i argv' m')) count,
                    (subst (λ p. IsString m' p w) (sym own) word, argvs),
                    (λ j lt. kept j (omega (arith, lt)) ∙ ground (arith, lt)),
                    (λ a lt. same a (omega (arith, lt))),
                    inl refl,
                  ),
                )
          ]
    ]

-- The byte in front is a null or starts an argument, also when blanks were cleared.
first_null :
    (cs : List ℕ) (s s' : ℕ) (m' f : Memory)
    → s' + length (after_blanks cs) ≡ s + length cs
    → ((a : ℕ) → s ≤ a → a < s' → m' a ≡ 0)
    → ((a : ℕ) → a < s' → f a ≡ m' a)
    → (starts_arg (after_blanks cs) ≡ true) ⊎ (f s' ≡ 0)
    → (starts_arg cs ≡ true) ⊎ (f s ≡ 0)
first_null [] s s' m' f len zeros same h =
    let here : s' ≡ s = omega (arith, len) in
    elim h [ inl p ↦ inl p | inr z ↦ inr (ap f (sym here) ∙ z) ]
first_null (c ∷ cs) s s' m' f len zeros same h = elim (Bool-cases (is_blank c)) [
  | inl on ↦
      let le = blanks-length cs in
      let on_len : s' + length (after_blanks cs) ≡ s + suc (length cs) = ground (arith, len, on) in
      let later : s < s' = omega (arith, on_len, le) in
      inr (same s later ∙ zeros s (omega arith) later)
  | inr off ↦ rw off (inl refl)
]

behind-length : (cs : List ℕ) → length (behind_arg cs) ≤ length cs
behind-length [] = omega arith
behind-length (c ∷ cs) = ground (arith, behind-length cs)

arg-behind_length :
    (c : ℕ) (rest : List ℕ)
    → is_blank c ≡ false
    → length (behind_arg (c ∷ rest)) < length (c ∷ rest)
arg-behind_length c rest off = let le = behind-length rest in rw off (omega (arith, le))

-- Blanks in front of the line.
blanks_in_front :
    (argc : ℕ) (argv : ℕ → ℕ) (buf s : ℕ) (m m' : Memory) (cs : List ℕ) (starts : Bool)
    (ws : List (List ℕ)) (r : Option Parsed)
    → s + length (after_blanks cs) ≡ buf + length cs
    → ((a : ℕ) → a < buf → m' a ≡ m a)
    → ((a : ℕ) → buf ≤ a → a < s → m' a ≡ 0)
    → (starts ≡ starts_arg (after_blanks cs))
    → IsParsed argc argv s m' starts ws r
    → IsParsed argc argv buf m (starts_arg cs) ws r
blanks_in_front argc argv buf s m m' cs starts ws r len same zeros st (inr p) = inr p
blanks_in_front argc argv buf s m m' cs starts ws r len same zeros st
      (inl (few, (argv', m'', e, argvs, kept, same', null))) =
    let le = blanks-length cs in
    inl (
      few,
      (
        argv',
        m'',
        e,
        argvs,
        kept,
        (λ a lt. same' a (omega (arith, lt, len, le)) ∙ same a lt),
        first_null cs buf s m' m'' len zeros same'
            (elim null [ inl p ↦ inl (sym st ∙ p) | inr z ↦ inr z ]),
      ),
    )

-- The first line that is not a blank: a lemma on the line without them.
stripped_lem :
    (n fuel argc : ℕ) (argv : ℕ → ℕ) (s : ℕ) (m : Memory) (ds : List ℕ)
    → IsString m s ds
    → IsStripped ds
    → length ds < fuel
    → length ds ≤ n
    → argc < maxargs
    → ((argc' : ℕ) (argv' : ℕ → ℕ) (e : ℕ) (rest : List ℕ)
        → argc' < maxargs
        → IsString m e rest
        → length rest < n
        → length rest < fuel
        → IsParsed argc' argv' e m (starts_arg rest) (words n rest) (parse n fuel argc' argv' e m))
    → IsParsed argc argv s m
        (starts_arg ds)
        (first_words (words n) ds)
        (parse_arg (parse n fuel) fuel argc argv s m)
stripped_lem n fuel argc argv s m [] k st h enough small next =
    let ended : (m s == 0) ≡ true = ground (arith, k) in
    let count : argc + 0 ≡ argc = omega arith in
    inl (
      omega (arith, small),
      (
        update argv argc 0,
        m,
        rw count (rw (ended, parse_arg) refl),
        ground arith,
        (λ j lt. ground (arith, lt)),
        (λ a lt. refl),
        inr k,
      ),
    )
stripped_lem n fuel argc argv s m (c ∷ rest) k st h enough small next =
    let fewer = arg-behind_length c rest st in
    subst
      (λ b.
        IsParsed argc argv s m b (first_words (words n) (c ∷ rest))
          (parse_arg (parse n fuel) fuel argc argv s m))
      (ap not (sym st))
      (parse_arg_lem n fuel argc argv s c rest m k st h small (λ argc' argv' e lt str.
        next argc' argv' e (behind_arg (c ∷ rest)) lt str (omega (arith, fewer, enough))
          (omega (arith, fewer, h))))

parse_lem :
    (n fuel argc : ℕ) (argv : ℕ → ℕ) (buf : ℕ) (m : Memory) (cs : List ℕ)
    → IsString m buf cs
    → length cs < fuel
    → length cs < n
    → argc < maxargs
    → IsParsed argc argv buf m (starts_arg cs) (words n cs) (parse n fuel argc argv buf m)
unfolding parse
parse_lem zero fuel argc argv buf m cs k h enough small = absurd (omega (arith, enough))
parse_lem (suc n) fuel argc argv buf m cs k h enough small =
    let (s, m', run, len, str, same, zeros) = clear_blanks_lem fuel cs buf m h k in
    let le = blanks-length cs in
    let here : parse (suc n) fuel argc argv buf m ≡ parse_arg (parse n fuel) fuel argc argv s m' =
      rw (run, parse) refl in
    let at_text =
      stripped_lem n fuel argc argv s m' (after_blanks cs) str (after_blanks-IsStripped cs)
        (omega (arith, h, le)) (omega (arith, enough, le)) small
        (λ argc' argv' e rest lt str' fewer few.
          parse_lem n fuel argc' argv' e m' rest str' few fewer lt) in
    subst (IsParsed argc argv buf m (starts_arg cs) (words (suc n) cs)) (sym here) (
      blanks_in_front argc argv buf s m m' cs (starts_arg (after_blanks cs)) (words (suc n) cs) _
        len (λ a lt. same a (inl lt)) zeros refl at_text)

-- The loop of runcmd splits its line at blanks: it makes argv the null-terminated arguments in
-- their order with a NULL behind them, when there are at most 15, and refuses the line when there
-- are more. Given more rounds than the line has characters, it ends.
pub parse-IsArgv :
    (n fuel : ℕ) (argv : ℕ → ℕ) (buf : ℕ) (m : Memory) (cs : List ℕ)
    → IsString m buf cs
    → length cs < fuel
    → length cs < n
    → ((length (words n cs) < maxargs)
        × ((argv' : ℕ → ℕ) × (m' : Memory) × (parse n fuel 0 argv buf m
              ≡ some (args (length (words n cs)) argv' m'))
            × IsArgv m' argv' 0 (words n cs)))
      ⊎ ((maxargs ≤ length (words n cs)) × (parse n fuel 0 argv buf m ≡ some too_many))
parse-IsArgv n fuel argv buf m cs k h enough =
    let count : 0 + length (words n cs) ≡ length (words n cs) = omega arith in
    elim (parse_lem n fuel 0 argv buf m cs k h enough (omega arith)) [
      | inl (few, (argv', m', e, argvs, kept, same, null)) ↦
          inl (omega (arith, few), (argv', m', e ∙ ap (λ i. some (args i argv' m')) count, argvs))
      | inr (many, e) ↦ inr (omega (arith, many), e)
    ]
