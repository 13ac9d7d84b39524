-- ===== src/Fs/Walked.antt =====
-- The loop of walk_path of fs/fs.c ends.
use mit_jos_f22_advanced_os.Base.{
  ℕ, zero, suc, ◌≤◌, ◌≡◌, refl, ap, inl, inr, List, [], ◌∷◌, ◌==◌, arith, Option, some, none,
  Bool-cases, Option-cases, fun_ext, length, ◌∙◌, ◌+◌, leb,
}
use mit_jos_f22_advanced_os.Base.Ret.{M, ◌>>=◌, ok, err}
use mit_jos_f22_advanced_os.Fs.Disk.{Disk, Place}
use mit_jos_f22_advanced_os.Fs.Dir.{
  maxnamelen, ftype_dir, dir_lookup, element, skip_slash, walk_round, walk_from, walk_path, s_root,
  Walk, ended,
}

length-skip_slash : (p : List ℕ) → length (skip_slash p) ≤ length p
unfolding skip_slash
length-skip_slash [] = omega arith
length-skip_slash (c ∷ p) = elim (Bool-cases (c == b'/')) [
  | inl slash ↦ rw slash (omega (arith, length-skip_slash p))
  | inr other ↦ rw other (omega arith)
]

length-element : (p : List ℕ) → length (element p).1 ≤ length p
unfolding element
length-element [] = omega arith
length-element (c ∷ p) = elim (Bool-cases (c == b'/')) [
  | inl slash ↦ rw slash (omega arith)
  | inr other ↦ rw other (omega (arith, length-element p))
]

-- What a round of the loop leaves of a path.
left_over : List ℕ → List ℕ
left_over p = skip_slash (element p).1

length-left_over : (c : ℕ) (p : List ℕ) → length (left_over (c ∷ p)) ≤ length p
unfolding left_over element skip_slash
length-left_over c p = elim (Bool-cases (c == b'/')) [
  | inl slash ↦ rw slash (rw slash (length-skip_slash p))
  | inr other ↦ rw other (omega (arith, length-skip_slash (element p).1, length-element p))
]

walk_from-enough :
    (n m : ℕ) (path : List ℕ) (dir : Option Place) (f : Place) (d : Disk)
    → length path ≤ n
    → length path ≤ m
    → walk_from n path dir f d ≡ walk_from m path dir f d
unfolding walk_from left_over
walk_from-enough n m [] dir f d h k = refl
walk_from-enough zero m (c ∷ path) dir f d h k = absurd (omega (arith, h))
walk_from-enough (suc n) zero (c ∷ path) dir f d h k = absurd (omega (arith, k))
walk_from-enough (suc n) (suc m) (c ∷ path) dir f d h k =
    let rest = skip_slash (element (c ∷ path)).1 in
    let less : length rest ≤ length path = length-left_over c path in
    let same : walk_from n rest (some f) ≡ walk_from m rest (some f) = fun_ext (λ g. fun_ext (λ q.
      walk_from-enough n m rest (some f) g q (omega (arith, h, less)) (omega (arith, k, less)))) in
    ap (λ next. walk_round (c ∷ path) f next d) same

-- The fuel did not run out; there may be no result for another reason, a panic of the server.
abbrev IsEnded : Option (Option Walk × Disk) → Type 0
IsEnded (some (none, d)) = ⊥
IsEnded _ = Unit

walk_round-IsEnded :
    (path : List ℕ) (f : Place) (next : Place → M Disk (Option Walk)) (d : Disk)
    → ((g : Place) (q : Disk) → IsEnded (next g q))
    → IsEnded (walk_round path f next d)
walk_round-IsEnded path f next d h =
    let name = (element path).0 in
    elim (Bool-cases (leb maxnamelen (length name))) [
      | inl long ↦ rw long tt
      | inr fits ↦ rw fits (elim (Bool-cases (d f.0 (f.1 + 33) == ftype_dir)) [
        | inr other ↦ rw other tt
        | inl dir ↦ rw dir (elim (Option-cases (dir_lookup f name d)) [
          | inl e ↦ rw (e, ◌>>=◌) tt
          | inr ((err x, q), e) ↦ rw (e, ◌>>=◌) tt
          | inr ((ok g, q), e) ↦ rw (e, ◌>>=◌) (h g q)
        ])
      ])
    ]

walk_from-IsEnded :
    (n : ℕ) (path : List ℕ) (dir : Option Place) (f : Place) (d : Disk)
    → length path ≤ n
    → IsEnded (walk_from n path dir f d)
unfolding walk_from left_over
walk_from-IsEnded n [] dir f d h = tt
walk_from-IsEnded zero (c ∷ path) dir f d h = absurd (omega (arith, h))
walk_from-IsEnded (suc n) (c ∷ path) dir f d h =
    walk_round-IsEnded (c ∷ path) f (walk_from n (left_over (c ∷ path)) (some f)) d (λ g q.
      walk_from-IsEnded n (left_over (c ∷ path)) (some f) g q
        (omega (arith, h, length-left_over c path)))

-- The outcome of the loop with the result of walk_path.
abbrev pub in_time : Option (Walk × Disk) → Option (Option Walk × Disk)
in_time none = none
in_time (some (w, d)) = some (some w, d)

in_time-ended :
    (r : Option (Option Walk × Disk))
    → IsEnded r
    → r ≡ in_time (elim r [ none ↦ none | some (o, d) ↦ ended o d ])
in_time-ended none h = refl
in_time-ended (some (none, d)) h = absurd h
in_time-ended (some (some w, d)) h = refl

-- The loop of walk_path ends for every path: with as many rounds as the path has bytes, or more, it
-- does not run out of fuel, and its result is that of walk_path.
pub walk_from-walk_path :
    (n : ℕ) (path : List ℕ) (d : Disk)
    → length path ≤ n
    → walk_from n (skip_slash path) none s_root d ≡ in_time (walk_path path d)
unfolding walk_path
walk_from-walk_path n path d h =
    let shorter = length-skip_slash path in
    walk_from-enough n (length path) (skip_slash path) none s_root d (omega (arith, h, shorter))
      shorter
    ∙ in_time-ended (walk_from (length path) (skip_slash path) none s_root d)
        (walk_from-IsEnded (length path) (skip_slash path) none s_root d shorter)
