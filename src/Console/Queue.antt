-- ===== src/Console/Queue.antt =====
-- The input buffer of kern/console.c is a queue of at most 511 characters.
use mit_jos_f22_advanced_os.Base.{
  ℕ, zero, suc, ◌+◌, ◌%◌, ◌<◌, ◌≡◌, ◌≢◌, refl, ap, ◌∙◌, true, false, List, [], ◌∷◌, ◌++◌, update,
  ◌==◌, if◌then◌else◌, Option, none, some, arith, Bool-cases, length, length-append, ne_of_==,
  ==_ne, inl, inr,
}
use mathlib.Core.Path.{subst}
use mathlib.Core.List.{append-nil, append_assoc}
use mit_jos_f22_advanced_os.Console.Input.{
  Cons, advance, put, Proc, cons_round, cons_intr, get, consbufsize, cons_getc,
}

-- The bytes from `r` up to `w` are `xs`.
abbrev pub IsHeld : (ℕ → ℕ) → ℕ → ℕ → List ℕ → Type 0
IsHeld f r w [] = r ≡ w
IsHeld f r w (x ∷ xs) = (f r ≡ x) × IsHeld f (advance r) w xs

-- The buffer holds the queue `xs`, the oldest character first.
abbrev pub IsQueue : List ℕ → Cons → Type 0
IsQueue xs cons =
    (cons.rpos < consbufsize) × (length xs < consbufsize) × IsHeld cons.buf cons.rpos cons.wpos xs

advance-mod : (r : ℕ) → r < 512 → advance r ≡ (r + 1) % 512
advance-mod r h = ground (arith, h)

IsHeld-wpos :
    (f : ℕ → ℕ) (r w : ℕ) (xs : List ℕ) → r < 512 → IsHeld f r w xs → w ≡ (r + length xs) % 512
IsHeld-wpos f r w [] h k = omega (arith, h, k)
IsHeld-wpos f r w (x ∷ xs) h (e, k) =
    let at = advance-mod r h in
    let lt : advance r < 512 = omega (arith, at) in
    omega (arith, at, IsHeld-wpos f (advance r) w xs lt k)

IsHeld-update :
    (f : ℕ → ℕ) (r w b : ℕ) (xs : List ℕ)
    → r < 512
    → length xs < 512
    → IsHeld f r w xs
    → IsHeld (update f w b) r w xs
IsHeld-update f r w b [] h few k = k
IsHeld-update f r w b (x ∷ xs) h few (e, k) =
    let at = advance-mod r h in
    let lt : advance r < 512 = omega (arith, at) in
    let ne : w ≢ r =
      λ same. absurd (omega (arith, at, h, few, IsHeld-wpos f (advance r) w xs lt k, same)) in
    (ground (arith, ne, e), IsHeld-update f (advance r) w b xs lt (omega (arith, few)) k)

IsHeld-append :
    (f : ℕ → ℕ) (r w c : ℕ) (xs : List ℕ)
    → IsHeld f r w xs
    → f w ≡ c
    → IsHeld f r (advance w) (xs ++ (c ∷ []))
IsHeld-append f r w c [] k e = (ap f k ∙ e, ap advance k)
IsHeld-append f r w c (x ∷ xs) (y, k) e = (y, IsHeld-append f (advance r) w c xs k e)

-- The characters that reach the buffer.
abbrev pub stored : List ℕ → List ℕ
stored [] = []
stored (c ∷ cs) = if c == 0 then stored cs else c % 256 ∷ stored cs

put-IsQueue :
    (c : ℕ) (xs : List ℕ) (cons : Cons)
    → IsQueue xs cons
    → length xs < 511
    → c ≢ 0
    → IsQueue (xs ++ (c % 256 ∷ [])) (put c cons)
unfolding put
put-IsQueue c xs cons (h, few, k) room ne =
    let len = length-append xs (c % 256 ∷ []) in
    let off : (c == 0) ≡ false = ground (arith, ne) in
    let put_at : update cons.buf cons.wpos (c % 256) cons.wpos ≡ c % 256 = ground arith in
    rw off (
      h,
      omega (arith, len, room),
      IsHeld-append (update cons.buf cons.wpos (c % 256)) cons.rpos cons.wpos (c % 256) xs
          (IsHeld-update cons.buf cons.rpos cons.wpos (c % 256) xs h few k) put_at,
    )

skipped : (c : ℕ) (cons : Cons) → (c == 0) ≡ true → put c cons ≡ cons
unfolding put
skipped c cons on = rw on refl

-- The device gives the characters `cs` from state `s` on, and has no more in state `s'`.
abbrev pub Supplies : {S : Type 0} → Proc S → S → List ℕ → S → Type 0
Supplies proc s [] s' = proc s ≡ (none, s')
Supplies {S} proc s (c ∷ cs) s' = (t : S) × (proc s ≡ (some c, t)) × Supplies proc t cs s'

-- The loop of cons_intr, given at least as many rounds as the device has characters and one more,
-- ends with the device empty, and has put the characters other than 0, as bytes and in order,
-- behind those in the buffer, as long as there are at most 511 characters in all.
pub cons_intr-IsQueue :
    {S : Type 0} (proc : Proc S) (cs xs : List ℕ) (fuel : ℕ) (s s' : S) (cons : Cons)
    → Supplies proc s cs s'
    → length cs < fuel
    → IsQueue xs cons
    → length xs + length (stored cs) < consbufsize
    → (cons' : Cons) × (cons_intr proc fuel s cons ≡ some (s', cons'))
      × IsQueue (xs ++ stored cs) cons'
unfolding cons_intr
cons_intr-IsQueue proc cs xs zero s s' cons d enough q room = absurd (omega (arith, enough))
cons_intr-IsQueue proc [] xs (suc fuel) s s' cons d enough q room =
    (cons, ap (cons_round (cons_intr proc fuel) cons) d, rw (append-nil xs) q)
cons_intr-IsQueue proc (c ∷ cs) xs (suc fuel) s s' cons (t, e, d) enough q room =
    let first = ap (cons_round (cons_intr proc fuel) cons) e in
    elim (Bool-cases (c == 0)) [
      | inl on ↦
          let (cons', run, q') =
            cons_intr-IsQueue proc cs xs fuel t s' cons d (omega (arith, enough)) q
              (ground (arith, room, on)) in
          (cons', first ∙ ap (cons_intr proc fuel t) (skipped c cons on) ∙ run, rw on q')
      | inr off ↦
          let fits : length xs + suc (length (stored cs)) < 512 = ground (arith, room, off) in
          let behind = put-IsQueue c xs cons q (omega (arith, fits)) (ne_of_== c 0 off) in
          let len = length-append xs (c % 256 ∷ []) in
          let same : xs ++ (c % 256 ∷ []) ++ stored cs ≡ xs ++ stored (c ∷ cs) =
            rw off (append_assoc xs (c % 256 ∷ []) (stored cs)) in
          let (cons', run, q') =
            cons_intr-IsQueue proc cs (xs ++ (c % 256 ∷ [])) fuel t s' (put c cons) d
              (omega (arith, enough)) behind (omega (arith, len, fits)) in
          (cons', first ∙ run, subst (λ l. IsQueue l cons') same q')
    ]

-- The oldest character of a queue, or 0, with the characters that are left.
abbrev IsTaken : List ℕ → ℕ → Cons → Type 0
IsTaken [] c cons = (c ≡ 0) × IsQueue [] cons
IsTaken (x ∷ xs) c cons = (c ≡ x) × IsQueue xs cons

-- cons_getc polls the devices first. Then it takes the oldest character of the buffer and leaves
-- the others in their order, or returns 0 when the buffer is empty.
cons_getc-IsTaken :
    {S : Type 0} (poll : S → Cons → Option (S × Cons)) (xs : List ℕ) (s s' : S) (cons cons' : Cons)
    → poll s cons ≡ some (s', cons')
    → IsQueue xs cons'
    → (c : ℕ) × (after : Cons) × (cons_getc poll s cons ≡ some (c, s', after)) × IsTaken xs c after
unfolding cons_getc get
cons_getc-IsTaken poll [] s s' cons cons' e (h, few, k) =
    let empty : (cons'.rpos == cons'.wpos) ≡ true = ground (arith, k) in
    rw (e, cons_getc) (rw (empty, get) (0, cons', refl, (refl, (h, few, k))))
cons_getc-IsTaken poll (x ∷ rest) s s' cons cons' e (h, few, (y, k)) =
    let at = advance-mod cons'.rpos h in
    let lt : advance cons'.rpos < 512 = omega (arith, at) in
    let held = IsHeld-wpos cons'.buf (advance cons'.rpos) cons'.wpos rest lt k in
    let differ : cons'.rpos ≢ cons'.wpos = λ same. absurd (omega (arith, held, at, h, few, same)) in
    let ne = ==_ne cons'.rpos cons'.wpos differ in
    rw (e, cons_getc)
      (rw (ne, get)
        (
          cons'.buf cons'.rpos,
          record cons' { rpos = advance cons'.rpos },
          refl,
          (y, (lt, omega (arith, few), k)),
        ))

-- The character after the 511th makes the buffer look empty: all of its characters are lost.
pub put-IsQueue_full :
    (c : ℕ) (xs : List ℕ) (cons : Cons)
    → IsQueue xs cons
    → length xs ≡ 511
    → c ≢ 0
    → IsQueue [] (put c cons)
unfolding put
put-IsQueue_full c xs cons (h, few, k) full ne =
    let off : (c == 0) ≡ false = ground (arith, ne) in
    let at = IsHeld-wpos cons.buf cons.rpos cons.wpos xs h k in
    let lt : cons.wpos < 512 = omega (arith, at) in
    rw off (h, omega arith, omega (arith, advance-mod cons.wpos lt, at, full))
