-- ===== src/Console/Input.antt =====
-- The input buffer of kern/console.c: cons_intr, cons_getc, serial_intr and getchar.
--
-- A device is a state `S` with a function like serial_proc_data, whose result -1 is `none`. The
-- loops run on fuel, and `none` is a loop that used it up.
use mit_jos_f22_advanced_os.Base.{
  ℕ, zero, suc, ◌+◌, ◌%◌, Bool, true, false, update, ◌==◌, if◌then◌else◌, Option, none, some,
  bit_and,
}

-- CONSBUFSIZE
abbrev pub consbufsize : ℕ
consbufsize = 512

-- `cons`
pub record Cons : Type 0 where
  pub buf : ℕ → ℕ
  pub rpos : ℕ
  pub wpos : ℕ

-- The steps `pos++` and `if (pos == CONSBUFSIZE) pos = 0`.
abbrev pub advance : ℕ → ℕ
advance p = if p + 1 == consbufsize then 0 else p + 1

-- The body of the loop of cons_intr; `buf` holds bytes.
unfoldable pub put : ℕ → Cons → Cons
put c cons =
    if c == 0
    then cons
    else record cons { buf = update cons.buf cons.wpos (c % 256); wpos = advance cons.wpos }

-- A function that cons_intr calls, on the state of its device.
abbrev pub Proc : Type 0 → Type 0
Proc S = S → Option ℕ × S

-- A round of the loop, with what `proc` returned.
abbrev pub cons_round :
    {S : Type 0} → (S → Cons → Option (S × Cons)) → Cons → Option ℕ × S → Option (S × Cons)
cons_round next cons (none, s) = some (s, cons)
cons_round next cons (some c, s) = next s (put c cons)

unfoldable pub cons_intr : {S : Type 0} → Proc S → ℕ → S → Cons → Option (S × Cons)
cons_intr proc zero s cons = none
cons_intr proc (suc fuel) s cons = cons_round (cons_intr proc fuel) cons (proc s)

-- serial_proc_data, for any `inb` on the ports in state `S`.
unfoldable pub serial_proc_data : {S : Type 0} → (ℕ → S → ℕ × S) → Proc S
serial_proc_data inb s =
    let (status, s₁) = inb (0x3F8 + 5) s in
    elim (bit_and status 1 == 0) [
      | true ↦ (none, s₁)
      | false ↦ (let (c, s₂) = inb (0x3F8 + 0) s₁ in (some c, s₂))
    ]

unfoldable pub serial_intr :
    {S : Type 0} → Bool → (ℕ → S → ℕ × S) → ℕ → S → Cons → Option (S × Cons)
serial_intr serial_exists inb fuel s cons =
    if serial_exists then cons_intr (serial_proc_data inb) fuel s cons else some (s, cons)

-- The end of cons_getc, which takes the next character from the buffer.
unfoldable pub get : Cons → ℕ × Cons
get cons =
    if cons.rpos == cons.wpos
    then (0, cons)
    else (cons.buf cons.rpos, record cons { rpos = advance cons.rpos })

-- `poll` stands for serial_intr and kbd_intr.
unfoldable pub cons_getc :
    {S : Type 0} → (S → Cons → Option (S × Cons)) → S → Cons → Option (ℕ × S × Cons)
cons_getc poll s cons = elim (poll s cons) [
  | none ↦ none
  | some (s', cons') ↦ (let (c, cons₂) = get cons' in some (c, s', cons₂))
]

-- getchar, which polls again until there is a character.
unfoldable pub getchar :
    {S : Type 0} → (S → Cons → Option (S × Cons)) → ℕ → S → Cons → Option (ℕ × S × Cons)
unfolding cons_getc
getchar poll zero s cons = none
getchar poll (suc fuel) s cons = elim (cons_getc poll s cons) [
  | none ↦ none
  | some (c, s', cons') ↦ elim (c == 0) [
    | true ↦ getchar poll fuel s' cons'
    | false ↦ some (c, s', cons')
  ]
]
