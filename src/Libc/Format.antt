-- ===== src/Libc/Format.antt =====
-- vprintfmt and vsnprintf of lib/printfmt.c.
--
-- A format is the list of its bytes before the null, the characters that go to `putch` are a list,
-- and `va_list` is the list of the arguments that are left. An argument of the wrong kind, or one
-- too few, is undefined in C and `none` here.
use mit_jos_f22_advanced_os.Base.{
  ℕ, zero, suc, ◌+◌, ◌-◌, ◌*◌, ◌%◌, ◌^◌, Bool, true, false, ◌&&◌, ◌||◌, not, List, [], ◌∷◌, ◌++◌,
  map, ltb, leb, ◌==◌, if◌then◌else◌, Option, none, some, length, update,
}
use mit_jos_f22_advanced_os.Base.Ret.{Ret, ok, err, e_inval}
use mit_jos_f22_advanced_os.Libc.Number.{printnum, is_between}
use mit_jos_f22_advanced_os.Libc.Bytes.{Memory}
use mit_jos_f22_advanced_os.Libc.Messages.{error_string}

-- A 64-bit register or a `char *`, NULL or a string.
pub data Arg : Type 0 where
  word : ℕ → Arg
  text : Option (List ℕ) → Arg

-- The variables of the loop; `none` stands for a negative `int`. `number` is the precision while
-- its digits are read.
pub record Spec : Type 0 where
  pub padc : ℕ
  pub width : Option ℕ
  pub precision : Option ℕ
  pub altflag : Bool
  pub number : Option ℕ

abbrev pub no_spec : Spec
no_spec = record { padc = b' '; width = none; precision = none; altflag = false; number = none }

-- process_precision
abbrev pub set_precision : Option ℕ → Spec → Spec
set_precision p sp = elim (sp.width) [
  | none ↦ record sp { width = p; precision = none; number = none }
  | some w ↦ record sp { precision = p; number = none }
]

-- The end of a number's digits.
abbrev pub settle : Spec → Spec
settle sp = elim (sp.number) [ none ↦ sp | some p ↦ set_precision (some p) sp ]

-- An `int` argument as a precision.
abbrev pub int_of : ℕ → Option ℕ
int_of n = if ltb (n % 2 ^ 32) (2 ^ 31) then some (n % 2 ^ 32) else none

-- The cases of the switch that go on to `reswitch`, with the arguments that are left: `none` for
-- all other characters.
unfoldable pub flag : ℕ → Spec → List Arg → Option (Spec × List Arg)
flag c sp args = elim (sp.number) [
  | some p ↦
      if is_between b'0' b'9' c
      then some (record sp { number = some (p * 10 + (c - b'0')) }, args)
      else plain c (settle sp) args
  | none ↦ plain c sp args
]
  where
    star : Spec → List Arg → Option (Spec × List Arg)
    star sp (word n ∷ args) = some (set_precision (int_of n) sp, args)
    star sp _ = none

    plain : ℕ → Spec → List Arg → Option (Spec × List Arg)
    plain c sp args =
        if c == b'-'
        then some (record sp { padc = b'-' }, args)
        else if c == b'0'
        then some (record sp { padc = b'0' }, args)
        else if is_between b'1' b'9' c
        then some (record sp { number = some (c - b'0') }, args)
        else if c == b'*'
        then star sp args
        else if c == b'.'
        then some (elim (sp.width) [ none ↦ record sp { width = some 0 } | some w ↦ sp ], args)
        else if c == b'#'
        then some (record sp { altflag = true }, args)
        else if c == b'l'
        then some (sp, args)
        else none

-- The number that printnum's --width counts down.
abbrev pub width_of : Spec → ℕ
width_of sp = elim (sp.width) [ none ↦ 0 | some w ↦ w ]

abbrev pub replicate : ℕ → ℕ → List ℕ
replicate zero c = []
replicate (suc n) c = c ∷ replicate n c

abbrev pub take : ℕ → List ℕ → List ℕ
take zero s = []
take (suc n) [] = []
take (suc n) (c ∷ s) = c ∷ take n s

-- A byte of a string as the `int` that putch gets: `char` is signed.
abbrev pub sign_extend : ℕ → ℕ
sign_extend c = if ltb c 128 then c else c + (2 ^ 32 - 256)

-- With `altflag` a character outside ' ' to '~' is shown as '?'; an extended byte is outside too.
abbrev pub shown : Bool → ℕ → ℕ
shown altflag c =
    let ch = sign_extend c in if altflag && (ltb c b' ' || ltb b'~' c) then b'?' else ch

-- case 's', of a string of bytes
unfoldable pub print_text : List ℕ → Spec → List ℕ
print_text p sp =
    let cut : List ℕ = elim (sp.precision) [ none ↦ p | some n ↦ take n p ] in
    let room = width_of sp - length cut in
    if not (sp.padc == b'-')
    then replicate room sp.padc ++ map (shown sp.altflag) cut
    else map (shown sp.altflag) cut ++ replicate room b' '

-- case 'd', of a `long long`
unfoldable pub print_signed : ℕ → Spec → List ℕ
print_signed num sp =
    if leb (2 ^ 63) num
    then b'-' ∷ printnum (2 ^ 64 - num) 10 (width_of sp) sp.padc
    else printnum num 10 (width_of sp) sp.padc

-- case 'e': the magnitude of an `int`; "error %d" for a code without a string
unfoldable pub print_error : ℕ → List ℕ
unfolding error_string
print_error n =
    let e = n % 2 ^ 32 in
    let code = if leb (2 ^ 31) e then 2 ^ 32 - e else e in
    elim (if leb 22 code then none else error_string code) [
      | none ↦ b'e' ∷ b'r' ∷ b'r' ∷ b'o' ∷ b'r' ∷ b' ' ∷ print_signed code no_spec
      | some p ↦ p
    ]

-- The cases that print, with the arguments that are left: `none` for a wrong argument, and no text
-- for an unrecognized character.
unfoldable pub convert : ℕ → Spec → List Arg → Option (Option (List ℕ) × List Arg)
unfolding print_text print_signed
convert c sp args =
    if c == b'c'
    then number (λ n. n % 2 ^ 32 ∷ []) args
    else if c == b'e'
    then number print_error args
    else if c == b's'
    then string args
    else if c == b'd'
    then number (λ n. print_signed (n % 2 ^ 64) sp) args
    else if c == b'u'
    then number (λ n. printnum (n % 2 ^ 64) 10 (width_of sp) sp.padc) args
    else if c == b'o'
    then some (some (b'X' ∷ b'X' ∷ b'X' ∷ []), args)
    else if c == b'p'
    then number (λ n. b'0' ∷ b'x' ∷ printnum (n % 2 ^ 64) 16 (width_of sp) sp.padc) args
    else if c == b'x'
    then number (λ n. printnum (n % 2 ^ 64) 16 (width_of sp) sp.padc) args
    else if c == b'%'
    then some (some (b'%' ∷ []), args)
    else if c == b'*'
    then none
    else some (none, args)
  where
    number : (ℕ → List ℕ) → List Arg → Option (Option (List ℕ) × List Arg)
    number f (word n ∷ args) = some (some (f n), args)
    number f _ = none

    null : List ℕ
    null = b'(' ∷ b'n' ∷ b'u' ∷ b'l' ∷ b'l' ∷ b')' ∷ []

    string : List Arg → Option (Option (List ℕ) × List Arg)
    string (text none ∷ args) = some (some (print_text null sp), args)
    string (text (some p) ∷ args) = some (some (print_text p sp), args)
    string _ = none

-- What an escape prints, with the format `fmt` behind it.
abbrev pub leave :
    List ℕ → Option (Option (List ℕ) × List Arg) → Option (Option (List ℕ × List ℕ) × List Arg)
leave fmt none = none
leave fmt (some (none, args)) = some (none, args)
leave fmt (some (some out, args)) = some (some (out, fmt), args)

-- From behind a '%': what is printed, the format and the arguments that are left.
unfoldable pub escape : List ℕ → Spec → List Arg → Option (Option (List ℕ × List ℕ) × List Arg)
unfolding convert flag
escape [] sp args = some (none, args)
escape (c ∷ fmt) sp args = elim (flag c sp args) [
  | some (sp', args') ↦ escape fmt sp' args'
  | none ↦ leave fmt (convert c (settle sp) args)
]

-- Text in front of what the rest of the format prints.
abbrev pub prefix : List ℕ → Option (Option (List ℕ)) → Option (Option (List ℕ))
prefix out none = none
prefix out (some none) = some none
prefix out (some (some rest)) = some (some (out ++ rest))

-- The loop of vprintfmt: `none` means that the fuel ran out, `some none` a wrong argument. An
-- unrecognized escape prints its '%', and what follows is printed as it stands.
unfoldable pub vprintfmt_fuel : ℕ → List ℕ → List Arg → Option (Option (List ℕ))
unfolding escape
vprintfmt_fuel zero fmt args = none
vprintfmt_fuel (suc fuel) [] args = some (some [])
vprintfmt_fuel (suc fuel) (c ∷ fmt) args = elim (c == b'%') [
  | false ↦ prefix (c ∷ []) (vprintfmt_fuel fuel fmt args)
  | true ↦ elim (escape fmt no_spec args) [
    | none ↦ some none
    | some (none, args') ↦ prefix (b'%' ∷ []) (vprintfmt_fuel fuel fmt args')
    | some (some (out, rest), args') ↦ prefix out (vprintfmt_fuel fuel rest args')
  ]
]

abbrev pub printed : Option (Option (List ℕ)) → Option (List ℕ)
printed none = none
printed (some r) = r

unfoldable pub vprintfmt : List ℕ → List Arg → Option (List ℕ)
unfolding vprintfmt_fuel
vprintfmt fmt args = printed (vprintfmt_fuel (suc (length fmt)) fmt args)

-- The characters of a list by sprintputch, from `buf` below `ebuf`: where `buf` ends, and memory.
unfoldable pub sprintputch : List ℕ → ℕ → ℕ → Memory → ℕ × Memory
sprintputch [] buf ebuf m = (buf, m)
sprintputch (c ∷ out) buf ebuf m =
    if ltb buf ebuf
    then sprintputch out (buf + 1) ebuf (update m buf (c % 256))
    else sprintputch out buf ebuf m

-- vsnprintf, given what vprintfmt prints; `n` is an `int` of at least 0.
unfoldable pub vsnprintf : ℕ → ℕ → List ℕ → Memory → Ret ℕ × Memory
unfolding sprintputch
vsnprintf buf n out m =
    if (buf == 0) || ltb n 1
    then (err e_inval, m)
    else (let (end, m') = sprintputch out buf (buf + n - 1) m in (ok (length out), update m' end 0))
