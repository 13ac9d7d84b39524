-- ===== src/Libc/Number.antt =====
-- printnum of lib/printfmt.c and strtol of lib/string.c.
--
-- A C string is the list of its bytes before the null, so that reading past the list gives 0. The
-- characters that printnum hands to `putch` are a list too. A `long` is a 64-bit pattern.
use mit_jos_f22_advanced_os.Base.{
  ℕ, zero, suc, ◌+◌, ◌-◌, ◌*◌, ◌/◌, ◌%◌, ◌^◌, Bool, true, false, ◌&&◌, ◌||◌, List, [], ◌∷◌, ◌++◌,
  ltb, leb, ◌==◌, if◌then◌else◌, Option, none, some,
}

-- "0123456789abcdef"[d]
abbrev pub digit_char : ℕ → ℕ
digit_char d = if ltb d 10 then b'0' + d else b'a' + (d - 10)

-- while (--width > 0) putch(padc, putdat): for an `int` width, where 0 stands for all widths below 1
abbrev pub padding : ℕ → ℕ → List ℕ
padding zero padc = []
padding (suc zero) padc = []
padding (suc (suc width)) padc = padc ∷ padding (suc width) padc

-- The recursion takes at most `fuel` calls.
unfoldable pub printnum_fuel : ℕ → ℕ → ℕ → ℕ → ℕ → List ℕ
printnum_fuel zero num base width padc = []
printnum_fuel (suc fuel) num base width padc =
    let before = printnum_fuel fuel (num / base) base (width - 1) padc in
    (if leb base num then before else padding width padc) ++ (digit_char (num % base) ∷ [])

-- A number has at most `num + 1` digits.
unfoldable pub printnum : ℕ → ℕ → ℕ → ℕ → List ℕ
unfolding printnum_fuel
printnum num base width padc = printnum_fuel (suc num) num base width padc

abbrev pub is_between : ℕ → ℕ → ℕ → Bool
is_between lo hi c = leb lo c && leb c hi

-- The value of a digit, or `none` where the loop breaks.
abbrev pub digit_value : ℕ → ℕ → Option ℕ
digit_value c base =
    let dig : Option ℕ =
      if is_between b'0' b'9' c
      then some (c - b'0')
      else if is_between b'a' b'z' c
      then some (c - b'a' + 10)
      else if is_between b'A' b'Z' c
      then some (c - b'A' + 10)
      else none in
    elim dig [ none ↦ none | some d ↦ if leb base d then none else some d ]

-- The loop over the digits: the value, and the string that is left for `endptr`.
unfoldable pub digits_of : List ℕ → ℕ → ℕ → ℕ × List ℕ
digits_of [] base val = (val, [])
digits_of (c ∷ s) base val = elim (digit_value c base) [
  | none ↦ (val, c ∷ s)
  | some d ↦ digits_of s base ((val * base + d) % 2 ^ 64)
]

unfoldable pub skip_blanks : List ℕ → List ℕ
skip_blanks [] = []
skip_blanks (c ∷ s) = let rest = skip_blanks s in if (c == b' ') || (c == 9) then rest else c ∷ s

-- The sign: whether it is '-', and the rest.
abbrev pub sign_of : List ℕ → Bool × List ℕ
sign_of [] = (false, [])
sign_of (c ∷ s) = if c == b'+' then (false, s) else if c == b'-' then (true, s) else (false, c ∷ s)

-- s[0] == '0' && s[1] == 'x'
abbrev pub is_hex_prefix : List ℕ → Bool
is_hex_prefix (c ∷ d ∷ s) = (c == b'0') && (d == b'x')
is_hex_prefix _ = false

abbrev pub starts_with_zero : List ℕ → Bool
starts_with_zero (c ∷ s) = c == b'0'
starts_with_zero [] = false

abbrev pub drop : ℕ → List ℕ → List ℕ
drop zero s = s
drop (suc n) [] = []
drop (suc n) (c ∷ s) = drop n s

-- The base that the prefix gives, and the string behind the prefix.
abbrev pub base_of : List ℕ → ℕ → ℕ × List ℕ
base_of s base =
    if ((base == 0) || (base == 16)) && is_hex_prefix s
    then (16, drop 2 s)
    else if (base == 0) && starts_with_zero s
    then (8, drop 1 s)
    else if base == 0
    then (10, s)
    else (base, s)

-- The value as a 64-bit pattern, and where `endptr` points.
unfoldable pub strtol : List ℕ → ℕ → ℕ × List ℕ
unfolding digits_of skip_blanks
strtol s base =
    let (neg, s₁) = sign_of (skip_blanks s) in
    let (base', s₂) = base_of s₁ base in
    let (val, rest) = digits_of s₂ base' 0 in (if neg then (2 ^ 64 - val) % 2 ^ 64 else val, rest)
