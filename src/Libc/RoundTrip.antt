-- ===== src/Libc/RoundTrip.antt =====
-- strtol reads back what printnum prints.
use mit_jos_f22_advanced_os.Base.{
  ℕ, zero, suc, ◌+◌, ◌*◌, ◌/◌, ◌%◌, ◌^◌, ◌≤◌, ◌<◌, ◌≡◌, ap, ◌∙◌, sym, inl, inr, Bool, true, ◌||◌,
  List, [], ◌∷◌, ◌++◌, leb, some, arith, Bool-cases, All,
}
use mathlib.Core.List.{append_assoc, append-nil}
use native.Mathlib.Nat.{div-lt_self}
use mit_jos_f22_advanced_os.Libc.Number.{
  digit_char, digit_value, printnum_fuel, printnum, digits_of, skip_blanks, strtol, is_between,
}

digit_value-digit_char :
    (d base : ℕ) → d < base → base ≤ 16 → digit_value (digit_char d) base ≡ some d
digit_value-digit_char d base h k = ground arith

-- The digits in front of `t` give the number to the loop that reads `t`.
digits_of-printnum :
    (fuel num base padc : ℕ) (t : List ℕ)
    → num < fuel
    → 2 ≤ base
    → base ≤ 16
    → num < 2 ^ 64
    → digits_of (printnum_fuel fuel num base 0 padc ++ t) base 0 ≡ digits_of t base num
unfolding digits_of printnum_fuel
digits_of-printnum zero num base padc t lt lo hi small = absurd (omega (arith, lt))
digits_of-printnum (suc fuel) num base padc t lt lo hi small =
    let r : num % base < base = grind (arith, lo) in
    let whole : num / base * base + num % base ≡ num = grind arith in
    let char = digit_value-digit_char (num % base) base r hi in
    elim (Bool-cases (leb base num)) [
      | inl more ↦
          let more' : base ≤ num = ground (arith, more) in
          let fewer : num / base < fuel = omega (
            arith,
            div-lt_self {n = num} {k = base} (omega (arith, more', lo)) (omega (arith, lo)),
            lt,
          ) in
          let before = printnum_fuel fuel (num / base) base 0 padc in
          let ih =
            digits_of-printnum fuel (num / base) base padc (digit_char (num % base) ∷ t) fewer lo hi
              (grind (arith, small)) in
          let value : (num / base * base + num % base) % 2 ^ 64 ≡ num =
            omega (arith, whole, small) in
          rw more (
            ap (λ l. digits_of l base 0) (append_assoc before (digit_char (num % base) ∷ []) t)
            ∙ ih
            ∙ rw (char, digits_of) (ap (digits_of t base) value))
      | inr one ↦
          let value : (0 * base + num % base) % 2 ^ 64 ≡ num = grind (arith, one, small) in
          rw one (rw (char, digits_of) (ap (digits_of t base) value))
    ]

-- A digit as printnum writes it.
abbrev is_digit : ℕ → Bool
is_digit c = is_between b'0' b'9' c || is_between b'a' b'f' c

abbrev AllDigits : List ℕ → Type 0
AllDigits s = All (λ c. is_digit c ≡ true) s

append-AllDigits : (s t : List ℕ) → AllDigits s → AllDigits t → AllDigits (s ++ t)
append-AllDigits [] t h k = k
append-AllDigits (c ∷ s) t h k = (h.0, append-AllDigits s t h.1 k)

printnum_fuel-AllDigits :
    (fuel num base padc : ℕ) → 0 < base → base ≤ 16 → AllDigits (printnum_fuel fuel num base 0 padc)
unfolding printnum_fuel
printnum_fuel-AllDigits zero num base padc lo hi = tt
printnum_fuel-AllDigits (suc fuel) num base padc lo hi =
    let r : num % base < base = grind (arith, lo) in
    let last : is_digit (digit_char (num % base)) ≡ true = ground (arith, r, hi) in
    elim (Bool-cases (leb base num)) [
      | inl more ↦ rw more (
          append-AllDigits (printnum_fuel fuel (num / base) base 0 padc) _
            (printnum_fuel-AllDigits fuel (num / base) base padc lo hi) (last, tt))
      | inr one ↦ rw one (last, tt)
    ]

-- A string of digits has no blanks, no sign and no prefix.
strtol-AllDigits :
    (s : List ℕ) (base : ℕ) → AllDigits s → 0 < base → strtol s base ≡ digits_of s base 0
unfolding strtol skip_blanks
strtol-AllDigits [] base h lo = ground (arith, lo)
strtol-AllDigits (c ∷ []) base h lo = ground (arith, h, lo)
strtol-AllDigits (c ∷ d ∷ s) base h lo = ground (arith, h, lo)

pub digits_of-printnum_all :
    (num base padc : ℕ)
    → 2 ≤ base
    → base ≤ 16
    → num < 2 ^ 64
    → digits_of (printnum num base 0 padc) base 0 ≡ (num, [])
unfolding printnum digits_of
digits_of-printnum_all num base padc lo hi small =
    ap (λ l. digits_of l base 0) (sym (append-nil (printnum_fuel (suc num) num base 0 padc)))
    ∙ digits_of-printnum (suc num) num base padc [] (omega arith) lo hi small

-- strtol, given the base, reads back a number below 2^64 that printnum printed without padding in
-- a base from 2 to 16, and consumes all of it.
pub strtol-printnum :
    (num base padc : ℕ)
    → 2 ≤ base
    → base ≤ 16
    → num < 2 ^ 64
    → strtol (printnum num base 0 padc) base ≡ (num, [])
unfolding printnum
strtol-printnum num base padc lo hi small =
    let s = printnum_fuel (suc num) num base 0 padc in
    let all = printnum_fuel-AllDigits (suc num) num base padc (omega (arith, lo)) hi in
    strtol-AllDigits s base all (omega (arith, lo))
    ∙ digits_of-printnum_all num base padc lo hi small
