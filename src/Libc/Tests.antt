-- ===== src/Libc/Tests.antt =====
-- The theorems about lib/string.c run on a small memory.
use mit_jos_f22_advanced_os.Base.{
  List, [], ◌∷◌, none, some, ◌^◌, ◌≤◌, ◌+◌, ◌⊎◌, refl, ℕ, ◌-◌, ◌<◌, ◌≡◌, arith, ltb, if◌then◌else◌,
}
use mit_jos_f22_advanced_os.Base.Ret.{ok}
use mit_jos_f22_advanced_os.Libc.Number.{printnum, strtol}
use mit_jos_f22_advanced_os.Libc.RoundTrip.{strtol-printnum}
use mit_jos_f22_advanced_os.Libc.Format.{
  Arg, word, text, vprintfmt, vprintfmt_fuel, vsnprintf, escape, flag, convert, print_signed,
  print_text,
}
use mit_jos_f22_advanced_os.Libc.Printed.{vprintfmt_fuel-vprintfmt, vsnprintf_bounds}
use mit_jos_f22_advanced_os.Libc.Bytes.{Memory, memmove}
use mit_jos_f22_advanced_os.Libc.Move.{copied, memmove_lem}

-- The bytes 1 to 9 at their addresses, and nulls.
abbrev digits : Memory
digits a = if ltb a 10 then a else 0

memmove_lem_example : memmove 4 2 5 digits 7 ≡ copied 5 4 2 digits 7
memmove_lem_example = memmove_lem 4 2 5 digits 7

strtol-printnum_example : strtol (printnum 0xbeef 16 0 b' ') 16 ≡ (0xbeef, [])
strtol-printnum_example = strtol-printnum 0xbeef 16 b' ' (omega arith) (omega arith) (omega arith)

-- "%d %s%*q"
abbrev report : List ℕ
report = b'%' ∷ b'd' ∷ b' ' ∷ b'%' ∷ b's' ∷ b'%' ∷ b'*' ∷ b'q' ∷ []

abbrev report_args : List Arg
report_args = word (2 ^ 64 - 5) ∷ text none ∷ word 3 ∷ []

vprintfmt_fuel-vprintfmt_example :
    vprintfmt_fuel 20 report report_args ≡ some (vprintfmt report report_args)
vprintfmt_fuel-vprintfmt_example = vprintfmt_fuel-vprintfmt 20 report report_args (omega arith)

report-vprintfmt :
    vprintfmt report report_args
    ≡ some (b'-' ∷ b'5' ∷ b' ' ∷ b'(' ∷ b'n' ∷ b'u' ∷ b'l' ∷ b'l' ∷ b')' ∷ b'%' ∷ b'*' ∷ b'q' ∷ [])
unfolding vprintfmt vprintfmt_fuel escape flag convert print_signed print_text printnum
report-vprintfmt = refl

vsnprintf_bounds_example :
    ((vsnprintf 100 3 (b'a' ∷ b'b' ∷ b'c' ∷ b'd' ∷ []) digits).0 ≡ ok 4)
    × ((a : ℕ)
        → (a < 100) ⊎ (100 + 3 ≤ a)
        → (vsnprintf 100 3 (b'a' ∷ b'b' ∷ b'c' ∷ b'd' ∷ []) digits).1 a ≡ digits a)
    × ((e : ℕ) × (100 ≤ e)
        × (e < 100 + 3)
        × ((vsnprintf 100 3 (b'a' ∷ b'b' ∷ b'c' ∷ b'd' ∷ []) digits).1 e ≡ 0))
vsnprintf_bounds_example =
    vsnprintf_bounds 100 3 (b'a' ∷ b'b' ∷ b'c' ∷ b'd' ∷ []) digits (λ e. omega (arith, e))
      (omega arith)
