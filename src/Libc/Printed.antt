-- ===== src/Libc/Printed.antt =====
-- What vprintfmt and vsnprintf guarantee: the loop ends, the buffer's bounds are kept, and a number
-- printed by %d is the number that strtol reads.
use mit_jos_f22_advanced_os.Base.{
  ℕ, zero, suc, ◌+◌, ◌-◌, ◌%◌, ◌^◌, ◌≤◌, ◌<◌, ◌≡◌, refl, ap, ◌∙◌, ◌≢◌, ◌⊎◌, inl, inr, false, ◌||◌,
  List, [], ◌∷◌, ◌++◌, ltb, leb, ◌==◌, Option, none, some, arith, Bool-cases, Option-cases, length,
  update,
}
use mathlib.Core.List.{append-nil}
use mit_jos_f22_advanced_os.Base.Ret.{ok}
use mit_jos_f22_advanced_os.Libc.Bytes.{Memory}
use mit_jos_f22_advanced_os.Libc.Number.{strtol, skip_blanks}
use mit_jos_f22_advanced_os.Libc.RoundTrip.{strtol-printnum, digits_of-printnum_all}
use mit_jos_f22_advanced_os.Libc.Format.{
  Arg, word, Spec, no_spec, flag, convert, settle, leave, escape, prefix, printed, vprintfmt_fuel,
  vprintfmt, sprintputch, vsnprintf, print_signed,
}

-- An escape leaves a part of the format.
abbrev rest_length : Option (Option (List ℕ × List ℕ) × List Arg) → ℕ
rest_length (some (some (out, rest), args)) = length rest
rest_length _ = 0

leave-length :
    (fmt : List ℕ) (r : Option (Option (List ℕ) × List Arg))
    → rest_length (leave fmt r) ≤ length fmt
leave-length fmt none = omega arith
leave-length fmt (some (none, args)) = omega arith
leave-length fmt (some (some out, args)) = omega arith

escape-length :
    (fmt : List ℕ) (sp : Spec) (args : List Arg) → rest_length (escape fmt sp args) ≤ length fmt
unfolding escape
escape-length [] sp args = omega arith
escape-length (c ∷ fmt) sp args = elim (Option-cases (flag c sp args)) [
  | inl e ↦ rw (e, escape) (omega (arith, leave-length fmt (convert c (settle sp) args)))
  | inr ((sp', args'), e) ↦ rw (e, escape) (omega (arith, escape-length fmt sp' args'))
]

vprintfmt_fuel-enough :
    (n m : ℕ) (fmt : List ℕ) (args : List Arg)
    → length fmt < n
    → length fmt < m
    → vprintfmt_fuel n fmt args ≡ vprintfmt_fuel m fmt args
unfolding vprintfmt_fuel
vprintfmt_fuel-enough zero m fmt args h k = absurd (omega (arith, h))
vprintfmt_fuel-enough (suc n) zero fmt args h k = absurd (omega (arith, k))
vprintfmt_fuel-enough (suc n) (suc m) [] args h k = refl
vprintfmt_fuel-enough (suc n) (suc m) (c ∷ fmt) args h k = elim (Bool-cases (c == b'%')) [
  | inl on ↦
      rw (on, vprintfmt_fuel)
        (elim (Option-cases (escape fmt no_spec args)) [
          | inl e ↦ rw (e, vprintfmt_fuel) refl
          | inr ((none, args'), e) ↦
              rw (e, vprintfmt_fuel)
                (ap (prefix (b'%' ∷ []))
                  (vprintfmt_fuel-enough n m fmt args' (omega (arith, h)) (omega (arith, k))))
          | inr ((some (out, rest), args'), e) ↦
              let less : length rest ≤ length fmt =
                omega (arith, ap rest_length e, escape-length fmt no_spec args) in
              rw (e, vprintfmt_fuel)
                (ap (prefix out) (
                  vprintfmt_fuel-enough n m rest args' (omega (arith, h, less))
                    (omega (arith, k, less))))
        ])
  | inr off ↦
      rw (off, vprintfmt_fuel)
        (ap (prefix (c ∷ []))
          (vprintfmt_fuel-enough n m fmt args (omega (arith, h)) (omega (arith, k))))
]

-- The fuel did not run out.
abbrev IsEnded : Option (Option (List ℕ)) → Type 0
IsEnded none = ⊥
IsEnded (some r) = Unit

prefix-IsEnded : (out : List ℕ) (r : Option (Option (List ℕ))) → IsEnded r → IsEnded (prefix out r)
prefix-IsEnded out none h = h
prefix-IsEnded out (some none) h = tt
prefix-IsEnded out (some (some rest)) h = tt

vprintfmt_fuel-IsEnded :
    (n : ℕ) (fmt : List ℕ) (args : List Arg) → length fmt < n → IsEnded (vprintfmt_fuel n fmt args)
unfolding vprintfmt_fuel
vprintfmt_fuel-IsEnded zero fmt args h = absurd (omega (arith, h))
vprintfmt_fuel-IsEnded (suc n) [] args h = tt
vprintfmt_fuel-IsEnded (suc n) (c ∷ fmt) args h = elim (Bool-cases (c == b'%')) [
  | inl on ↦
      rw (on, vprintfmt_fuel)
        (elim (Option-cases (escape fmt no_spec args)) [
          | inl e ↦ rw (e, vprintfmt_fuel) tt
          | inr ((none, args'), e) ↦
              rw (e, vprintfmt_fuel)
                (prefix-IsEnded (b'%' ∷ []) (vprintfmt_fuel n fmt args')
                  (vprintfmt_fuel-IsEnded n fmt args' (omega (arith, h))))
          | inr ((some (out, rest), args'), e) ↦
              let less : length rest ≤ length fmt =
                omega (arith, ap rest_length e, escape-length fmt no_spec args) in
              rw (e, vprintfmt_fuel)
                (prefix-IsEnded out (vprintfmt_fuel n rest args')
                  (vprintfmt_fuel-IsEnded n rest args' (omega (arith, h, less))))
        ])
  | inr off ↦
      rw (off, vprintfmt_fuel)
        (prefix-IsEnded (c ∷ []) (vprintfmt_fuel n fmt args)
          (vprintfmt_fuel-IsEnded n fmt args (omega (arith, h))))
]

printed-IsEnded : (r : Option (Option (List ℕ))) → IsEnded r → r ≡ some (printed r)
printed-IsEnded none h = absurd h
printed-IsEnded (some r) h = refl

sprintputch_lem :
    (out : List ℕ) (buf ebuf : ℕ) (m : Memory)
    → buf ≤ ebuf
    → (buf ≤ (sprintputch out buf ebuf m).0)
      × ((sprintputch out buf ebuf m).0 ≤ ebuf)
      × ((a : ℕ) → (a < buf) ⊎ (ebuf ≤ a) → (sprintputch out buf ebuf m).1 a ≡ m a)
unfolding sprintputch
sprintputch_lem [] buf ebuf m h = (omega arith, h, λ a k. refl)
sprintputch_lem (c ∷ out) buf ebuf m h = elim (Bool-cases (ltb buf ebuf)) [
  | inl room ↦
      let (lo, hi, same) =
        sprintputch_lem out (buf + 1) ebuf (update m buf (c % 256)) (ground (arith, room)) in
      rw room (omega (arith, lo), hi, λ a k. same a (ground (arith, k)) ∙ ground (arith, k, room))
  | inr full ↦ rw full (sprintputch_lem out buf ebuf m h)
]

-- The loop of vprintfmt ends for every format and all arguments: with more rounds than the format
-- has bytes it does not run out of fuel, and its result is that of vprintfmt.
pub vprintfmt_fuel-vprintfmt :
    (n : ℕ) (fmt : List ℕ) (args : List Arg)
    → length fmt < n
    → vprintfmt_fuel n fmt args ≡ some (vprintfmt fmt args)
unfolding vprintfmt
vprintfmt_fuel-vprintfmt n fmt args h =
    vprintfmt_fuel-enough n (suc (length fmt)) fmt args h (omega arith)
    ∙ printed-IsEnded (vprintfmt_fuel (suc (length fmt)) fmt args)
        (vprintfmt_fuel-IsEnded (suc (length fmt)) fmt args (omega arith))

-- vsnprintf into a buffer of `n` bytes, of at least one, returns the length of the whole text,
-- writes no byte outside the buffer, and leaves a null in it.
pub vsnprintf_bounds :
    (buf n : ℕ) (out : List ℕ) (m : Memory)
    → buf ≢ 0
    → 0 < n
    → ((vsnprintf buf n out m).0 ≡ ok (length out))
      × ((a : ℕ) → (a < buf) ⊎ (buf + n ≤ a) → (vsnprintf buf n out m).1 a ≡ m a)
      × ((e : ℕ) × (buf ≤ e) × (e < buf + n) × ((vsnprintf buf n out m).1 e ≡ 0))
unfolding vsnprintf
vsnprintf_bounds buf n out m ne pos =
    let (lo, hi, same) = sprintputch_lem out buf (buf + n - 1) m (omega (arith, pos)) in
    let off : ((buf == 0) || ltb n 1) ≡ false = ground (arith, ne, pos) in
    rw off (
      refl,
      (λ a k. ground (arith, k, lo, hi, pos, same a)),
      ((sprintputch out buf (buf + n - 1) m).0, lo, omega (arith, hi, pos), ground arith),
    )

signed : (num : ℕ) → num < 2 ^ 64 → strtol (print_signed num no_spec) 10 ≡ (num, [])
unfolding print_signed strtol skip_blanks
signed num small = elim (Bool-cases (leb (2 ^ 63) num)) [
  | inl neg ↦
      let magnitude =
        digits_of-printnum_all (2 ^ 64 - num) 10 b' ' (omega arith) (omega arith)
          (ground (arith, neg)) in
      let back : (2 ^ 64 - (2 ^ 64 - num)) % 2 ^ 64 ≡ num = omega (arith, small) in
      rw neg (rw (magnitude, strtol) (λ i. (back i, [])))
  | inr pos ↦ rw pos (strtol-printnum num 10 b' ' (omega arith) (omega arith) small)
]

-- What %d prints for a `long long` is read back by strtol in base 10, with nothing left over.
pub strtol-vprintfmt :
    (n : ℕ)
    → (out : List ℕ) × (vprintfmt (b'%' ∷ b'd' ∷ []) (word n ∷ []) ≡ some out)
      × (strtol out 10 ≡ (n % 2 ^ 64, []))
unfolding vprintfmt vprintfmt_fuel escape flag convert print_signed
strtol-vprintfmt n = (
  print_signed (n % 2 ^ 64) no_spec ++ [],
  refl,
  ap (λ l. strtol l 10) (append-nil _) ∙ signed (n % 2 ^ 64) (omega arith),
)
