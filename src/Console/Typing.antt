-- ===== src/Console/Typing.antt =====
-- What the keyboard tables and the modifiers of kbd_proc_data guarantee.
use mit_jos_f22_advanced_os.Base.{
  ℕ, zero, suc, ◌+◌, ◌<◌, ◌≡◌, ◌≢◌, refl, sym, Bool, true, false, not, ◌&&◌, ◌||◌, leb, ◌==◌, arith,
  Bool-cases, ==_ne, inl, inr,
}
use mathlib.Core.Path.{subst}
use mit_jos_f22_advanced_os.Console.Keys.{
  Shift, no_keys, shiftcode, togglecode, bitwise, scan, press, charcode, caps, element,
  normalmap_low,
}

-- A test on the codes below `n`.
abbrev below : ℕ → (ℕ → Bool) → Bool
below zero f = true
below (suc n) f = f n && below n f

below_all : (n : ℕ) (f : ℕ → Bool) → below n f ≡ true → (c : ℕ) → c < n → f c ≡ true
below_all zero f h c lt = absurd (omega (arith, lt))
below_all (suc n) f h c lt = elim (Bool-cases (f n)) [
  | inl on ↦ elim (Bool-cases (c == n)) [
    | inl same ↦ ground (arith, same, on)
    | inr other ↦ below_all n f (ground (arith, h, on)) c (ground (arith, other, lt))
  ]
  | inr off ↦ absurd (ground (arith, h, off))
]

-- A key with a letter on it.
abbrev pub is_letter : ℕ → Bool
is_letter c = leb b'a' (element normalmap_low c) && leb (element normalmap_low c) b'z'

abbrev pub with_caps : Shift
with_caps = record no_keys { capslock = true }

abbrev pub with_shift : Shift
with_shift = record no_keys { shift_key = true }

abbrev pub with_ctl : Shift
with_ctl = record no_keys { ctl = true }

abbrev letter_ok : ℕ → Bool
letter_ok c =
    not (is_letter c)
    || (((scan c with_caps).0 == (scan c with_shift).0)
        && (((scan c with_shift).0 + 32) == (scan c no_keys).0)
        && (((scan c with_ctl).0 + 96) == (scan c no_keys).0))

letters : below 128 letter_ok ≡ true
unfolding scan press caps charcode
letters = refl

abbrev same_bool : Bool → Bool → Bool
same_bool true b = b
same_bool false b = not b

-- The words of flags `a` and `b` are the same.
abbrev same_shift : Shift → Shift → Bool
same_shift a b =
    same_bool a.shift_key b.shift_key
    && same_bool a.ctl b.ctl
    && same_bool a.alt b.alt
    && same_bool a.capslock b.capslock
    && same_bool a.numlock b.numlock
    && same_bool a.scrolllock b.scrolllock
    && same_bool a.e0esc b.e0esc

abbrev both : (Bool → Bool) → Bool
both f = f true && f false

-- A test on all words without E0ESC.
abbrev all_shifts : (Shift → Bool) → Bool
all_shifts f = both λ a. both λ b. both λ c. both λ d. both λ e. both λ g. f (record {
  shift_key = a;
  ctl = b;
  alt = c;
  capslock = d;
  numlock = e;
  scrolllock = g;
  e0esc = false;
})

-- The key is not a lock, and is no modifier that another key holds down already.
abbrev pub is_free : ℕ → Shift → Bool
is_free c shift =
    same_shift (togglecode c) no_keys
    && same_shift (bitwise (λ a b. a && b) shift (shiftcode c)) no_keys

abbrev release_ok : ℕ → Shift → Bool
release_ok c shift =
    not (is_free c shift) || (c == 0x60) || same_shift (scan (c + 128) (scan c shift).2).2 shift

releases : below 128 (λ c. all_shifts (release_ok c)) ≡ true
unfolding scan press caps charcode
releases = refl

both_all : (f : Bool → Bool) → both f ≡ true → (b : Bool) → f b ≡ true
both_all f h true = ground (arith, h)
both_all f h false = ground (arith, h)

all_shifts_all :
    (f : Shift → Bool) → all_shifts f ≡ true → (s : Shift) → f (record s { e0esc = false }) ≡ true
all_shifts_all f h s =
    let at : Bool → Bool → Bool → Bool → Bool → Bool → Shift = λ a b c d e g. record {
      shift_key = a;
      ctl = b;
      alt = c;
      capslock = d;
      numlock = e;
      scrolllock = g;
      e0esc = false;
    } in
    let h₁ =
      both_all (λ a. both λ b. both λ c. both λ d. both λ e. both λ g. f (at a b c d e g)) h
        s.shift_key in
    let h₂ =
      both_all (λ b. both λ c. both λ d. both λ e. both λ g. f (at s.shift_key b c d e g)) h₁
        s.ctl in
    let h₃ =
      both_all (λ c. both λ d. both λ e. both λ g. f (at s.shift_key s.ctl c d e g)) h₂ s.alt in
    let h₄ =
      both_all (λ d. both λ e. both λ g. f (at s.shift_key s.ctl s.alt d e g)) h₃ s.capslock in
    let h₅ = both_all (λ e. both λ g. f (at s.shift_key s.ctl s.alt s.capslock e g)) h₄ s.numlock in
    both_all (λ g. f (at s.shift_key s.ctl s.alt s.capslock s.numlock g)) h₅ s.scrolllock

same_bool_eq : (a b : Bool) → same_bool a b ≡ true → a ≡ b
same_bool_eq true true h = refl
same_bool_eq true false h = ground (arith, h)
same_bool_eq false true h = ground (arith, h)
same_bool_eq false false h = refl

and_left : (a b : Bool) → (a && b) ≡ true → (a ≡ true) × (b ≡ true)
and_left true b h = (refl, h)
and_left false b h = absurd (ground (arith, h))

same_shift_eq : (a b : Shift) → same_shift a b ≡ true → a ≡ b
same_shift_eq a b h =
    let (h₁, e₇) = and_left _ _ h in
    let (h₂, e₆) = and_left _ _ h₁ in
    let (h₃, e₅) = and_left _ _ h₂ in
    let (h₄, e₄) = and_left _ _ h₃ in
    let (h₅, e₃) = and_left _ _ h₄ in
    let (e₁, e₂) = and_left _ _ h₅ in
    λ i. record {
      shift_key = same_bool_eq a.shift_key b.shift_key e₁ i;
      ctl = same_bool_eq a.ctl b.ctl e₂ i;
      alt = same_bool_eq a.alt b.alt e₃ i;
      capslock = same_bool_eq a.capslock b.capslock e₄ i;
      numlock = same_bool_eq a.numlock b.numlock e₅ i;
      scrolllock = same_bool_eq a.scrolllock b.scrolllock e₆ i;
      e0esc = same_bool_eq a.e0esc b.e0esc e₇ i;
    }

or_last : (a b c : Bool) → (not a || b || c) ≡ true → a ≡ true → b ≡ false → c ≡ true
or_last a b c h e f = ground (arith, h, e, f)

-- For every key with a letter on it, the character under CAPSLOCK is the one under SHIFT, which is
-- the capital of the one without modifiers, and CTL gives the control character of that letter.
pub scan-letter :
    (c : ℕ)
    → c < 128
    → is_letter c ≡ true
    → ((scan c with_caps).0 ≡ (scan c with_shift).0)
      × ((scan c with_shift).0 + 32 ≡ (scan c no_keys).0)
      × ((scan c with_ctl).0 + 96 ≡ (scan c no_keys).0)
scan-letter c lt letter =
    let all : letter_ok c ≡ true = below_all 128 letter_ok letters c lt in
    ground (arith, all, letter)

-- Pressing a key and releasing it leaves `shift` as it was, unless the key is a lock, another key
-- holds the same modifier down, or an 0xE0 came before. The byte for the release of 0x60 is 0xE0
-- itself.
pub scan-released :
    (c : ℕ) (shift : Shift)
    → c < 128
    → c ≢ 0x60
    → shift.e0esc ≡ false
    → is_free c shift ≡ true
    → (scan (c + 128) (scan c shift).2).2 ≡ shift
scan-released c shift lt ne off free =
    let all = below_all 128 (λ c. all_shifts (release_ok c)) releases c lt in
    let eta : shift ≡ record shift { e0esc = false } = λ i. record shift { e0esc = off i } in
    let ok : release_ok c shift ≡ true =
      subst (λ s. release_ok c s ≡ true) (sym eta) (all_shifts_all (release_ok c) all shift) in
    same_shift_eq _ shift (or_last _ _ _ ok free (==_ne c 0x60 ne))
