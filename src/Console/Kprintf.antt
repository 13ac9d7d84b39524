-- ===== src/Console/Kprintf.antt =====
-- kern/printf.c: putch and vcprintf of the kernel, which print on the console.
use mit_jos_f22_advanced_os.Base.{
  ℕ, ◌+◌, ◌%◌, ◌^◌, ◌≤◌, ◌<◌, ◌≡◌, ◌⊎◌, refl, ap, List, [], ◌∷◌, length, All, Option, none, some,
  leb, ◌==◌, update, arith, false,
}
use mathlib.Core.Path.{subst}
use mit_jos_f22_advanced_os.Libc.Format.{Arg, vprintfmt}
use mit_jos_f22_advanced_os.Console.Screen.{
  Ports, Screen, show, scroll, cga_with, cga_putc, cons_putc, crt_size, attributed,
}

-- putch for each character of a text, through cputchar.
unfoldable pub putch : {S : Type 0} → Ports S → List ℕ → Screen × S → Screen × S
putch io [] st = st
putch io (c ∷ out) st = putch io out (cons_putc io c st)

-- The result is 0 for every text: `*cnt++` in putch moves its pointer and leaves the count.
unfoldable pub vcprintf :
    {S : Type 0} → Ports S → List ℕ → List Arg → Screen × S → Option (ℕ × (Screen × S))
unfolding putch
vcprintf io fmt args st = elim (vprintfmt fmt args) [
  | none ↦ none
  | some out ↦ some (0, putch io out st)
]

-- The words from `p` on are `text`, black on white.
abbrev pub IsText : (ℕ → ℕ) → ℕ → List ℕ → Type 0
IsText f p [] = Unit
IsText f p (c ∷ cs) = (f p ≡ c + 0x700) × IsText f (p + 1) cs

-- A character with a glyph and no attribute. A byte of a string from 128 on is not one: it is
-- sign-extended.
abbrev pub IsPlain : ℕ → Type 0
IsPlain c = (32 ≤ c) × (c < 256)

-- `sc'` is `sc` with `text` at the cursor.
abbrev pub IsPrinted : List ℕ → Screen → Screen → Type 0
IsPrinted out sc sc' =
    (sc'.crt_pos ≡ sc.crt_pos + length out)
    × IsText sc'.crt_buf sc.crt_pos out
    × ((a : ℕ) → (a < sc.crt_pos) ⊎ (sc.crt_pos + length out ≤ a) → sc'.crt_buf a ≡ sc.crt_buf a)

cons_putc-plain :
    {S : Type 0} (io : Ports S) (c : ℕ) (sc : Screen) (s : S)
    → IsPlain c
    → sc.crt_pos + 1 < crt_size
    → (cons_putc io c (sc, s)).0
      ≡ record { crt_buf = update sc.crt_buf sc.crt_pos (c + 0x700); crt_pos = sc.crt_pos + 1 }
unfolding cons_putc cga_putc cga_with show scroll
cons_putc-plain io c sc s (lo, hi) room =
    let at : attributed c ≡ c + 0x700 = ground (arith, hi) in
    let low : (c + 0x700) % 256 ≡ c = omega (arith, hi) in
    let word : (c + 0x700) % 2 ^ 16 ≡ c + 0x700 = omega (arith, hi) in
    let next : (sc.crt_pos + 1) % 2 ^ 16 ≡ sc.crt_pos + 1 = omega (arith, room) in
    let c₁ : (c == 9) ≡ false = ground (arith, lo) in
    let c₂ : (c == 8) ≡ false = ground (arith, lo) in
    let c₃ : (c == 10) ≡ false = ground (arith, lo) in
    let c₄ : (c == 13) ≡ false = ground (arith, lo) in
    let fits : leb 2000 (sc.crt_pos + 1) ≡ false = ground (arith, room) in
    rw at (rw low (rw c₁ (rw c₂ (rw c₃ (rw c₄ (rw word (rw next (rw fits refl))))))))

putch-IsPrinted :
    {S : Type 0} (io : Ports S) (out : List ℕ) (sc : Screen) (s : S)
    → All IsPlain out
    → sc.crt_pos + length out < crt_size
    → IsPrinted out sc (putch io out (sc, s)).0
unfolding putch
putch-IsPrinted io [] sc s plain room = (omega arith, tt, λ a k. refl)
putch-IsPrinted io (c ∷ out) sc s (p, plain) room =
    let first = cons_putc-plain io c sc s p (omega (arith, room)) in
    let st = cons_putc io c (sc, s) in
    let sc₁ : Screen = record {
      crt_buf = update sc.crt_buf sc.crt_pos (c + 0x700);
      crt_pos = sc.crt_pos + 1;
    } in
    let fits : st.0.crt_pos + length out < 2000 =
      omega (arith, ap (λ (x : Screen). x.crt_pos) first, room) in
    let (pos, here, same) = putch-IsPrinted io out st.0 st.1 plain fits in
    let at : st.0.crt_pos ≡ sc.crt_pos + 1 = ap (λ (x : Screen). x.crt_pos) first in
    let cell : (a : ℕ) → st.0.crt_buf a ≡ sc₁.crt_buf a =
      λ a. ap (λ (x : Screen). x.crt_buf a) first in
    let end = (putch io out st).0 in
    (
      omega (arith, pos, at),
      (
        ground (arith, same sc.crt_pos, cell sc.crt_pos, at),
        subst (λ p. IsText end.crt_buf p out) at here,
      ),
      λ a k. ground (arith, k, same a, cell a, at),
    )

-- The kernel's cprintf of a text of plain characters that ends before the last word of the screen
-- puts the characters at the cursor in order, moves the cursor behind them and leaves the other
-- words as they were. What it returns is 0.
pub vcprintf-IsPrinted :
    {S : Type 0} (io : Ports S) (fmt out : List ℕ) (args : List Arg) (sc : Screen) (s : S)
    → vprintfmt fmt args ≡ some out
    → All IsPlain out
    → sc.crt_pos + length out < crt_size
    → (sc' : Screen) × (s' : S) × (vcprintf io fmt args (sc, s) ≡ some (0, (sc', s')))
      × IsPrinted out sc sc'
unfolding vcprintf
vcprintf-IsPrinted io fmt out args sc s e plain room =
    let st = putch io out (sc, s) in
    (st.0, st.1, rw (e, vcprintf) refl, putch-IsPrinted io out sc s plain room)
