-- ===== src/Console/Scroll.antt =====
-- The cursor and the writes of cga_putc stay on the screen.
use mit_jos_f22_advanced_os.Base.{
  ℕ, zero, suc, ◌+◌, ◌%◌, ◌≤◌, ◌<◌, ◌≡◌, refl, ◌∙◌, update, ltb, leb, ◌==◌, if◌then◌else◌, arith,
  Bool-cases, inl, inr,
}
use mit_jos_f22_advanced_os.Console.Screen.{
  Ports, Screen, show, scroll, blank, cga_with, put_space, five_spaces, lpt_putc, serial_putc,
  cga_putc, cons_putc, crt_size, attributed, crt_cols,
}

blank-other : (n i : ℕ) (f : ℕ → ℕ) (a : ℕ) → i + n ≤ a → blank n i f a ≡ f a
unfolding blank
blank-other zero i f a h = refl
blank-other (suc n) i f a h =
    blank-other n (i + 1) (update f i 0x720) a (omega (arith, h)) ∙ ground (arith, h)

-- From `sc` to `sc'` the cursor stays on the screen and the memory behind it is not written.
abbrev pub IsKept : Screen → Screen → Type 0
IsKept sc sc' = (sc'.crt_pos < crt_size) × ((a : ℕ) → crt_size ≤ a → sc'.crt_buf a ≡ sc.crt_buf a)

show-bounds :
    (c : ℕ) (sc : Screen)
    → sc.crt_pos < crt_size
    → ((show c sc).crt_pos < crt_size + crt_cols)
      × ((a : ℕ) → crt_size ≤ a → (show c sc).crt_buf a ≡ sc.crt_buf a)
unfolding show
show-bounds c sc h = elim (Bool-cases (c % 256 == 8)) [
  | inl back ↦ elim (Bool-cases (ltb 0 sc.crt_pos)) [
    | inl pos ↦ rw back (rw pos (omega (arith, h), λ a far. ground (arith, far, h)))
    | inr at ↦ rw back (rw at (omega (arith, h), λ a far. refl))
  ]
  | inr c₁ ↦ elim (Bool-cases (c % 256 == 10)) [
    | inl line ↦ rw c₁ (rw line (omega (arith, h), λ a far. refl))
    | inr c₂ ↦ elim (Bool-cases (c % 256 == 13)) [
      | inl return ↦ rw c₁ (rw c₂ (rw return (omega (arith, h), λ a far. refl)))
      | inr c₃ ↦ rw c₁ (rw c₂ (rw c₃ (omega (arith, h), λ a far. ground (arith, far, h))))
    ]
  ]
]

scroll-bounds : (sc : Screen) → sc.crt_pos < crt_size + crt_cols → IsKept sc (scroll sc)
unfolding scroll
scroll-bounds sc h = elim (Bool-cases (leb crt_size sc.crt_pos)) [
  | inl on ↦
      let moved : ℕ → ℕ = λ i. if ltb i 1920 then sc.crt_buf (i + 80) else sc.crt_buf i in
      rw on (omega (arith, h), λ a far. blank-other 80 1920 moved a far ∙ ground (arith, far))
  | inr off ↦ rw off (ground (arith, off), λ a far. refl)
]

IsKept-trans : (a b c : Screen) → IsKept a b → IsKept b c → IsKept a c
IsKept-trans a b c (p, f) (q, g) = (q, λ x far. g x far ∙ f x far)

-- A character whose tab, if it is one, keeps the screen.
cga_with-IsKept :
    {S : Type 0} (io : Ports S) (tab : Screen × S → Screen × S) (c : ℕ) (sc : Screen) (s : S)
    → sc.crt_pos < crt_size
    → IsKept sc (tab (sc, s)).0
    → IsKept sc (cga_with io tab c (sc, s)).0
unfolding cga_with
cga_with-IsKept io tab c sc s h k = elim (Bool-cases (attributed c % 256 == 9)) [
  | inl on ↦
      let (at, same) = k in
      rw on (
        IsKept-trans sc (tab (sc, s)).0 (scroll (tab (sc, s)).0) k
          (scroll-bounds (tab (sc, s)).0 (omega (arith, at))))
  | inr off ↦
      let (at, same) = show-bounds (attributed c) sc h in
      let (at', same') = scroll-bounds (show (attributed c) sc) at in
      rw off (at', λ x far. same' x far ∙ same x far)
]

put_space-IsKept :
    {S : Type 0} (io : Ports S) (x : Screen × S)
    → x.0.crt_pos < crt_size
    → IsKept x.0 (put_space io x).0
unfolding put_space
put_space-IsKept io (sc, s) h =
    cga_with-IsKept io (λ x. x) 32 sc (lpt_putc io 32 (serial_putc io 32 s)) h (h, λ a far. refl)

-- A step that keeps any screen, made once more.
IsKept-again :
    {S : Type 0} (f : Screen × S → Screen × S) (sc : Screen) (y : Screen × S)
    → ((x : Screen × S) → x.0.crt_pos < crt_size → IsKept x.0 (f x).0)
    → IsKept sc y.0
    → IsKept sc (f y).0
IsKept-again f sc y h k = IsKept-trans sc y.0 (f y).0 k (h y k.0)

five_spaces-IsKept :
    {S : Type 0} (io : Ports S) (x : Screen × S)
    → x.0.crt_pos < crt_size
    → IsKept x.0 (five_spaces io x).0
unfolding five_spaces
five_spaces-IsKept {S} io x h =
    let f = put_space io in
    let again : (y : Screen × S) → IsKept x.0 y.0 → IsKept x.0 (f y).0 =
      λ y k. IsKept-again f x.0 y (put_space-IsKept io) k in
    again (f (f (f (f x))))
      (again (f (f (f x))) (again (f (f x)) (again (f x) (put_space-IsKept io x h))))

-- cons_putc, for any character and any answers of the ports, leaves the cursor on the screen when
-- it was there, and never writes display memory from CRT_SIZE on. A tab is five spaces, each of
-- which may scroll.
pub cons_putc-IsKept :
    {S : Type 0} (io : Ports S) (c : ℕ) (sc : Screen) (s : S)
    → sc.crt_pos < crt_size
    → IsKept sc (cons_putc io c (sc, s)).0
unfolding cons_putc cga_putc
cons_putc-IsKept io c sc s h =
    let s' = lpt_putc io c (serial_putc io c s) in
    cga_with-IsKept io (five_spaces io) c sc s' h (five_spaces-IsKept io (sc, s') h)
