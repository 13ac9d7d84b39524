-- ===== src/Console/Screen.antt =====
-- The output side of kern/console.c: cga_putc, serial_putc, lpt_putc and cons_putc.
--
-- The state `S` stands for the ports, with any `inb` and `outb`. `crt_buf` is the display's memory
-- as 16-bit words. A character is an `int` of at least 0.
use mit_jos_f22_advanced_os.Base.{
  ℕ, zero, suc, ◌+◌, ◌-◌, ◌*◌, ◌/◌, ◌%◌, ◌^◌, true, false, update, ltb, leb, ◌==◌, if◌then◌else◌,
  bit_and,
}

-- inb and outb
pub record Ports (S : Type 0) : Type 0 where
  pub inb : ℕ → S → ℕ × S
  pub outb : ℕ → ℕ → S → S

-- crt_buf and crt_pos
pub record Screen : Type 0 where
  pub crt_buf : ℕ → ℕ
  pub crt_pos : ℕ

-- CRT_COLS and CRT_SIZE
abbrev pub crt_cols : ℕ
crt_cols = 80

abbrev pub crt_size : ℕ
crt_size = 2000

module _ {S : Type 0} (io : Ports S) where
  abbrev pub delay : S → S
  delay s = (io.inb 0x84 (io.inb 0x84 (io.inb 0x84 (io.inb 0x84 s).1).1).1).1

  -- The loop of serial_putc and of lpt_putc: up to `n` rounds until a bit of `mask` is set.
  unfoldable pub wait : ℕ → ℕ → ℕ → S → S
  wait port mask zero s = (io.inb port s).1
  wait port mask (suc n) s =
      let (status, s') = io.inb port s in
      elim (bit_and status mask == 0) [ true ↦ wait port mask n (delay s') | false ↦ s' ]

  unfoldable pub serial_putc : ℕ → S → S
  unfolding wait
  serial_putc c s = io.outb 0x3F8 (c % 256) (wait 0x3FD 0x20 12800 s)

  unfoldable pub lpt_putc : ℕ → S → S
  unfolding wait
  lpt_putc c s =
      io.outb 0x37A 0x08 (io.outb 0x37A 0x0D (io.outb 0x378 (c % 256) (wait 0x379 0x80 12800 s)))

  -- outb of the cursor's position
  abbrev pub move_cursor : ℕ → S → S
  move_cursor pos s =
      io.outb 0x3D5 (pos % 256) (io.outb 0x3D4 15 (io.outb 0x3D5 (pos / 256) (io.outb 0x3D4 14 s)))

-- Black on white where no attribute is given.
abbrev pub attributed : ℕ → ℕ
attributed c = if ltb c 256 then c + 0x700 else c

-- The loop that blanks `n` words from `i` on.
unfoldable pub blank : ℕ → ℕ → (ℕ → ℕ) → ℕ → ℕ
blank zero i f = f
blank (suc n) i f = blank n (i + 1) (update f i 0x720)

-- `if (crt_pos >= CRT_SIZE)`: the memmove moves all rows but the first one up.
unfoldable pub scroll : Screen → Screen
unfolding blank
scroll sc =
    if leb crt_size sc.crt_pos
    then record {
      crt_buf =
          blank crt_cols (crt_size - crt_cols)
            (λ i. if ltb i (crt_size - crt_cols) then sc.crt_buf (i + crt_cols) else sc.crt_buf i);
      crt_pos = sc.crt_pos - crt_cols;
    }
    else sc

abbrev pub carriage_return : Screen → Screen
carriage_return sc = record sc { crt_pos = sc.crt_pos - sc.crt_pos % crt_cols }

-- The cases of the switch but '\t', for a character with its attribute.
unfoldable pub show : ℕ → Screen → Screen
show c sc =
    if c % 256 == 8
    then (if ltb 0 sc.crt_pos
        then record {
          crt_buf = update sc.crt_buf (sc.crt_pos - 1) ((c / 256 * 256 + 32) % 2 ^ 16);
          crt_pos = sc.crt_pos - 1;
        }
        else sc)
    else if c % 256 == 10
    then carriage_return (record sc { crt_pos = (sc.crt_pos + crt_cols) % 2 ^ 16 })
    else if c % 256 == 13
    then carriage_return sc
    else record {
      crt_buf = update sc.crt_buf sc.crt_pos (c % 2 ^ 16);
      crt_pos = (sc.crt_pos + 1) % 2 ^ 16;
    }

-- cga_putc, with what a tab does first.
unfoldable pub cga_with :
    {S : Type 0} → Ports S → (Screen × S → Screen × S) → ℕ → Screen × S → Screen × S
unfolding show scroll
cga_with io tab c (sc, s) =
    let (sc₁, s₁) = if attributed c % 256 == 9 then tab (sc, s) else (show (attributed c) sc, s) in
    let sc₂ = scroll sc₁ in (sc₂, move_cursor io sc₂.crt_pos s₁)

-- cons_putc(' ')
unfoldable pub put_space : {S : Type 0} → Ports S → Screen × S → Screen × S
unfolding cga_with serial_putc lpt_putc
put_space io (sc, s) = cga_with io (λ x. x) 32 (sc, lpt_putc io 32 (serial_putc io 32 s))

-- case '\t'
unfoldable pub five_spaces : {S : Type 0} → Ports S → Screen × S → Screen × S
unfolding put_space
five_spaces io x = put_space io (put_space io (put_space io (put_space io (put_space io x))))

unfoldable pub cga_putc : {S : Type 0} → Ports S → ℕ → Screen × S → Screen × S
unfolding cga_with five_spaces
cga_putc io c st = cga_with io (five_spaces io) c st

unfoldable pub cons_putc : {S : Type 0} → Ports S → ℕ → Screen × S → Screen × S
unfolding cga_putc serial_putc lpt_putc
cons_putc io c (sc, s) = cga_putc io c (sc, lpt_putc io c (serial_putc io c s))
