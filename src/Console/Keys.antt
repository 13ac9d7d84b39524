-- ===== src/Console/Keys.antt =====
-- The keyboard of kern/console.c: kbd_proc_data and its tables.
--
-- `shift` is a word of seven flags, here a record of them. The state `S` stands for the ports, with
-- any `inb` and `outb`; the message before a reset is left out.
use mit_jos_f22_advanced_os.Base.{
  ℕ, zero, suc, ◌+◌, ◌-◌, ◌%◌, Bool, true, false, not, ◌&&◌, ◌||◌, List, [], ◌∷◌, ltb, leb, ◌==◌,
  if◌then◌else◌, Option, none, some, bit_and,
}

-- The bits of `shift`.
pub record Shift : Type 0 where
  pub shift_key : Bool
  pub ctl : Bool
  pub alt : Bool
  pub capslock : Bool
  pub numlock : Bool
  pub scrolllock : Bool
  pub e0esc : Bool

abbrev pub no_keys : Shift
no_keys = record {
  shift_key = false;
  ctl = false;
  alt = false;
  capslock = false;
  numlock = false;
  scrolllock = false;
  e0esc = false;
}

-- shiftcode
abbrev pub shiftcode : ℕ → Shift
shiftcode c =
    if (c == 0x1D) || (c == 0x9D)
    then record no_keys { ctl = true }
    else if (c == 0x2A) || (c == 0x36)
    then record no_keys { shift_key = true }
    else if (c == 0x38) || (c == 0xB8)
    then record no_keys { alt = true }
    else no_keys

-- togglecode
abbrev pub togglecode : ℕ → Shift
togglecode c =
    if c == 0x3A
    then record no_keys { capslock = true }
    else if c == 0x45
    then record no_keys { numlock = true }
    else if c == 0x46
    then record no_keys { scrolllock = true }
    else no_keys

-- Two words of flags, bit by bit.
abbrev pub bitwise : (Bool → Bool → Bool) → Shift → Shift → Shift
bitwise f a b = record {
  shift_key = f a.shift_key b.shift_key;
  ctl = f a.ctl b.ctl;
  alt = f a.alt b.alt;
  capslock = f a.capslock b.capslock;
  numlock = f a.numlock b.numlock;
  scrolllock = f a.scrolllock b.scrolllock;
  e0esc = f a.e0esc b.e0esc;
}

abbrev pub xor : Bool → Bool → Bool
xor true b = not b
xor false b = b

abbrev pub and_not : Bool → Bool → Bool
and_not a b = a && not b

-- KEY_DEL
abbrev pub key_del : ℕ
key_del = 0xE9

-- An array from its first elements, the others 0.
abbrev pub element : List ℕ → ℕ → ℕ
element [] i = 0
element (x ∷ xs) zero = x
element (x ∷ xs) (suc i) = element xs i

-- The first 88 elements of normalmap.
abbrev pub normalmap_low : List ℕ
normalmap_low =
    0 ∷ 27 ∷ b'1' ∷ b'2' ∷ b'3' ∷ b'4' ∷ b'5' ∷ b'6' ∷ b'7' ∷ b'8' ∷ b'9' ∷ b'0' ∷ b'-' ∷ b'=' ∷ 8
    ∷ 9 ∷ b'q' ∷ b'w' ∷ b'e' ∷ b'r' ∷ b't' ∷ b'y' ∷ b'u' ∷ b'i' ∷ b'o' ∷ b'p' ∷ b'[' ∷ b']' ∷ 10 ∷ 0
    ∷ b'a' ∷ b's' ∷ b'd' ∷ b'f' ∷ b'g' ∷ b'h' ∷ b'j' ∷ b'k' ∷ b'l' ∷ b';' ∷ 39 ∷ b'`' ∷ 0 ∷ 92
    ∷ b'z' ∷ b'x' ∷ b'c' ∷ b'v' ∷ b'b' ∷ b'n' ∷ b'm' ∷ b',' ∷ b'.' ∷ b'/' ∷ 0 ∷ b'*' ∷ 0 ∷ b' ' ∷ 0
    ∷ 0 ∷ 0 ∷ 0 ∷ 0 ∷ 0 ∷ 0 ∷ 0 ∷ 0 ∷ 0 ∷ 0 ∷ 0 ∷ 0 ∷ b'7' ∷ b'8' ∷ b'9' ∷ b'-' ∷ b'4' ∷ b'5' ∷ b'6'
    ∷ b'+' ∷ b'1' ∷ b'2' ∷ b'3' ∷ b'0' ∷ b'.' ∷ 0 ∷ 0 ∷ 0 ∷ 0 ∷ []

-- The first 88 elements of shiftmap.
abbrev pub shiftmap_low : List ℕ
shiftmap_low =
    0 ∷ 27 ∷ b'!' ∷ b'@' ∷ b'#' ∷ b'$' ∷ b'%' ∷ b'^' ∷ b'&' ∷ b'*' ∷ b'(' ∷ b')' ∷ b'_' ∷ b'+' ∷ 8
    ∷ 9 ∷ b'Q' ∷ b'W' ∷ b'E' ∷ b'R' ∷ b'T' ∷ b'Y' ∷ b'U' ∷ b'I' ∷ b'O' ∷ b'P' ∷ b'{' ∷ b'}' ∷ 10 ∷ 0
    ∷ b'A' ∷ b'S' ∷ b'D' ∷ b'F' ∷ b'G' ∷ b'H' ∷ b'J' ∷ b'K' ∷ b'L' ∷ b':' ∷ b'"' ∷ b'~' ∷ 0 ∷ b'|'
    ∷ b'Z' ∷ b'X' ∷ b'C' ∷ b'V' ∷ b'B' ∷ b'N' ∷ b'M' ∷ b'<' ∷ b'>' ∷ b'?' ∷ 0 ∷ b'*' ∷ 0 ∷ b' ' ∷ 0
    ∷ 0 ∷ 0 ∷ 0 ∷ 0 ∷ 0 ∷ 0 ∷ 0 ∷ 0 ∷ 0 ∷ 0 ∷ 0 ∷ 0 ∷ b'7' ∷ b'8' ∷ b'9' ∷ b'-' ∷ b'4' ∷ b'5' ∷ b'6'
    ∷ b'+' ∷ b'1' ∷ b'2' ∷ b'3' ∷ b'0' ∷ b'.' ∷ 0 ∷ 0 ∷ 0 ∷ 0 ∷ []

-- The first 56 elements of ctlmap.
abbrev pub ctlmap_low : List ℕ
ctlmap_low =
    0 ∷ 0 ∷ 0 ∷ 0 ∷ 0 ∷ 0 ∷ 0 ∷ 0 ∷ 0 ∷ 0 ∷ 0 ∷ 0 ∷ 0 ∷ 0 ∷ 0 ∷ 0 ∷ 17 ∷ 23 ∷ 5 ∷ 18 ∷ 20 ∷ 25 ∷ 21
    ∷ 9 ∷ 15 ∷ 16 ∷ 0 ∷ 0 ∷ 13 ∷ 0 ∷ 1 ∷ 19 ∷ 4 ∷ 6 ∷ 7 ∷ 8 ∷ 10 ∷ 11 ∷ 12 ∷ 0 ∷ 0 ∷ 0 ∷ 0 ∷ 28 ∷ 26
    ∷ 24 ∷ 3 ∷ 22 ∷ 2 ∷ 14 ∷ 13 ∷ 0 ∷ 0 ∷ 239 ∷ 0 ∷ 0 ∷ []

-- The keys behind the escape 0xE0 that all maps agree on: KEY_UP and so on.
abbrev pub far_key : ℕ → ℕ
far_key c =
    if c == 0xC8
    then 0xE2
    else if c == 0xC9
    then 0xE6
    else if c == 0xCB
    then 0xE4
    else if c == 0xCD
    then 0xE5
    else if c == 0xCF
    then 0xE1
    else if c == 0xD0
    then 0xE3
    else if c == 0xD1
    then 0xE7
    else if c == 0xD2
    then 0xE8
    else if c == 0xD3
    then 0xE9
    else 0

-- The elements of normalmap and shiftmap by their index.
abbrev pub high_key : ℕ → ℕ
high_key c =
    if c == 0xC7 then 0xE0 else if c == 0x9C then 10 else if c == 0xB5 then b'/' else far_key c

abbrev pub high_ctl : ℕ → ℕ
high_ctl c = if c == 0x97 then 0xE0 else if c == 0xB5 then 239 else far_key c

-- charcode[shift & (CTL | SHIFT)][c]
unfoldable pub charcode : Shift → ℕ → ℕ
charcode shift c =
    if shift.ctl
    then (if ltb c 128 then element ctlmap_low c else high_ctl c)
    else if ltb c 128
    then element (if shift.shift_key then shiftmap_low else normalmap_low) c
    else high_key c

-- The capital for a small letter and the other way round, under CAPSLOCK.
unfoldable pub caps : Shift → ℕ → ℕ
caps shift c =
    if shift.capslock
    then (if leb b'a' c && leb c b'z'
        then c - 32
        else if leb b'A' c && leb c b'Z'
        then c + 32
        else c)
    else c

-- A key that is pressed, from the changes of `shift` on: the character, whether the machine is
-- reset (Ctrl-Alt-Del), `shift`.
unfoldable pub press : ℕ → Shift → ℕ × Bool × Shift
unfolding caps charcode
press c shift =
    let shift' = bitwise xor (bitwise (λ a b. a || b) shift (shiftcode c)) (togglecode c) in
    let ch = caps shift' (charcode shift' c) in
    (ch, shift'.ctl && shift'.alt && (ch == key_del), shift')

-- kbd_proc_data from the byte that is read on.
unfoldable pub scan : ℕ → Shift → ℕ × Bool × Shift
unfolding press
scan byte shift =
    let released = shiftcode (if shift.e0esc then byte else byte % 128) in
    if byte == 0xE0
    then (0, false, record shift { e0esc = true })
    else if leb 0x80 byte
    then (0, false, bitwise and_not shift (record released { e0esc = true }))
    else press (if shift.e0esc then byte + 128 else byte) (record shift { e0esc = false })

-- The result -1 is `none`.
unfoldable pub kbd_proc_data :
    {S : Type 0} → (ℕ → S → ℕ × S) → (ℕ → ℕ → S → S) → S × Shift → Option ℕ × (S × Shift)
unfolding scan
kbd_proc_data inb outb (s, shift) =
    let (status, s₁) = inb 0x64 s in
    let (byte, s₂) = inb 0x60 s₁ in
    let (c, reset, shift') = scan byte shift in
    if bit_and status 1 == 0
    then (none, (s₁, shift))
    else (some c, (if reset then outb 0x92 0x3 s₂ else s₂, shift'))
