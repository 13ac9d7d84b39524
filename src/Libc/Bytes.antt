-- ===== src/Libc/Bytes.antt =====
-- memset, memmove, memcpy, memcmp and memfind of lib/string.c, as compiled with ASM set.
--
-- Memory is a function from addresses to bytes. The string instructions are loops over units of
-- one byte or of four: a unit is read whole before it is written. Address sums stay below 2^64.
use mit_jos_f22_advanced_os.Base.{
  ℕ, zero, suc, ◌+◌, ◌-◌, ◌*◌, ◌/◌, ◌%◌, ◌^◌, Bool, ◌&&◌, ltb, leb, ◌==◌, if◌then◌else◌,
}

abbrev pub Memory : Type 0
Memory = ℕ → ℕ

-- movsb or movsl: `w` bytes from `s` to `d`
abbrev pub move_unit : ℕ → ℕ → ℕ → Memory → Memory
move_unit w d s m a = if leb d a && ltb a (d + w) then m (s + (a - d)) else m a

-- cld; rep: `n` units, upwards from `d` and `s`
unfoldable pub move_up : ℕ → ℕ → ℕ → ℕ → Memory → Memory
move_up w zero d s m = m
move_up w (suc n) d s m = move_up w n (d + w) (s + w) (move_unit w d s m)

-- std; rep: `n` units, downwards to below the ends `d` and `s`
unfoldable pub move_down : ℕ → ℕ → ℕ → ℕ → Memory → Memory
move_down w zero d s m = m
move_down w (suc n) d s m = move_down w n (d - w) (s - w) (move_unit w (d - w) (s - w) m)

abbrev pub is_by_four : ℕ → ℕ → ℕ → Bool
is_by_four s d n = (s % 4 == 0) && (d % 4 == 0) && (n % 4 == 0)

unfoldable pub memmove : ℕ → ℕ → ℕ → Memory → Memory
memmove dst src n m =
    if ltb src dst && ltb dst (src + n)
    then if is_by_four (src + n) (dst + n) n
      then move_down 4 (n / 4) (dst + n) (src + n) m
      else move_down 1 n (dst + n) (src + n) m
    else if is_by_four src dst n
    then move_up 4 (n / 4) dst src m
    else move_up 1 n dst src m

unfoldable pub memcpy : ℕ → ℕ → ℕ → Memory → Memory
memcpy = memmove

-- stosb or stosl: the `w` low bytes of `c`, the lowest first
abbrev pub store_unit : ℕ → ℕ → ℕ → Memory → Memory
store_unit w d c m a = if leb d a && ltb a (d + w) then c / 256 ^ (a - d) % 256 else m a

unfoldable pub store_up : ℕ → ℕ → ℕ → ℕ → Memory → Memory
store_up w zero d c m = m
store_up w (suc n) d c m = store_up w n (d + w) c (store_unit w d c m)

-- (c<<24)|(c<<16)|(c<<8)|c, where no two parts share a bit
abbrev pub repeated : ℕ → ℕ
repeated c = c * 2 ^ 24 + c * 2 ^ 16 + c * 2 ^ 8 + c

-- `c` as a 32-bit pattern.
unfoldable pub memset : ℕ → ℕ → ℕ → Memory → Memory
memset v c n m =
    if n == 0
    then m
    else if (v % 4 == 0) && (n % 4 == 0)
    then store_up 4 (n / 4) v (repeated (c % 256)) m
    else store_up 1 n v c m
