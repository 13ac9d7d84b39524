-- ===== src/Libc/Cstrings.antt =====
-- The functions of lib/string.c that run to a null: strlen, strcpy, strcat, strcmp, strncmp, strchr
-- and strfind.
--
-- The loops run on fuel, and `none` is a loop that used it up, as on memory without a null. Bytes
-- are unsigned.
use mit_jos_f22_advanced_os.Base.{
  ℕ, zero, suc, ◌+◌, true, false, ◌&&◌, ◌||◌, not, update, ◌==◌, if◌then◌else◌, Option, none, some,
}
use mit_jos_f22_advanced_os.Libc.Bytes.{Memory}

unfoldable pub strlen : ℕ → ℕ → Memory → Option ℕ
strlen zero s m = none
strlen (suc fuel) s m = elim (m s == 0) [
  | true ↦ some 0
  | false ↦ elim (strlen fuel (s + 1) m) [ none ↦ none | some n ↦ some (suc n) ]
]

-- Memory afterwards; the result of strcpy is `dst`.
unfoldable pub strcpy : ℕ → ℕ → ℕ → Memory → Option Memory
strcpy zero dst src m = none
strcpy (suc fuel) dst src m = elim (m src == 0) [
  | true ↦ some (update m dst (m src))
  | false ↦ strcpy fuel (dst + 1) (src + 1) (update m dst (m src))
]

unfoldable pub strcat : ℕ → ℕ → ℕ → Memory → Option Memory
unfolding strlen strcpy
strcat fuel dst src m = elim (strlen fuel dst m) [
  | none ↦ none
  | some len ↦ strcpy fuel (dst + len) src m
]

-- The two bytes whose difference is the result.
unfoldable pub strcmp : ℕ → ℕ → ℕ → Memory → Option (ℕ × ℕ)
strcmp zero p q m = none
strcmp (suc fuel) p q m = elim (not (m p == 0) && (m p == m q)) [
  | true ↦ strcmp fuel (p + 1) (q + 1) m
  | false ↦ some (m p, m q)
]

unfoldable pub strncmp : ℕ → ℕ → ℕ → Memory → ℕ × ℕ
strncmp p q zero m = (0, 0)
strncmp p q (suc n) m =
    let rest = strncmp (p + 1) (q + 1) n m in
    if not (m p == 0) && (m p == m q) then rest else (m p, m q)

-- Where the loop of strchr and of strfind ends.
unfoldable pub find_char : ℕ → ℕ → ℕ → Memory → Option ℕ
find_char zero s c m = none
find_char (suc fuel) s c m = elim ((m s == 0) || (m s == c)) [
  | true ↦ some s
  | false ↦ find_char fuel (s + 1) c m
]

unfoldable pub strfind : ℕ → ℕ → ℕ → Memory → Option ℕ
unfolding find_char
strfind fuel s c m = find_char fuel s c m

-- NULL is 0.
unfoldable pub strchr : ℕ → ℕ → ℕ → Memory → Option ℕ
unfolding find_char
strchr fuel s c m = elim (find_char fuel s c m) [
  | none ↦ none
  | some p ↦ some (if m p == 0 then 0 else p)
]
