-- ===== src/Shell/Token.antt =====
-- _gettoken and gettoken of user/sh.c.
--
-- The loops run on fuel, and `none` is a loop that used it up. NULL is address 0. The messages under
-- `debug` are left out.
use mit_jos_f22_advanced_os.Base.{
  ℕ, zero, suc, ◌+◌, Bool, true, false, ◌&&◌, ◌||◌, not, update, ◌==◌, if◌then◌else◌, Option, none,
  some,
}
use mit_jos_f22_advanced_os.Libc.Bytes.{Memory}

-- strchr(WHITESPACE, c)
abbrev pub is_blank : ℕ → Bool
is_blank c = (c == b' ') || (c == 9) || (c == 13) || (c == 10)

-- strchr(SYMBOLS, c)
abbrev pub is_symbol : ℕ → Bool
is_symbol c =
    (c == b'<')
    || (c == b'|')
    || (c == b'>')
    || (c == b'&')
    || (c == b';')
    || (c == b'(')
    || (c == b')')

-- The condition of the loop over a word.
abbrev pub is_word : ℕ → Bool
is_word c = not (c == 0) && not (is_blank c) && not (is_symbol c)

-- Where the blanks end, and memory with each of them replaced by 0.
unfoldable pub clear_blanks : ℕ → ℕ → Memory → Option (ℕ × Memory)
clear_blanks zero s m = none
clear_blanks (suc fuel) s m = elim (is_blank (m s)) [
  | true ↦ clear_blanks fuel (s + 1) (update m s 0)
  | false ↦ some (s, m)
]

-- Where a word ends.
unfoldable pub word_end : ℕ → ℕ → Memory → Option ℕ
word_end zero s m = none
word_end (suc fuel) s m = elim (is_word (m s)) [ true ↦ word_end fuel (s + 1) m | false ↦ some s ]

-- The result of _gettoken, *p1, *p2 and memory.
pub record Token : Type 0 where
  pub kind : ℕ
  pub p1 : ℕ
  pub p2 : ℕ
  pub memory : Memory

-- _gettoken from the first byte that is not blank.
unfoldable pub token_at : ℕ → ℕ → Memory → Option Token
unfolding word_end
token_at fuel s m =
    if m s == 0
    then some (record { kind = 0; p1 = 0; p2 = 0; memory = m })
    else if is_symbol (m s)
    then some (record { kind = m s; p1 = s; p2 = s + 1; memory = update m s 0 })
    else elim (word_end fuel s m) [
      | none ↦ none
      | some e ↦ some (record { kind = b'w'; p1 = s; p2 = e; memory = m })
    ]

-- _gettoken, with what *p1 and *p2 are before the call.
unfoldable pub next_token : ℕ → ℕ → ℕ → ℕ → Memory → Option Token
unfolding clear_blanks token_at
next_token fuel s p1 p2 m =
    if s == 0
    then some (record { kind = 0; p1 = p1; p2 = p2; memory = m })
    else elim (clear_blanks fuel s m) [ none ↦ none | some (s', m') ↦ token_at fuel s' m' ]

-- gettoken(s, 0): the static variables nc, np1 and np2 are kept in a `Token`.
unfoldable pub gettoken_start : ℕ → ℕ → Token → Option Token
unfolding next_token
gettoken_start fuel s t = next_token fuel s t.p1 t.p2 t.memory

-- gettoken(0, p1): the token that is returned, its start, and the variables for the next call.
unfoldable pub gettoken : ℕ → Token → Option (ℕ × ℕ × Token)
unfolding next_token
gettoken fuel t = elim (next_token fuel t.p2 t.p1 t.p2 t.memory) [
  | none ↦ none
  | some t' ↦ some (t.kind, t.p1, t')
]
