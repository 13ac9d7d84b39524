-- ===== src/Shell/Monitor.antt =====
-- runcmd of kern/monitor.c.
--
-- The loops run on fuel, and `none` is a loop that used it up. The commands' own output is left out;
-- what is called is the result.
use mit_jos_f22_advanced_os.Base.{
  ℕ, zero, suc, ◌+◌, Bool, true, false, ◌&&◌, not, List, [], ◌∷◌, ◌-◌, update, ◌==◌, if◌then◌else◌,
  Option, none, some,
}
use mit_jos_f22_advanced_os.Libc.Bytes.{Memory}
use mit_jos_f22_advanced_os.Shell.Token.{is_blank, clear_blanks}

-- MAXARGS
abbrev pub maxargs : ℕ
maxargs = 16

-- The condition of the loop past an argument.
abbrev pub is_arg : ℕ → Bool
is_arg c = not (c == 0) && not (is_blank c)

unfoldable pub arg_end : ℕ → ℕ → Memory → Option ℕ
arg_end zero s m = none
arg_end (suc fuel) s m = elim (is_arg (m s)) [ true ↦ arg_end fuel (s + 1) m | false ↦ some s ]

-- `args argc argv m`: the array argv and memory; or the message that there are too many.
pub data Parsed : Type 0 where
  args : ℕ → (ℕ → ℕ) → Memory → Parsed
  too_many : Parsed

-- The loop body behind the blanks, with the rounds that follow.
abbrev pub parse_arg :
    (ℕ → (ℕ → ℕ) → ℕ → Memory → Option Parsed) → ℕ → ℕ → (ℕ → ℕ) → ℕ → Memory → Option Parsed
parse_arg next fuel argc argv s m = elim (m s == 0) [
  | true ↦ some (args argc (update argv argc 0) m)
  | false ↦ elim (argc == maxargs - 1) [
    | true ↦ some too_many
    | false ↦ elim (arg_end fuel s m) [
      | none ↦ none
      | some e ↦ next (argc + 1) (update argv argc s) e m
    ]
  ]
]

-- The loop from argument `argc` on.
unfoldable pub parse : ℕ → ℕ → ℕ → (ℕ → ℕ) → ℕ → Memory → Option Parsed
unfolding clear_blanks arg_end
parse zero fuel argc argv buf m = none
parse (suc n) fuel argc argv buf m = elim (clear_blanks fuel buf m) [
  | none ↦ none
  | some (s, m') ↦ parse_arg (parse n fuel) fuel argc argv s m'
]

-- strcmp(p, name) == 0, for a string literal `name`.
unfoldable pub is_equal : ℕ → List ℕ → Memory → Bool
is_equal p [] m = m p == 0
is_equal p (c ∷ name) m = let rest = is_equal (p + 1) name m in (m p == c) && rest

pub data Called : Type 0 where
  no_command : Called
  too_many_arguments : Called
  unknown_command : Called
  command : ℕ → ℕ → (ℕ → ℕ) → Memory → Called

-- The loop over `commands`, given as names, from command `i` on.
unfoldable pub lookup : ℕ → List (List ℕ) → ℕ → (ℕ → ℕ) → Memory → Called
unfolding is_equal
lookup i [] argc argv m = unknown_command
lookup i (name ∷ names) argc argv m =
    let rest = lookup (i + 1) names argc argv m in
    if is_equal (argv 0) name m then command i argc argv m else rest

-- The names of `commands`.
abbrev pub commands : List (List ℕ)
commands =
    (b'h' ∷ b'e' ∷ b'l' ∷ b'p' ∷ [])
    ∷ (b'k' ∷ b'e' ∷ b'r' ∷ b'n' ∷ b'i' ∷ b'n' ∷ b'f' ∷ b'o' ∷ [])
    ∷ []

-- `argv` is what is on the stack.
unfoldable pub runcmd : ℕ → ℕ → (ℕ → ℕ) → Memory → Option Called
unfolding parse lookup
runcmd fuel buf argv m = elim (parse fuel fuel 0 (update argv 0 0) buf m) [
  | none ↦ none
  | some too_many ↦ some too_many_arguments
  | some (args argc argv' m') ↦
      some (if argc == 0 then no_command else lookup 0 commands argc argv' m')
]
