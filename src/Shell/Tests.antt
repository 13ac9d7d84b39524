-- ===== src/Shell/Tests.antt =====
-- The theorems about the shell and the monitor on concrete lines.
use mit_jos_f22_advanced_os.Base.{
  ℕ, ◌+◌, ◌≤◌, ◌<◌, ◌≡◌, ◌≢◌, ◌⊎◌, ◌&&◌, inr, refl, Bool, true, false, List, [], ◌∷◌, ltb, ◌==◌,
  if◌then◌else◌, update, arith, Option, some,
}
use mit_jos_f22_advanced_os.Libc.Bytes.{Memory}
use mit_jos_f22_advanced_os.Libc.Text.{IsString}
use mit_jos_f22_advanced_os.Shell.Token.{Token, gettoken, gettoken_start, is_symbol}
use mit_jos_f22_advanced_os.Shell.Tokens.{IsFirst, gettoken-IsFirst}
use mit_jos_f22_advanced_os.Shell.Args.{Argstate, argstart, argnext}
use mit_jos_f22_advanced_os.Shell.Options.{IsNext, argnext-IsNext}
use mit_jos_f22_advanced_os.Shell.Monitor.{args, too_many, parse, maxargs, runcmd, Called, command}
use mit_jos_f22_advanced_os.Shell.Words.{IsArgv}
use mit_jos_f22_advanced_os.Shell.Parsed.{parse-IsArgv}

-- Memory with a string at `p`.
abbrev text_at : ℕ → List ℕ → Memory
text_at p [] = λ a. 0
text_at p (c ∷ cs) = update (text_at (p + 1) cs) p c

-- "ls  >x"
abbrev line : List ℕ
line = b'l' ∷ b's' ∷ b' ' ∷ b' ' ∷ b'>' ∷ b'x' ∷ []

abbrev first_token : Token
first_token = record { kind = b'w'; p1 = 100; p2 = 102; memory = text_at 100 line }

first_token-gettoken_start :
    gettoken_start 9 100 (record { kind = 0; p1 = 0; p2 = 0; memory = text_at 100 line })
    ≡ some first_token
unfolding gettoken_start
first_token-gettoken_start = refl

ne : (a b : ℕ) → (a == b) ≡ false → a ≢ b
ne a b h e = absurd (ground (arith, h, e))

gettoken-IsFirst_example :
    (t' : Token) × (gettoken 9 first_token ≡ some (b'w', 100, t'))
    × IsFirst (b'>' ∷ b'x' ∷ []) t'
    × ((is_symbol b'l' ≡ true) ⊎ IsString t'.memory 100 (b'l' ∷ b's' ∷ []))
    × ((a : ℕ) → a < 102 → t'.memory a ≡ text_at 100 line a)
gettoken-IsFirst_example =
    gettoken-IsFirst 9 b'l' (b's' ∷ b' ' ∷ b' ' ∷ b'>' ∷ b'x' ∷ []) first_token (omega arith) (
      refl,
      omega arith,
      omega arith,
      (refl, ne b'l' 0 refl, (refl, ne b's' 0 refl, tt)),
      inr refl,
      (
        refl,
        ne b' ' 0 refl,
        (refl, ne b' ' 0 refl, (refl, ne b'>' 0 refl, (refl, ne b'x' 0 refl, refl))),
      ),
    )

-- "-dx" at 100 and "f" at 200
abbrev arg_memory : Memory
arg_memory a =
    if ltb a 150 then text_at 100 (b'-' ∷ b'd' ∷ b'x' ∷ []) a else text_at 200 (b'f' ∷ []) a

abbrev arg_state : Argstate
arg_state = argstart 300 3 (λ i. if i == 1 then 100 else if i == 2 then 200 else 0)

argnext-IsNext_example :
    IsNext arg_memory (some (b'd', b'x' ∷ [])) ((b'f' ∷ []) ∷ []) (argnext arg_memory arg_state)
unfolding argstart
argnext-IsNext_example =
    argnext-IsNext arg_memory [] ((b'-' ∷ b'd' ∷ b'x' ∷ []) ∷ (b'f' ∷ []) ∷ []) arg_state (
      ne 300 0 refl,
      refl,
      (
        omega arith,
        ne 100 0 refl,
        (refl, ne b'-' 0 refl, (refl, ne b'd' 0 refl, (refl, ne b'x' 0 refl, refl))),
        (omega arith, ne 200 0 refl, (refl, ne b'f' 0 refl, refl), refl),
      ),
    )

-- "help x"
abbrev command_line : List ℕ
command_line = b'h' ∷ b'e' ∷ b'l' ∷ b'p' ∷ b' ' ∷ b'x' ∷ []

parse-IsArgv_example :
    ((2 < maxargs)
      × ((argv' : ℕ → ℕ) × (m' : Memory) × (parse 9 9 0 (λ i. 7) 100 (text_at 100 command_line)
            ≡ some (args 2 argv' m'))
          × IsArgv m' argv' 0 ((b'h' ∷ b'e' ∷ b'l' ∷ b'p' ∷ []) ∷ (b'x' ∷ []) ∷ [])))
    ⊎ ((maxargs ≤ 2) × (parse 9 9 0 (λ i. 7) 100 (text_at 100 command_line) ≡ some too_many))
parse-IsArgv_example =
    parse-IsArgv 9 9 (λ i. 7) 100 (text_at 100 command_line) command_line
      (
        refl,
        ne b'h' 0 refl,
        (
          refl,
          ne b'e' 0 refl,
          (
            refl,
            ne b'l' 0 refl,
            (refl, ne b'p' 0 refl, (refl, ne b' ' 0 refl, (refl, ne b'x' 0 refl, refl))),
          ),
        ),
      )
      (omega arith) (omega arith)

-- The monitor finds the command "help" with two arguments.
abbrev is_help : Option Called → Bool
is_help (some (command i argc argv m)) = (i == 0) && (argc == 2) && (argv 0 == 100)
is_help r = false

runcmd-is_help : is_help (runcmd 9 100 (λ i. 7) (text_at 100 command_line)) ≡ true
unfolding runcmd
runcmd-is_help = refl
