-- ===== src/Console/Tests.antt =====
-- The theorems about the console on concrete input and output.
use mit_jos_f22_advanced_os.Base.{ℕ, ◌+◌, ◌≡◌, refl, true, List, [], ◌∷◌, arith, none, some}
use mit_jos_f22_advanced_os.Base.Ret.{Ret, ok}
use mit_jos_f22_advanced_os.Libc.Number.{printnum}
use mit_jos_f22_advanced_os.Libc.Format.{word, vprintfmt}
use mit_jos_f22_advanced_os.Console.Input.{Cons, Proc, cons_intr}
use mit_jos_f22_advanced_os.Console.Queue.{IsQueue, cons_intr-IsQueue}
use mit_jos_f22_advanced_os.Console.Screen.{Ports, Screen, cons_putc}
use mit_jos_f22_advanced_os.Console.Scroll.{IsKept, cons_putc-IsKept}
use mit_jos_f22_advanced_os.Console.Kprintf.{vcprintf, IsPrinted, vcprintf-IsPrinted}
use mit_jos_f22_advanced_os.Console.Readline.{readline}
use mit_jos_f22_advanced_os.Console.Edit.{edit, IsResult, readline-IsResult}

-- A device that holds the characters that it will give.
abbrev pending : Proc (List ℕ)
pending [] = (none, [])
pending (c ∷ cs) = (some c, cs)

-- Nothing is waiting, and the next character goes to the last place of the buffer.
abbrev at_end : Cons
at_end = record { buf = λ i. 0; rpos = 511; wpos = 511 }

cons_intr-IsQueue_example :
    (cons' : Cons) × (cons_intr pending 4 (b'l' ∷ 0 ∷ b's' ∷ []) at_end ≡ some ([], cons'))
    × IsQueue (b'l' ∷ b's' ∷ []) cons'
cons_intr-IsQueue_example =
    cons_intr-IsQueue pending (b'l' ∷ 0 ∷ b's' ∷ []) [] 4 (b'l' ∷ 0 ∷ b's' ∷ []) [] at_end
      (0 ∷ b's' ∷ [], refl, (b's' ∷ [], refl, ([], refl, refl))) (omega arith)
      (omega arith, omega arith, refl) (omega arith)

-- Ports that are always ready.
abbrev ready : Ports ℕ
ready = record { inb = λ port s. (0xFF, s); outb = λ port c s. s + 1 }

abbrev full_screen : Screen
full_screen = record { crt_buf = λ i. 0x720; crt_pos = 1999 }

cons_putc-IsKept_example : IsKept full_screen (cons_putc ready 9 (full_screen, 0)).0
cons_putc-IsKept_example = cons_putc-IsKept ready 9 full_screen 0 (omega arith)

-- The output scrolls the screen and goes on in its last row.
scrolls : (cons_putc ready b'x' (full_screen, 0)).0.crt_pos ≡ 1920
unfolding cons_putc
scrolls = refl

printed :
    vprintfmt (b'n' ∷ b'=' ∷ b'%' ∷ b'd' ∷ []) (word 42 ∷ [])
    ≡ some (b'n' ∷ b'=' ∷ b'4' ∷ b'2' ∷ [])
unfolding vprintfmt printnum
printed = refl

vcprintf-IsPrinted_example :
    (sc' : Screen) × (s' : ℕ) × (vcprintf ready
        (b'n' ∷ b'=' ∷ b'%' ∷ b'd' ∷ [])
        (word 42 ∷ [])
        (record full_screen { crt_pos = 80 }, 0)
      ≡ some (0, (sc', s')))
    × IsPrinted (b'n' ∷ b'=' ∷ b'4' ∷ b'2' ∷ []) (record full_screen { crt_pos = 80 }) sc'
vcprintf-IsPrinted_example =
    vcprintf-IsPrinted ready (b'n' ∷ b'=' ∷ b'%' ∷ b'd' ∷ []) (b'n' ∷ b'=' ∷ b'4' ∷ b'2' ∷ [])
      (word 42 ∷ []) (record full_screen { crt_pos = 80 }) 0 printed
      (
        (omega arith, omega arith),
        (
          (omega arith, omega arith),
          ((omega arith, omega arith), ((omega arith, omega arith), tt)),
        ),
      )
      (omega arith)

-- "ab", backspace, "c" and return
abbrev typed_keys : List (Ret ℕ)
typed_keys = ok b'a' ∷ ok b'b' ∷ ok 8 ∷ ok b'c' ∷ ok 13 ∷ []

readline-IsResult_example :
    IsResult (some (some (b'c' ∷ b'a' ∷ []))) (λ a. 7) (readline true typed_keys (λ a. 7)).1
readline-IsResult_example = readline-IsResult true typed_keys (λ a. 7)

readline-echo : (readline true typed_keys (λ a. 7)).0 ≡ b'a' ∷ b'b' ∷ 8 ∷ b'c' ∷ 10 ∷ []
unfolding readline
readline-echo = refl

-- A DEL on an empty line is stored in it.
readline-del : edit (ok 0x7f ∷ ok 10 ∷ []) [] ≡ some (some (0x7f ∷ []))
readline-del = refl
