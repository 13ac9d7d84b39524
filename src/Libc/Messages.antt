-- ===== src/Libc/Messages.antt =====
-- The strings of lib/printfmt.c for the error codes of inc/error.h.
use mit_jos_f22_advanced_os.Base.{ℕ, List, [], ◌∷◌, Option, none, some, ◌==◌, if◌then◌else◌}

-- The strings for the error codes; a code without one is NULL.
unfoldable pub error_string : ℕ → Option (List ℕ)
error_string code =
    if code == 1
    then some (
        b'u' ∷ b'n' ∷ b's' ∷ b'p' ∷ b'e' ∷ b'c' ∷ b'i' ∷ b'f' ∷ b'i' ∷ b'e' ∷ b'd' ∷ b' ' ∷ b'e'
        ∷ b'r' ∷ b'r' ∷ b'o' ∷ b'r' ∷ [])
    else if code == 2
    then some (
        b'b' ∷ b'a' ∷ b'd' ∷ b' ' ∷ b'e' ∷ b'n' ∷ b'v' ∷ b'i' ∷ b'r' ∷ b'o' ∷ b'n' ∷ b'm' ∷ b'e'
        ∷ b'n' ∷ b't' ∷ [])
    else if code == 3
    then some (
        b'i' ∷ b'n' ∷ b'v' ∷ b'a' ∷ b'l' ∷ b'i' ∷ b'd' ∷ b' ' ∷ b'p' ∷ b'a' ∷ b'r' ∷ b'a' ∷ b'm'
        ∷ b'e' ∷ b't' ∷ b'e' ∷ b'r' ∷ [])
    else if code == 4
    then some (
        b'o' ∷ b'u' ∷ b't' ∷ b' ' ∷ b'o' ∷ b'f' ∷ b' ' ∷ b'm' ∷ b'e' ∷ b'm' ∷ b'o' ∷ b'r' ∷ b'y'
        ∷ [])
    else if code == 5
    then some (
        b'o' ∷ b'u' ∷ b't' ∷ b' ' ∷ b'o' ∷ b'f' ∷ b' ' ∷ b'e' ∷ b'n' ∷ b'v' ∷ b'i' ∷ b'r' ∷ b'o'
        ∷ b'n' ∷ b'm' ∷ b'e' ∷ b'n' ∷ b't' ∷ b's' ∷ [])
    else if code == 6
    then some (
        b's' ∷ b'e' ∷ b'g' ∷ b'm' ∷ b'e' ∷ b'n' ∷ b't' ∷ b'a' ∷ b't' ∷ b'i' ∷ b'o' ∷ b'n' ∷ b' '
        ∷ b'f' ∷ b'a' ∷ b'u' ∷ b'l' ∷ b't' ∷ [])
    else if code == 8
    then some (
        b'e' ∷ b'n' ∷ b'v' ∷ b' ' ∷ b'i' ∷ b's' ∷ b' ' ∷ b'n' ∷ b'o' ∷ b't' ∷ b' ' ∷ b'r' ∷ b'e'
        ∷ b'c' ∷ b'v' ∷ b'i' ∷ b'n' ∷ b'g' ∷ [])
    else if code == 9
    then some (
        b'u' ∷ b'n' ∷ b'e' ∷ b'x' ∷ b'p' ∷ b'e' ∷ b'c' ∷ b't' ∷ b'e' ∷ b'd' ∷ b' ' ∷ b'e' ∷ b'n'
        ∷ b'd' ∷ b' ' ∷ b'o' ∷ b'f' ∷ b' ' ∷ b'f' ∷ b'i' ∷ b'l' ∷ b'e' ∷ [])
    else if code == 10
    then some (
        b'n' ∷ b'o' ∷ b' ' ∷ b'f' ∷ b'r' ∷ b'e' ∷ b'e' ∷ b' ' ∷ b's' ∷ b'p' ∷ b'a' ∷ b'c' ∷ b'e'
        ∷ b' ' ∷ b'o' ∷ b'n' ∷ b' ' ∷ b'd' ∷ b'i' ∷ b's' ∷ b'k' ∷ [])
    else if code == 11
    then some (
        b't' ∷ b'o' ∷ b'o' ∷ b' ' ∷ b'm' ∷ b'a' ∷ b'n' ∷ b'y' ∷ b' ' ∷ b'f' ∷ b'i' ∷ b'l' ∷ b'e'
        ∷ b's' ∷ b' ' ∷ b'a' ∷ b'r' ∷ b'e' ∷ b' ' ∷ b'o' ∷ b'p' ∷ b'e' ∷ b'n' ∷ [])
    else if code == 12
    then some (
        b'f' ∷ b'i' ∷ b'l' ∷ b'e' ∷ b' ' ∷ b'o' ∷ b'r' ∷ b' ' ∷ b'b' ∷ b'l' ∷ b'o' ∷ b'c' ∷ b'k'
        ∷ b' ' ∷ b'n' ∷ b'o' ∷ b't' ∷ b' ' ∷ b'f' ∷ b'o' ∷ b'u' ∷ b'n' ∷ b'd' ∷ [])
    else if code == 13
    then some
        (b'i' ∷ b'n' ∷ b'v' ∷ b'a' ∷ b'l' ∷ b'i' ∷ b'd' ∷ b' ' ∷ b'p' ∷ b'a' ∷ b't' ∷ b'h' ∷ [])
    else if code == 14
    then some (
        b'f' ∷ b'i' ∷ b'l' ∷ b'e' ∷ b' ' ∷ b'a' ∷ b'l' ∷ b'r' ∷ b'e' ∷ b'a' ∷ b'd' ∷ b'y' ∷ b' '
        ∷ b'e' ∷ b'x' ∷ b'i' ∷ b's' ∷ b't' ∷ b's' ∷ [])
    else if code == 15
    then some (
        b'f' ∷ b'i' ∷ b'l' ∷ b'e' ∷ b' ' ∷ b'i' ∷ b's' ∷ b' ' ∷ b'n' ∷ b'o' ∷ b't' ∷ b' ' ∷ b'a'
        ∷ b' ' ∷ b'v' ∷ b'a' ∷ b'l' ∷ b'i' ∷ b'd' ∷ b' ' ∷ b'e' ∷ b'x' ∷ b'e' ∷ b'c' ∷ b'u' ∷ b't'
        ∷ b'a' ∷ b'b' ∷ b'l' ∷ b'e' ∷ [])
    else if code == 16
    then some (
        b'o' ∷ b'p' ∷ b'e' ∷ b'r' ∷ b'a' ∷ b't' ∷ b'i' ∷ b'o' ∷ b'n' ∷ b' ' ∷ b'n' ∷ b'o' ∷ b't'
        ∷ b' ' ∷ b's' ∷ b'u' ∷ b'p' ∷ b'p' ∷ b'o' ∷ b'r' ∷ b't' ∷ b'e' ∷ b'd' ∷ [])
    else none
