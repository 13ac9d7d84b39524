-- ===== src/Libc/Outputs.antt =====
-- The theorems about cprintf and fprintf on a concrete text.
use mit_jos_f22_advanced_os.Base.{ℕ, ◌≡◌, refl, List, [], ◌∷◌, ◌++◌, All, length, some}
use mit_jos_f22_advanced_os.Base.Ret.{Ret, ok}
use mit_jos_f22_advanced_os.Libc.Number.{printnum}
use mit_jos_f22_advanced_os.Libc.Format.{word, vprintfmt}
use mit_jos_f22_advanced_os.Libc.Printbuf.{vcprintf, vfprintf}
use mit_jos_f22_advanced_os.Libc.Flushed.{concat, IsSmall, vcprintf_lem}
use mit_jos_f22_advanced_os.Libc.Fprintf.{IsComplete, vfprintf_lem}

-- "x=%d" and what it prints
abbrev format : List ℕ
format = b'x' ∷ b'=' ∷ b'%' ∷ b'd' ∷ []

abbrev shown : List ℕ
shown = b'x' ∷ b'=' ∷ b'4' ∷ b'2' ∷ []

format-shown : vprintfmt format (word 42 ∷ []) ≡ some shown
unfolding vprintfmt printnum
format-shown = refl

vcprintf_lem_example :
    (calls : List (List ℕ)) × (vcprintf format (word 42 ∷ []) (λ a. 7) ≡ some (4, calls))
    × (concat calls ≡ shown)
    × All IsSmall calls
vcprintf_lem_example = vcprintf_lem format shown (word 42 ∷ []) (λ a. 7) format-shown

-- A file that every write makes longer.
abbrev append_all : List ℕ → List ℕ → Ret ℕ × List ℕ
append_all l file = (ok (length l), file ++ l)

append_all-IsComplete : IsComplete append_all (λ file. file)
append_all-IsComplete l file = (refl, refl)

vfprintf_lem_example :
    (s' : List ℕ) × (vfprintf append_all format (word 42 ∷ []) (λ a. 7) (b'>' ∷ [])
      ≡ some (ok 4, s'))
    × (s' ≡ b'>' ∷ shown)
vfprintf_lem_example =
    vfprintf_lem append_all (λ file. file) format shown (word 42 ∷ []) (λ a. 7) (b'>' ∷ [])
      append_all-IsComplete format-shown

-- An empty text has the result 1.
empty-result : vfprintf append_all [] [] (λ a. 7) [] ≡ some (ok 1, [])
unfolding vfprintf vprintfmt
empty-result = refl
