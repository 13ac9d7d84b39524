-- ===== src/Console/Edit.antt =====
-- readline is a line editor: what it does, on the line as a list instead of the buffer.
use mit_jos_f22_advanced_os.Base.{
  ℕ, suc, ◌+◌, ◌-◌, ◌%◌, ◌≤◌, ◌<◌, ◌≡◌, inl, inr, refl, ap, ◌∙◌, Bool, true, false, ◌&&◌, List, [],
  ◌∷◌, update, ltb, leb, if◌then◌else◌, Option, none, some, arith, Bool-cases, length,
}
use mathlib.Core.Path.{subst, sym}
use mit_jos_f22_advanced_os.Base.Ret.{Ret, ok, err}
use mit_jos_f22_advanced_os.Console.Readline.{
  Result, line, closed, waits, buflen, is_erase, is_end, read_line, readline,
}

-- A line, the last character first.
abbrev pub press : ℕ → List ℕ → List ℕ
press c [] = if leb 32 c then c % 256 ∷ [] else []
press c (d ∷ typed) =
    if is_erase c
    then typed
    else if leb 32 c && ltb (suc (length typed)) (buflen - 1)
    then c % 256 ∷ d ∷ typed
    else d ∷ typed

-- The line that the keys give, by the editor's rules: `none` while it has no end, `some none` at an
-- error.
abbrev pub edit : List (Ret ℕ) → List ℕ → Option (Option (List ℕ))
edit [] typed = none
edit (err e ∷ keys) typed = some none
edit (ok c ∷ keys) typed = if is_end c then some (some typed) else edit keys (press c typed)

-- `buf` holds the line below `length typed`.
abbrev pub IsTyped : List ℕ → (ℕ → ℕ) → Type 0
IsTyped [] buf = Unit
IsTyped (c ∷ typed) buf = (buf (length typed) ≡ c) × IsTyped typed buf

abbrev pub IsResult : Option (Option (List ℕ)) → (ℕ → ℕ) → Result → Type 0
IsResult none buf r = r ≡ waits
IsResult (some none) buf r = r ≡ closed
IsResult (some (some typed)) buf r =
    (buf' : ℕ → ℕ) × (r ≡ line buf')
    × IsTyped typed buf'
    × (buf' (length typed) ≡ 0)
    × (length typed < buflen)
    × ((a : ℕ) → buflen ≤ a → buf' a ≡ buf a)

IsTyped-update :
    (typed : List ℕ) (buf : ℕ → ℕ) (i v : ℕ)
    → length typed ≤ i
    → IsTyped typed buf
    → IsTyped typed (update buf i v)
IsTyped-update [] buf i v h t = tt
IsTyped-update (c ∷ typed) buf i v h (e, t) =
    (ground (arith, h, e), IsTyped-update typed buf i v (omega (arith, h)) t)

IsResult-buf :
    (o : Option (Option (List ℕ))) (buf buf' : ℕ → ℕ) (r : Result)
    → ((a : ℕ) → buflen ≤ a → buf' a ≡ buf a)
    → IsResult o buf' r
    → IsResult o buf r
IsResult-buf none buf buf' r same h = h
IsResult-buf (some none) buf buf' r same h = h
IsResult-buf (some (some typed)) buf buf' r same (b, e, t, z, lt, k) =
    (b, e, t, z, lt, λ a far. k a far ∙ same a far)

-- A key that does not end the line, in the buffer and on the list.
abbrev IsStep : Bool → ℕ → List (Ret ℕ) → List ℕ → (ℕ → ℕ) → Type 0
IsStep echoing c keys typed buf =
    (buf' : ℕ → ℕ) × ((read_line echoing (ok c ∷ keys) (length typed) buf).1
      ≡ (read_line echoing keys (length (press c typed)) buf').1)
    × IsTyped (press c typed) buf'
    × (length (press c typed) < buflen)
    × ((a : ℕ) → buflen ≤ a → buf' a ≡ buf a)

store-far : (buf : ℕ → ℕ) (i v : ℕ) → i < buflen → (a : ℕ) → buflen ≤ a → update buf i v a ≡ buf a
store-far buf i v h a far = ground (arith, h, far)

first_key :
    (echoing : Bool) (c : ℕ) (keys : List (Ret ℕ)) (buf : ℕ → ℕ)
    → is_end c ≡ false
    → IsStep echoing c keys [] buf
unfolding read_line
first_key echoing c keys buf off =
    let none_back : (is_erase c && ltb 0 0) ≡ false = ground arith in
    elim (Bool-cases (leb 32 c)) [
      | inl on ↦
          let room : (leb 32 c && ltb 0 (buflen - 1)) ≡ true = ground (arith, on) in
          rw on (
            update buf 0 (c % 256),
            rw (none_back, read_line) (rw (room, read_line) refl),
            (ground arith, tt),
            omega arith,
            store-far buf 0 (c % 256) (omega arith),
          )
      | inr not_shown ↦
          let shut : (leb 32 c && ltb 0 (buflen - 1)) ≡ false = ground (arith, not_shown) in
          rw not_shown (
            buf,
            rw (none_back, read_line) (rw (shut, read_line) (rw (off, read_line) refl)),
            tt,
            omega arith,
            λ a far. refl,
          )
    ]

next_key :
    (echoing : Bool) (c d : ℕ) (keys : List (Ret ℕ)) (typed : List ℕ) (buf : ℕ → ℕ)
    → is_end c ≡ false
    → suc (length typed) < buflen
    → IsTyped (d ∷ typed) buf
    → IsStep echoing c keys (d ∷ typed) buf
unfolding read_line
next_key echoing c d keys typed buf off fits (e, t) =
    let n = suc (length typed) in
    elim (Bool-cases (is_erase c)) [
      | inl on ↦
          let back : (is_erase c && ltb 0 n) ≡ true = ground (arith, on) in
          let pred : n - 1 ≡ length typed = omega arith in
          rw on (
            buf,
            rw (back, read_line) (ap (λ i. (read_line echoing keys i buf).1) pred),
            t,
            omega (arith, fits),
            λ a far. refl,
          )
      | inr plain ↦
          let keep : (is_erase c && ltb 0 n) ≡ false = ground (arith, plain) in
          rw plain (elim (Bool-cases (leb 32 c && ltb n (buflen - 1))) [
            | inl room ↦
                let next : n + 1 ≡ suc n = omega arith in
                let lt : n < 1023 = ground (arith, room) in
                rw room (
                  update buf n (c % 256),
                  rw (keep, read_line)
                      (rw (room, read_line)
                        (ap (λ i. (read_line echoing keys i (update buf n (c % 256))).1) next)),
                  (
                    ground arith,
                    (ground (arith, e), IsTyped-update typed buf n (c % 256) (omega arith) t),
                  ),
                  omega (arith, lt),
                  store-far buf n (c % 256) (omega (arith, lt)),
                )
            | inr shut ↦ rw shut (
              buf,
              rw (keep, read_line) (rw (shut, read_line) (rw (off, read_line) refl)),
              (e, t),
              fits,
              λ a far. refl,
            )
          ])
    ]

press-IsStep :
    (echoing : Bool) (c : ℕ) (keys : List (Ret ℕ)) (typed : List ℕ) (buf : ℕ → ℕ)
    → is_end c ≡ false
    → length typed < buflen
    → IsTyped typed buf
    → IsStep echoing c keys typed buf
press-IsStep echoing c keys [] buf off fits t = first_key echoing c keys buf off
press-IsStep echoing c keys (d ∷ typed) buf off fits t =
    next_key echoing c d keys typed buf off fits t

read_line-end :
    (echoing : Bool) (c : ℕ) (keys : List (Ret ℕ)) (i : ℕ) (buf : ℕ → ℕ)
    → is_end c ≡ true
    → (read_line echoing (ok c ∷ keys) i buf).1 ≡ line (update buf i 0)
unfolding read_line
read_line-end echoing c keys i buf on =
    let e₁ : (is_erase c && ltb 0 i) ≡ false = ground (arith, on) in
    let e₂ : (leb 32 c && ltb i (buflen - 1)) ≡ false = ground (arith, on) in
    rw (e₁, read_line) (rw (e₂, read_line) (rw (on, read_line) refl))

read_line-IsResult :
    (echoing : Bool) (keys : List (Ret ℕ)) (typed : List ℕ) (buf : ℕ → ℕ)
    → length typed < buflen
    → IsTyped typed buf
    → IsResult (edit keys typed) buf (read_line echoing keys (length typed) buf).1
unfolding read_line
read_line-IsResult echoing [] typed buf fits t = refl
read_line-IsResult echoing (err e ∷ keys) typed buf fits t = refl
read_line-IsResult echoing (ok c ∷ keys) typed buf fits t = elim (Bool-cases (is_end c)) [
  | inl on ↦ rw on (
    update buf (length typed) 0,
    read_line-end echoing c keys (length typed) buf on,
    IsTyped-update typed buf (length typed) 0 (omega arith) t,
    ground arith,
    fits,
    store-far buf (length typed) 0 fits,
  )
  | inr off ↦
      let (buf', same, t', fits', far) = press-IsStep echoing c keys typed buf off fits t in
      let ih = read_line-IsResult echoing keys (press c typed) buf' fits' t' in
      rw off (
        subst (IsResult (edit keys (press c typed)) buf) (sym same)
          (IsResult-buf (edit keys (press c typed)) buf buf' _ far ih))
]

-- readline, on any keys, gives the line that the editor's rules give on a list: a character from the
-- space on is put behind the line while it has less than 1023, '\b' and DEL take the last one away,
-- and '\n' or '\r' ends the line, which then stands in the buffer with a null behind it. It returns
-- NULL at an error, waits while the line has no end, and writes nothing outside the buffer's 1024
-- bytes. On an empty line DEL is a character like others.
pub readline-IsResult :
    (echoing : Bool) (keys : List (Ret ℕ)) (buf : ℕ → ℕ)
    → IsResult (edit keys []) buf (readline echoing keys buf).1
unfolding readline
readline-IsResult echoing keys buf = read_line-IsResult echoing keys [] buf (omega arith) tt
