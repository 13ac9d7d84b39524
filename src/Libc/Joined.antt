-- ===== src/Libc/Joined.antt =====
-- strcat joins two strings, and strcmp compares two.
use mit_jos_f22_advanced_os.Base.{
  ℕ, zero, suc, ◌+◌, ◌<◌, ◌≡◌, ◌≢◌, ◌⊎◌, inl, inr, refl, ap, ◌∙◌, true, false, ◌&&◌, not, List, [],
  ◌∷◌, ◌++◌, update, ◌==◌, some, length, arith, Bool-cases,
}
use mathlib.Core.Path.{subst}
use mit_jos_f22_advanced_os.Libc.Bytes.{Memory}
use mit_jos_f22_advanced_os.Libc.Text.{IsString, IsString-update}
use mit_jos_f22_advanced_os.Libc.Cstrings.{strlen, strcpy, strcat, strcmp}

strlen_lem :
    (fuel : ℕ) (cs : List ℕ) (s : ℕ) (m : Memory)
    → length cs < fuel
    → IsString m s cs
    → strlen fuel s m ≡ some (length cs)
unfolding strlen
strlen_lem zero cs s m h k = absurd (omega (arith, h))
strlen_lem (suc fuel) [] s m h k =
    let on : (m s == 0) ≡ true = ground (arith, k) in rw (on, strlen) refl
strlen_lem (suc fuel) (c ∷ cs) s m h (e, ne, k) =
    let off : (m s == 0) ≡ false = ground (arith, e, ne) in
    let rest = strlen_lem fuel cs (s + 1) m (omega (arith, h)) k in
    rw (off, strlen) (rw (rest, strlen) refl)

-- A store behind a string.
IsString-behind :
    (cs : List ℕ) (m : Memory) (p a v : ℕ)
    → p + length cs < a
    → IsString m p cs
    → IsString (update m a v) p cs
IsString-behind [] m p a v h k = ground (arith, h, k)
IsString-behind (c ∷ cs) m p a v h (e, ne, k) =
    (ground (arith, h, e), ne, IsString-behind cs m (p + 1) a v (omega (arith, h)) k)

-- Two places for `n` bytes and a null that do not overlap.
abbrev pub IsApart : ℕ → ℕ → ℕ → Type 0
IsApart n p q = (p + n < q) ⊎ (q + n < p)

strcpy_lem :
    (fuel : ℕ) (cs : List ℕ) (dst src : ℕ) (m : Memory)
    → length cs < fuel
    → IsApart (length cs) dst src
    → IsString m src cs
    → (m' : Memory) × (strcpy fuel dst src m ≡ some m')
      × IsString m' dst cs
      × ((a : ℕ) → (a < dst) ⊎ (dst + length cs < a) → m' a ≡ m a)
unfolding strcpy
strcpy_lem zero cs dst src m h apart k = absurd (omega (arith, h))
strcpy_lem (suc fuel) [] dst src m h apart k =
    let on : (m src == 0) ≡ true = ground (arith, k) in
    (update m dst (m src), rw (on, strcpy) refl, ground (arith, k), λ a far. ground (arith, far))
strcpy_lem (suc fuel) (c ∷ cs) dst src m h apart (e, ne, k) =
    let off : (m src == 0) ≡ false = ground (arith, e, ne) in
    let m₁ = update m dst (m src) in
    let still : IsString m₁ (src + 1) cs = elim apart [
      | inl lo ↦ IsString-update cs m (src + 1) dst (m src) (omega (arith, lo)) k
      | inr hi ↦ IsString-behind cs m (src + 1) dst (m src) (omega (arith, hi)) k
    ] in
    let apart' : IsApart (length cs) (dst + 1) (src + 1) = elim apart [
      | inl lo ↦ inl (omega (arith, lo))
      | inr hi ↦ inr (omega (arith, hi))
    ] in
    let (m', run, str, same) =
      strcpy_lem fuel cs (dst + 1) (src + 1) m₁ (omega (arith, h)) apart' still in
    let first : m' dst ≡ c = same dst (inl (omega arith)) ∙ ground (arith, e) in
    (
      m',
      rw (off, strcpy) run,
      (first, ne, str),
      λ a far. same a (ground (arith, far)) ∙ ground (arith, far),
    )

-- Bytes and then a string.
IsString-append :
    (xs ys : List ℕ) (m m' : Memory) (p : ℕ)
    → IsString m p xs
    → ((a : ℕ) → a < p + length xs → m' a ≡ m a)
    → IsString m' (p + length xs) ys
    → IsString m' p (xs ++ ys)
IsString-append [] ys m m' p k same l =
    let here : p + 0 ≡ p = omega arith in subst (λ q. IsString m' q ys) here l
IsString-append (x ∷ xs) ys m m' p (e, ne, k) same l =
    let there : p + suc (length xs) ≡ p + 1 + length xs = omega arith in
    (
      same p (omega arith) ∙ e,
      ne,
      IsString-append xs ys m m' (p + 1) k (λ a lt. same a (omega (arith, lt)))
          (subst (λ q. IsString m' q ys) there l),
    )

-- strcat puts the string at `src` behind the string at `dst`, null included, and writes nothing
-- else, where the source does not overlap the place that is written. It ends when the fuel exceeds
-- both lengths.
pub strcat_lem :
    (fuel : ℕ) (xs ys : List ℕ) (dst src : ℕ) (m : Memory)
    → length xs < fuel
    → length ys < fuel
    → IsString m dst xs
    → IsString m src ys
    → IsApart (length ys) (dst + length xs) src
    → (m' : Memory) × (strcat fuel dst src m ≡ some m')
      × IsString m' dst (xs ++ ys)
      × ((a : ℕ) → (a < dst + length xs) ⊎ (dst + length xs + length ys < a) → m' a ≡ m a)
unfolding strcat
strcat_lem fuel xs ys dst src m h h' k l apart =
    let len = strlen_lem fuel xs dst m h k in
    let (m', run, str, same) = strcpy_lem fuel ys (dst + length xs) src m h' apart l in
    (m', rw (len, strcat) run, IsString-append xs ys m m' dst k (λ a lt. same a (inl lt)) str, same)

abbrev head : List ℕ → ℕ
head [] = 0
head (x ∷ xs) = x

abbrev tail : List ℕ → List ℕ
tail [] = []
tail (x ∷ xs) = xs

-- strcmp of two strings ends, and its result, the difference of two bytes, is 0 when they are equal
-- and only then. The fuel exceeds the length of the first one.
pub strcmp_iff :
    (fuel : ℕ) (xs ys : List ℕ) (p q : ℕ) (m : Memory)
    → length xs < fuel
    → IsString m p xs
    → IsString m q ys
    → (a : ℕ) × (b : ℕ) × (strcmp fuel p q m ≡ some (a, b))
      × (((xs ≡ ys) × (a ≡ b)) ⊎ ((xs ≢ ys) × (a ≢ b)))
unfolding strcmp
strcmp_iff zero xs ys p q m h k l = absurd (omega (arith, h))
strcmp_iff (suc fuel) [] [] p q m h k l =
    let off : (not (m p == 0) && (m p == m q)) ≡ false = ground (arith, k) in
    (m p, m q, rw (off, strcmp) refl, inl (refl, omega (arith, k, l)))
strcmp_iff (suc fuel) [] (y ∷ ys) p q m h k (e, ne, l) =
    let off : (not (m p == 0) && (m p == m q)) ≡ false = ground (arith, k) in
    (
      m p,
      m q,
      rw (off, strcmp) refl,
      inr (
        (λ same. absurd (omega (arith, ap length same))),
        λ same. ne (omega (arith, same, e, k)),
      ),
    )
strcmp_iff (suc fuel) (x ∷ xs) [] p q m h (e, ne, k) l =
    let off : (not (m p == 0) && (m p == m q)) ≡ false = ground (arith, e, ne, l) in
    (
      m p,
      m q,
      rw (off, strcmp) refl,
      inr (
        (λ same. absurd (omega (arith, ap length same))),
        λ same. ne (omega (arith, same, e, l)),
      ),
    )
strcmp_iff (suc fuel) (x ∷ xs) (y ∷ ys) p q m h (e, ne, k) (e', ne', l) =
    elim (Bool-cases (x == y)) [
      | inl on ↦
          let go : (not (m p == 0) && (m p == m q)) ≡ true = ground (arith, e, ne, e', on) in
          let (a, b, run, cases) = strcmp_iff fuel xs ys (p + 1) (q + 1) m (omega (arith, h)) k l in
          let x_y : x ≡ y = ground (arith, on) in
          (
            a,
            b,
            rw (go, strcmp) run,
            elim cases [
              | inl (same, eq) ↦ inl ((λ i. x_y i ∷ same i), eq)
              | inr (differ, lt) ↦ inr ((λ same. differ (ap tail same)), lt)
            ],
          )
      | inr off ↦
          let stop : (not (m p == 0) && (m p == m q)) ≡ false = ground (arith, e, ne, e', off) in
          (
            m p,
            m q,
            rw (stop, strcmp) refl,
            inr (
              (λ same. absurd (ground (arith, off, ap head same))),
              λ eq. absurd (ground (arith, off, e, e', eq)),
            ),
          )
    ]
