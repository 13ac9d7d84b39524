-- ===== src/Libc/Text.antt =====
-- Strings in memory as lists of characters.
use mit_jos_f22_advanced_os.Base.{
  ℕ, ◌+◌, ◌≤◌, ◌<◌, ◌≡◌, ◌≢◌, ◌⊎◌, ap, ◌∙◌, List, [], ◌∷◌, update, length, arith,
}
use mit_jos_f22_advanced_os.Libc.Bytes.{Memory}

-- The bytes `cs`, none of them 0, stand at `p`.
abbrev pub IsAt : Memory → ℕ → List ℕ → Type 0
IsAt m p [] = Unit
IsAt m p (c ∷ cs) = (m p ≡ c) × (c ≢ 0) × IsAt m (p + 1) cs

-- The string `cs` stands at `p`, with a null behind it.
abbrev pub IsString : Memory → ℕ → List ℕ → Type 0
IsString m p [] = m p ≡ 0
IsString m p (c ∷ cs) = (m p ≡ c) × (c ≢ 0) × IsString m (p + 1) cs

pub IsString-update :
    (cs : List ℕ) (m : Memory) (p a v : ℕ) → a < p → IsString m p cs → IsString (update m a v) p cs
IsString-update [] m p a v h k = ground (arith, h, k)
IsString-update (c ∷ cs) m p a v h (e, ne, k) =
    (ground (arith, h, e), ne, IsString-update cs m (p + 1) a v (omega (arith, h)) k)

-- `m'` is `m` outside the bytes from `lo` to below `hi`.
abbrev pub IsSameBut : ℕ → ℕ → Memory → Memory → Type 0
IsSameBut lo hi m m' = (a : ℕ) → (a < lo) ⊎ (hi ≤ a) → m' a ≡ m a

-- Bytes with a null behind them are a string, in any memory that agrees on them.
pub IsAt-IsString :
    (cs : List ℕ) (m m' : Memory) (p e : ℕ)
    → e ≡ p + length cs
    → ((a : ℕ) → a < e → m' a ≡ m a)
    → m' e ≡ 0
    → IsAt m p cs
    → IsString m' p cs
IsAt-IsString [] m m' p e h same z k = ap m' (omega (arith, h)) ∙ z
IsAt-IsString (c ∷ cs) m m' p e h same z (x, ne, k) =
    (same p (omega (arith, h)) ∙ x, ne, IsAt-IsString cs m m' (p + 1) e (omega (arith, h)) same z k)
