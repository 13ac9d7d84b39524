-- ===== src/Base/Ret.antt =====
-- The error codes of inc/error.h, what a function that returns them gives back, and the state
-- monad of code that may panic.
use Prim.Native.Nat.{ℕ}
use mathlib.Core.Option.{Option, none, some}

-- `enum` of inc/error.h (the codes that the modelled code returns).
pub data Error : Type 0 where
  e_bad_env : Error
  e_inval : Error
  e_no_mem : Error
  e_no_free_env : Error
  e_fault : Error
  e_ipc_not_recv : Error
  e_no_disk : Error
  e_max_open : Error
  e_not_found : Error
  e_bad_path : Error
  e_file_exists : Error
  e_not_supp : Error

-- The number of an error (inc/error.h).
abbrev pub code : Error → ℕ
code e_bad_env = 2
code e_inval = 3
code e_no_mem = 4
code e_no_free_env = 5
code e_fault = 6
code e_ipc_not_recv = 8
code e_no_disk = 10
code e_max_open = 11
code e_not_found = 12
code e_bad_path = 13
code e_file_exists = 14
code e_not_supp = 16

-- An `int` result: `ok n` for `n ≥ 0`, `err e` for `-E`.
pub data Ret {ℓ} (A : Type ℓ) : Type ℓ where
  ok : A → Ret A
  err : Error → Ret A

-- `none` is a call of `panic`, which does not return.
abbrev pub M : Type 0 → Type 0 → Type 0
M S A = S → Option (A × S)

abbrev pub pure : {S A : Type 0} → A → M S A
pure a s = some (a, s)

abbrev pub panic : {S A : Type 0} → M S A
panic s = none

infixl 5 ◌>>=◌ ◌>>◌
abbrev pub ◌>>=◌ : {S A B : Type 0} → M S A → (A → M S B) → M S B
◌>>=◌ m f s = elim (m s) [ none ↦ none | some (a, s') ↦ f a s' ]

abbrev pub ◌>>◌ : {S B : Type 0} → M S (Unit {0}) → M S B → M S B
m >> k = m >>= λ _. k
