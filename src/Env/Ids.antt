-- ===== src/Env/Ids.antt =====
-- Environment identifiers: what env_alloc generates, and whom envid2env lets through.
use mit_jos_f22_advanced_os.Base.{
  ℕ, ◌+◌, ◌-◌, ◌*◌, ◌/◌, ◌%◌, ◌^◌, ◌<◌, ◌≡◌, ◌≢◌, ◌⊎◌, true, false, ◌||◌, arith, leb, ◌==◌,
  if◌then◌else◌, ◌∙◌, bit_or,
}
use mit_jos_f22_advanced_os.Base.Words.{bit_or_low, zero-bit_or}
use mit_jos_f22_advanced_os.Base.Ret.{ok}
use mit_jos_f22_advanced_os.Env.State.{Kernel, nenv, envx, is_free}
use mit_jos_f22_advanced_os.Env.Alloc.{envid2env, next_id}

bit_or-index : (g e : ℕ) → g % 1024 ≡ 0 → e < 1024 → bit_or g e ≡ g + e
bit_or-index g e h lt =
    let q : g ≡ g / 1024 * 2 ^ 10 + 0 = omega arith in
    rw q (bit_or_low 10 (g / 1024) 0 e (omega arith) lt ∙ omega (arith, zero-bit_or e))

-- The generated part of an identifier.
generation : ℕ → ℕ
generation old =
    let sum = (old + 4096) % 2 ^ 32 in
    let g = sum - sum % 1024 in if g == 0 || leb (2 ^ 31) g then 4096 else g

generation_lem :
    (old : ℕ)
    → old < 2 ^ 31
    → (generation old % 1024 ≡ 0)
      × (0 < generation old)
      × (generation old < 2 ^ 31)
      × (generation old / 1024 ≢ old / 1024)
unfolding generation
generation_lem old h = ground arith

-- `id` is positive as an `int32_t`, has index `e`, and is not `old`.
abbrev pub IsFresh : ℕ → ℕ → ℕ → Type 0
IsFresh old e id = (0 < id) × (id < 2 ^ 31) × (envx id ≡ e) × (id ≢ old)

-- The identifier that env_alloc gives slot `e` is positive as an `int32_t`, has index `e`, and is
-- not the one that the slot had before.
pub next_id_lem : (old e : ℕ) → old < 2 ^ 31 → e < nenv → IsFresh old e (next_id old e)
unfolding next_id generation
next_id_lem old e h lt =
    let (a, b, c, d) = generation_lem old h in
    let q : next_id old e ≡ generation old + e = bit_or-index (generation old) e a lt in
    rw q (omega arith)

-- With `checkperm` set and an `envid` other than 0, envid2env returns environment `e` exactly when
-- `e` is the slot of `envid`, is not free, has this very identifier, and is the caller or a child
-- of the caller.
pub envid2env_iff :
    (cur envid e : ℕ) (k : Kernel)
    → envid ≢ 0
    → (envid2env cur envid true k ≡ ok e
        → (e ≡ envx envid)
          × (is_free (k.envs e).env_status ≡ false)
          × ((k.envs e).env_id ≡ envid)
          × ((e ≡ cur) ⊎ ((k.envs e).env_parent_id ≡ (k.envs cur).env_id)))
      × ((e ≡ envx envid)
          → is_free (k.envs e).env_status ≡ false
          → (k.envs e).env_id ≡ envid
          → (e ≡ cur) ⊎ ((k.envs e).env_parent_id ≡ (k.envs cur).env_id)
          → envid2env cur envid true k ≡ ok e)
unfolding envid2env
envid2env_iff cur envid e k h = (λ p. ground arith, λ p q r s. ground arith)
