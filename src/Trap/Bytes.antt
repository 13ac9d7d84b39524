-- ===== src/Trap/Bytes.antt =====
-- Eight stores of a byte, in the order of the addresses, make one word.
use mit_jos_f22_advanced_os.Base.{ℕ, zero, suc, ◌+◌, ◌*◌, ◌/◌, ◌%◌, ◌^◌, ◌<◌, ◌≡◌, arith}
use mit_jos_f22_advanced_os.Trap.Push.{set_byte}

-- The word `o` after the stores of the `i` lowest bytes of `w`.
abbrev pub half_written : ℕ → ℕ → ℕ → ℕ
half_written o w i = o / 256 ^ i * 256 ^ i + w % 256 ^ i

pub set_byte-half_written :
    (o w i : ℕ)
    → i < 8
    → set_byte (half_written o w i) i (w / 256 ^ i % 256) ≡ half_written o w (suc i)
set_byte-half_written o w zero h = omega arith
set_byte-half_written o w (suc zero) h = omega arith
set_byte-half_written o w (suc (suc zero)) h = omega arith
set_byte-half_written o w (suc (suc (suc zero))) h = omega arith
set_byte-half_written o w (suc (suc (suc (suc zero)))) h = omega arith
set_byte-half_written o w (suc (suc (suc (suc (suc zero))))) h = omega arith
set_byte-half_written o w (suc (suc (suc (suc (suc (suc zero)))))) h = omega arith
set_byte-half_written o w (suc (suc (suc (suc (suc (suc (suc zero))))))) h = omega arith
set_byte-half_written o w (suc (suc (suc (suc (suc (suc (suc (suc i)))))))) h =
    absurd (omega (arith, h))
