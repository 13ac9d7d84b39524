-- ===== src/Smp/Config.antt =====
-- kern/mpconfig.c: the search for the multiprocessor table and the table of CPUs.
--
-- Physical memory is a function from addresses to bytes; KADDR panics from page `npages` on, which is
-- `none`. The messages and the switch out of PIC mode are left out.
use mit_jos_f22_advanced_os.Base.{
  ℕ, zero, suc, ◌+◌, ◌-◌, ◌*◌, ◌/◌, ◌%◌, ◌^◌, Bool, true, false, ◌&&◌, ◌||◌, not, List, [], ◌∷◌,
  update, ltb, leb, ◌==◌, if◌then◌else◌, Option, none, some, bit_and,
}
use mit_jos_f22_advanced_os.Libc.Bytes.{Memory}

-- The loop of sum, without the cut to a byte.
unfoldable pub total : ℕ → ℕ → Memory → ℕ
total a zero m = 0
total a (suc n) m = m a + total (a + 1) n m

unfoldable pub sum : ℕ → ℕ → Memory → ℕ
unfolding total
sum a n m = total a n m % 256

-- memcmp(a, name, 4) == 0
abbrev pub has_name : List ℕ → ℕ → Memory → Bool
has_name [] a m = true
has_name (c ∷ name) a m = (m a == c) && has_name name (a + 1) m

-- Fields of two and of four bytes.
abbrev pub uint16 : ℕ → Memory → ℕ
uint16 a m = m a + m (a + 1) * 256

abbrev pub uint32 : ℕ → Memory → ℕ
uint32 a m = uint16 a m + uint16 (a + 2) m * 2 ^ 16

-- The test of mpsearch1 at one address.
abbrev pub is_mp : ℕ → Memory → Bool
is_mp a m = has_name (b'_' ∷ b'M' ∷ b'P' ∷ b'_' ∷ []) a m && (sum a 16 m == 0)

-- The loop of mpsearch1, `n` rounds.
unfoldable pub search_from : ℕ → ℕ → Memory → Option ℕ
unfolding sum
search_from zero a m = none
search_from (suc n) a m = let rest = search_from n (a + 16) m in if is_mp a m then some a else rest

-- KADDR succeeds.
abbrev pub is_mapped : ℕ → ℕ → Bool
is_mapped npages pa = ltb (pa / 4096) npages

-- `some none` is NULL.
unfoldable pub mpsearch1 : ℕ → ℕ → ℕ → Memory → Option (Option ℕ)
unfolding search_from
mpsearch1 npages a len m =
    if is_mapped npages a && is_mapped npages (a + len)
    then some (search_from (len / 16) a m)
    else none

-- A search, and where it finds nothing the BIOS ROM.
abbrev pub or_rom : ℕ → Memory → Option (Option ℕ) → Option (Option ℕ)
or_rom npages m none = none
or_rom npages m (some (some mp)) = some (some mp)
or_rom npages m (some none) = mpsearch1 npages 0xF0000 0x10000 m

unfoldable pub mpsearch : ℕ → Memory → Option (Option ℕ)
unfolding mpsearch1
mpsearch npages m =
    let ebda = uint16 (0x400 + 0x0E) m in
    let base = uint16 (0x400 + 0x13) m * 1024 in
    or_rom npages m (
      if not (ebda == 0)
      then mpsearch1 npages (ebda * 16) 1024 m
      else mpsearch1 npages ((base + 2 ^ 32 - 1024) % 2 ^ 32) 1024 m)

-- The checks of the configuration table at `conf`.
abbrev pub is_conf : ℕ → Memory → Bool
is_conf conf m =
    has_name (b'P' ∷ b'C' ∷ b'M' ∷ b'P' ∷ []) conf m
    && (sum conf (uint16 (conf + 4) m) m == 0)
    && ((m (conf + 6) == 1) || (m (conf + 6) == 4))
    && (sum (conf + uint16 (conf + 4) m) (uint16 (conf + 40) m) m == m (conf + 42))

-- The address of the table.
unfoldable pub mpconfig : ℕ → Memory → Option (Option ℕ)
unfolding mpsearch sum
mpconfig npages m = elim (mpsearch npages m) [
  | none ↦ none
  | some none ↦ some none
  | some (some mp) ↦
      (let conf = uint32 (mp + 4) m in
        if (conf == 0) || not (m (mp + 11) == 0)
        then some none
        else if not (is_mapped npages conf)
        then none
        else some (if is_conf conf m then some conf else none))
]

-- `cpus`, as the cpu_id fields and who has cpu_status CPU_STARTED, with the other variables.
pub record Cpus : Type 0 where
  pub cpu_id : ℕ → ℕ
  pub started : ℕ → Bool
  pub bootcpu : ℕ
  pub ismp : Bool
  pub ncpu : ℕ
  pub lapicaddr : ℕ

-- NCPU
abbrev pub max_cpus : ℕ
max_cpus = 8

-- The entry of a processor, by its flags.
unfoldable pub add_cpu : ℕ → Cpus → Cpus
add_cpu flags c =
    let c₁ = if bit_and flags 2 == 0 then c else record c { bootcpu = c.ncpu } in
    if ltb c.ncpu max_cpus && not (bit_and flags 1 == 0)
    then record c₁ { cpu_id = update c.cpu_id c.ncpu c.ncpu; ncpu = c.ncpu + 1 }
    else c₁

-- The loop over `n` entries from address `p` on.
unfoldable pub add_entries : ℕ → ℕ → Memory → Cpus → Cpus
unfolding add_cpu
add_entries zero p m c = c
add_entries (suc n) p m c =
    if m p == 0
    then add_entries n (p + 20) m (add_cpu (m (p + 3)) c)
    else if leb (m p) 4
    then add_entries n (p + 8) m c
    else record c { ismp = false }

-- The state behind the loop.
abbrev pub finish : Cpus → Cpus
finish c =
    let c₁ = record c { started = update c.started c.bootcpu true } in
    if c.ismp then c₁ else record c₁ { ncpu = 1; lapicaddr = 0 }

unfoldable pub mp_init : ℕ → Memory → Cpus → Option Cpus
unfolding mpconfig add_entries
mp_init npages m c = elim (mpconfig npages m) [
  | none ↦ none
  | some none ↦ some (record c { bootcpu = 0 })
  | some (some conf) ↦ some (
      finish (
        add_entries (uint16 (conf + 34) m) (conf + 44) m
          (record c { bootcpu = 0; ismp = true; lapicaddr = uint32 (conf + 36) m })))
]
