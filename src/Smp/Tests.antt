-- ===== src/Smp/Tests.antt =====
-- kern/mpconfig.c on a table of two processors.
use mit_jos_f22_advanced_os.Base.{
  ℕ, ◌+◌, ◌≡◌, ◌⊎◌, refl, Bool, true, false, ◌&&◌, List, [], ◌∷◌, ◌==◌, Option, none, some, update,
}
use mit_jos_f22_advanced_os.Libc.Bytes.{Memory}
use mit_jos_f22_advanced_os.Smp.Config.{Cpus, mp_init, add_cpu}
use mit_jos_f22_advanced_os.Smp.Cpus.{IsTable, mp_init-IsTable}

-- The bytes `l` at `a` in memory `m`.
abbrev bytes_at : ℕ → List ℕ → Memory → Memory
bytes_at a [] m = m
bytes_at a (c ∷ l) m = update (bytes_at (a + 1) l m) a c

-- The pointer structure at 0xF0000 with its checksum, the table at 0x1000 and 640 KB of base
-- memory.
abbrev firmware : Memory
firmware =
    bytes_at 0xF0000
      (b'_' ∷ b'M' ∷ b'P' ∷ b'_' ∷ 0 ∷ 16 ∷ 0 ∷ 0 ∷ 1 ∷ 4 ∷ 144 ∷ 0 ∷ 0 ∷ 0 ∷ 0 ∷ 0 ∷ [])
      (bytes_at 0x1000 (b'P' ∷ b'C' ∷ b'M' ∷ b'P' ∷ 44 ∷ 0 ∷ 4 ∷ 158 ∷ []) (
        bytes_at 0x1022 (2 ∷ 0 ∷ []) (
          bytes_at 0x102C (0 ∷ 0 ∷ 0 ∷ 3 ∷ [])
            (bytes_at 0x1040 (0 ∷ 1 ∷ 0 ∷ 1 ∷ []) (bytes_at 0x413 (128 ∷ 2 ∷ []) (λ a. 0))))))

abbrev cleared : Cpus
cleared = record {
  cpu_id = λ i. 0;
  started = λ i. false;
  bootcpu = 0;
  ismp = false;
  ncpu = 0;
  lapicaddr = 0;
}

mp_init-IsTable_example :
    (mp_init 4096 firmware cleared ≡ none)
    ⊎ ((c' : Cpus) × (mp_init 4096 firmware cleared ≡ some c') × IsTable c')
mp_init-IsTable_example = mp_init-IsTable 4096 firmware cleared refl refl

abbrev has_two : Option Cpus → Bool
has_two none = false
has_two (some c) = (c.ncpu == 2) && (c.bootcpu == 0) && (c.cpu_id 1 == 1) && c.ismp

mp_init-has_two : has_two (mp_init 4096 firmware cleared) ≡ true
unfolding mp_init
mp_init-has_two = refl

-- The boot processor as the ninth entry is no CPU of the table.
ninth : (add_cpu 3 (record cleared { ncpu = 8 })).bootcpu ≡ 8
unfolding add_cpu
ninth = refl
