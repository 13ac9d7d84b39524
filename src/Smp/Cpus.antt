-- ===== src/Smp/Cpus.antt =====
-- mp_init leaves a well-formed table of CPUs, whatever the firmware's tables hold.
use mit_jos_f22_advanced_os.Base.{
  ℕ, zero, suc, ◌+◌, ◌≤◌, ◌<◌, ◌≡◌, ◌⊎◌, inl, inr, refl, true, ◌&&◌, not, ltb, leb, ◌==◌, none,
  some, bit_and, arith, Bool-cases, Option-cases,
}
use mit_jos_f22_advanced_os.Libc.Bytes.{Memory}
use mit_jos_f22_advanced_os.Smp.Config.{
  Cpus, max_cpus, add_cpu, add_entries, finish, mpconfig, mp_init, uint16, uint32,
}

-- At most NCPU CPUs, each with its index as cpu_id, and the boot CPU one of them or the next.
pub record IsCpus (c : Cpus) : Type 0 where
  pub few : c.ncpu ≤ max_cpus
  pub ids : (i : ℕ) → i < c.ncpu → c.cpu_id i ≡ i
  pub boot : c.bootcpu ≤ c.ncpu
  pub first : c.cpu_id 0 ≡ 0

add_cpu-IsCpus : (flags : ℕ) (c : Cpus) → IsCpus c → IsCpus (add_cpu flags c)
unfolding add_cpu
add_cpu-IsCpus flags c h = elim (Bool-cases (bit_and flags 2 == 0)) [
  | inl plain ↦ elim (Bool-cases (ltb c.ncpu max_cpus && not (bit_and flags 1 == 0))) [
    | inl on ↦ rw plain (
        rw on (record {
          few = ground (arith, on);
          ids = λ i lt. ground (arith, h.ids i, lt);
          first = ground (arith, h.first);
          boot = omega (arith, h.boot);
        }))
    | inr off ↦ rw plain (rw off h)
  ]
  | inr boots ↦ elim (Bool-cases (ltb c.ncpu max_cpus && not (bit_and flags 1 == 0))) [
    | inl on ↦ rw boots (
        rw on (record {
          few = ground (arith, on);
          ids = λ i lt. ground (arith, h.ids i, lt);
          first = ground (arith, h.first);
          boot = omega arith;
        }))
    | inr off ↦
        rw boots (rw off (record { few = h.few; ids = h.ids; boot = omega arith; first = h.first }))
  ]
]

add_entries-IsCpus : (n p : ℕ) (m : Memory) (c : Cpus) → IsCpus c → IsCpus (add_entries n p m c)
unfolding add_entries
add_entries-IsCpus zero p m c h = h
add_entries-IsCpus (suc n) p m c h = elim (Bool-cases (m p == 0)) [
  | inl on ↦
      rw on
        (add_entries-IsCpus n (p + 20) m (add_cpu (m (p + 3)) c) (add_cpu-IsCpus (m (p + 3)) c h))
  | inr off ↦ elim (Bool-cases (leb (m p) 4)) [
    | inl known ↦ rw off (rw known (add_entries-IsCpus n (p + 8) m c h))
    | inr unknown ↦
        rw off (rw unknown (record { few = h.few; ids = h.ids; boot = h.boot; first = h.first }))
  ]
]

-- What the other parts of the kernel see: at most NCPU CPUs, each with its index as cpu_id.
pub record IsTable (c : Cpus) : Type 0 where
  pub few : c.ncpu ≤ max_cpus
  pub ids : (i : ℕ) → i < c.ncpu → c.cpu_id i ≡ i
  pub boot : c.bootcpu ≤ max_cpus

finish-IsTable : (c : Cpus) → IsCpus c → IsTable (finish c)
finish-IsTable c h = elim (Bool-cases c.ismp) [
  | inl on ↦ rw on (record { few = h.few; ids = h.ids; boot = omega (arith, h.boot, h.few) })
  | inr off ↦ rw off (record {
    few = omega arith;
    ids = λ i lt. (let at : i ≡ 0 = omega (arith, lt) in rw at h.first);
    boot = omega (arith, h.boot, h.few);
  })
]

-- mp_init, on any contents of memory and from the cleared variables that the kernel starts with,
-- panics on an address behind the end of memory, or leaves a table of at most NCPU CPUs, each with
-- its index as its cpu_id. The boot CPU is one of the NCPU, or the one behind them.
pub mp_init-IsTable :
    (npages : ℕ) (m : Memory) (c : Cpus)
    → c.ncpu ≡ 0
    → c.cpu_id 0 ≡ 0
    → (mp_init npages m c ≡ none) ⊎ ((c' : Cpus) × (mp_init npages m c ≡ some c') × IsTable c')
unfolding mp_init
mp_init-IsTable npages m c empty first = elim (Option-cases (mpconfig npages m)) [
  | inl e ↦ inl (rw (e, mp_init) refl)
  | inr (none, e) ↦ inr (
    record c { bootcpu = 0 },
    rw (e, mp_init) refl,
    record {
      few = omega (arith, empty);
      ids = λ i lt. absurd (omega (arith, lt, empty));
      boot = omega arith;
    },
  )
  | inr (some conf, e) ↦
      let start : Cpus = record c { bootcpu = 0; ismp = true; lapicaddr = uint32 (conf + 36) m } in
      let ok : IsCpus start = record {
        few = omega (arith, empty);
        ids = λ i lt. absurd (omega (arith, lt, empty));
        boot = omega arith;
        first = first;
      } in
      let after = add_entries-IsCpus (uint16 (conf + 34) m) (conf + 44) m start ok in
      inr (
        finish (add_entries (uint16 (conf + 34) m) (conf + 44) m start),
        rw (e, mp_init) refl,
        finish-IsTable (add_entries (uint16 (conf + 34) m) (conf + 44) m start) after,
      )
]
