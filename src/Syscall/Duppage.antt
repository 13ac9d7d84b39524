-- ===== src/Syscall/Duppage.antt =====
-- duppage of lib/fork.c, on the system calls that it makes.
use mit_jos_f22_advanced_os.Base.{
  ℕ, ◌-◌, ◌*◌, ◌^◌, ◌≡◌, refl, ◌≢◌, true, false, not, ◌||◌, some, bit_or, bit_and, ◌==◌,
  if◌then◌else◌, arith, Bool-cases, ◌⊎◌, inl, inr,
}
use mit_jos_f22_advanced_os.Base.Ret.{M, Error, pure, ◌>>=◌, ◌>>◌, Ret, ok, err}
use mit_jos_f22_advanced_os.Env.State.{Kernel}
use mit_jos_f22_advanced_os.Env.Alloc.{envid2env}
use mit_jos_f22_advanced_os.Pmap.Mem.{pte_w}
use mit_jos_f22_advanced_os.Syscall.Calls.{pte_syscall, sys_page_map}

abbrev pub pte_share : ℕ
pte_share = 0x400

abbrev pub pte_cow : ℕ
pte_cow = 0x800

-- `if (0 < r) panic(...)`: a result is 0 or negative, so the panic is never reached.
abbrev pub never_positive : Ret (Unit {0}) → M Kernel (Unit {0})
never_positive (ok _) = pure tt
never_positive (err _) = pure tt

-- (perm | PTE_COW) & ~PTE_W
abbrev pub cow_perm : ℕ → ℕ
cow_perm perm = bit_and (bit_or perm pte_cow) (2 ^ 32 - 1 - pte_w)

-- `pte` is uvpt[pn]; the caller `cur` names itself by 0.
unfoldable pub duppage : ℕ → ℕ → ℕ → ℕ → M Kernel (Ret (Unit {0}))
duppage cur envid pn pte =
    let perm = bit_and pte pte_syscall in
    let addr = pn * 4096 in
    if not (bit_and perm pte_share == 0)
    then (do r ← sys_page_map cur 0 addr envid addr perm; never_positive r; pure (ok tt))
    else if not (bit_and perm pte_w == 0) || not (bit_and perm pte_cow == 0)
    then (do
      r ← sys_page_map cur 0 addr envid addr (cow_perm perm)
      never_positive r
      r' ← sys_page_map cur 0 addr 0 addr (cow_perm perm)
      never_positive r'
      pure (ok tt))
    else (do r ← sys_page_map cur 0 addr envid addr perm; never_positive r; pure (ok tt))

sys_page_map-no_target :
    (cur envid addr perm : ℕ) (x : Error) (k : Kernel)
    → envid2env cur envid true k ≡ err x
    → sys_page_map cur 0 addr envid addr perm k ≡ some (err x, k)
unfolding sys_page_map envid2env
sys_page_map-no_target cur envid addr perm x k h = rw (h, ◌>>=◌) refl

-- duppage into an environment that does not exist, or that the caller may not change, returns 0
-- and changes nothing when the page is shared or neither writable nor copy-on-write.
pub duppage-no_target :
    (cur envid pn pte : ℕ) (x : Error) (k : Kernel)
    → envid2env cur envid true k ≡ err x
    → (bit_and (bit_and pte pte_syscall) pte_share ≢ 0)
      ⊎ ((bit_and (bit_and pte pte_syscall) pte_w ≡ 0)
          × (bit_and (bit_and pte pte_syscall) pte_cow ≡ 0))
    → duppage cur envid pn pte k ≡ some (ok tt, k)
unfolding duppage
duppage-no_target cur envid pn pte x k h page =
    let fails = sys_page_map-no_target cur envid (pn * 4096) (bit_and pte pte_syscall) x k h in
    elim (Bool-cases (not (bit_and (bit_and pte pte_syscall) pte_share == 0))) [
      | inl shared ↦ rw shared (rw (fails, ◌>>=◌) refl)
      | inr private ↦
          let read_only : (not (bit_and (bit_and pte pte_syscall) pte_w == 0)
                || not (bit_and (bit_and pte pte_syscall) pte_cow == 0))
              ≡ false =
            ground (arith, page, private) in
          rw private (rw read_only (rw (fails, ◌>>=◌) refl))
    ]
