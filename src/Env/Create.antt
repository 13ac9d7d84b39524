-- ===== src/Env/Create.antt =====
-- What env_init and env_alloc of kern/env.c leave behind.
use mit_jos_f22_advanced_os.Base.{
  ℕ, zero, suc, ◌+◌, ◌-◌, ◌*◌, ◌/◌, ◌^◌, ◌<◌, ◌≡◌, refl, ◌≢◌, Bool, true, false, Option, none, some,
  List, [], ◌∷◌, arith, update, ◌==◌, if◌then◌else◌, ◌∙◌, sym, ap, bit_or, ==_ne,
}
use mathlib.Core.Path.{subst}
use mit_jos_f22_advanced_os.Base.Words.{bit_or_low}
use mit_jos_f22_advanced_os.Base.Ret.{Ret, ok, err, e_bad_env, e_no_mem, e_no_free_env, ◌>>=◌}
use mit_jos_f22_advanced_os.Pmap.Mem.{Machine, page2pa}
use mit_jos_f22_advanced_os.Pmap.FreeList.{
  IsFreeList, alloced, page_alloc-cons, page_alloc-nil, alloced-IsFreeList, page2kva_lem,
}
use mit_jos_f22_advanced_os.Pmap.Walk.{incref}
use mit_jos_f22_advanced_os.Pmap.Mapping.{referenced, referenced-IsFreeList, set_entry}
use mit_jos_f22_advanced_os.Pmap.Table.{bit_or-page}
use mit_jos_f22_advanced_os.Env.State.{env_free, env_runnable, Env, Kernel, nenv, envx}
use mit_jos_f22_advanced_os.Env.Alloc.{
  init_step, init_loop, env_init, env_setup_vm, fresh, env_alloc, envid2env, user_frame,
}
use mit_jos_f22_advanced_os.Env.Ids.{IsFresh, next_id_lem}

-- A free slot with its link.
pub record IsBlank (v : Env) (link : Option ℕ) : Type 0 where
  pub id : v.env_id ≡ 0
  pub status : v.env_status ≡ env_free
  pub next : v.env_link ≡ link

-- After the rounds below `i`: the slots are linked in order, and `last` is the one before `i`.
record IsLinked (i : ℕ) (s : (ℕ → Env) × Option ℕ) : Type 0 where
  last : s.1 ≡ (if i == 0 then none else some (i - 1))
  slots : (j : ℕ) → j < i → IsBlank (s.0 j) (if j + 1 == i then none else some (j + 1))

init_step-IsLinked :
    (i : ℕ) (envs : ℕ → Env) (last : Option ℕ)
    → IsLinked i (envs, last)
    → IsLinked (i + 1) (init_step i (envs, last))
init_step-IsLinked i envs none l = record {
  last = ground (arith, l.last);
  slots = λ j h. record {
    id = ground (arith, l.last);
    status = ground (arith, l.last);
    next = ground (arith, l.last);
  };
}
init_step-IsLinked i envs (some p) l =
    let q : (i ≡ p + 1) = ground (arith, l.last) in
    record {
      last = ground arith;
      slots = λ j h. record {
        id = ground (arith, (l.slots j));
        status = ground (arith, l.slots j);
        next = ground (arith, l.slots j);
      };
    }

init_loop-IsLinked :
    (n i k : ℕ) (s : (ℕ → Env) × Option ℕ) → i + n ≡ k → IsLinked i s → IsLinked k (init_loop n i s)
unfolding init_loop
init_loop-IsLinked zero i k s e l = let e' : i ≡ k = omega arith in rw (← e') l
init_loop-IsLinked (suc n) i k s e l =
    init_loop-IsLinked n (i + 1) k (init_step i s) (omega arith) (init_step-IsLinked i s.0 s.1 l)

-- env_init marks every slot as free with identifier 0 and puts them all on the free list in the
-- order of the array: slot 0 is the head, each slot links to the next one, the last to none.
pub env_init_lem :
    (k : Kernel)
    → ((env_init k).env_free_list ≡ some 0)
      × ((j : ℕ)
          → j < nenv
          → IsBlank ((env_init k).envs j) (if j + 1 == nenv then none else some (j + 1)))
unfolding env_init
env_init_lem k = (
  refl,
  (init_loop-IsLinked nenv 0 nenv (k.envs, none) refl
      (record { last = refl; slots = λ j h. absurd (omega arith) })).slots,
)

-- The memory after env_setup_vm has made page `p` the top-level table of an environment.
abbrev pub set_up : ℕ → ℕ → Machine → Machine
set_up boot p m =
    set_entry (p, 2) (bit_or (bit_or (page2pa p) 1) 4)
      (set_entry (p, 1) ((alloced true p m).word boot 1) (referenced p (alloced true p m)))

env_setup_vm-eq :
    (e p : ℕ) (ps : List ℕ) (k : Kernel)
    → IsFreeList k.mem (p ∷ ps)
    → env_setup_vm e k
      ≡ some (
        ok tt,
        record k {
          mem = set_up k.boot_pml4e p k.mem;
          envs = update k.envs e (record (k.envs e) { env_pml4e = p; env_cr3 = page2pa p });
        },
      )
unfolding env_setup_vm incref
env_setup_vm-eq e p ps k v =
    let kva = page2kva_lem (alloced true p k.mem) p v.chain.1 v.few in
    let q : p * 4096 / 4096 ≡ p = omega arith in
    rw (page_alloc-cons true k.mem p ps v, env_setup_vm) (rw (kva, ◌>>=◌) (rw q))

set_up-IsFreeList :
    (boot p : ℕ) (ps : List ℕ) (m : Machine)
    → IsFreeList m (p ∷ ps)
    → IsFreeList (set_up boot p m) ps
set_up-IsFreeList boot p ps m v =
    let w = alloced-IsFreeList true m p ps v in
    let r = referenced-IsFreeList (alloced true p m) p ps w v.chain.3 in
    record { chain = r.chain; unlinked = r.unlinked; few = r.few }

-- env_alloc with a free slot `e` and a free page `p` returns `e`. The slot then has an identifier
-- that is positive as an `int32_t`, has index `e` and is not the one it had before, the given parent, status ENV_RUNNABLE, the initial user frame and top-level table
-- `p`; it has left the free list, and no other slot changes. Table `p` has one reference, shares
-- the kernel's entry 1, maps itself at entry 2 (UVPT) for the user to read, and is empty elsewhere.
pub env_alloc_lem :
    (parent_id e p : ℕ) (ps : List ℕ) (k : Kernel)
    → k.env_free_list ≡ some e
    → IsFreeList k.mem (p ∷ ps)
    → k.boot_pml4e ≢ p
    → e < nenv
    → (k.envs e).env_id < 2 ^ 31
    → (k' : Kernel) × (env_alloc parent_id k ≡ some (ok e, k'))
      × IsFresh (k.envs e).env_id e (k'.envs e).env_id
      × ((k'.envs e).env_parent_id ≡ parent_id)
      × ((k'.envs e).env_status ≡ env_runnable)
      × ((k'.envs e).env_tf ≡ user_frame)
      × ((k'.envs e).env_pml4e ≡ p)
      × (k'.env_free_list ≡ (k.envs e).env_link)
      × ((j : ℕ) → j ≢ e → k'.envs j ≡ k.envs j)
      × IsFreeList k'.mem ps
      × ((k'.mem.pages p).pp_ref ≡ 1)
      × (k'.mem.word p 1 ≡ k.mem.word k.boot_pml4e 1)
      × (k'.mem.word p 2 ≡ p * 4096 + 5)
      × ((i : ℕ) → i ≢ 1 → i ≢ 2 → k'.mem.word p i ≡ 0)
unfolding env_alloc
env_alloc_lem parent_id e p ps k head v ne lt old_small =
    let m = set_up k.boot_pml4e p k.mem in
    let v₁ = record (k.envs e) { env_pml4e = p; env_cr3 = page2pa p } in
    let k₁ = record k { mem = m; envs = update k.envs e v₁ } in
    let small : p < 2 ^ 32 = omega (arith, v.chain.1, v.few) in
    let self : bit_or (bit_or (page2pa p) 1) 4 ≡ p * 4096 + 5 =
      rw (bit_or-page p 1 small (omega arith)) (bit_or_low 12 p 1 4 (omega arith) (omega arith)) in
    (
      record k₁ {
        envs = update k₁.envs e (fresh e parent_id (k₁.envs e));
        env_free_list = (k₁.envs e).env_link;
      },
      rw (head, env_alloc) (rw (env_setup_vm-eq e p ps k v, env_alloc)),
      subst (IsFresh (k.envs e).env_id e) (ground arith)
          (next_id_lem (k.envs e).env_id e old_small lt),
      ground arith,
      ground arith,
      ground arith,
      ground arith,
      ground arith,
      (λ j h. ground arith),
      set_up-IsFreeList k.boot_pml4e p ps k.mem v,
      ground (arith, v.chain.2),
      ground arith,
      ground (arith, self),
      (λ i h h'. ground arith),
    )

env_setup_vm-no_mem :
    (e : ℕ) (k : Kernel) → IsFreeList k.mem [] → env_setup_vm e k ≡ some (err e_no_mem, k)
unfolding env_setup_vm
env_setup_vm-no_mem e k v = rw (page_alloc-nil true k.mem v, env_setup_vm)

-- env_alloc with no free slot returns -E_NO_FREE_ENV; with a free slot and no free page it returns
-- -E_NO_MEM. In both cases it changes nothing.
pub env_alloc-fails :
    (parent_id : ℕ) (k : Kernel)
    → (k.env_free_list ≡ none → env_alloc parent_id k ≡ some (err e_no_free_env, k))
      × ((e : ℕ)
          → k.env_free_list ≡ some e
          → IsFreeList k.mem []
          → env_alloc parent_id k ≡ some (err e_no_mem, k))
unfolding env_alloc
env_alloc-fails parent_id k =
    (λ h. ground arith, λ e h v. ground (arith, env_setup_vm-no_mem e k v))

-- Once env_alloc has given slot `e` out again, envid2env refuses the identifier that the slot had
-- before, whoever asks and with permissions checked or not.
pub env_alloc-stale :
    (parent_id e p cur : ℕ) (ps : List ℕ) (k k' : Kernel) (checkperm : Bool)
    → k.env_free_list ≡ some e
    → IsFreeList k.mem (p ∷ ps)
    → k.boot_pml4e ≢ p
    → e < nenv
    → 0 < (k.envs e).env_id
    → (k.envs e).env_id < 2 ^ 31
    → envx (k.envs e).env_id ≡ e
    → env_alloc parent_id k ≡ some (ok e, k')
    → envid2env cur (k.envs e).env_id checkperm k' ≡ err e_bad_env
unfolding envid2env
env_alloc-stale parent_id e p cur ps k k' checkperm head v ne lt pos small slot run =
    let (k₂, eq, id, rest) = env_alloc_lem' in
    let old = (k.envs e).env_id in
    let same : k₂ ≡ k' = ap result (sym eq ∙ run) in
    let new : (k'.envs e).env_id ≢ old = rw same at id.3 in
    let a : (old == 0) ≡ false = ==_ne old 0 (omega arith) in
    let b : ((k'.envs e).env_id == old) ≡ false = ==_ne _ _ new in
    rw a (rw slot (rw b (ground arith)))
  where
    result : Option (Ret ℕ × Kernel) → Kernel
    result none = k
    result (some (r, n)) = n

    env_alloc_lem' :
        (k₂ : Kernel) × (env_alloc parent_id k ≡ some (ok e, k₂))
        × IsFresh (k.envs e).env_id e (k₂.envs e).env_id
        × Unit {0}
    env_alloc_lem' =
        let all = env_alloc_lem parent_id e p ps k head v ne lt small in (all.0, all.1, all.2, tt)
