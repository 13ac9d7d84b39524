-- ===== src/Fs/Opened.antt =====
-- The entry that openfile_alloc of fs/serv.c takes, and the ids that openfile_lookup accepts.
use mit_jos_f22_advanced_os.Base.{
  ℕ, zero, suc, ◌+◌, ◌%◌, ◌^◌, ◌≤◌, ◌<◌, ◌≡◌, refl, ◌∙◌, ◌≢◌, ◌⊎◌, inl, inr, Bool, true, false,
  update, ltb, ◌==◌, if◌then◌else◌, arith, some, none, Bool-cases,
}
use mathlib.Core.Path.{subst}
use mit_jos_f22_advanced_os.Base.Ret.{e_no_mem, e_max_open}
use mit_jos_f22_advanced_os.Fs.Server.{
  Server, openfile_alloc, openfile_lookup, alloc_from, take_entry, failure, share, no_fd,
}

-- The id of an entry names its index.
abbrev pub IsTable : Server → Type 0
IsTable s =
    (i : ℕ) → i < 1024 → ((s.opentab i).o_fileid % 1024 ≡ i) × ((s.opentab i).o_fileid < 2 ^ 32)

abbrev IsBusy : Server → ℕ → Type 0
IsBusy s j = 2 ≤ s.pageref j

-- All the entries from `i` on are in use, or `t` is the first that is not.
abbrev IsScan : Server → ℕ → ℕ → Type 0
IsScan s n i =
    ((j : ℕ) → i ≤ j → j < i + n → IsBusy s j)
    ⊎ ((t : ℕ) × (i ≤ t) × (t < i + n) × (s.pageref t < 2) × ((j : ℕ) → i ≤ j → j < t → IsBusy s j))

scan : (n i : ℕ) (s : Server) → IsScan s n i
scan zero i s = inl (λ j lo hi. absurd (omega (arith, lo, hi)))
scan (suc n) i s = elim (Bool-cases (ltb (s.pageref i) 2)) [
  | inl free ↦
      inr (
        i,
        omega arith,
        omega arith,
        ground (arith, free),
        λ j lo hi. absurd (omega (arith, lo, hi)),
      )
  | inr used ↦
      let busy : 2 ≤ s.pageref i = ground (arith, used) in
      elim (scan n (i + 1) s) [
        | inl all ↦ inl (λ j lo hi. first s i j busy lo (λ more. all j more (omega (arith, hi))))
        | inr (t, lo, hi, free, before) ↦ inr (
          t,
          omega (arith, lo),
          omega (arith, hi),
          free,
          λ j a b. first s i j busy a (λ more. before j more b),
        )
      ]
]
  where
    first : (s : Server) (i j : ℕ) → IsBusy s i → i ≤ j → (i + 1 ≤ j → IsBusy s j) → IsBusy s j
    first s i j busy lo later = elim (Bool-cases (i == j)) [
      | inl same ↦ ground (arith, same, busy)
      | inr other ↦ later (ground (arith, other, lo))
    ]

alloc_from-busy :
    (room : Bool) (n i : ℕ) (s : Server)
    → ((j : ℕ) → i ≤ j → j < i + n → IsBusy s j)
    → alloc_from room n i s ≡ some ((0, failure e_max_open), s)
unfolding alloc_from
alloc_from-busy room zero i s busy = refl
alloc_from-busy room (suc n) i s busy =
    let used = busy i (omega arith) (omega arith) in
    let not_zero : (s.pageref i == 0) ≡ false = ground (arith, used) in
    let not_one : (s.pageref i == 1) ≡ false = ground (arith, used) in
    rw not_zero (
      rw not_one (
        alloc_from-busy room n (i + 1) s
          (λ j lo hi. busy j (omega (arith, lo)) (omega (arith, hi)))))

alloc_from-first :
    (room : Bool) (n i t : ℕ) (s : Server)
    → i ≤ t
    → t < i + n
    → ((j : ℕ) → i ≤ j → j < t → IsBusy s j)
    → s.pageref t < 2
    → alloc_from room n i s ≡ (
        if s.pageref t == 0
        then (if room
            then take_entry t (record s { pageref = update s.pageref t 1 })
            else some ((0, failure e_no_mem), s))
        else take_entry t s)
unfolding alloc_from
alloc_from-first room zero i t s lo hi busy free = absurd (omega (arith, lo, hi))
alloc_from-first room (suc n) i t s lo hi busy free = elim (Bool-cases (i == t)) [
  | inl here ↦
      let e : t ≡ i = ground (arith, here) in
      let free' : s.pageref i < 2 = subst (λ x. s.pageref x < 2) e free in
      rw e (elim (Bool-cases (s.pageref i == 0)) [
        | inl no_page ↦ rw no_page refl
        | inr page ↦
            let one : (s.pageref i == 1) ≡ true = ground (arith, page, free') in
            rw page (rw one refl)
      ])
  | inr later ↦
      let less : i < t = ground (arith, later, lo) in
      let used = busy i (omega arith) less in
      let not_zero : (s.pageref i == 0) ≡ false = ground (arith, used) in
      let not_one : (s.pageref i == 1) ≡ false = ground (arith, used) in
      rw not_zero (
        rw not_one (
          alloc_from-first room n (i + 1) t s (omega (arith, less)) (omega (arith, hi))
            (λ j a b. busy j (omega (arith, a)) b) free))
]

-- Entry `i` was in no client's use; its new id is good and its old one is not, once the client has
-- the page; the other entries are as before.
pub record IsTaken (i id : ℕ) (s s' : Server) : Type 0 where
  pub inside : i < 1024
  pub unused : s.pageref i < 2
  pub mine : s'.pageref i ≡ 1
  pub good : openfile_lookup id (share (some i) s') ≡ some i
  pub stale : openfile_lookup (s.opentab i).o_fileid (share (some i) s') ≡ none
  pub blank : s'.fds i ≡ no_fd
  pub others :
      (j : ℕ)
      → j ≢ i
      → (s'.opentab j ≡ s.opentab j) × (s'.fds j ≡ s.fds j) × (s'.pageref j ≡ s.pageref j)
  pub table : IsTable s'

next_fileid : ℕ → ℕ
next_fileid id = (id + 1024) % 2 ^ 32

self : (i : ℕ) → (i == i) ≡ true
self i = ground arith

fileid_changes : (id : ℕ) → id < 2 ^ 32 → (id + 1024) % 2 ^ 32 ≢ id
fileid_changes id small e = omega (arith, e, small)

take_entry-IsTaken :
    (i : ℕ) (s s₀ : Server)
    → IsTable s
    → i < 1024
    → s.pageref i < 2
    → s₀.pageref i ≡ 1
    → s₀.opentab ≡ s.opentab
    → s₀.fds ≡ s.fds
    → ((j : ℕ) → j ≢ i → s₀.pageref j ≡ s.pageref j)
    → (s' : Server) × (take_entry i s₀ ≡ some ((i, next_fileid (s.opentab i).o_fileid), s'))
      × IsTaken i (next_fileid (s.opentab i).o_fileid) s s'
unfolding take_entry openfile_lookup next_fileid
take_entry-IsTaken i s s₀ table lt unused one tab fds refs =
    let (named, small) = table i lt in
    let id = (s.opentab i).o_fileid in
    let new = (id + 1024) % 2 ^ 32 in
    let same : new % 1024 ≡ i = omega (arith, named, small) in
    let differs : (new == id) ≡ false = ground (arith, fileid_changes id small) in
    let bound : new < 2 ^ 32 = omega arith in
    let s' : Server = record s₀ {
      opentab = update s.opentab i (record (s.opentab i) { o_fileid = new });
      fds = update s.fds i no_fd;
    } in
    (
      s',
      rw tab (rw fds refl),
      record {
        inside = lt;
        unused = unused;
        mine = one;
        good = rw same (rw (self i) (rw one (rw (self new) refl)));
        stale = rw named (rw (self i) (rw one (rw differs refl)));
        blank = ground arith;
        others = λ j ne. (ground (arith, ne), ground (arith, ne), refs j ne);
        table = λ j less.
            (ground (arith, same, (table j less).0), ground (arith, bound, (table j less).1));
      },
    )

-- openfile_alloc on a table whose ids name their indices: with every entry in a client's use it
-- fails with -E_MAX_OPEN; if the first entry out of use, before which all are in use, needs a page
-- and there is none, it fails with -E_NO_MEM; otherwise it takes the first such entry, whose new id openfile_lookup accepts and whose old
-- id it refuses once the client has the page, and leaves all other entries as they were.
pub openfile_alloc_lem :
    (room : Bool) (s : Server)
    → IsTable s
    → (((j : ℕ) → j < 1024 → 2 ≤ s.pageref j)
        × (openfile_alloc room s ≡ some ((0, failure e_max_open), s)))
      ⊎ (((i : ℕ) × (i < 1024)
            × (s.pageref i ≡ 0)
            × ((j : ℕ) → j < i → 2 ≤ s.pageref j)
            × (room ≡ false)
            × (openfile_alloc room s ≡ some ((0, failure e_no_mem), s)))
          ⊎ ((i : ℕ) × (id : ℕ) × (s' : Server) × (openfile_alloc room s ≡ some ((i, id), s'))
              × ((j : ℕ) → j < i → 2 ≤ s.pageref j)
              × IsTaken i id s s'))
unfolding openfile_alloc
openfile_alloc_lem room s table = elim (scan 1024 0 s) [
  | inl busy ↦
      inl ((λ j lt. busy j (omega arith) (omega (arith, lt))), alloc_from-busy room 1024 0 s busy)
  | inr (t, lo, hi, free, before) ↦
      let lt : t < 1024 = omega (arith, hi) in
      let first = λ (j : ℕ) (b : j < t). before j (omega arith) b in
      let run = alloc_from-first room 1024 0 t s lo hi before free in
      inr (elim (Bool-cases (s.pageref t == 0)) [
        | inl no_page ↦
            let zeroth : s.pageref t ≡ 0 = ground (arith, no_page) in
            elim (Bool-cases room) [
              | inl yes_room ↦
                  let s₀ = record s { pageref = update s.pageref t 1 } in
                  let (s', e, taken) =
                    take_entry-IsTaken t s s₀ table lt free (ground arith) refl refl
                      (λ j ne. ground (arith, ne)) in
                  inr (
                    t,
                    next_fileid (s.opentab t).o_fileid,
                    s',
                    run ∙ rw no_page (rw yes_room e),
                    first,
                    taken,
                  )
              | inr no_room ↦
                  inl (t, lt, zeroth, first, no_room, run ∙ rw no_page (rw no_room refl))
            ]
        | inr page ↦
            let one : s.pageref t ≡ 1 = ground (arith, page, free) in
            let (s', e, taken) =
              take_entry-IsTaken t s s table lt free one refl refl (λ j ne. refl) in
            inr (t, next_fileid (s.opentab t).o_fileid, s', run ∙ rw page e, first, taken)
      ])
]
