-- ===== src/Fd/Table.antt =====
-- The descriptors of lib/fd.c, for any three devices.
--
-- A `struct Fd *` is its descriptor number: INDEX2FD is one-to-one below MAXFD. What a page holds is
-- kept by the physical page, since dup maps one page twice. Numbers are `int`s as 32-bit patterns;
-- the arguments `fd_room` and `data_room` say whether sys_page_map finds memory for a page table.
use mit_jos_f22_advanced_os.Base.{
  ℕ, zero, suc, ◌+◌, ◌%◌, Bool, true, false, ◌&&◌, not, List, [], ◌∷◌, Option, none, some, leb,
  ◌==◌, if◌then◌else◌, update,
}
use mit_jos_f22_advanced_os.Base.Ret.{
  M, pure, ◌>>=◌, Ret, ok, err, e_inval, e_no_mem, e_max_open, e_not_supp,
}

pub record Fd : Type 0 where
  pub fd_dev_id : ℕ
  pub fd_offset : ℕ
  pub fd_omode : ℕ

-- The physical pages behind the descriptors and behind their data, and the contents by page.
pub record Table : Type 0 where
  pub fd_page : ℕ → Option ℕ
  pub data_page : ℕ → Option ℕ
  pub content : ℕ → Fd

-- `struct Dev`, whose functions get the number of the descriptor; NULL is none.
pub record Dev : Type 0 where
  pub dev_id : ℕ
  pub dev_read : Option (ℕ → ℕ → M Table (Ret (List ℕ)))
  pub dev_write : Option (ℕ → List ℕ → M Table (Ret ℕ))
  pub dev_close : Option (ℕ → M Table (Ret ℕ))
  pub dev_trunc : Option (ℕ → ℕ → M Table (Ret ℕ))

abbrev pub maxfd : ℕ
maxfd = 32

abbrev pub is_mapped : Option ℕ → Bool
is_mapped none = false
is_mapped (some p) = true

-- `n` rounds of the loop of fd_alloc, from descriptor `i` on.
unfoldable pub alloc_from : ℕ → ℕ → Table → Ret ℕ
alloc_from zero i t = err e_max_open
alloc_from (suc n) i t =
    let rest = alloc_from n (i + 1) t in if not (is_mapped (t.fd_page i)) then ok i else rest

unfoldable pub fd_alloc : Table → Ret ℕ
unfolding alloc_from
fd_alloc = alloc_from maxfd 0

-- The descriptor and the page that holds it.
unfoldable pub fd_lookup : ℕ → Table → Ret (ℕ × ℕ)
fd_lookup fdnum t =
    if leb maxfd fdnum
    then err e_inval
    else elim (t.fd_page fdnum) [ none ↦ err e_inval | some p ↦ ok (fdnum, p) ]

unfoldable pub dev_lookup : List Dev → ℕ → Ret Dev
dev_lookup [] id = err e_inval
dev_lookup (d ∷ ds) id = let rest = dev_lookup ds id in if d.dev_id == id then ok d else rest

-- sys_page_unmap(0, fd)
abbrev pub unmap : ℕ → Table → Table
unmap i t = record t { fd_page = update t.fd_page i none }

-- sys_page_unmap(0, fd2data(fd))
abbrev pub unmap_data : ℕ → Table → Table
unmap_data i t = record t { data_page = update t.data_page i none }

-- From `nva` on; a descriptor that is not mapped any more, which is one that was closed just
-- before, is outside the model.
unfoldable pub map_both : Bool → Bool → ℕ → ℕ → M Table (Ret ℕ)
map_both fd_room data_room old new t = elim (t.fd_page old) [
  | none ↦ none
  | some p ↦
      if is_mapped (t.data_page old) && not data_room
      then some (err e_no_mem, unmap_data new (unmap new t))
      else (let u =
            if is_mapped (t.data_page old)
            then record t { data_page = update t.data_page new (t.data_page old) }
            else t in
          if not fd_room
          then some (err e_no_mem, unmap_data new (unmap new u))
          else some (ok new, record u { fd_page = update u.fd_page new (some p) }))
]

module _ (devtab : List Dev) where
  -- The device's part of fd_close.
  unfoldable pub close_dev : ℕ → ℕ → M Table (Ret ℕ)
  close_dev i p t = elim (dev_lookup devtab (t.content p).fd_dev_id) [
    | err x ↦ some (err x, t)
    | ok d ↦ elim d.dev_close [ none ↦ some (ok 0, t) | some f ↦ f i t ]
  ]

  unfoldable pub fd_close : ℕ → Bool → M Table (Ret ℕ)
  unfolding close_dev
  fd_close i must_exist t = elim (fd_lookup i t) [
    | err x ↦ some (if must_exist then err x else ok 0, t)
    | ok (_, p) ↦ (do r ← close_dev i p; λ u. some (r, unmap i u)) t
  ]

  unfoldable pub close : ℕ → M Table (Ret ℕ)
  unfolding fd_close
  close fdnum t = elim (fd_lookup fdnum t) [
    | err x ↦ some (err x, t)
    | ok (i, _) ↦ fd_close i true t
  ]

  unfoldable pub close_from : ℕ → ℕ → M Table (Unit {0})
  close_from zero i = pure tt
  close_from (suc n) i = do r ← close i; close_from n (i + 1)

  unfoldable pub close_all : M Table (Unit {0})
  unfolding close_from
  close_all = close_from maxfd 0

  -- dup, for a new number below MAXFD.
  unfoldable pub dup : Bool → Bool → ℕ → ℕ → M Table (Ret ℕ)
  unfolding map_both
  dup fd_room data_room old new t = elim (fd_lookup old t) [
    | err x ↦ some (err x, t)
    | ok (i, _) ↦ (do r ← close new; map_both fd_room data_room i new) t
  ]

  -- fd_lookup and dev_lookup, and the rest of the function on the descriptor, its page and the device.
  unfoldable pub with_dev : {A : Type 0} → ℕ → (ℕ → Fd → Dev → M Table (Ret A)) → M Table (Ret A)
  with_dev fdnum f t = elim (fd_lookup fdnum t) [
    | err x ↦ some (err x, t)
    | ok (i, p) ↦ elim (dev_lookup devtab (t.content p).fd_dev_id) [
      | err x ↦ some (err x, t)
      | ok d ↦ f i (t.content p) d t
    ]
  ]

  -- The bytes read.
  unfoldable pub read : ℕ → ℕ → M Table (Ret (List ℕ))
  unfolding with_dev
  read fdnum n = with_dev fdnum (λ i fd d.
      if fd.fd_omode % 4 == 1
      then pure (err e_inval)
      else elim d.dev_read [ none ↦ pure (err e_not_supp) | some f ↦ f i n ])

  unfoldable pub write : ℕ → List ℕ → M Table (Ret ℕ)
  unfolding with_dev
  write fdnum buf = with_dev fdnum (λ i fd d.
      if fd.fd_omode % 4 == 0
      then pure (err e_inval)
      else elim d.dev_write [ none ↦ pure (err e_not_supp) | some f ↦ f i buf ])

  unfoldable pub ftruncate : ℕ → ℕ → M Table (Ret ℕ)
  unfolding with_dev
  ftruncate fdnum size = with_dev fdnum (λ i fd d.
      if fd.fd_omode % 4 == 0
      then pure (err e_inval)
      else elim d.dev_trunc [ none ↦ pure (err e_not_supp) | some f ↦ f i size ])

unfoldable pub seek : ℕ → ℕ → M Table (Ret ℕ)
seek fdnum offset t = elim (fd_lookup fdnum t) [
  | err x ↦ some (err x, t)
  | ok (_, p) ↦ some (
    ok 0,
    record t { content = update t.content p (record (t.content p) { fd_offset = offset }) },
  )
]
