-- ===== src/Fs/Server.antt =====
-- The table of open files and the handlers of fs/serv.c.
--
-- The `struct Fd` page of an entry is given by the entry's index, with what pageref counts for it: the
-- environments that have the page mapped, the server included. An `int` result is its 32-bit pattern.
-- `room` says whether sys_page_alloc gets a page. A file's NULL pointer is `none`, and following it,
-- a page fault of the server, is a panic.
use mit_jos_f22_advanced_os.Base.{
  ℕ, zero, suc, ◌+◌, ◌-◌, ◌%◌, ◌^◌, Bool, false, ◌||◌, not, List, [], ◌∷◌, Option, none, some, ltb,
  leb, ◌==◌, if◌then◌else◌, update, length, bit_and,
}
use mit_jos_f22_advanced_os.Base.Ret.{
  M, pure, ◌>>=◌, ◌>>◌, Ret, ok, err, Error, code, e_inval, e_no_mem, e_max_open, e_file_exists,
}
use mit_jos_f22_advanced_os.Fs.Disk.{Disk, Place, load, diskaddr, s_nblocks, f_size, file_set_size}
use mit_jos_f22_advanced_os.Fs.Content.{file_read, file_write, min}
use mit_jos_f22_advanced_os.Fs.Dir.{f_type, ftype_dir}
use mit_jos_f22_advanced_os.Fs.Files.{file_create, file_open, file_flush, file_remove}

pub record Fd : Type 0 where
  pub fd_dev_id : ℕ
  pub fd_offset : ℕ
  pub fd_omode : ℕ
  pub fd_file : ℕ

pub record OpenFile : Type 0 where
  pub o_fileid : ℕ
  pub o_file : Option Place
  pub o_mode : ℕ

pub record Server : Type 0 where
  pub disk : Disk
  pub opentab : ℕ → OpenFile
  pub fds : ℕ → Fd
  pub pageref : ℕ → ℕ

abbrev pub maxopen : ℕ
maxopen = 1024

abbrev pub on_disk : {A : Type 0} → M Disk A → M Server A
on_disk f s = elim (f s.disk) [ none ↦ none | some (a, d) ↦ some (a, record s { disk = d }) ]

-- -E as an `int`
abbrev pub failure : Error → ℕ
failure x = 2 ^ 32 - code x

abbrev pub is_negative : ℕ → Bool
is_negative r = leb (2 ^ 31) r

abbrev pub no_fd : Fd
no_fd = record { fd_dev_id = 0; fd_offset = 0; fd_omode = 0; fd_file = 0 }

unfoldable pub serve_init : Server → Server
serve_init s = record s {
  opentab = λ i. if ltb i maxopen then record (s.opentab i) { o_fileid = i } else s.opentab i;
}

-- The entry is taken: its id goes up and its page is cleared. The result is the index and the id.
unfoldable pub take_entry : ℕ → M Server (ℕ × ℕ)
take_entry i s =
    let id = ((s.opentab i).o_fileid + maxopen) % 2 ^ 32 in
    some (
      (i, id),
      record s {
        opentab = update s.opentab i (record (s.opentab i) { o_fileid = id });
        fds = update s.fds i no_fd;
      },
    )

-- `n` rounds of the loop of openfile_alloc, from entry `i` on; without an entry the index is 0.
unfoldable pub alloc_from : Bool → ℕ → ℕ → M Server (ℕ × ℕ)
alloc_from room zero i s = some ((0, failure e_max_open), s)
alloc_from room (suc n) i s =
    let rest = alloc_from room n (i + 1) s in
    if s.pageref i == 0
    then (if room
        then take_entry i (record s { pageref = update s.pageref i 1 })
        else some ((0, failure e_no_mem), s))
    else if s.pageref i == 1
    then take_entry i s
    else rest

unfoldable pub openfile_alloc : Bool → M Server (ℕ × ℕ)
openfile_alloc room = alloc_from room maxopen 0

unfoldable pub openfile_lookup : ℕ → Server → Option ℕ
openfile_lookup fileid s =
    let i = fileid % maxopen in
    if (s.pageref i == 1) || not ((s.opentab i).o_fileid == fileid) then none else some i

abbrev pub has_bit : ℕ → ℕ → Bool
has_bit mode b = not (bit_and mode b == 0)

abbrev pub o_creat : ℕ
o_creat = 0x100

abbrev pub o_trunc : ℕ
o_trunc = 0x200

abbrev pub o_excl : ℕ
o_excl = 0x400

-- The file to open, which O_CREAT makes.
unfoldable pub find_file : List ℕ → ℕ → M Disk (Ret Place)
find_file path mode = if not (has_bit mode o_creat) then file_open path else (do
  r ← file_create path
  elim r [
    | ok f ↦ pure (ok f)
    | err e_file_exists ↦ if has_bit mode o_excl then pure (err e_file_exists) else file_open path
    | err x ↦ pure (err x)
  ])

unfoldable pub truncate : ℕ → Ret Place → M Disk (Ret Place)
truncate mode (err x) = pure (err x)
truncate mode (ok f) = do if has_bit mode o_trunc then file_set_size f 0 else pure tt; pure (ok f)

-- The entry and its page for the file `f`; 'f' is devfile.dev_id.
unfoldable pub fill_entry : ℕ → Place → ℕ → Server → Server
fill_entry i f mode s =
    let id = (s.opentab i).o_fileid in
    record s {
      opentab = update s.opentab i (record { o_fileid = id; o_file = some f; o_mode = mode });
      fds =
          update s.fds i (record (s.fds i) { fd_dev_id = b'f'; fd_omode = mode % 4; fd_file = id });
    }

abbrev pub clip : ℕ → List ℕ → List ℕ
clip zero s = []
clip (suc n) [] = []
clip (suc n) (c ∷ s) = c ∷ clip n s

-- The result, and the index of the entry whose page goes to the client.
unfoldable pub serve_open : Bool → List ℕ → ℕ → M Server (ℕ × Option ℕ)
unfolding find_file truncate
serve_open room path mode = do
  (i, r) ← openfile_alloc room
  if is_negative r then pure (r, none) else (do
    f ← on_disk (find_file (clip 1023 path) mode >>= truncate mode)
    elim f [
      | err x ↦ pure (failure x, none)
      | ok g ↦ λ s. some ((0, some i), fill_entry i g mode s)
    ])

-- openfile_lookup, and the rest of the handler on the entry's index and file.
unfoldable pub with_file : {A : Type 0} → ℕ → (ℕ → A) → (ℕ → Place → M Server A) → M Server A
with_file fileid fail use_file s = elim (openfile_lookup fileid s) [
  | none ↦ some (fail (failure e_inval), s)
  | some i ↦ elim ((s.opentab i).o_file) [ none ↦ none | some f ↦ use_file i f s ]
]

-- o->o_fd->fd_offset += r
abbrev pub advance : ℕ → ℕ → Server → Server
advance i r s =
    let fd = s.fds i in
    record s { fds = update s.fds i (record fd { fd_offset = (fd.fd_offset + r) % 2 ^ 32 }) }

unfoldable pub serve_set_size : ℕ → ℕ → M Server ℕ
unfolding with_file
serve_set_size fileid size =
    with_file fileid (λ r. r) (λ i f. on_disk (file_set_size f size) >> pure 0)

-- The result and the bytes of ret_buf.
unfoldable pub serve_read : ℕ → ℕ → M Server (ℕ × List ℕ)
unfolding with_file
serve_read fileid n =
    with_file fileid (λ r. (r, []))
      (λ i f s.
        (do
          r ← on_disk (file_read f (min n 4096) (s.fds i).fd_offset)
          elim r [
            | err x ↦ pure (failure x, [])
            | ok buf ↦ λ t. some ((length buf, buf), advance i (length buf) t)
          ])
          s)

unfoldable pub serve_write : ℕ → List ℕ → M Server ℕ
unfolding with_file
serve_write fileid buf =
    with_file fileid (λ r. r)
      (λ i f s.
        (do
          r ← on_disk (file_write f (clip 4096 buf) (s.fds i).fd_offset)
          elim r [ err x ↦ pure (failure x) | ok n ↦ λ t. some (n, advance i n t) ])
          s)

-- The result and ret_size and ret_isdir; ret_name is a copy of f_name.
unfoldable pub serve_stat : ℕ → M Server (ℕ × ℕ × Bool)
unfolding with_file
serve_stat fileid =
    with_file fileid (λ r. (r, 0, false))
      (λ i f.
        on_disk
          (do size ← load (f_size f); type ← load (f_type f); pure (0, size, type == ftype_dir)))

unfoldable pub serve_flush : ℕ → M Server ℕ
unfolding with_file
serve_flush fileid = with_file fileid (λ r. r) (λ i f. on_disk (file_flush f) >> pure 0)

unfoldable pub serve_remove : List ℕ → M Server ℕ
serve_remove path = do
  r ← on_disk (file_remove (clip 1023 path))
  pure (elim r [ err x ↦ failure x | ok _ ↦ 0 ])

-- `n` rounds of the loop of fs_sync.
unfoldable pub sync_from : ℕ → ℕ → M Disk (Unit {0})
sync_from zero i = pure tt
sync_from (suc n) i = do b ← diskaddr i; sync_from n (i + 1)

unfoldable pub fs_sync : M Disk (Unit {0})
unfolding sync_from
fs_sync d = sync_from (s_nblocks d - 1) 1 d

-- ipc_send of the page of entry `i` to a client that does not have it yet.
abbrev pub share : Option ℕ → Server → Server
share none s = s
share (some i) s = record s { pageref = update s.pageref i (s.pageref i + 1) }
