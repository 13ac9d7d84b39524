-- ===== src/Fs/Requests.antt =====
-- The requests of serve in fs/serv.c, and the client's side of them in lib/file.c.
--
-- A message of a client and the server's answer are one step here; Syscall/Ipc.antt is about the
-- messages. An `int` result is its 32-bit pattern.
use mit_jos_f22_advanced_os.Base.{
  ℕ, ◌-◌, Bool, true, false, List, [], ◌++◌, Option, none, some, leb, if◌then◌else◌, length,
}
use mit_jos_f22_advanced_os.Base.Ret.{M, pure, panic, ◌>>=◌, ◌>>◌, e_inval, e_bad_path}
use mit_jos_f22_advanced_os.Fs.Content.{bytes_at}
use mit_jos_f22_advanced_os.Fs.Server.{
  Server, failure, is_negative, serve_open, serve_set_size, serve_read, serve_write, serve_stat,
  serve_flush, serve_remove, clip, fs_sync, share, on_disk,
}

-- The request codes FSREQ_OPEN to FSREQ_SYNC with their arguments in `union Fsipc`, and any other
-- code.
pub data Request : Type 0 where
  open_path : List ℕ → ℕ → Request
  set_size : ℕ → ℕ → Request
  read_bytes : ℕ → ℕ → Request
  write_bytes : ℕ → List ℕ → Request
  stat_file : ℕ → Request
  flush : ℕ → Request
  remove_path : List ℕ → Request
  sync_all : Request
  unknown : ℕ → Request

-- What the server answers, with what it leaves in `union Fsipc` for a read or a stat.
pub record Answer : Type 0 where
  pub result : ℕ
  pub page : Option ℕ
  pub ret_buf : List ℕ
  pub ret_size : ℕ
  pub ret_isdir : Bool

abbrev pub answer : ℕ → Answer
answer r = record { result = r; page = none; ret_buf = []; ret_size = 0; ret_isdir = false }

-- A round of serve for a request with an argument page.
unfoldable pub serve : Bool → Request → M Server Answer
serve room (open_path path mode) = do
  (r, pg) ← serve_open room path mode
  (λ s. some (tt, share pg s))
  pure (record (answer r) { page = pg })
serve room (set_size id size) = do r ← serve_set_size id size; pure (answer r)
serve room (read_bytes id n) = do
  (r, buf) ← serve_read id n
  pure (record (answer r) { ret_buf = buf })
serve room (write_bytes id buf) = do r ← serve_write id buf; pure (answer r)
serve room (stat_file id) = do
  (r, size, isdir) ← serve_stat id
  pure (record (answer r) { ret_size = size; ret_isdir = isdir })
serve room (flush id) = do r ← serve_flush id; pure (answer r)
serve room (remove_path path) = do r ← serve_remove path; pure (answer r)
serve room sync_all = do on_disk fs_sync; pure (answer 0)
serve room (unknown req) = pure (answer (failure e_inval))

-- fsipc
abbrev pub fsipc : Bool → Request → M Server Answer
fsipc room req = serve room req

-- assert
abbrev pub assert : Bool → M Server (Unit {0})
assert true = pure tt
assert false = panic

-- The bytes that are moved to the caller's buffer, or a negative result.
unfoldable pub devfile_read : Bool → ℕ → ℕ → M Server (ℕ × List ℕ)
unfolding serve
devfile_read room fileid n = do
  a ← fsipc room (read_bytes fileid n)
  elim (is_negative a.result) [
    | true ↦ pure (a.result, [])
    | false ↦ (do assert (leb a.result n); assert (leb a.result 4096); pure (a.result, a.ret_buf))
  ]

-- The bytes that the server finds for a write. `req_buf` starts at offset 16 of the page, behind 4
-- bytes of padding, and so only its first 4080 bytes are in the page that is sent; behind the page at
-- 0x0ffff000 the server has block 0 of the disk.
abbrev pub arrived : List ℕ → Server → List ℕ
arrived buf s =
    if leb (length buf) 4080 then buf else clip 4080 buf ++ bytes_at (length buf - 4080) 0 0 s.disk

-- The buffer `buf` has the `n` bytes of the call.
unfoldable pub devfile_write : Bool → ℕ → List ℕ → M Server ℕ
unfolding serve
devfile_write room fileid buf = do
  assert (leb (length buf) (4096 - 12))
  a ← (λ s. fsipc room (write_bytes fileid (arrived buf s)) s)
  if is_negative a.result
      then pure a.result
      else (do assert (leb a.result (length buf)); pure a.result)

-- The result, st_size and st_isdir; the name is left out.
unfoldable pub devfile_stat : Bool → ℕ → M Server (ℕ × ℕ × Bool)
unfolding serve
devfile_stat room fileid = do
  a ← fsipc room (stat_file fileid)
  if is_negative a.result then pure (a.result, 0, false) else pure (0, a.ret_size, a.ret_isdir)

unfoldable pub devfile_trunc : Bool → ℕ → ℕ → M Server ℕ
unfolding serve
devfile_trunc room fileid newsize = do a ← fsipc room (set_size fileid newsize); pure a.result

unfoldable pub devfile_flush : Bool → ℕ → M Server ℕ
unfolding serve
devfile_flush room fileid = do a ← fsipc room (flush fileid); pure a.result

-- remove and sync; MAXPATHLEN is 1024.
unfoldable pub remove : Bool → List ℕ → M Server ℕ
unfolding serve
remove room path =
    if leb 1024 (length path)
    then pure (failure e_bad_path)
    else (do a ← fsipc room (remove_path path); pure a.result)

unfoldable pub sync : Bool → M Server ℕ
unfolding serve
sync room = do a ← fsipc room sync_all; pure a.result
