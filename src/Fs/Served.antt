-- ===== src/Fs/Served.antt =====
-- openfile_alloc and openfile_lookup, and serve_write and serve_read, of fs/serv.c.
use mit_jos_f22_advanced_os.Base.{
  ℕ, zero, suc, ◌+◌, ◌*◌, ◌%◌, ◌^◌, ◌≤◌, ◌<◌, ◌≡◌, refl, ap, ◌∙◌, List, [], ◌∷◌, update, arith,
  some, length, All,
}
use mit_jos_f22_advanced_os.Base.Ret.{◌>>=◌, ok}
use mit_jos_f22_advanced_os.Fs.Disk.{Disk, Place}
use mit_jos_f22_advanced_os.Fs.Content.{file_read, file_write, min}
use mit_jos_f22_advanced_os.Fs.Loops.{IsLaid}
use mit_jos_f22_advanced_os.Fs.Stored.{file_write-file_read}
use mit_jos_f22_advanced_os.Fs.Server.{
  Fd, Server, openfile_lookup, serve_read, serve_write, with_file, clip, advance,
}

clip_all : (n : ℕ) (s : List ℕ) → length s ≤ n → clip n s ≡ s
clip_all zero [] h = refl
clip_all zero (c ∷ s) h = absurd (omega (arith, h))
clip_all (suc n) [] h = refl
clip_all (suc n) (c ∷ s) h = ap (λ t. c ∷ t) (clip_all n s (omega (arith, h)))

-- seek to `offset`
abbrev pub sought : ℕ → ℕ → Server → Server
sought i offset s = record s { fds = update s.fds i (record (s.fds i) { fd_offset = offset }) }

serve_write-eq :
    (fileid i : ℕ) (f : Place) (buf : List ℕ) (s : Server) (d : Disk)
    → openfile_lookup fileid s ≡ some i
    → (s.opentab i).o_file ≡ some f
    → length buf ≤ 4096
    → file_write f buf (s.fds i).fd_offset (s.disk) ≡ some (ok (length buf), d)
    → serve_write fileid buf s ≡ some (length buf, advance i (length buf) (record s { disk = d }))
unfolding serve_write with_file
serve_write-eq fileid i f buf s d found file page wrote =
    rw (found, serve_write, with_file)
      (rw file (rw (clip_all 4096 buf page, ◌>>=◌) (rw (wrote, ◌>>=◌) refl)))

serve_read-eq :
    (fileid i count : ℕ) (f : Place) (buf : List ℕ) (s : Server)
    → openfile_lookup fileid s ≡ some i
    → (s.opentab i).o_file ≡ some f
    → count ≤ 4096
    → file_read f count (s.fds i).fd_offset (s.disk) ≡ some (ok buf, s.disk)
    → serve_read fileid count s ≡ some ((length buf, buf), advance i (length buf) s)
unfolding serve_read with_file
serve_read-eq fileid i count f buf s found file page done =
    let least : min count 4096 ≡ count = ground (arith, page) in
    rw (found, serve_read, with_file) (rw file (rw (least, ◌>>=◌) (rw (done, ◌>>=◌) refl)))

-- Neither the disk nor a seek position matters to openfile_lookup.
lookup_same :
    (fileid : ℕ) (s : Server) (d : Disk) (fds : ℕ → Fd)
    → openfile_lookup fileid (record s { disk = d; fds = fds }) ≡ openfile_lookup fileid s
unfolding openfile_lookup
lookup_same fileid s d fds = refl

fd_offset-advance :
    (i r : ℕ) (s : Server)
    → (s.fds i).fd_offset + r < 2 ^ 32
    → ((advance i r s).fds i).fd_offset ≡ (s.fds i).fd_offset + r
fd_offset-advance i r s h =
    let e : ((s.fds i).fd_offset + r) % 2 ^ 32 ≡ (s.fds i).fd_offset + r = omega (arith, h) in
    ground (arith, e)

-- A client's write to an open file whose blocks are allocated, of at most a page at the seek
-- position, returns the number of bytes and moves the position behind them; a read of as many
-- bytes from the old position returns them and moves the position to the same place.
pub serve_write-serve_read :
    (fileid i n : ℕ) (f : Place) (blocks : ℕ → ℕ) (buf : List ℕ) (s : Server)
    → openfile_lookup fileid s ≡ some i
    → (s.opentab i).o_file ≡ some f
    → IsLaid f blocks n s.disk
    → (s.fds i).fd_offset + length buf ≤ 4096 * n
    → (s.fds i).fd_offset + length buf < 2 ^ 32
    → length buf ≤ 4096
    → All (λ c. c < 256) buf
    → (s' : Server) × (t : Server) × (serve_write fileid buf s ≡ some (length buf, s'))
      × ((s'.fds i).fd_offset ≡ (s.fds i).fd_offset + length buf)
      × (serve_read fileid (length buf) (sought i (s.fds i).fd_offset s')
          ≡ some ((length buf, buf), t))
      × ((t.fds i).fd_offset ≡ (s.fds i).fd_offset + length buf)
serve_write-serve_read fileid i n f blocks buf s found file laid room fits page small =
    let offset = (s.fds i).fd_offset in
    let (d', wrote, read, size, kept, same) =
      file_write-file_read f blocks n buf offset (s.disk) laid room small in
    let s' = advance i (length buf) (record s { disk = d' }) in
    let back = sought i offset s' in
    let here : (back.fds i).fd_offset ≡ offset = ground arith in
    let found' = lookup_same fileid s d' back.fds ∙ found in
    let read' : file_read f (length buf) (back.fds i).fd_offset d' ≡ some (ok buf, d') =
      rw here read in
    (
      s',
      advance i (length buf) back,
      serve_write-eq fileid i f buf s d' found file page wrote,
      fd_offset-advance i (length buf) (record s { disk = d' }) fits,
      serve_read-eq fileid i (length buf) f buf back found' file page read',
      fd_offset-advance i (length buf) back (rw here fits) ∙ ap (λ o. o + length buf) here,
    )
