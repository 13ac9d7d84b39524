-- ===== src/Fs/Clients.antt =====
-- The theorems about fs/serv.c run on a server in which one client has one file open.
use mit_jos_f22_advanced_os.Base.{
  ℕ, zero, suc, List, [], ◌∷◌, ◌%◌, ◌≤◌, ◌<◌, ◌≡◌, refl, ◌⊎◌, true, false, ◌==◌, if◌then◌else◌,
  arith, some, none, length,
}
use mit_jos_f22_advanced_os.Base.Ret.{e_no_mem, e_max_open}
use mit_jos_f22_advanced_os.Fs.Server.{
  Server, openfile_alloc, openfile_lookup, failure, no_fd, serve_read,
}
use mit_jos_f22_advanced_os.Fs.Opened.{IsTable, IsTaken, openfile_alloc_lem}
use mit_jos_f22_advanced_os.Fs.Served.{sought}
use mit_jos_f22_advanced_os.Fs.Content.{bytes_at}
use mit_jos_f22_advanced_os.Fs.Requests.{devfile_read, devfile_write, arrived}
use mit_jos_f22_advanced_os.Fs.Asserted.{devfile_write-devfile_read, devfile_read-serve_read}
use mit_jos_f22_advanced_os.Fs.Direct.{IsDirect-IsLaid}
use mit_jos_f22_advanced_os.Fs.Volume.{volume, file_a, file_blocks, file_a-IsDirect, hello}

-- Entry 0 is the file "a" with the id 1024 and the seek position 4094.
abbrev serving : Server
serving = record {
  disk = volume;
  opentab = λ i.
      if i == 0
      then record { o_fileid = 1024; o_file = some file_a; o_mode = 2 }
      else record { o_fileid = i % 1024; o_file = none; o_mode = 0 };
  fds = λ i.
      if i == 0
      then record { fd_dev_id = b'f'; fd_offset = 4094; fd_omode = 2; fd_file = 1024 }
      else no_fd;
  pageref = λ i. if i == 0 then 2 else 0;
}

serving-IsTable : IsTable serving
serving-IsTable i lt = (ground (arith, lt), ground (arith, lt))

known : openfile_lookup 1024 serving ≡ some 0
unfolding openfile_lookup
known = refl

openfile_alloc_lem_example :
    (((j : ℕ) → j < 1024 → 2 ≤ serving.pageref j)
      × (openfile_alloc true serving ≡ some ((0, failure e_max_open), serving)))
    ⊎ (((i : ℕ) × (i < 1024)
          × (serving.pageref i ≡ 0)
          × ((j : ℕ) → j < i → 2 ≤ serving.pageref j)
          × (true ≡ false)
          × (openfile_alloc true serving ≡ some ((0, failure e_no_mem), serving)))
        ⊎ ((i : ℕ) × (id : ℕ) × (s' : Server) × (openfile_alloc true serving ≡ some ((i, id), s'))
            × ((j : ℕ) → j < i → 2 ≤ serving.pageref j)
            × IsTaken i id serving s'))
openfile_alloc_lem_example = openfile_alloc_lem true serving serving-IsTable

devfile_write-devfile_read_example :
    (s' : Server) × (t : Server) × (devfile_write true 1024 hello serving ≡ some (length hello, s'))
    × (devfile_read true 1024 (length hello) (sought 0 (serving.fds 0).fd_offset s')
        ≡ some ((length hello, hello), t))
devfile_write-devfile_read_example =
    devfile_write-devfile_read true 1024 0 2 file_a file_blocks hello serving known refl
      (IsDirect-IsLaid file_a file_blocks 2 volume file_a-IsDirect) (omega arith) (omega arith)
      (omega arith) (omega arith, (omega arith, (omega arith, (omega arith, (omega arith, tt)))))

devfile_read-serve_read_example : devfile_read true 1024 9000 serving ≡ serve_read 1024 9000 serving
devfile_read-serve_read_example = devfile_read-serve_read true 1024 9000 serving

-- A buffer of `n` bytes 7.
abbrev sevens : ℕ → List ℕ
sevens zero = []
sevens (suc n) = 7 ∷ sevens n

-- A write of 4085 bytes makes the client panic.
devfile_write-long : devfile_write true 1024 (sevens 4085) serving ≡ none
unfolding devfile_write
devfile_write-long = refl

-- Of 4082 bytes the last two come from block 0 of the disk.
abbrev at_byte : ℕ → List ℕ → ℕ
at_byte i [] = 9
at_byte zero (c ∷ cs) = c
at_byte (suc i) (c ∷ cs) = at_byte i cs

arrived-padding :
    (at_byte 4079 (arrived (sevens 4082) serving) ≡ 7)
    × (at_byte 4080 (arrived (sevens 4082) serving) ≡ 0)
unfolding bytes_at
arrived-padding = (refl, refl)
