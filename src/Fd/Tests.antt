-- ===== src/Fd/Tests.antt =====
-- The theorems about lib/fd.c at a table in which descriptors 0 and 2 are open.
use mit_jos_f22_advanced_os.Base.{
  ◌≡◌, refl, true, [], none, some, arith, ◌==◌, if◌then◌else◌, ◌||◌, ◌+◌,
}
use mit_jos_f22_advanced_os.Base.Ret.{ok, err, e_inval}
use mit_jos_f22_advanced_os.Fd.Table.{Table, fd_lookup, close, dup, seek}
use mit_jos_f22_advanced_os.Fd.Shared.{dup-seek}

abbrev two_open : Table
two_open = record {
  fd_page = λ i. if (i == 0) || (i == 2) then some (7 + i) else none;
  data_page = λ i. if i == 2 then some 20 else none;
  content = λ p. record { fd_dev_id = b'f'; fd_offset = 0; fd_omode = 2 };
}

found : fd_lookup 2 two_open ≡ ok (2, 9)
unfolding fd_lookup
found = refl

closed : close [] 5 two_open ≡ some (err e_inval, two_open)
unfolding close fd_lookup
closed = refl

dup-seek_example :
    (u : Table) × (v : Table) × (dup [] true true 2 5 two_open ≡ some (ok 5, u))
    × (fd_lookup 5 u ≡ ok (5, 9))
    × (seek 2 100 u ≡ some (ok 0, v))
    × (fd_lookup 5 v ≡ ok (5, 9))
    × ((v.content 9).fd_offset ≡ 100)
dup-seek_example =
    dup-seek [] 2 5 9 100 (err e_inval) two_open two_open found (omega arith) (omega arith)
      (λ e. omega (arith, e)) closed refl
