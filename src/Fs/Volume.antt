-- ===== src/Fs/Volume.antt =====
-- The theorems about the files and directories of fs/fs.c run on a disk with one file.
use mit_jos_f22_advanced_os.Base.{
  ◌⊎◌, ◌≤◌, ◌*◌, ℕ, zero, suc, ◌+◌, ◌&&◌, not, ◌<◌, ◌≡◌, none, refl, ap, ◌≢◌, inl, inr, Bool, true,
  false, List, [], ◌∷◌, ◌==◌, if◌then◌else◌, arith, some, Bool-cases, length,
}
use mit_jos_f22_advanced_os.Base.Ret.{ok, err, e_file_exists}
use mit_jos_f22_advanced_os.Fs.Disk.{Disk, Place, f_size}
use mit_jos_f22_advanced_os.Fs.Content.{file_read, file_write}
use mit_jos_f22_advanced_os.Fs.Dir.{entry, s_root, is_named, name_byte}
use mit_jos_f22_advanced_os.Fs.Dir.{skip_slash, walk_from, walk_path}
use mit_jos_f22_advanced_os.Fs.Walked.{in_time, walk_from-walk_path}
use mit_jos_f22_advanced_os.Fs.Files.{file_create, file_open}
use mit_jos_f22_advanced_os.Fs.Spread.{byte}
use mit_jos_f22_advanced_os.Fs.Loops.{IsSame}
use mit_jos_f22_advanced_os.Fs.Direct.{IsDirect, IsDirect-IsLaid}
use mit_jos_f22_advanced_os.Fs.Stored.{grown, file_write-file_read}
use mit_jos_f22_advanced_os.Fs.Created.{IsRoot, IsName, IsVacant, file_create-file_open}

-- 64 blocks; the root directory is block 10, and its entry 0 is the file "a" in the blocks 11 and 12.
abbrev pub volume : Disk
volume b i =
    if b == 1
    then (if i == 1
        then 64
        else if i == 34
        then 4096
        else if i == 35
        then 1
        else if i == 36
        then 10
        else 0)
    else if b == 10
    then (if i == 0
        then b'a'
        else if i == 32
        then 4097
        else if i == 34
        then 11
        else if i == 35
        then 12
        else 0)
    else 0

abbrev root_blocks : ℕ → ℕ
root_blocks _ = 10

abbrev pub file_blocks : ℕ → ℕ
file_blocks k = 11 + k

abbrev pub file_a : Place
file_a = (10, 0)

abbrev pub hello : List ℕ
hello = b'h' ∷ b'e' ∷ b'l' ∷ b'l' ∷ b'o' ∷ []

pub file_a-IsDirect : IsDirect file_a file_blocks 2 volume
file_a-IsDirect = record {
  few = omega arith;
  named = λ k lt. ground (arith, lt);
  inside = λ k lt. (omega arith, omega (arith, lt));
  outside = λ k lt e. omega (arith, e);
  distinct = λ i j p q e. omega (arith, e);
}

volume-IsDirect : IsDirect s_root root_blocks 1 volume
volume-IsDirect = record {
  few = omega arith;
  named = λ k lt. ground (arith, lt);
  inside = λ k lt. (omega arith, omega arith);
  outside = λ k lt e. omega (arith, e);
  distinct = λ i j p q e. omega (arith, p, q);
}

volume-IsRoot : IsRoot root_blocks 1 volume
volume-IsRoot = record {
  direct = volume-IsDirect;
  size = refl;
  directory = refl;
  no_indirect = refl;
}

abbrev motd : List ℕ
motd = b'm' ∷ b'o' ∷ b't' ∷ b'd' ∷ []

motd-IsName : IsName motd
motd-IsName = (
  (λ e. omega (arith, ap length e)),
  omega arith,
  (omega arith, (omega arith, (omega arith, (omega arith, tt)))),
  (
    (λ e. omega (arith, e)),
    ((λ e. omega (arith, e)), ((λ e. omega (arith, e)), ((λ e. omega (arith, e)), tt))),
  ),
)

abbrev none_of : ℕ → (ℕ → Bool) → Bool
none_of zero p = true
none_of (suc n) p = not (p n) && none_of n p

none_of_lem : (n : ℕ) (p : ℕ → Bool) → none_of n p ≡ true → (i : ℕ) → i < n → p i ≡ false
none_of_lem zero p h i lt = absurd (omega (arith, lt))
none_of_lem (suc n) p h i lt = elim (Bool-cases (i == n)) [
  | inl e ↦ ground (arith, e, h)
  | inr ne ↦ none_of_lem n p (ground (arith, h)) i (ground (arith, ne, lt))
]

first_used : (j : ℕ) → j < 1 → name_byte (entry 10 j) 0 volume ≢ 0
first_used zero lt e = omega (arith, e)
first_used (suc j) lt e = omega (arith, lt)

motd-IsVacant : IsVacant root_blocks 1 0 1 motd volume
unfolding is_named
motd-IsVacant = record {
  block = omega arith;
  place = omega arith;
  empty = refl;
  earlier = λ k j lt less. absurd (omega (arith, lt));
  before = first_used;
  absent = λ k j lt less. none_of_lem 16 (λ i. is_named motd (entry 10 i) 0 volume) refl j less;
}

file_write-file_read_example :
    (d' : Disk) × (file_write file_a hello 4094 volume ≡ some (ok (length hello), d'))
    × (file_read file_a (length hello) 4094 d' ≡ some (ok hello, d'))
    × (d' (f_size file_a).0 (f_size file_a).1 ≡ grown file_a (4094 + length hello) volume)
    × ((r : ℕ)
        → r < 4096 * 2
        → (r < 4094) ⊎ (4094 + length hello ≤ r)
        → byte file_blocks d' r ≡ byte file_blocks volume r)
    × IsSame file_a file_blocks 2 volume d'
file_write-file_read_example =
    file_write-file_read file_a file_blocks 2 hello 4094 volume
      (IsDirect-IsLaid file_a file_blocks 2 volume file_a-IsDirect) (omega arith)
      (omega arith, (omega arith, (omega arith, (omega arith, (omega arith, tt)))))

file_create-file_open_example :
    (d' : Disk) × (file_create (b'/' ∷ motd) volume ≡ some (ok (entry (root_blocks 0) 1), d'))
    × (file_open (b'/' ∷ motd) d' ≡ some (ok (entry (root_blocks 0) 1), d'))
    × (file_create (b'/' ∷ motd) d' ≡ some (err e_file_exists, d'))
    × ((b i : ℕ) → b ≢ root_blocks 0 → d' b i ≡ volume b i)
file_create-file_open_example =
    file_create-file_open root_blocks 1 0 1 motd volume volume-IsRoot motd-IsName motd-IsVacant

-- "//a/b"
abbrev below : List ℕ
below = b'/' ∷ b'/' ∷ b'a' ∷ b'/' ∷ b'b' ∷ []

walk_from-walk_path_example :
    walk_from 9 (skip_slash below) none s_root volume ≡ in_time (walk_path below volume)
walk_from-walk_path_example = walk_from-walk_path 9 below volume (omega arith)
