-- ===== src/FileInfo/Found.antt =====
-- What the statistics of a directory count: each file that is found, once, under its type.
use libsigar.Base.{
  ℕ, ◌+◌, ◌%◌, Bool, true, false, ◌&&◌, List, [], ◌∷◌, ◌++◌, ◌≡◌, ◌∙◌, ap, arith, append-nil, ◌==◌,
  if◌then◌else◌, u64_mod,
}
use libsigar.Text.{Bytes}
use libsigar.Outcome.{answer, failed}
use libsigar.FileInfo.Attrs.{
  StatInfo, filetype_from_mode, filetype_reg, filetype_dir, filetype_lnk, filetype_chr,
  filetype_blk, filetype_sock,
}
use libsigar.FileInfo.Dirs.{DirStat, DirCalls, is_dotdir, count_type, account, entry_path}

-- A subdirectory that the walk enters.
abbrev pub is_entered : Bool → StatInfo → Bool
is_entered recurse info = recurse && filetype_from_mode info.st_mode == filetype_dir

-- The files that are found behind the entries of a directory: those that `lstat` knows but for the
-- dots, each followed by those of its own entries if it is entered.
pub data Found (calls : DirCalls) (recurse : Bool)
    : Bytes → List Bytes → List StatInfo → Type 0 where
  no_more : {dir : Bytes} → Found calls recurse dir [] []
  a_dot :
      {dir entry : Bytes} {entries : List Bytes} {l : List StatInfo}
      → is_dotdir entry ≡ true
      → Found calls recurse dir entries l
      → Found calls recurse dir (entry ∷ entries) l
  gone :
      {dir entry : Bytes} {entries : List Bytes} {l : List StatInfo} {errno : ℕ}
      → is_dotdir entry ≡ false
      → calls.lstat (entry_path dir entry) ≡ failed errno
      → Found calls recurse dir entries l
      → Found calls recurse dir (entry ∷ entries) l
  a_file :
      {dir entry : Bytes} {entries : List Bytes} {l : List StatInfo} {info : StatInfo}
      → is_dotdir entry ≡ false
      → calls.lstat (entry_path dir entry) ≡ answer info
      → is_entered recurse info ≡ false
      → Found calls recurse dir entries l
      → Found calls recurse dir (entry ∷ entries) (info ∷ l)
  a_closed_dir :
      {dir entry : Bytes} {entries : List Bytes} {l : List StatInfo} {info : StatInfo} {errno : ℕ}
      → is_dotdir entry ≡ false
      → calls.lstat (entry_path dir entry) ≡ answer info
      → is_entered recurse info ≡ true
      → calls.opendir (entry_path dir entry) ≡ failed errno
      → Found calls recurse dir entries l
      → Found calls recurse dir (entry ∷ entries) (info ∷ l)
  a_dir :
      {dir entry : Bytes} {entries below : List Bytes} {k l : List StatInfo} {info : StatInfo}
      → is_dotdir entry ≡ false
      → calls.lstat (entry_path dir entry) ≡ answer info
      → is_entered recurse info ≡ true
      → calls.opendir (entry_path dir entry) ≡ answer below
      → Found calls recurse (entry_path dir entry) below k
      → Found calls recurse dir entries l
      → Found calls recurse dir (entry ∷ entries) (info ∷ k ++ l)

-- How many of the files have a type, and what their sizes add up to.
unfoldable pub of_type : ℕ → List StatInfo → ℕ
of_type type [] = 0
of_type type (info ∷ l) =
    (if filetype_from_mode info.st_mode == type then 1 else 0) + of_type type l

unfoldable pub sizes : List StatInfo → ℕ
sizes [] = 0
sizes (info ∷ l) = info.st_size + sizes l

-- The statistics without their total, which each directory's end sets anew.
pub record Counts : Type 0 where
  pub n_files : ℕ
  pub n_subdirs : ℕ
  pub n_symlinks : ℕ
  pub n_chrdevs : ℕ
  pub n_blkdevs : ℕ
  pub n_sockets : ℕ
  pub n_usage : ℕ

abbrev pub counts : DirStat → Counts
counts st = record {
  n_files = st.files;
  n_subdirs = st.subdirs;
  n_symlinks = st.symlinks;
  n_chrdevs = st.chrdevs;
  n_blkdevs = st.blkdevs;
  n_sockets = st.sockets;
  n_usage = st.disk_usage;
}

-- The counts after the files of a list.
abbrev pub after : Counts → List StatInfo → Counts
after c l = record {
  n_files = (c.n_files + of_type filetype_reg l) % u64_mod;
  n_subdirs = (c.n_subdirs + of_type filetype_dir l) % u64_mod;
  n_symlinks = (c.n_symlinks + of_type filetype_lnk l) % u64_mod;
  n_chrdevs = (c.n_chrdevs + of_type filetype_chr l) % u64_mod;
  n_blkdevs = (c.n_blkdevs + of_type filetype_blk l) % u64_mod;
  n_sockets = (c.n_sockets + of_type filetype_sock l) % u64_mod;
  n_usage = (c.n_usage + sizes l) % u64_mod;
}

-- The counters are words: nothing is lost in them.
abbrev pub IsWords : Counts → Type 0
IsWords c = after c [] ≡ c

of_type-append :
    (type : ℕ) (k l : List StatInfo) → of_type type (k ++ l) ≡ of_type type k + of_type type l
unfolding of_type
of_type-append type [] l = omega arith
of_type-append type (info ∷ k) l = omega (arith, of_type-append type k l)

sizes-append : (k l : List StatInfo) → sizes (k ++ l) ≡ sizes k + sizes l
unfolding sizes
sizes-append [] l = omega arith
sizes-append (info ∷ k) l = omega (arith, sizes-append k l)

pub Counts_ext :
    {c d : Counts}
    → c.n_files ≡ d.n_files
    → c.n_subdirs ≡ d.n_subdirs
    → c.n_symlinks ≡ d.n_symlinks
    → c.n_chrdevs ≡ d.n_chrdevs
    → c.n_blkdevs ≡ d.n_blkdevs
    → c.n_sockets ≡ d.n_sockets
    → c.n_usage ≡ d.n_usage
    → c ≡ d
Counts_ext a b c d e f g = λ i. record {
  n_files = a i;
  n_subdirs = b i;
  n_symlinks = c i;
  n_chrdevs = d i;
  n_blkdevs = e i;
  n_sockets = f i;
  n_usage = g i;
}

add_twice : (a b c d : ℕ) → d ≡ b + c → ((a + b) % u64_mod + c) % u64_mod ≡ (a + d) % u64_mod
add_twice a b c d h = omega arith

pub after-append : (c : Counts) (k l : List StatInfo) → after (after c k) l ≡ after c (k ++ l)
after-append c k l =
    Counts_ext (add_twice c.n_files _ _ _ (of_type-append filetype_reg k l))
      (add_twice c.n_subdirs _ _ _ (of_type-append filetype_dir k l))
      (add_twice c.n_symlinks _ _ _ (of_type-append filetype_lnk k l))
      (add_twice c.n_chrdevs _ _ _ (of_type-append filetype_chr k l))
      (add_twice c.n_blkdevs _ _ _ (of_type-append filetype_blk k l))
      (add_twice c.n_sockets _ _ _ (of_type-append filetype_sock k l))
      (add_twice c.n_usage _ _ _ (sizes-append k l))

pub IsWords-after : (c : Counts) (l : List StatInfo) → IsWords (after c l)
IsWords-after c l = after-append c l [] ∙ ap (after c) (append-nil l)

-- The switch, for a file of a given type and size.
module _ (type size : ℕ) where
  one_more : Counts → Counts
  one_more c = record {
    n_files = (c.n_files + ((if type == filetype_reg then 1 else 0) + 0)) % u64_mod;
    n_subdirs = (c.n_subdirs + ((if type == filetype_dir then 1 else 0) + 0)) % u64_mod;
    n_symlinks = (c.n_symlinks + ((if type == filetype_lnk then 1 else 0) + 0)) % u64_mod;
    n_chrdevs = (c.n_chrdevs + ((if type == filetype_chr then 1 else 0) + 0)) % u64_mod;
    n_blkdevs = (c.n_blkdevs + ((if type == filetype_blk then 1 else 0) + 0)) % u64_mod;
    n_sockets = (c.n_sockets + ((if type == filetype_sock then 1 else 0) + 0)) % u64_mod;
    n_usage = (c.n_usage + (size + 0)) % u64_mod;
  }

  count_type-one_more :
      (st : DirStat)
      → IsWords (counts st)
      → counts (count_type type (record st { disk_usage = (st.disk_usage + size) % u64_mod }))
        ≡ one_more (counts st)
  unfolding count_type of_type sizes one_more
  count_type-one_more st h =
      let w1 : (st.files + 0) % u64_mod ≡ st.files = ap Counts.n_files h in
      let w2 : (st.subdirs + 0) % u64_mod ≡ st.subdirs = ap Counts.n_subdirs h in
      let w3 : (st.symlinks + 0) % u64_mod ≡ st.symlinks = ap Counts.n_symlinks h in
      let w4 : (st.chrdevs + 0) % u64_mod ≡ st.chrdevs = ap Counts.n_chrdevs h in
      let w5 : (st.blkdevs + 0) % u64_mod ≡ st.blkdevs = ap Counts.n_blkdevs h in
      let w6 : (st.sockets + 0) % u64_mod ≡ st.sockets = ap Counts.n_sockets h in
      Counts_ext (ground arith) (ground arith) (ground arith) (ground arith) (ground arith)
        (ground arith) (ground arith)

-- One file moves one counter, and the usage.
pub account-after :
    (info : StatInfo) (st : DirStat)
    → IsWords (counts st)
    → counts (account info st) ≡ after (counts st) (info ∷ [])
unfolding account of_type sizes one_more
account-after info st h = count_type-one_more (filetype_from_mode info.st_mode) info.st_size st h
