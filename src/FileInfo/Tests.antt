-- ===== src/FileInfo/Tests.antt =====
-- The theorems on files and directories at concrete values.
use libsigar.Base.{
  ℕ, ◌+◌, ◌*◌, ◌/◌, ◌%◌, true, some, [], ◌∷◌, ◌≡◌, refl, arith, leb, if◌then◌else◌, length,
  Bool-cases, inl, inr,
}
use libsigar.Text.{codes, str_eq}
use libsigar.Outcome.{answer, failed, done}
use libsigar.FileInfo.Attrs.{
  StatInfo, type_string_get, mode_get, unix_mode2perms, filetype_from_mode,
}
use libsigar.FileInfo.Permissions.{as_octal, as_octal-mode_get}
use libsigar.FileInfo.FsUsage.{StatVfs, usage_of, usage_of-exact}
use libsigar.FileInfo.Dirs.{
  path_max, zero_stat, DirCalls, dir_usage_get, dir_stat_from, read_entries, is_dotdir, set_total,
  account, count_type,
}
use libsigar.FileInfo.Walk.{IsLimited, Reported, dir_usage_get-Reported}

as_octal-mode_get_example : as_octal (mode_get (unix_mode2perms 0x81a4)) ≡ 0x81a4 % 512
as_octal-mode_get_example = as_octal-mode_get 0x81a4

abbrev file_of : ℕ → ℕ → StatInfo
file_of mode size = record {
  st_mode = mode;
  st_uid = 0;
  st_gid = 0;
  st_size = size;
  st_ino = 1;
  st_dev = 2;
  st_nlink = 1;
  st_atime = 3;
  st_mtime = 4;
  st_ctime = 5;
}

-- A directory with a file, a pipe, an entry that is gone, and a directory with one file.
abbrev a_tree : DirCalls
a_tree = record {
  opendir = λ path.
      if leb path_max (length path)
      then failed 36
      else if str_eq path (codes "/a")
      then answer (codes "." ∷ codes ".." ∷ codes "f" ∷ codes "p" ∷ codes "x" ∷ codes "d" ∷ [])
      else if str_eq path (codes "/a/d")
      then answer (codes "g" ∷ [])
      else failed 2;
  lstat = λ path.
      if str_eq path (codes "/a/f")
      then answer (file_of 0x81a4 100)
      else if str_eq path (codes "/a/p")
      then answer (file_of 0x1180 7)
      else if str_eq path (codes "/a/d")
      then answer (file_of 0x41ed 20)
      else if str_eq path (codes "/a/d/g")
      then answer (file_of 0x81a4 3)
      else failed 2;
}

a_tree-IsLimited : IsLimited a_tree
a_tree-IsLimited dir h = elim (Bool-cases (leb path_max (length dir))) [
  | inl long ↦ rw long (36, refl)
  | inr short ↦ absurd (ground arith)
]

-- The pipe is neither counted under a type nor in the total.
dir_usage_get_test :
    dir_usage_get a_tree (codes "/a")
    ≡ done (0, record zero_stat { total = 3; files = 2; subdirs = 1; disk_usage = 130 })
unfolding dir_usage_get dir_stat_from read_entries is_dotdir set_total account count_type str_eq
    filetype_from_mode
dir_usage_get_test = refl

dir_usage_get-Reported_example :
    Reported a_tree true (codes "/a") zero_stat (dir_usage_get a_tree (codes "/a"))
dir_usage_get-Reported_example = dir_usage_get-Reported a_tree (codes "/a") a_tree-IsLimited

abbrev a_disk : StatVfs
a_disk = record {
  f_frsize = 1536;
  f_blocks = 1001;
  f_bfree = 500;
  f_bavail = 400;
  f_files = 90;
  f_ffree = 80;
}

usage_of-exact_example :
    let u = usage_of a_disk in
    (u.total ≡ 1001 * 1536 / 1024) × (u.free ≡ 500 * 1536 / 1024) × (u.used + u.free ≡ u.total)
usage_of-exact_example = usage_of-exact a_disk refl (omega arith) (omega arith)

-- Fragments below 512 bytes are counted as nothing.
small_fragments_test : (usage_of (record a_disk { f_frsize = 256 })).total ≡ 0
unfolding usage_of
small_fragments_test = refl

past_the_types_test : type_string_get 12 ≡ some (codes "unknown")
unfolding type_string_get
past_the_types_test = refl
