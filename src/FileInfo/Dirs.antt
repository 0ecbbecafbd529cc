-- ===== src/FileInfo/Dirs.antt =====
-- `sigar_dir_stat_get` and `sigar_dir_usage_get` on a Unix system. What `opendir` lists, up to the end
-- that `readdir` finds, and what `lstat` answers are parameters; the buffer of the path is the code's,
-- and a write past its end is a fault.
use libsigar.Base.{
  ℕ, zero, suc, ◌+◌, ◌-◌, ◌%◌, Bool, true, false, ◌&&◌, List, [], ◌∷◌, ◌++◌, leb, ◌==◌,
  if◌then◌else◌, length, take, u64_mod,
}
use libsigar.Text.{Bytes}
use libsigar.Outcome.{Answer, answer, failed, Outcome, done, fault, ◌>>=◌}
use libsigar.FileInfo.Attrs.{
  StatInfo, filetype_from_mode, filetype_reg, filetype_dir, filetype_lnk, filetype_chr,
  filetype_blk, filetype_sock,
}

-- `SIGAR_PATH_MAX` on Linux.
abbrev pub path_max : ℕ
path_max = 4096

-- `sigar_dir_stat_t` and `sigar_dir_usage_t`.
pub record DirStat : Type 0 where
  pub total : ℕ
  pub files : ℕ
  pub subdirs : ℕ
  pub symlinks : ℕ
  pub chrdevs : ℕ
  pub blkdevs : ℕ
  pub sockets : ℕ
  pub disk_usage : ℕ

abbrev pub zero_stat : DirStat
zero_stat = record {
  total = 0;
  files = 0;
  subdirs = 0;
  symlinks = 0;
  chrdevs = 0;
  blkdevs = 0;
  sockets = 0;
  disk_usage = 0;
}

-- The calls of the system.
pub record DirCalls : Type 0 where
  pub opendir : Bytes → Answer (List Bytes)
  pub lstat : Bytes → Answer StatInfo

-- `IS_DOTDIR`.
unfoldable pub is_dotdir : Bytes → Bool
is_dotdir [] = false
is_dotdir (a ∷ []) = a == b'.'
is_dotdir (a ∷ b ∷ []) = a == b'.' && b == b'.'
is_dotdir (a ∷ b ∷ c ∷ s) = false

abbrev incr : ℕ → ℕ
incr n = (n + 1) % u64_mod

-- The counter that the switch increments.
unfoldable pub count_type : ℕ → DirStat → DirStat
count_type type st =
    if type == filetype_reg
    then record st { files = incr st.files }
    else if type == filetype_dir
    then record st { subdirs = incr st.subdirs }
    else if type == filetype_lnk
    then record st { symlinks = incr st.symlinks }
    else if type == filetype_chr
    then record st { chrdevs = incr st.chrdevs }
    else if type == filetype_blk
    then record st { blkdevs = incr st.blkdevs }
    else if type == filetype_sock
    then record st { sockets = incr st.sockets }
    else record st { total = incr st.total }

-- `dirstats->disk_usage += info.st_size`, and the switch.
unfoldable pub account : StatInfo → DirStat → DirStat
account info st =
    count_type (filetype_from_mode info.st_mode)
      (record st { disk_usage = (st.disk_usage + info.st_size) % u64_mod })

-- `dirstats->total` at the end.
unfoldable pub set_total : DirStat → DirStat
set_total st = record st {
  total = (st.files + st.subdirs + st.symlinks + st.chrdevs + st.blkdevs + st.sockets) % u64_mod;
}

-- `name`: the directory, a slash, since `name[len]` is the byte behind it, and what fits of the entry.
abbrev pub entry_path : Bytes → Bytes → Bytes
entry_path dir entry = dir ++ b'/' ∷ take (path_max - length dir - 1) entry

module _ (calls : DirCalls) (recurse : Bool) where
  -- A subdirectory's status is logged at most.
  abbrev pub enter :
      (Bytes → DirStat → Outcome (ℕ × DirStat)) → Bytes → StatInfo → DirStat → Outcome DirStat
  enter sub name info st =
      if recurse && filetype_from_mode info.st_mode == filetype_dir
      then (sub name st >>= λ r. done r.1)
      else done st

  -- The loop over the entries of `dir`; `sub` is the call for a subdirectory.
  unfoldable pub read_entries :
      (Bytes → DirStat → Outcome (ℕ × DirStat)) → Bytes → List Bytes → DirStat → Outcome DirStat
  read_entries sub dir [] st = done st
  read_entries sub dir (entry ∷ entries) st =
      let skip = read_entries sub dir entries st in
      let name = entry_path dir entry in
      if is_dotdir entry then skip else (elim (calls.lstat name) [
        | failed errno ↦ skip
        | answer info ↦ enter sub name info (account info st) >>= read_entries sub dir entries
      ])

  -- The status and the statistics. Behind a path that fills the buffer the slash is its last byte, and
  -- the size that is left is negative.
  unfoldable pub dir_stat_from : ℕ → Bytes → DirStat → Outcome (ℕ × DirStat)
  dir_stat_from zero dir st = fault
  dir_stat_from (suc n) dir st = elim (calls.opendir dir) [
    | failed errno ↦ done (errno, st)
    | answer entries ↦
        if leb path_max (length dir)
        then fault
        else (read_entries (dir_stat_from n) dir entries st >>= λ st'. done (0, set_total st'))
  ]

-- A path grows with each call, and none that fills the buffer is opened.
abbrev pub dir_fuel : ℕ
dir_fuel = path_max + 1

unfoldable pub dir_stat_get : DirCalls → Bytes → Outcome (ℕ × DirStat)
dir_stat_get calls dir = dir_stat_from calls false dir_fuel dir zero_stat

unfoldable pub dir_usage_get : DirCalls → Bytes → Outcome (ℕ × DirStat)
dir_usage_get calls dir = dir_stat_from calls true dir_fuel dir zero_stat
