-- ===== src/Linux/Nfs.antt =====
-- What Linux tells of NFS in the lines of /proc/net/rpc: `sigar_nfs_v2_get` and `sigar_nfs_v3_get` of
-- src/os/linux/linux_sigar.c, for the client and the server.
use libsigar.Base.{ℕ, none, some, List}
use libsigar.Text.{Bytes, codes}
use libsigar.Outcome.{Answer, answer, failed, enoent_status}
use libsigar.Util.Words.{skip_multiple_token}
use libsigar.Linux.Read.{strtoul}
use libsigar.Linux.Net.{line_starting}

-- `sigar_proc_nfs_gets`, whose status for a file that cannot be opened is `SIGAR_ENOTIMPL`.
unfoldable pub proc_nfs_gets : Answer (List Bytes) → Bytes → Answer Bytes
proc_nfs_gets (failed errno) tok = failed 20001
proc_nfs_gets (answer file) tok = elim (line_starting tok file) [
  | none ↦ failed enoent_status
  | some (buffer, lines) ↦ answer buffer
]

-- `sigar_nfs_v2_t`.
pub record NfsV2 : Type 0 where
  pub null : ℕ
  pub getattr : ℕ
  pub setattr : ℕ
  pub root : ℕ
  pub lookup : ℕ
  pub readlink : ℕ
  pub read : ℕ
  pub writecache : ℕ
  pub write : ℕ
  pub create : ℕ
  pub remove : ℕ
  pub rename : ℕ
  pub link : ℕ
  pub symlink : ℕ
  pub mkdir : ℕ
  pub rmdir : ℕ
  pub readdir : ℕ
  pub fsstat : ℕ

-- The fields behind two words.
unfoldable pub read_nfs_v2 : Bytes → NfsV2
read_nfs_v2 ptr =
    let (null, p1) = strtoul (skip_multiple_token ptr 2) in
    let (getattr, p2) = strtoul p1 in
    let (setattr, p3) = strtoul p2 in
    let (root, p4) = strtoul p3 in
    let (lookup, p5) = strtoul p4 in
    let (readlink, p6) = strtoul p5 in
    let (read, p7) = strtoul p6 in
    let (writecache, p8) = strtoul p7 in
    let (write, p9) = strtoul p8 in
    let (create, p10) = strtoul p9 in
    let (remove, p11) = strtoul p10 in
    let (rename, p12) = strtoul p11 in
    let (link, p13) = strtoul p12 in
    let (symlink, p14) = strtoul p13 in
    let (mkdir, p15) = strtoul p14 in
    let (rmdir, p16) = strtoul p15 in
    let (readdir, p17) = strtoul p16 in
    let (fsstat, end) = strtoul p17 in
    record {
      null = null;
      getattr = getattr;
      setattr = setattr;
      root = root;
      lookup = lookup;
      readlink = readlink;
      read = read;
      writecache = writecache;
      write = write;
      create = create;
      remove = remove;
      rename = rename;
      link = link;
      symlink = symlink;
      mkdir = mkdir;
      rmdir = rmdir;
      readdir = readdir;
      fsstat = fsstat;
    }

abbrev pub nfs_v2_from : Answer Bytes → NfsV2 → ℕ × NfsV2
nfs_v2_from (failed status) nfs = (status, nfs)
nfs_v2_from (answer ptr) nfs = (0, read_nfs_v2 ptr)

unfoldable pub nfs_v2_get : Answer (List Bytes) → NfsV2 → ℕ × NfsV2
nfs_v2_get file nfs = nfs_v2_from (proc_nfs_gets file (codes "proc2")) nfs

-- `sigar_nfs_v3_t`.
pub record NfsV3 : Type 0 where
  pub null : ℕ
  pub getattr : ℕ
  pub setattr : ℕ
  pub lookup : ℕ
  pub access : ℕ
  pub readlink : ℕ
  pub read : ℕ
  pub write : ℕ
  pub create : ℕ
  pub mkdir : ℕ
  pub symlink : ℕ
  pub mknod : ℕ
  pub remove : ℕ
  pub rmdir : ℕ
  pub rename : ℕ
  pub link : ℕ
  pub readdir : ℕ
  pub readdirplus : ℕ
  pub fsstat : ℕ
  pub fsinfo : ℕ
  pub pathconf : ℕ
  pub commit : ℕ

-- The fields behind two words.
unfoldable pub read_nfs_v3 : Bytes → NfsV3
read_nfs_v3 ptr =
    let (null, p1) = strtoul (skip_multiple_token ptr 2) in
    let (getattr, p2) = strtoul p1 in
    let (setattr, p3) = strtoul p2 in
    let (lookup, p4) = strtoul p3 in
    let (access, p5) = strtoul p4 in
    let (readlink, p6) = strtoul p5 in
    let (read, p7) = strtoul p6 in
    let (write, p8) = strtoul p7 in
    let (create, p9) = strtoul p8 in
    let (mkdir, p10) = strtoul p9 in
    let (symlink, p11) = strtoul p10 in
    let (mknod, p12) = strtoul p11 in
    let (remove, p13) = strtoul p12 in
    let (rmdir, p14) = strtoul p13 in
    let (rename, p15) = strtoul p14 in
    let (link, p16) = strtoul p15 in
    let (readdir, p17) = strtoul p16 in
    let (readdirplus, p18) = strtoul p17 in
    let (fsstat, p19) = strtoul p18 in
    let (fsinfo, p20) = strtoul p19 in
    let (pathconf, p21) = strtoul p20 in
    let (commit, end) = strtoul p21 in
    record {
      null = null;
      getattr = getattr;
      setattr = setattr;
      lookup = lookup;
      access = access;
      readlink = readlink;
      read = read;
      write = write;
      create = create;
      mkdir = mkdir;
      symlink = symlink;
      mknod = mknod;
      remove = remove;
      rmdir = rmdir;
      rename = rename;
      link = link;
      readdir = readdir;
      readdirplus = readdirplus;
      fsstat = fsstat;
      fsinfo = fsinfo;
      pathconf = pathconf;
      commit = commit;
    }

abbrev pub nfs_v3_from : Answer Bytes → NfsV3 → ℕ × NfsV3
nfs_v3_from (failed status) nfs = (status, nfs)
nfs_v3_from (answer ptr) nfs = (0, read_nfs_v3 ptr)

unfoldable pub nfs_v3_get : Answer (List Bytes) → NfsV3 → ℕ × NfsV3
nfs_v3_get file nfs = nfs_v3_from (proc_nfs_gets file (codes "proc3")) nfs
