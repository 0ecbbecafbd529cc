-- ===== src/FileInfo/Attrs.antt =====
-- Attributes of a file, from what `stat` or `lstat` answers. The masks of `sys/stat.h` are those that
-- POSIX gives for the permissions, and those of Linux for the types; both calls are parameters.
use libsigar.Base.{
  ℕ, ◌+◌, ◌*◌, ◌/◌, ◌%◌, Bool, List, [], ◌∷◌, ◌++◌, Option, bit_or, ltb, ◌==◌, if◌then◌else◌,
  get_elem?, take, drop, u64_mod,
}
use Prim.Native.Nat.{bit_and}
use libsigar.Text.{Bytes, codes}
use libsigar.Outcome.{Answer, answer, failed}

-- `sigar_file_type_e`.
abbrev pub filetype_nofile : ℕ
filetype_nofile = 0

abbrev pub filetype_reg : ℕ
filetype_reg = 1

abbrev pub filetype_dir : ℕ
filetype_dir = 2

abbrev pub filetype_chr : ℕ
filetype_chr = 3

abbrev pub filetype_blk : ℕ
filetype_blk = 4

abbrev pub filetype_pipe : ℕ
filetype_pipe = 5

abbrev pub filetype_lnk : ℕ
filetype_lnk = 6

abbrev pub filetype_sock : ℕ
filetype_sock = 7

abbrev pub filetype_unkfile : ℕ
filetype_unkfile = 8

-- `types`.
abbrev pub type_names : List Bytes
type_names =
    codes "none"
    ∷ codes "regular"
    ∷ codes "directory"
    ∷ codes "character device"
    ∷ codes "block device"
    ∷ codes "pipe"
    ∷ codes "symbolic link"
    ∷ codes "socket"
    ∷ codes "unknown"
    ∷ []

-- The enumeration is unsigned, so no type is below the first. A name past the table is `none`.
unfoldable pub type_string_get : ℕ → Option Bytes
type_string_get type =
    get_elem? type_names (if ltb filetype_unkfile type then filetype_unkfile else type)

-- `SIGAR_UREAD` to `SIGAR_WEXECUTE`.
abbrev pub perm_modes : List ℕ
perm_modes = 0x400 ∷ 0x200 ∷ 0x100 ∷ 0x40 ∷ 0x20 ∷ 0x10 ∷ 0x4 ∷ 0x2 ∷ 0x1 ∷ []

-- `perm_int`.
abbrev pub perm_int : List ℕ
perm_int = 400 ∷ 200 ∷ 100 ∷ 40 ∷ 20 ∷ 10 ∷ 4 ∷ 2 ∷ 1 ∷ []

abbrev pub perm_chars : Bytes
perm_chars = codes "rwx"

-- `word & mask` as a condition, for a mask of one binary digit.
abbrev pub has : ℕ → ℕ → Bool
has word mask = word / mask % 2 == 1

-- The inner loop of `sigar_file_attrs_permissions_string_get`, over three masks and their characters.
unfoldable pub permission_chars : ℕ → List ℕ → Bytes → Bytes
permission_chars permissions [] chars = []
permission_chars permissions (mask ∷ masks) [] = []
permission_chars permissions (mask ∷ masks) (c ∷ chars) =
    (if has permissions mask then c else b'-') ∷ permission_chars permissions masks chars

unfoldable pub permissions_string_get : ℕ → Bytes
unfolding permission_chars
permissions_string_get permissions =
    permission_chars permissions (take 3 perm_modes) perm_chars
    ++ permission_chars permissions (take 3 (drop 3 perm_modes)) perm_chars
    ++ permission_chars permissions (take 3 (drop 6 perm_modes)) perm_chars

-- The loop of `sigar_file_attrs_mode_get`, with the sum so far.
unfoldable pub mode_sum : ℕ → List ℕ → List ℕ → ℕ → ℕ
mode_sum permissions [] ints perms = perms
mode_sum permissions (mask ∷ masks) [] perms = perms
mode_sum permissions (mask ∷ masks) (n ∷ ints) perms =
    mode_sum permissions masks ints (if has permissions mask then perms + n else perms)

unfoldable pub mode_get : ℕ → ℕ
unfolding mode_sum
mode_get permissions = mode_sum permissions perm_modes perm_int 0

-- `S_IRUSR` to `S_IXOTH`.
abbrev pub stat_masks : List ℕ
stat_masks = 256 ∷ 128 ∷ 64 ∷ 32 ∷ 16 ∷ 8 ∷ 4 ∷ 2 ∷ 1 ∷ []

-- The nine conditions of `sigar_unix_mode2perms`, in their order.
unfoldable pub or_perms : ℕ → List ℕ → List ℕ → ℕ → ℕ
or_perms mode [] news perms = perms
or_perms mode (mask ∷ masks) [] perms = perms
or_perms mode (mask ∷ masks) (new ∷ news) perms =
    or_perms mode masks news (if has mode mask then bit_or perms new else perms)

unfoldable pub unix_mode2perms : ℕ → ℕ
unfolding or_perms
unix_mode2perms mode = or_perms mode stat_masks perm_modes 0

-- `S_IFMT` and the types under it; `S_ISFIFO` compares with the type of a pipe.
abbrev pub s_ifmt : ℕ
s_ifmt = 0xf000

unfoldable pub filetype_from_mode : ℕ → ℕ
filetype_from_mode mode =
    let format = bit_and mode s_ifmt in
    if format == 0x8000
    then filetype_reg
    else if format == 0x4000
    then filetype_dir
    else if format == 0xa000
    then filetype_lnk
    else if format == 0x2000
    then filetype_chr
    else if format == 0x6000
    then filetype_blk
    else if format == 0xc000
    then filetype_sock
    else if format == 0x1000
    then filetype_pipe
    else filetype_unkfile

-- `struct stat`.
pub record StatInfo : Type 0 where
  pub st_mode : ℕ
  pub st_uid : ℕ
  pub st_gid : ℕ
  pub st_size : ℕ
  pub st_ino : ℕ
  pub st_dev : ℕ
  pub st_nlink : ℕ
  pub st_atime : ℕ
  pub st_mtime : ℕ
  pub st_ctime : ℕ

-- `sigar_file_attrs_t`.
pub record FileAttrs : Type 0 where
  pub permissions : ℕ
  pub type : ℕ
  pub uid : ℕ
  pub gid : ℕ
  pub inode : ℕ
  pub device : ℕ
  pub nlink : ℕ
  pub size : ℕ
  pub atime : ℕ
  pub mtime : ℕ
  pub ctime : ℕ

unfoldable pub copy_stat_info : StatInfo → FileAttrs
copy_stat_info info = record {
  permissions = unix_mode2perms info.st_mode;
  type = filetype_from_mode info.st_mode;
  uid = info.st_uid;
  gid = info.st_gid;
  inode = info.st_ino;
  device = info.st_dev;
  nlink = info.st_nlink;
  size = info.st_size;
  atime = info.st_atime * 1000 % u64_mod;
  mtime = info.st_mtime * 1000 % u64_mod;
  ctime = info.st_ctime * 1000 % u64_mod;
}

-- The status and the attributes, which stay what they are on an error; `stat` is a parameter.
unfoldable pub file_attrs_get : (Bytes → Answer StatInfo) → Bytes → FileAttrs → ℕ × FileAttrs
file_attrs_get stat file fileattrs = elim (stat file) [
  | answer info ↦ (0, copy_stat_info info)
  | failed errno ↦ (errno, fileattrs)
]

-- The same with `lstat`.
unfoldable pub link_attrs_get : (Bytes → Answer StatInfo) → Bytes → FileAttrs → ℕ × FileAttrs
link_attrs_get lstat file fileattrs = elim (lstat file) [
  | answer info ↦ (0, copy_stat_info info)
  | failed errno ↦ (errno, fileattrs)
]
