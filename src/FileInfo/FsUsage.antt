-- ===== src/FileInfo/FsUsage.antt =====
-- `sigar_statvfs`: the usage of a file system, in units of 1024 bytes.
use native.Mathlib.Nat.{mul_assoc, mul-le-mul_right}
use libsigar.Base.{ℕ, ◌+◌, ◌*◌, ◌/◌, ◌%◌, ◌<◌, ◌≤◌, ◌≡◌, sym, ap, ◌∙◌, arith, u64_mod, sub64}
use libsigar.Outcome.{Answer, answer, failed}

-- `struct statvfs`.
pub record StatVfs : Type 0 where
  pub f_frsize : ℕ
  pub f_blocks : ℕ
  pub f_bfree : ℕ
  pub f_bavail : ℕ
  pub f_files : ℕ
  pub f_ffree : ℕ

-- The fields of `sigar_file_system_usage_t` that are set here.
pub record FsUsage : Type 0 where
  pub total : ℕ
  pub free : ℕ
  pub avail : ℕ
  pub used : ℕ
  pub files : ℕ
  pub free_files : ℕ

-- `SIGAR_FS_BLOCKS_TO_BYTES`.
abbrev pub blocks_to_bytes : ℕ → ℕ → ℕ
blocks_to_bytes val bsize = val * bsize % u64_mod / 2

unfoldable pub usage_of : StatVfs → FsUsage
usage_of buf =
    let bsize = buf.f_frsize / 512 in
    let total = blocks_to_bytes buf.f_blocks bsize in
    let free = blocks_to_bytes buf.f_bfree bsize in
    record {
      total = total;
      free = free;
      avail = blocks_to_bytes buf.f_bavail bsize;
      used = sub64 total free;
      files = buf.f_files;
      free_files = buf.f_ffree;
    }

-- The status and the usage, which stays what it is on an error; the call `statvfs` is a parameter.
unfoldable pub statvfs_get : Answer StatVfs → FsUsage → ℕ × FsUsage
unfolding usage_of
statvfs_get (answer buf) fsusage = (0, usage_of buf)
statvfs_get (failed errno) fsusage = (errno, fsusage)

half_kib : (n b : ℕ) → n * (b * 512) ≡ n * b * 512
half_kib n b = sym (mul_assoc n b 512)

in_kib :
    (n s : ℕ) → s % 512 ≡ 0 → n * (s / 512) < u64_mod → blocks_to_bytes n (s / 512) ≡ n * s / 1024
in_kib n s aligned fits =
    let b = s / 512 in
    let e : s ≡ b * 512 = omega arith in
    let p : n * s ≡ n * b * 512 = ap (λ x. n * x) e ∙ half_kib n b in omega (arith, p, fits)

-- Where the fragments are whole sectors of 512 bytes, no more blocks are free than there are, and the
-- number of sectors fits in 64 bits, the total and the free space are the bytes over 1024, rounded
-- down, and the used space and the free space add up to the total.
pub usage_of-exact :
    (buf : StatVfs)
    → buf.f_frsize % 512 ≡ 0
    → buf.f_blocks * (buf.f_frsize / 512) < u64_mod
    → buf.f_bfree ≤ buf.f_blocks
    → let u = usage_of buf in
      (u.total ≡ buf.f_blocks * buf.f_frsize / 1024)
      × (u.free ≡ buf.f_bfree * buf.f_frsize / 1024)
      × (u.used + u.free ≡ u.total)
unfolding usage_of
usage_of-exact buf aligned fits free =
    let b = buf.f_frsize / 512 in
    let le : buf.f_bfree * b ≤ buf.f_blocks * b = mul-le-mul_right b free in
    let t = in_kib buf.f_blocks buf.f_frsize aligned fits in
    let f = in_kib buf.f_bfree buf.f_frsize aligned (omega (arith, le, fits)) in
    (t, f, omega (arith, le, fits))
