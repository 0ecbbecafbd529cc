-- ===== src/Linux/Files.antt =====
-- The functions that search the texts of /proc for names: `sigar_proc_cred_get`, `proc_status_get`,
-- `sigar_proc_cumulative_disk_io_get`; and `sigar_proc_mem_get` and `sigar_proc_state_get`, which also use
-- `proc_stat_read`. A file is the answer of `sigar_proc_file2str`.
use libsigar.Base.{
  ℕ, ◌+◌, ◌/◌, ◌%◌, ◌^◌, false, List, ◌∷◌, Option, none, some, ◌≡◌, ◌≢◌, refl, arith, ◌==◌,
  if◌then◌else◌, length, take, u64_mod, field_notimpl,
}
use libsigar.Outcome.{enoent_status, Answer, answer, failed, Outcome, done, ◌>>=◌}
use libsigar.Text.{Bytes, codes}
use libsigar.Util.Search.{strstr}
use libsigar.Util.Words.{skip_token}
use libsigar.Sigar.DiskIo.{DiskIo}
use libsigar.Sigar.Summary.{ProcState}
use libsigar.Linux.Read.{strtoul}
use libsigar.Linux.Stat.{System, ProcStat, pageshift, proc_stat_read}

unfoldable pub get_named_proc_token : Bytes → Bytes → ℕ
get_named_proc_token buffer token = elim (strstr buffer token) [
  | none ↦ field_notimpl
  | some ptr ↦ (strtoul (skip_token ptr)).0
]

unfoldable pub proc_cumulative_disk_io_get : Answer Bytes → Answer DiskIo
unfolding get_named_proc_token
proc_cumulative_disk_io_get (failed st) = failed st
proc_cumulative_disk_io_get (answer buffer) =
    let bytes_read = get_named_proc_token buffer (b'\n' ∷ codes "read_bytes") in
    let bytes_written = get_named_proc_token buffer (b'\n' ∷ codes "write_bytes") in
    answer record {
      bytes_read = bytes_read;
      bytes_written = bytes_written;
      bytes_total = (bytes_read + bytes_written) % u64_mod;
    }

-- `sigar_proc_cred_t`.
pub record ProcCred : Type 0 where
  pub uid : ℕ
  pub gid : ℕ
  pub euid : ℕ
  pub egid : ℕ

-- An id, of 32 bits.
abbrev pub read_id : Bytes → ℕ × Bytes
read_id ptr = let (id, rest) = strtoul ptr in (id % 2 ^ 32, rest)

-- The text is searched on behind the user's ids.
unfoldable pub read_gids : Bytes → ProcCred → ℕ × ProcCred
read_gids ptr cred = elim (strstr ptr (b'\n' ∷ codes "Gid:")) [
  | none ↦ (enoent_status, cred)
  | some p ↦
      let (gid, q) = read_id (skip_token p) in
      let (egid, r) = read_id q in (0, record cred { gid = gid; egid = egid })
]

unfoldable pub proc_cred_get : Answer Bytes → ProcCred → ℕ × ProcCred
unfolding read_gids
proc_cred_get (failed st) cred = (st, cred)
proc_cred_get (answer buffer) cred = elim (strstr buffer (b'\n' ∷ codes "Uid:")) [
  | none ↦ (enoent_status, cred)
  | some p ↦
      let (uid, q) = read_id (skip_token p) in
      let (euid, r) = read_id q in read_gids r (record cred { uid = uid; euid = euid })
]

-- `sigar_proc_mem_t`.
pub record ProcMem : Type 0 where
  pub size : ℕ
  pub resident : ℕ
  pub share : ℕ
  pub minor_faults : ℕ
  pub major_faults : ℕ
  pub page_faults : ℕ

-- The three sizes of /proc/pid/statm.
abbrev pub read_statm : System → Answer Bytes → ProcMem → ℕ × ProcMem
read_statm sys (failed st) mem = (st, mem)
read_statm sys (answer buffer) mem =
    let (size, p) = strtoul buffer in
    let (resident, q) = strtoul p in
    let (share, r) = strtoul q in
    (
      0,
      record mem {
        size = pageshift sys size;
        resident = pageshift sys resident;
        share = pageshift sys share;
      },
    )

-- The status of `proc_stat_read` is dropped.
unfoldable pub proc_mem_get :
    System
    → Answer Bytes
    → Answer Bytes
    → ℕ
    → ℕ
    → ProcMem
    → ProcStat
    → Outcome ((ℕ × ProcMem) × ProcStat)
unfolding proc_stat_read
proc_mem_get sys file statm timenow pid mem last = do
  (status, pstat) ← proc_stat_read sys file timenow pid last
  let faults = record mem {
    minor_faults = pstat.minor_faults;
    major_faults = pstat.major_faults;
    page_faults = (pstat.minor_faults + pstat.major_faults) % u64_mod;
  }
  done (read_statm sys statm faults, pstat)

unfoldable pub proc_status_get : Answer Bytes → ProcState → ℕ × ProcState
unfolding get_named_proc_token
proc_status_get (failed st) procstate = (st, procstate)
proc_status_get (answer buffer) procstate =
    (0, record procstate { threads = get_named_proc_token buffer (b'\n' ∷ codes "Threads:") })

-- The first argument, for a name that may have been cut.
abbrev pub full_name : Bytes → Answer (List Bytes) → Bytes
full_name name (answer (arg ∷ args)) = if length name == 15 then arg else name
full_name name _ = name

abbrev pub count_files : Answer ℕ → ProcState → ProcState
count_files (failed st) procstate = procstate
count_files (answer n) procstate = record procstate { open_files = n }

-- `procargs` are the arguments of the process, `files` how many files it has open; `rollup` is the
-- number of processors that count as one, if they do.
abbrev pub state_of : Answer (List Bytes) → Option ℕ → ProcStat → ProcState → ProcState
state_of procargs rollup pstat procstate = record procstate {
  name = take 127 (full_name pstat.name procargs);
  state = pstat.state;
  ppid = pstat.ppid;
  tty = pstat.tty;
  priority = pstat.priority;
  nice = pstat.nice;
  processor = elim rollup [ none ↦ pstat.processor | some lcpu ↦ pstat.processor / lcpu ];
}

unfoldable pub proc_state_get :
    System
    → Answer Bytes
    → Answer Bytes
    → Answer (List Bytes)
    → Answer ℕ
    → Option ℕ
    → ℕ
    → ℕ
    → ProcState
    → ProcStat
    → Outcome ((ℕ × ProcState) × ProcStat)
unfolding proc_stat_read proc_status_get
proc_state_get sys file status_file procargs files rollup timenow pid procstate last = do
  (status, pstat) ← proc_stat_read sys file timenow pid last
  done (
      if status == 0
      then (
        (
          0,
          count_files files
              (proc_status_get status_file (state_of procargs rollup pstat procstate)).1,
        ),
        pstat,
      )
      else ((status, procstate), pstat))

-- If the first file of a process can not be read but the second can, the status is SIGAR_OK, and the
-- faults are those of the process that was read before.
pub proc_mem_get_stale :
    (sys : System) (st timenow pid : ℕ) (statm : Bytes) (mem : ProcMem) (last : ProcStat)
    → last.pid ≢ pid
    → let stale = record last { pid = pid; mtime = timenow } in
      (m : ProcMem) × (proc_mem_get sys (failed st) (answer statm) timenow pid mem last
        ≡ done ((0, m), stale))
      × (m.minor_faults ≡ last.minor_faults)
      × (m.page_faults ≡ (last.minor_faults + last.major_faults) % u64_mod)
unfolding proc_mem_get
proc_mem_get_stale sys st timenow pid statm mem last other =
    let e : (last.pid == pid) ≡ false = ground arith in
    let faults = record mem {
      minor_faults = last.minor_faults;
      major_faults = last.major_faults;
      page_faults = (last.minor_faults + last.major_faults) % u64_mod;
    } in
    ((read_statm sys (answer statm) faults).1, rw e refl, refl, refl)
