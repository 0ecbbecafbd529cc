-- ===== src/Linux/Stat.antt =====
-- `proc_stat_read` and the functions that take the numbers of a process from it. `last_proc_stat` holds
-- what the last call read, with its process and time. An `int` is its bit pattern.
use libsigar.Base.{
  ℕ, ◌+◌, ◌*◌, ◌/◌, ◌%◌, ◌^◌, ◌<◌, ◌≡◌, ◌≢◌, refl, arith, ==_self, true, false, ◌&&◌, [], ◌∷◌,
  Option, none, some, ltb, ◌==◌, if◌then◌else◌, take, u32_mod, u64_mod,
}
use libsigar.Outcome.{einval_status, Answer, answer, failed, Outcome, done, fault, ◌>>=◌}
use libsigar.Text.{Bytes, split_at}
use libsigar.Util.Words.{skip_spaces, skip_token, skip_multiple_token}
use libsigar.Sigar.Cpu.{ProcTime}
use libsigar.Linux.Read.{strtoul}

-- What `sigar_os_open` found out: `pagesize` is a number of bits; `tick2msec` is SIGAR_TICK2MSEC, which
-- goes through `double`.
pub record System : Type 0 where
  pub ticks : ℕ
  pub boot_time : ℕ
  pub pagesize : ℕ
  pub tick2msec : ℕ → ℕ

-- `linux_proc_stat_t`.
pub record ProcStat : Type 0 where
  pub pid : ℕ
  pub mtime : ℕ
  pub vsize : ℕ
  pub rss : ℕ
  pub minor_faults : ℕ
  pub major_faults : ℕ
  pub ppid : ℕ
  pub tty : ℕ
  pub priority : ℕ
  pub nice : ℕ
  pub start_time : ℕ
  pub utime : ℕ
  pub stime : ℕ
  pub name : Bytes
  pub state : ℕ
  pub processor : ℕ

-- `SIGAR_LAST_PROC_EXPIRE`, in seconds, and the bytes of `name` with its end.
abbrev pub last_proc_expire : ℕ
last_proc_expire = 2

abbrev pub proc_name_len : ℕ
proc_name_len = 128

-- `strrchr(s, c)`, with what stands before the byte and behind it.
unfoldable pub split_last : ℕ → Bytes → Option (Bytes × Bytes)
split_last c [] = none
split_last c (b ∷ s) = elim (split_last c s) [
  | none ↦ if b == c then some ([], s) else none
  | some (l, r) ↦ some (b ∷ l, r)
]

module _ (sys : System) where
  abbrev pub pageshift : ℕ → ℕ
  pageshift x = x * 2 ^ sys.pagesize % u64_mod

  -- The fields from the fourth to the 39th.
  unfoldable pub read_fields : Bytes → ProcStat → ProcStat
  read_fields ptr pstat =
      let (ppid, p5) = strtoul ptr in
      let (tty, p8) = strtoul (skip_multiple_token p5 2) in
      let (minor_faults, p11) = strtoul (skip_multiple_token p8 2) in
      let (major_faults, p13) = strtoul (skip_token p11) in
      let (utime, p15) = strtoul (skip_token p13) in
      let (stime, p16) = strtoul p15 in
      let (priority, p19) = strtoul (skip_multiple_token p16 2) in
      let (nice, p20) = strtoul p19 in
      let (start_time, p23) = strtoul (skip_multiple_token p20 2) in
      let (vsize, p24) = strtoul p23 in
      let (rss, p25) = strtoul p24 in
      let (processor, p40) = strtoul (skip_multiple_token p25 14) in
      record pstat {
        ppid = ppid;
        tty = tty % u32_mod;
        minor_faults = minor_faults;
        major_faults = major_faults;
        utime = sys.tick2msec utime;
        stime = sys.tick2msec stime;
        priority = priority % u32_mod;
        nice = nice % u32_mod;
        start_time = (start_time / sys.ticks + sys.boot_time) * 1000 % u64_mod;
        vsize = vsize;
        rss = pageshift rss;
        processor = processor % u32_mod;
      }

  -- What stands behind the name. At the end of the text the state is its zero, and the pointer goes
  -- past it.
  unfoldable pub read_state : Bytes → ProcStat → Outcome ProcStat
  unfolding read_fields
  read_state [] pstat = fault
  read_state (state ∷ ptr) pstat =
      done (read_fields (skip_spaces ptr) (record pstat { state = state }))

  unfoldable pub parse_stat : Bytes → ProcStat → Outcome (ℕ × ProcStat)
  unfolding read_state split_last
  parse_stat buffer pstat = elim (split_at b'(' buffer) [
    | none ↦ done (einval_status, pstat)
    | some (before, ptr) ↦ elim (split_last b')' ptr) [
      | none ↦ done (einval_status, pstat)
      | some (name, tmp) ↦ (do
        pstat' ← read_state (skip_spaces tmp) (record pstat { name = take 127 name })
        done (0, pstat'))
    ]
  ]

  abbrev pub read_answer : Answer Bytes → ProcStat → Outcome (ℕ × ProcStat)
  read_answer (failed st) pstat = done (st, pstat)
  read_answer (answer buffer) pstat = parse_stat buffer pstat

  -- `file` is /proc/pid/stat, read if the last call was for another process or too long ago.
  unfoldable pub proc_stat_read : Answer Bytes → ℕ → ℕ → ProcStat → Outcome (ℕ × ProcStat)
  unfolding parse_stat
  proc_stat_read file timenow pid pstat =
      if pstat.pid == pid && ltb timenow (pstat.mtime + last_proc_expire)
      then done (0, pstat)
      else read_answer file (record pstat { pid = pid; mtime = timenow })

-- `sigar_proc_time_get`.
abbrev pub times_of : ProcStat → ProcTime
times_of pstat = record {
  start_time = pstat.start_time;
  user = pstat.utime;
  sys = pstat.stime;
  total = (pstat.utime + pstat.stime) % u64_mod;
}

unfoldable pub proc_time_get :
    System → Answer Bytes → ℕ → ℕ → ProcStat → Outcome (Answer ProcTime × ProcStat)
unfolding proc_stat_read
proc_time_get sys file timenow pid last = do
  (status, pstat) ← proc_stat_read sys file timenow pid last
  done (if status == 0 then (answer (times_of pstat), pstat) else (failed status, pstat))

-- If the file of a process can not be read, its status is given and the numbers of the process before
-- stay; a second call for the process within two seconds gives them as the numbers of this one.
pub proc_time_get_stale :
    (sys : System) (file : Answer Bytes) (st timenow later pid : ℕ) (last : ProcStat)
    → st ≢ 0
    → last.pid ≢ pid
    → later < timenow + last_proc_expire
    → let stale = record last { pid = pid; mtime = timenow } in
      (proc_time_get sys (failed st) timenow pid last ≡ done (failed st, stale))
      × (proc_time_get sys file later pid stale ≡ done (answer (times_of last), stale))
unfolding proc_time_get
proc_time_get_stale sys file st timenow later pid last bad other soon =
    let e : (last.pid == pid) ≡ false = ground arith in
    let status : (st == 0) ≡ false = ground arith in
    let fresh : ltb later (timenow + 2) ≡ true = ground arith in
    (rw (e, status) refl, rw (==_self pid, fresh) refl)
