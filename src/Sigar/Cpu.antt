-- ===== src/Sigar/Cpu.antt =====
-- `sigar_proc_cpu_get`: the share of a processor that a process used since the last call. The numbers
-- are of 64 bits; `double` is a parameter.
use libsigar.Base.{
  ℕ, ◌-◌, ◌^◌, ◌<◌, false, Option, List, ◌≡◌, refl, arith, ltb, ◌==◌, if◌then◌else◌, sub64,
}
use libsigar.Cache.{Cache}
use libsigar.Outcome.{Answer, answer, failed}
use libsigar.Sigar.Cached.{
  Times, with_entry, open_pid_cache, value_before, HasRoom, Updated, with_entry-Updated,
}

-- `total_diff / (double)time_diff`, and 0.0.
pub record Shares (Dbl : Type 0) : Type 0 where
  pub dbl_zero : Dbl
  pub ratio : ℕ → ℕ → Dbl

-- `sigar_proc_time_t`.
pub record ProcTime : Type 0 where
  pub start_time : ℕ
  pub user : ℕ
  pub sys : ℕ
  pub total : ℕ

-- `sigar_proc_cpu_t`, which begins with the fields of `sigar_proc_time_t`.
pub record ProcCpu (Dbl : Type 0) : Type 0 where
  pub times : ProcTime
  pub last_time : ℕ
  pub percent : Dbl

module _ {Dbl : Type 0} (dbl : Shares Dbl) where
  abbrev pub cpu_zero : ProcCpu Dbl
  cpu_zero = record {
    times = record { start_time = 0; user = 0; sys = 0; total = 0 };
    last_time = 0;
    percent = dbl.dbl_zero;
  }

  -- The percentage, from the total before and now.
  unfoldable pub cpu_percent : ℕ → ℕ → ℕ → Dbl
  cpu_percent otime total time_diff =
      let otime' = if ltb total otime then 0 else otime in
      if otime' == 0 then dbl.dbl_zero else dbl.ratio (total - otime') time_diff

  -- What the caller's buffer and the cached value are behind the read of the platform: the buffer is
  -- copied before its percentage is set.
  abbrev pub after_times :
      Answer ProcTime → ProcCpu Dbl → ProcCpu Dbl → ℕ → (ℕ × ProcCpu Dbl) × ProcCpu Dbl
  after_times (failed st) buffer prev time_diff = ((st, buffer), prev)
  after_times (answer t) buffer prev time_diff =
      let cached = record buffer { times = t } in
      ((0, record cached { percent = cpu_percent prev.times.total t.total time_diff }), cached)

  -- The status with the buffer, and the cached value. `buffer` is what the caller handed in.
  unfoldable pub cpu_step :
      Answer ProcTime → ℕ → ProcCpu Dbl → ProcCpu Dbl → (ℕ × ProcCpu Dbl) × ProcCpu Dbl
  unfolding cpu_percent
  cpu_step fetch time_now buffer prev =
      let time_diff = sub64 time_now prev.last_time in
      let prev' = record prev { last_time = time_now } in
      if time_diff == 0
      then ((0, prev'), prev')
      else after_times fetch (record buffer { last_time = time_now }) prev' time_diff

  unfoldable pub proc_cpu_get :
      (ℕ → Answer ProcTime)
      → Times
      → ℕ
      → ProcCpu Dbl
      → Option (Cache (ProcCpu Dbl))
      → (ℕ × ProcCpu Dbl) × Cache (ProcCpu Dbl) × List (ProcCpu Dbl)
  unfolding with_entry cpu_step
  proc_cpu_get fetch times pid buffer cache =
      with_entry cpu_zero (cpu_step (fetch pid) times.now buffer) times pid cache

  -- In a well-formed cache with room for one more process a call updates the value of the process;
  -- every later search finds for the other processes what the cleanup left.
  pub proc_cpu_get-Updated :
      (fetch : ℕ → Answer ProcTime) (times : Times) (pid : ℕ) (buffer : ProcCpu Dbl)
      (cache : Option (Cache (ProcCpu Dbl)))
      → HasRoom cache
      → let c = open_pid_cache times.created cache in
        let (r, c', freed) = proc_cpu_get fetch times pid buffer cache in
        let s = cpu_step (fetch pid) times.now buffer (value_before cpu_zero times pid c) in
        (r ≡ s.0) × Updated s.1 times pid c c'
  unfolding proc_cpu_get
  proc_cpu_get-Updated fetch times pid buffer cache room =
      with_entry-Updated cpu_zero (cpu_step (fetch pid) times.now buffer) times pid cache room

  -- After a successful read a second call in the same millisecond gives the times of the first, but as
  -- the percentage what the buffer of the first call held when it was handed in.
  pub cpu_step_twice :
      (fetch : Answer ProcTime) (t : ProcTime) (time_now : ℕ) (buffer buffer' prev : ProcCpu Dbl)
      → prev.last_time < time_now
      → time_now < 2 ^ 64
      → let r = cpu_step (answer t) time_now buffer prev in
        let (status, first) = r.0 in
        let (status', second) = (cpu_step fetch time_now buffer' r.1).0 in
        (status ≡ 0)
        × (status' ≡ 0)
        × (first.percent ≡ cpu_percent prev.times.total t.total (time_now - prev.last_time))
        × (second ≡ record first { percent = buffer.percent })
  unfolding cpu_step
  cpu_step_twice fetch t time_now buffer buffer' prev lt small =
      let d : sub64 time_now prev.last_time ≡ time_now - prev.last_time = omega arith in
      let some_time : (time_now - prev.last_time == 0) ≡ false = ground arith in
      let none_passed : sub64 time_now time_now ≡ 0 = omega arith in
      rw (d, some_time, none_passed) (refl, refl, refl, refl)
