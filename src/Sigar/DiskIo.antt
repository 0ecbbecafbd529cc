-- ===== src/Sigar/DiskIo.antt =====
-- `sigar_proc_disk_io_get`: the bytes that a process read and wrote in a second, from the cumulative
-- numbers of the platform and those that the cache holds. `double` and its operations are parameters.
use libsigar.Base.{
  ℕ, ◌+◌, ◌-◌, ◌^◌, ◌<◌, ◌≤◌, Bool, true, false, ◌||◌, Option, List, ◌≡◌, refl, arith, ltb, leb,
  ◌∙◌, ap, subst, ◌==◌, if◌then◌else◌, field_notimpl, sub64,
}
use libsigar.Cache.{Cache}
use libsigar.Outcome.{Answer, answer, failed}
use libsigar.Sigar.Cached.{
  Times, with_entry, open_pid_cache, value_before, HasRoom, Updated, with_entry-Updated,
}

-- `((double)x / t) * SIGAR_MSEC`, and its test and conversion.
pub record Doubles (Dbl : Type 0) : Type 0 where
  pub per_second : ℕ → ℕ → Dbl
  pub is_nonneg : Dbl → Bool
  pub to_u64 : Dbl → ℕ

-- The cumulative numbers, and the rates.
pub record DiskIo : Type 0 where
  pub bytes_read : ℕ
  pub bytes_written : ℕ
  pub bytes_total : ℕ

-- `sigar_cached_proc_disk_io_t`.
pub record CachedDiskIo : Type 0 where
  pub cumulative : DiskIo
  pub last_time : ℕ
  pub diff : DiskIo

abbrev pub no_bytes : DiskIo
no_bytes = record { bytes_read = 0; bytes_written = 0; bytes_total = 0 }

abbrev pub cached_zero : CachedDiskIo
cached_zero = record { cumulative = no_bytes; last_time = 0; diff = no_bytes }

module _ {Dbl : Type 0} (dbl : Doubles Dbl) where
  unfoldable pub get_io_diff : ℕ → ℕ → ℕ → ℕ
  get_io_diff current_value prev_value time_diff =
      let io_diff = dbl.per_second (sub64 current_value prev_value) time_diff in
      if current_value == field_notimpl
      then field_notimpl
      else if dbl.is_nonneg io_diff
      then dbl.to_u64 io_diff
      else 0

  abbrev pub io_diffs : DiskIo → DiskIo → ℕ → DiskIo
  io_diffs now_io prev time_diff = record {
    bytes_read = get_io_diff now_io.bytes_read prev.bytes_read time_diff;
    bytes_written = get_io_diff now_io.bytes_written prev.bytes_written time_diff;
    bytes_total = get_io_diff now_io.bytes_total prev.bytes_total time_diff;
  }

  unfoldable pub calculate_io_diff : DiskIo → CachedDiskIo → ℕ → Bool → CachedDiskIo
  unfolding get_io_diff
  calculate_io_diff now_io cached time_diff is_first_time = record cached {
    diff = if is_first_time then no_bytes else io_diffs now_io cached.cumulative time_diff;
    cumulative = now_io;
  }

  -- What follows the read of the platform.
  abbrev pub after_read : Answer DiskIo → CachedDiskIo → ℕ → Bool → Answer DiskIo × CachedDiskIo
  after_read (failed st) prev time_diff is_first_time = (failed st, prev)
  after_read (answer now_io) prev time_diff is_first_time =
      let cached = calculate_io_diff now_io prev time_diff is_first_time in
      (answer cached.diff, cached)

  -- The update of the cached value. `time_diff` is signed; `fetch` is `sigar_proc_cumulative_disk_io_get`.
  unfoldable pub disk_io_step : Answer DiskIo → ℕ → CachedDiskIo → Answer DiskIo × CachedDiskIo
  unfolding calculate_io_diff
  disk_io_step fetch time_now prev =
      let time_diff = sub64 time_now prev.last_time in
      let is_negative = leb (2 ^ 63) time_diff in
      let prev' = record prev { last_time = time_now } in
      if is_negative || ltb time_diff 1000
      then (answer prev.diff, if is_negative then prev' else prev)
      else after_read fetch prev' time_diff (prev.last_time == 0)

  unfoldable pub proc_disk_io_get :
      (ℕ → Answer DiskIo)
      → Times
      → ℕ
      → Option (Cache CachedDiskIo)
      → Answer DiskIo × Cache CachedDiskIo × List CachedDiskIo
  unfolding with_entry disk_io_step
  proc_disk_io_get fetch times pid cache =
      with_entry cached_zero (disk_io_step (fetch pid) times.now) times pid cache

  -- A call runs the step on the value that it finds, and the cache holds what the step leaves.
  proc_disk_io_get-Updated :
      (fetch : ℕ → Answer DiskIo) (times : Times) (pid : ℕ) (cache : Option (Cache CachedDiskIo))
      → HasRoom cache
      → let c = open_pid_cache times.created cache in
        let (r, c', freed) = proc_disk_io_get fetch times pid cache in
        let s = disk_io_step (fetch pid) times.now (value_before cached_zero times pid c) in
        (r ≡ s.0) × Updated s.1 times pid c c'
  unfolding proc_disk_io_get
  proc_disk_io_get-Updated fetch times pid cache room =
      with_entry-Updated cached_zero (disk_io_step (fetch pid) times.now) times pid cache room

  -- Within a second of the last read the rates are those of the cache, which stays as it is.
  disk_io_step_soon :
      (fetch : Answer DiskIo) (time_now : ℕ) (prev : CachedDiskIo)
      → prev.last_time ≤ time_now
      → time_now < prev.last_time + 1000
      → time_now < 2 ^ 63
      → disk_io_step fetch time_now prev ≡ (answer prev.diff, prev)
  unfolding disk_io_step
  disk_io_step_soon fetch time_now prev le soon small =
      let d : sub64 time_now prev.last_time ≡ time_now - prev.last_time = omega arith in
      let forward : leb (2 ^ 63) (time_now - prev.last_time) ≡ false = ground arith in
      let short : ltb (time_now - prev.last_time) 1000 ≡ true = ground arith in
      rw (d, forward, short) refl

  disk_io_step_due :
      (fetch : Answer DiskIo) (time_now : ℕ) (prev : CachedDiskIo)
      → prev.last_time + 1000 ≤ time_now
      → time_now < 2 ^ 63
      → disk_io_step fetch time_now prev
        ≡ after_read fetch
            (record prev { last_time = time_now })
            (time_now - prev.last_time)
            (prev.last_time == 0)
  unfolding disk_io_step
  disk_io_step_due fetch time_now prev far small =
      let d : sub64 time_now prev.last_time ≡ time_now - prev.last_time = omega arith in
      let forward : leb (2 ^ 63) (time_now - prev.last_time) ≡ false = ground arith in
      let long : ltb (time_now - prev.last_time) 1000 ≡ false = ground arith in
      rw (d, forward, long) refl

  -- A read that is due and fails gives its status, keeps the rates and the numbers, and moves the
  -- time on: a second call within a second gives the old rates, with no error.
  pub disk_io_step_failed :
      (fetch : Answer DiskIo) (st time_now later : ℕ) (prev : CachedDiskIo)
      → prev.last_time + 1000 ≤ time_now
      → time_now ≤ later
      → later < time_now + 1000
      → later < 2 ^ 63
      → let r = disk_io_step (failed st) time_now prev in
        (r.0 ≡ failed st)
        × (r.1 ≡ record prev { last_time = time_now })
        × (disk_io_step fetch later r.1 ≡ (answer prev.diff, r.1))
  disk_io_step_failed fetch st time_now later prev far le soon small =
      let due = disk_io_step_due (failed st) time_now prev far (omega arith) in
      rw due (
        refl,
        refl,
        disk_io_step_soon fetch later (record prev { last_time = time_now }) le soon small,
      )

  -- The bytes in a second of a counter that has grown; one that the platform lacks has no rate.
  pub rate_of : ℕ → ℕ → ℕ → ℕ
  rate_of before now elapsed =
      if now == field_notimpl
      then field_notimpl
      else (let rate = dbl.per_second (now - before) elapsed in
          if dbl.is_nonneg rate then dbl.to_u64 rate else 0)

  -- Zeros without a last time, and else the rates since then.
  abbrev pub rates_since : CachedDiskIo → DiskIo → ℕ → DiskIo
  rates_since prev io now =
      if prev.last_time == 0
      then record { bytes_read = 0; bytes_written = 0; bytes_total = 0 }
      else record {
        bytes_read = rate_of prev.cumulative.bytes_read io.bytes_read (now - prev.last_time);
        bytes_written =
            rate_of prev.cumulative.bytes_written io.bytes_written (now - prev.last_time);
        bytes_total = rate_of prev.cumulative.bytes_total io.bytes_total (now - prev.last_time);
      }

  -- The counters have not shrunk.
  abbrev pub HaveGrown : DiskIo → DiskIo → Type 0
  HaveGrown before now =
      (before.bytes_read ≤ now.bytes_read)
      × (now.bytes_read < 2 ^ 64)
      × (before.bytes_written ≤ now.bytes_written)
      × (now.bytes_written < 2 ^ 64)
      × (before.bytes_total ≤ now.bytes_total)
      × (now.bytes_total < 2 ^ 64)

  get_io_diff-rate_of :
      (before now elapsed : ℕ)
      → before ≤ now
      → now < 2 ^ 64
      → get_io_diff now before elapsed ≡ rate_of before now elapsed
  unfolding get_io_diff rate_of
  get_io_diff-rate_of before now elapsed le small =
      let d : sub64 now before ≡ now - before = omega arith in rw (d) refl

  disk_io_step-rates_since :
      (io : DiskIo) (now : ℕ) (prev : CachedDiskIo)
      → prev.last_time + 1000 ≤ now
      → now < 2 ^ 63
      → HaveGrown prev.cumulative io
      → disk_io_step (answer io) now prev ≡ (
        answer (rates_since prev io now),
        record { cumulative = io; last_time = now; diff = rates_since prev io now },
      )
  unfolding calculate_io_diff
  disk_io_step-rates_since io now prev far small (r, r', w, w', t, t') =
      let elapsed = now - prev.last_time in
      disk_io_step_due (answer io) now prev far small
      ∙ rw
          (
            get_io_diff-rate_of prev.cumulative.bytes_read io.bytes_read elapsed r r',
            get_io_diff-rate_of prev.cumulative.bytes_written io.bytes_written elapsed w w',
            get_io_diff-rate_of prev.cumulative.bytes_total io.bytes_total elapsed t t',
          )
          refl

  -- In a well-formed cache with room for one more process, a read that is due, at least a second after
  -- the last time of the process and before 2 ^ 63, and that succeeds with counters of 64 bits that
  -- have not shrunk, gives for the bytes read, written and in all their growth per second since that
  -- time, 0 where that is negative, and the mark of a missing number for a counter that has it;
  -- without a last time it gives zeros. The cache then holds the counters, the time and the rates for
  -- the process, and for the others what the cleanup left.
  pub proc_disk_io_get-rates_since :
      (fetch : ℕ → Answer DiskIo) (times : Times) (pid : ℕ) (cache : Option (Cache CachedDiskIo))
      (io : DiskIo)
      → HasRoom cache
      → let c = open_pid_cache times.created cache in
        let prev = value_before cached_zero times pid c in
        prev.last_time + 1000 ≤ times.now
        → times.now < 2 ^ 63
        → fetch pid ≡ answer io
        → HaveGrown prev.cumulative io
        → let rates = rates_since prev io times.now in
          let (r, c', freed) = proc_disk_io_get fetch times pid cache in
          (r ≡ answer rates)
          × Updated (record { cumulative = io; last_time = times.now; diff = rates }) times pid c c'
  proc_disk_io_get-rates_since fetch times pid cache io room far small read grown =
      let c = open_pid_cache times.created cache in
      let prev = value_before cached_zero times pid c in
      let (r, u) = proc_disk_io_get-Updated fetch times pid cache room in
      let e =
        ap (λ a. disk_io_step a times.now prev) read
        ∙ disk_io_step-rates_since io times.now prev far small grown in
      (
        r ∙ ap (λ s. s.0) e,
        subst (λ s. Updated s.1 times pid c (proc_disk_io_get fetch times pid cache).1) e u,
      )
