-- ===== src/Sigar/Tests.antt =====
-- The theorems on processes and connections at concrete values.
use libsigar.Base.{
  ◌≤◌, field_notimpl, ℕ, ◌-◌, ◌*◌, ◌/◌, true, none, some, List, [], ◌∷◌, ◌≡◌, refl, arith, get_or,
  get_or-replicate, ◌==◌, if◌then◌else◌,
}
use libsigar.Outcome.{Answer, answer, failed}
use libsigar.Cache.{
  Cache, cache_new, expired_cache_new, cache_get, perform_cleanup_if_necessary, lookup_entry,
  find_entry, append_entry, set_value, modify, grow_for_one,
}
use libsigar.Format.Net.{NetAddress, inet}
use libsigar.Sigar.Cached.{
  Times, with_entry, open_pid_cache, value_before, HasRoom, Updated, with_entry-Updated,
}
use libsigar.Sigar.DiskIo.{
  Doubles, DiskIo, CachedDiskIo, no_bytes, cached_zero, disk_io_step, proc_disk_io_get, rates_since,
  proc_disk_io_get-rates_since, disk_io_step_failed,
}
use libsigar.Sigar.Cpu.{Shares, ProcTime, ProcCpu, cpu_zero, cpu_percent, cpu_step, cpu_step_twice}
use libsigar.Sigar.NetStat.{
  NetConnection, netconn_tcp, netconn_udp, net_stat_zero, listen_address_found, net_stat_walk,
}
use libsigar.Cache.Shows.{Shows, cache_new-Shows}
use libsigar.Sigar.Listening.{view_walk, Same, Agree}
use libsigar.Sigar.Summary.{ProcState, proc_stat_get, in_states, known, proc_stat_get-counts}
use libsigar.Sigar.Walk.{net_stat_walk-Agree}
use libsigar.Sigar.Lookup.{address_of, listen_address_found-Shows}
use libsigar.Sigar.Totals.{Counts, Gives, HasSlots, net_stat_walk-Counts}

-- Whole numbers for `double`.
abbrev whole : Doubles ℕ
whole = record { per_second = λ x t. x * 1000 / t; is_nonneg = λ x. true; to_u64 = λ x. x }

abbrev percents : Shares ℕ
percents = record { dbl_zero = 0; ratio = λ x t. x * 100 / t }

abbrev calls : Times
calls = record { now = 5000; created = 5000; clock = 5001; access = 5002 }

abbrev read_io : DiskIo
read_io = record { bytes_read = 800; bytes_written = 200; bytes_total = 1000 }

abbrev before : CachedDiskIo
before = record {
  cumulative = record { bytes_read = 400; bytes_written = 200; bytes_total = 600 };
  last_time = 3000;
  diff = no_bytes;
}

-- A cache that holds the numbers of one process.
abbrev one_process : Cache CachedDiskIo
one_process = (with_entry {R = ℕ} cached_zero (λ _. (3, before)) calls 7 none).1

one_process-HasRoom : HasRoom (some one_process)
unfolding with_entry open_pid_cache expired_cache_new cache_get perform_cleanup_if_necessary
    lookup_entry find_entry append_entry set_value modify grow_for_one
one_process-HasRoom = (
  (with_entry-Updated {R = ℕ} cached_zero (λ _. (3, before)) calls 7 none tt).1.valid,
  omega arith,
)

before_is_found :
    value_before cached_zero calls 7 (open_pid_cache calls.created (some one_process)) ≡ before
unfolding with_entry open_pid_cache expired_cache_new cache_get perform_cleanup_if_necessary
    lookup_entry find_entry append_entry set_value modify grow_for_one
before_is_found = refl

proc_disk_io_get-rates_since_example :
    let c = open_pid_cache calls.created (some one_process) in
    let prev = value_before cached_zero calls 7 c in
    let rates = rates_since whole prev read_io 5000 in
    let (r, c', freed) = proc_disk_io_get whole (λ _. answer read_io) calls 7 (some one_process) in
    (r ≡ answer rates)
    × Updated (record { cumulative = read_io; last_time = 5000; diff = rates }) calls 7 c c'
proc_disk_io_get-rates_since_example =
    proc_disk_io_get-rates_since whole (λ _. answer read_io) calls 7 (some one_process) read_io
      one_process-HasRoom (rw before_is_found (omega arith)) (omega arith) refl
      (rw before_is_found (ground arith))

disk_io_step_failed_example :
    let r = disk_io_step whole (failed 3) 5000 before in
    (r.0 ≡ failed 3)
    × (r.1 ≡ record before { last_time = 5000 })
    × (disk_io_step whole (answer read_io) 5500 r.1 ≡ (answer before.diff, r.1))
disk_io_step_failed_example =
    disk_io_step_failed whole (answer read_io) 3 5000 5500 before (omega arith) (omega arith)
      (omega arith) (omega arith)

abbrev used : ProcTime
used = record { start_time = 1; user = 30; sys = 20; total = 50 }

abbrev last : ProcCpu ℕ
last = record {
  times = record { start_time = 1; user = 5; sys = 5; total = 10 };
  last_time = 4900;
  percent = 3;
}

cpu_step_twice_example :
    let r = cpu_step percents (answer used) 5000 (cpu_zero percents) last in
    let (status, first) = r.0 in
    let (status', second) = (cpu_step percents (failed 3) 5000 last r.1).0 in
    (status ≡ 0)
    × (status' ≡ 0)
    × (first.percent ≡ cpu_percent percents last.times.total used.total (5000 - last.last_time))
    × (second ≡ record first { percent = (cpu_zero percents).percent })
cpu_step_twice_example =
    cpu_step_twice percents (failed 3) used 5000 (cpu_zero percents) last last (omega arith)
      (omega arith)

-- A socket that listens on port 80, a connection to it, one from here, and one that is no TCP.
abbrev connections : List NetConnection
connections =
    record {
      local_port = 80;
      local_address = inet 5;
      remote_port = 0;
      remote_address = inet 0;
      type = netconn_tcp;
      state = 10;
      uid = 0;
      inode = 0;
      send_queue = 0;
      receive_queue = 0;
    }
    ∷ record {
      local_port = 80;
      local_address = inet 5;
      remote_port = 99;
      remote_address = inet 6;
      type = netconn_tcp;
      state = 1;
      uid = 0;
      inode = 0;
      send_queue = 0;
      receive_queue = 0;
    }
    ∷ record {
      local_port = 47;
      local_address = inet 5;
      remote_port = 22;
      remote_address = inet 6;
      type = netconn_tcp;
      state = 1;
      uid = 0;
      inode = 0;
      send_queue = 0;
      receive_queue = 0;
    }
    ∷ record {
      local_port = 53;
      local_address = inet 5;
      remote_port = 0;
      remote_address = inet 0;
      type = netconn_udp;
      state = 0;
      uid = 0;
      inode = 0;
      send_queue = 0;
      receive_queue = 0;
    }
    ∷ []

no_listeners-Shows : Shows {V = NetAddress} (λ _. none) (cache_new 32 5)
no_listeners-Shows = cache_new-Shows 32 5 (omega arith)

net_stat_walk-Agree_example :
    Agree
      (Same 0)
      (net_stat_walk 5 connections (net_stat_zero, cache_new 32 5))
      (view_walk connections (net_stat_zero, λ _. none))
net_stat_walk-Agree_example =
    net_stat_walk-Agree 5 connections net_stat_zero (cache_new 32 5) (λ _. none) no_listeners-Shows
      (unfold cache_new expired_cache_new in omega arith)

zero_states : (q : ℕ) → get_or net_stat_zero.tcp_states q 0 ≡ 0
zero_states q = get_or-replicate 14 q 0

zero-HasSlots : HasSlots 4 net_stat_zero
zero-HasSlots = record {
  slots = refl;
  states_fit = λ q. omega (arith, zero_states q);
  sides_fit = omega arith;
}

net_stat_walk-Counts_example :
    Gives
      (λ s. Counts connections net_stat_zero s.0)
      (net_stat_walk 5 connections (net_stat_zero, cache_new 32 5))
net_stat_walk-Counts_example =
    net_stat_walk-Counts 5 connections net_stat_zero (cache_new 32 5)
      ((λ _. omega arith), ((λ _. omega arith), ((λ _. omega arith), ((λ _. omega arith), tt))))
      zero-HasSlots

listen_address_found-Shows_example :
    let (r, c') = listen_address_found 5 80 (cache_new 32 5) in
    (r ≡ address_of none) × Shows (λ _. none) c'
listen_address_found-Shows_example =
    listen_address_found-Shows 5 80 (λ _. none) (cache_new 32 5) no_listeners-Shows
      (unfold cache_new expired_cache_new in omega arith)

-- A process that runs, one that waits and one that is gone.
abbrev states : ℕ → Answer ProcState
states pid =
    if pid == 9
    then failed 3
    else answer record {
      name = [];
      state = if pid == 7 then b'R' else b'S';
      ppid = 1;
      tty = 0;
      priority = 0;
      nice = 0;
      processor = 0;
      threads = 2;
      open_files = field_notimpl;
    }

proc_stat_get-counts_example :
    let (status, s) = proc_stat_get states (answer (7 ∷ 8 ∷ 9 ∷ [])) in
    (status ≡ 0)
    × (s.total ≡ 3)
    × (in_states s ≡ known states (7 ∷ 8 ∷ 9 ∷ []))
    × (in_states s ≤ s.total)
proc_stat_get-counts_example = proc_stat_get-counts states (7 ∷ 8 ∷ 9 ∷ []) (omega arith)
