-- ===== src/Linux/Tests.antt =====
-- The theorems on the texts of /proc at concrete values.
use mathlib.Core.List.{map}
use libsigar.Base.{false, true, ◌++◌, drop, ℕ, ◌+◌, ◌*◌, false, List, [], ◌∷◌, ◌≡◌, refl, arith}
use libsigar.Outcome.{Answer, ◌>>=◌, fault, answer, failed, done}
use libsigar.Text.{strtou, Bytes, codes, read_digits, skip_space, read_sign, strtol}
use libsigar.Util.Search.{rest_matches, search_from, str_str, strstr}
use libsigar.Util.Words.{word_until, skip_stop, skip_spaces}
use libsigar.Cache.{cache_new}
use libsigar.Format.Net.{inet, inet6}
use libsigar.Sigar.FsType.{fstype_none, with_name, fs_type_get, find_rule, common_rules}
use libsigar.Sigar.NetStat.{ConnectionType, net_stat_zero, net_stat_walk}
use libsigar.Linux.FsType.{os_fs_type, os_rules, fs_type_get-find_rule}
use libsigar.Linux.Hex.{
  hex_from, hex2int, read_words, convert_hex_address, hex_text, hex_texts, all_bytes,
  convert_hex_address-hex_texts,
}
use libsigar.Linux.Connections.{
  Flags, advance, read_socket, read_connection, read_lines, proc_net_read, read_protocol,
  net_connection_walk, list_callback, stat_callback, net_connection_list_get,
}
use libsigar.Linux.Follow.{net_connection_walk-net_stat_walk}
use libsigar.Linux.Read.{strtoul, Numeral, Signed}
use libsigar.Linux.Stat.{System, ProcStat, times_of, proc_time_get, proc_time_get_stale}
use libsigar.Linux.StatLine.{Line}
use libsigar.Linux.Memory.{Mem, mtrr_size, mtrr_total, mem_get}
use libsigar.Linux.Meminfo.{KernelMem, Says, mem_of, mem_get-mem_of}
use libsigar.Linux.Columns.{indent, columns, strtoul-columns}
use libsigar.Linux.Cpu.{
  cpu_zero, get_cpu_metrics, some_cpus, cpu_list_get, cpu_prefix, cpu_list_get-map,
}

abbrev system : System
system = record { ticks = 100; boot_time = 1000; pagesize = 12; tick2msec = λ n. n * 10 }

abbrev no_stat : ProcStat
no_stat = record {
  pid = 1;
  mtime = 50;
  vsize = 0;
  rss = 0;
  minor_faults = 7;
  major_faults = 8;
  ppid = 0;
  tty = 0;
  priority = 0;
  nice = 0;
  start_time = 0;
  utime = 30;
  stime = 40;
  name = [];
  state = b'S';
  processor = 0;
}

proc_time_get_stale_example :
    let stale = record no_stat { pid = 9; mtime = 60 } in
    (proc_time_get system (failed 3) 60 9 no_stat ≡ done (failed 3, stale))
    × (proc_time_get system (failed 3) 61 9 stale ≡ done (answer (times_of no_stat), stale))
proc_time_get_stale_example =
    proc_time_get_stale system (failed 3) 3 60 61 9 no_stat (omega arith) (omega arith)
      (omega arith)

abbrev forty_two : Numeral
forty_two = record {
  value = 42;
  text = codes "42";
  more = 1;
  reads = (unfold read_digits in refl);
  fits = omega arith;
}

abbrev plain : Signed
plain = record { minus = false; number = forty_two }

abbrev minus_forty_two : Signed
minus_forty_two = record { minus = true; number = forty_two }

-- A process with a name that holds a parenthesis.
abbrev line : Line
line = record {
  pid_text = codes "9 ";
  name = codes "a) b";
  state = b'R';
  ppid = forty_two;
  tty = plain;
  minor_faults = forty_two;
  major_faults = forty_two;
  utime = forty_two;
  stime = forty_two;
  priority = minus_forty_two;
  nice = minus_forty_two;
  start_time = forty_two;
  vsize = forty_two;
  rss = forty_two;
  processor = plain;
  skipped = λ i. codes "-1";
  words_lem = λ i. (refl, (refl, tt));
}

abbrev no_mem : Mem ℕ
no_mem = record {
  ram = 0;
  total = 4194304;
  used = 0;
  free = 0;
  actual_used = 0;
  actual_free = 0;
  used_percent = 0;
  free_percent = 0;
}

abbrev sixteen : Numeral
sixteen = record {
  value = 16;
  text = codes "16";
  more = 1;
  reads = (unfold read_digits in refl);
  fits = omega arith;
}

abbrev three : Numeral
three = record {
  value = 3;
  text = codes "3";
  more = 0;
  reads = (unfold read_digits in refl);
  fits = omega arith;
}

abbrev kernel_mem : KernelMem
kernel_mem = record {
  total = (4, sixteen);
  free = (6, three);
  buffers = (0, three);
  cached = (2, three);
}

abbrev mem_text : Bytes
mem_text =
    codes
      "MemTotal:     16 kB\nMemFree:       3 kB\nBuffers: 3 kB\nCached:   3 kB\nSwapCached: 7 kB\n"

mem_text-Says :
    Says mem_text (codes "MemTotal:") kernel_mem.total
    × Says mem_text (codes "MemFree:") kernel_mem.free
    × Says mem_text (codes "Buffers:") kernel_mem.buffers
    × Says mem_text (codes "Cached:") kernel_mem.cached
unfolding strstr str_str rest_matches search_from columns indent
mem_text-Says = (
  (refl, (drop 18 mem_text, refl)),
  (refl, (drop 38 mem_text, refl)),
  (refl, (drop 52 mem_text, refl)),
  (refl, (drop 67 mem_text, refl)),
)

mem_get-mem_of_example :
    let (status, mem', ram') = mem_get strtoul (λ x y. x) (answer mem_text) (failed 2) no_mem 0 in
    (status ≡ 0) × (record mem' { ram = 0 } ≡ mem_of (λ x y. x) kernel_mem)
mem_get-mem_of_example =
    let (total, free, buffers, cached) = mem_text-Says in
    mem_get-mem_of strtoul (λ x y. x) mem_text kernel_mem (failed 2) no_mem 0
      (λ k n w _. strtoul-columns k n ((0, w) ∷ [])) total free buffers cached (omega arith)
      (omega arith)

abbrev registers : List Bytes
registers = codes "size= 8MB: write-back" ∷ codes "size= 4MB: uncachable" ∷ []

registers_sum : mtrr_total registers 0 ≡ 8
unfolding mtrr_total mtrr_size strstr str_str rest_matches search_from strtol skip_space skip_spaces
    read_digits read_sign
registers_sum = refl

abbrev stat_lines : List Bytes
stat_lines = codes "cpu0 1 2 3 4 5 6 7" ∷ codes "cpu1 1 1 1 1" ∷ codes "intr 5" ∷ []

cpu_list_get-map_example :
    cpu_list_get (λ x n. x + n * 10) false 2 (answer (codes "cpu 9 9 9 9" ∷ stat_lines))
    ≡ some_cpus
        (λ x n. x + n * 10)
        (map
          (get_cpu_metrics (λ x n. x + n * 10) cpu_zero)
          (cpu_prefix (λ x n. x + n * 10) stat_lines))
cpu_list_get-map_example = cpu_list_get-map (λ x n. x + n * 10) 2 (codes "cpu 9 9 9 9") stat_lines

fs_type_get-find_rule_example :
    fs_type_get os_fs_type (codes "vzfs") 0
    ≡ with_name (find_rule (os_rules ++ common_rules) (codes "vzfs") fstype_none)
fs_type_get-find_rule_example = fs_type_get-find_rule (codes "vzfs")

convert_hex_address-hex_texts_example :
    (convert_hex_address (hex_text 8 16777343 ++ codes ":0050") 8 ≡ done (inet 16777343))
    × (convert_hex_address (hex_texts (0 ∷ 0 ∷ 4294901760 ∷ 16777343 ∷ []) ++ codes ":0050") 32
        ≡ done (inet6 (all_bytes (0 ∷ 0 ∷ 4294901760 ∷ 16777343 ∷ []))))
convert_hex_address-hex_texts_example =
    convert_hex_address-hex_texts 16777343 (0 ∷ 0 ∷ 4294901760 ∷ 16777343 ∷ []) (codes ":0050")
      (omega arith) (omega arith, (omega arith, (omega arith, (omega arith, tt)))) refl

abbrev net_lines : List Bytes
net_lines =
    codes "   0: 0100007F:0050 00000000:0000 0A 00000000:00000000 00:00000000 00000000  0 0 1"
    ∷ codes "   1: 0100007F:0050 0100007F:0099 01 00000000:00000000 00:00000000 00000000  0 0 2"
    ∷ []

abbrev tcp_flags : Flags
tcp_flags = record { client = true; server = true; tcp = true; udp = false; raw = false }

-- Four digits of a port.
abbrev four_digits : Bytes → ℕ × Bytes
four_digits p = (elim (hex2int p 4) [ fault ↦ 0 | done n ↦ n ], drop 4 p)

-- The files of TCP; there are none of version 6.
abbrev net_files : ConnectionType → Answer (List Bytes) × Answer (List Bytes)
net_files type = (answer (codes "  sl  local_address" ∷ net_lines), failed 2)

-- The two lines are read as connections: a socket that listens, and a connection from the port 153.
both_lines :
    (elim (net_connection_list_get four_digits tcp_flags net_files) [
      | fault ↦ []
      | done r ↦ map (λ c. c.remote_port * 100 + c.state * 10 + c.inode) r.1
    ])
    ≡ 101 ∷ 15312 ∷ []
unfolding strtoul strtou skip_space read_sign read_digits net_connection_list_get
    net_connection_walk read_protocol proc_net_read read_lines list_callback read_connection
    read_socket advance hex2int hex_from read_words convert_hex_address word_until skip_stop
both_lines = refl

net_connection_walk-net_stat_walk_example :
    net_connection_walk four_digits
      (stat_callback 5)
      tcp_flags
      net_files
      (net_stat_zero, cache_new 32 5)
    ≡ (net_connection_walk four_digits list_callback tcp_flags net_files [] >>= λ r.
        net_stat_walk 5 r.1 (net_stat_zero, cache_new 32 5) >>= λ s'. done (r.0, s'))
net_connection_walk-net_stat_walk_example =
    net_connection_walk-net_stat_walk four_digits 5 tcp_flags net_files
      (net_stat_zero, cache_new 32 5)
