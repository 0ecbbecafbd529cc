-- ===== src/Lib.antt =====
-- SIGAR, a C library that gathers information on the system: the parts of src/ that carry its own
-- logic, on every platform the same, and what Linux reads from the texts of its kernel.
--
-- The parts and their files.
--   Cache, and the folder Cache (src/sigar_cache.c): hash tables of entries with the time of their
--     last access. `Cache.Cache` is `sigar_cache_t`, an entry's chain is a list, `cache_find` and
--     `cache_get` are `sigar_cache_find` and `sigar_cache_get`. They return the table beside their
--     result, and the cleanup also returns the values that it frees. `set_value` is the caller's
--     write to `entry->value` through the pointer that `sigar_cache_get` gave it.
--   Ptql (src/sigar_ptql.c): queries on processes. Types, Ops and Table hold the types and the
--     tables of operators and methods; Parse, Init, Branch and Query go from a text to a list of
--     branches, as `sigar_ptql_query_create` does; Match and Process are `sigar_ptql_query_match`;
--     Find holds `sigar_ptql_query_find` and `sigar_ptql_query_find_process`. RoundTrip, Accepted,
--     Literal, Faultless, Conjunction, Sorted, Picks and Selected prove.
--   Util (src/sigar_util.c): the text utilities, of which Ptql uses the search regardless of case.
--     CpuModel has the names, frequencies and cores of processors. Words has numbers, tokens, words
--     and the arguments of a process; `digits_from` has the room of `sigar_uitoa`'s buffer as its
--     fuel.
--   Rma (src/sigar_rma.c): the ring of samples and its averages. `average_from` has the number of
--     slots as its fuel; `get_average` gives `none` if it does not do.
--   Format (src/sigar_format.c): sizes, up-times and IPv4 addresses as texts; `size_from` goes
--     through the units, and gives `none` past the last. Net has the comparison and the hash of
--     network addresses. Names are the texts of errors, flags, states and addresses; Services is
--     `sigar_net_services_name_get`, whose tables are those of Cache; Percent is
--     `sigar_cpu_perc_calculate`.
--   FileInfo (src/sigar_fileinfo.c): Attrs are types, permissions and attributes, FsUsage is
--     `sigar_statvfs`, Dirs is `dir_stat_get`, whose path stands in a buffer of fixed size. Its
--     fuel is one more than that size, since a path grows with each call and none that fills the
--     buffer can be opened. Permissions, Found and Walk prove.
--   Signal (src/sigar_signal.c): Numbers is `sigar_signum_get` and `sigar_proc_kill`.
--   Sigar (src/sigar.c): Cached, Cpu and DiskIo are `sigar_proc_cpu_get` and
--     `sigar_proc_disk_io_get`, whose last values stand in a cache; Cached is what the two share.
--     NetStat is `sigar_net_stat_get`, its callbacks, and `sigar_net_listen_address_get`, whose
--     listening addresses stand in a cache that never cleans up, so that one reading of the clock
--     does for a walk. Listening, Walk, Totals and Lookup prove, on Shows in the folder Cache.
--     Growing are the ten lists that grow, Listed what fills them, Filled proves. Primary is the
--     choice of the primary interface. Summary is
--     `sigar_proc_stat_get`, FsType is `sigar_fs_type_get`.
--   Linux (src/os/linux/linux_sigar.c): Read has numbers and words; Stat is `proc_stat_read`, with
--     the last process it read as its state, and Files are the functions that use it or search
--     other files of a process; Memory is `sigar_mem_get` and `sigar_swap_get`, Cpu
--     `sigar_cpu_list_get` and the counters of the system; CpuInfo is `get_cpu_info`; Net are the
--     counters of interfaces and TCP, and the names of interfaces, Nfs those of NFS; FsType are
--     the names of file systems; Hex and Connections are `sigar_net_connection_walk`, whose
--     callback may be that of NetStat. A file is its text or lines, or a status. StatLine,
--     Meminfo, NetLines on the padded lines of Columns, Devices and Follow prove.
--   Outcome: answers of the platform, and code with no defined behaviour.
--   Text: the functions of the C library on texts, where the code takes their results apart. A text
--     is the list of its bytes before the terminating zero.
--   Base: what all parts share.
--
-- A C integer is a natural number with its wrap-around written out; a process id has 32 bits. A
-- union is a data type whose members are tagged, and reading another member than the one written,
-- or past a table, is the outcome `fault`. Each loop goes through a list or a text, but for the
-- three with fuel above. The tables have fewer than 2 ^ 31 entries, since `sigar_cache_get`
-- doubles their number in 32 bits; that `sigar_cache_rehash` counts the chains in an `int` is left
-- out, which would matter from 2 ^ 31 chains on. `sigar_time_now_millis` is a parameter of each
-- operation, once for the cleanup and once for the access.
--
-- Parameters: the platform's getters, process list, connections and files, `double`, `strtod`,
-- `float`, `strtoull` with the base 0, `stat`, `lstat`, `statvfs`, `opendir`, `cpuid`,
-- `kill` and the numbers of signals, `getpwuid_r`, `getgrgid_r`, `strerror` and `inet_ntop`, the environment, the
-- own process id, and the caller's regular expressions. `qsort` is stable, as in glibc.
--
-- Not modelled: the platforms under src/os, since they read kernel interfaces, but for the parsers
-- of Linux; the interfaces and names of hosts in src/sigar.c; what src/sigar_fileinfo.c and
-- src/sigar_signal.c do on Windows; the build with PCRE and the Windows service walker of
-- src/sigar_ptql.c; allocation and its failures; the debug output of src/sigar_cache.c; files and
-- directories in src/sigar_util.c; src/sigar_elf.c.
pub mod Base
pub mod Outcome
pub mod Cache
pub mod Text
pub mod Util
pub mod Ptql
pub mod Rma
pub mod Format
pub mod FileInfo
pub mod Signal
pub mod Sigar
pub mod Linux
