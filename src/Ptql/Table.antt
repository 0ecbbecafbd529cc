-- ===== src/Ptql/Table.antt =====
-- The tables of src/sigar_ptql.c: the attributes of each method, and the methods.
use Prim.Native.String.{String}
use libsigar.Base.{[], ◌∷◌, List, none, some}
use libsigar.Text.{codes}
use libsigar.Ptql.Types.{
  ValueType, type_ui64, type_ui32, type_dbl, type_chr, type_str, type_any, Getter, struct_member,
  args_match, modules_match, env_match, pid_match, Init, init_none, init_any, init_args, init_port,
  init_pid, init_service, Lookup, PtqlEntry,
}

-- `{ name, PTQL_LOOKUP_ENTRY(cname, member, type) }`.
abbrev pub lookup_member : String → String → String → ValueType → Lookup
lookup_member name cname member type = record {
  name = some (codes name);
  get = struct_member (codes cname) (codes member);
  type = type;
  init = init_none;
}

-- `{ NULL, get, 0, 0, PTQL_VALUE_TYPE_ANY, init }`.
abbrev pub lookup_any : Getter → Init → List Lookup
lookup_any get init = record { name = none; get = get; type = type_any; init = init } ∷ []

-- `PTQL_Time`.
abbrev pub ptql_time : List Lookup
ptql_time =
    lookup_member "StartTime" "proc_time" "start_time" type_ui64
    ∷ lookup_member "User" "proc_time" "user" type_ui64
    ∷ lookup_member "Sys" "proc_time" "sys" type_ui64
    ∷ lookup_member "Total" "proc_time" "total" type_ui64
    ∷ []

-- `PTQL_Cpu`.
abbrev pub ptql_cpu : List Lookup
ptql_cpu =
    lookup_member "StartTime" "proc_cpu" "start_time" type_ui64
    ∷ lookup_member "User" "proc_cpu" "user" type_ui64
    ∷ lookup_member "Sys" "proc_cpu" "sys" type_ui64
    ∷ lookup_member "Total" "proc_cpu" "total" type_ui64
    ∷ lookup_member "Percent" "proc_cpu" "percent" type_dbl
    ∷ []

-- `PTQL_Disk_IO`.
abbrev pub ptql_disk_io : List Lookup
ptql_disk_io =
    lookup_member "BytesRead" "proc_disk_io" "bytes_read" type_ui64
    ∷ lookup_member "BytesWritten" "proc_disk_io" "bytes_written" type_ui64
    ∷ lookup_member "BytesTotal" "proc_disk_io" "bytes_total" type_ui64
    ∷ []

-- `PTQL_CredName`.
abbrev pub ptql_cred_name : List Lookup
ptql_cred_name =
    lookup_member "User" "proc_cred_name" "user" type_str
    ∷ lookup_member "Group" "proc_cred_name" "group" type_str
    ∷ []

-- `PTQL_Mem`.
abbrev pub ptql_mem : List Lookup
ptql_mem =
    lookup_member "Size" "proc_mem" "size" type_ui64
    ∷ lookup_member "Resident" "proc_mem" "resident" type_ui64
    ∷ lookup_member "Share" "proc_mem" "share" type_ui64
    ∷ lookup_member "MinorFaults" "proc_mem" "minor_faults" type_ui64
    ∷ lookup_member "MajorFaults" "proc_mem" "major_faults" type_ui64
    ∷ lookup_member "PageFaults" "proc_mem" "page_faults" type_ui64
    ∷ []

-- `PTQL_Exe`.
abbrev pub ptql_exe : List Lookup
ptql_exe =
    lookup_member "Name" "proc_exe" "name" type_str
    ∷ lookup_member "Cwd" "proc_exe" "cwd" type_str
    ∷ []

-- `PTQL_Cred`.
abbrev pub ptql_cred : List Lookup
ptql_cred =
    lookup_member "Uid" "proc_cred" "uid" type_ui32
    ∷ lookup_member "Gid" "proc_cred" "gid" type_ui32
    ∷ lookup_member "Euid" "proc_cred" "euid" type_ui32
    ∷ lookup_member "Egid" "proc_cred" "egid" type_ui32
    ∷ []

-- `PTQL_State`.
abbrev pub ptql_state : List Lookup
ptql_state =
    lookup_member "State" "proc_state" "state" type_chr
    ∷ lookup_member "Name" "proc_state" "name" type_str
    ∷ lookup_member "Ppid" "proc_state" "ppid" type_ui32
    ∷ lookup_member "Tty" "proc_state" "tty" type_ui32
    ∷ lookup_member "Nice" "proc_state" "nice" type_ui32
    ∷ lookup_member "Priority" "proc_state" "priority" type_ui32
    ∷ lookup_member "Threads" "proc_state" "threads" type_ui64
    ∷ lookup_member "Processor" "proc_state" "processor" type_ui32
    ∷ []

-- `PTQL_Fd`.
abbrev pub ptql_fd : List Lookup
ptql_fd = lookup_member "Total" "proc_fd" "total" type_ui64 ∷ []

-- `PTQL_Args`.
abbrev pub ptql_args : List Lookup
ptql_args = lookup_any args_match init_args

-- `PTQL_Modules`.
abbrev pub ptql_modules : List Lookup
ptql_modules = lookup_any modules_match init_args

-- `PTQL_Env`.
abbrev pub ptql_env : List Lookup
ptql_env = lookup_any env_match init_any

-- `PTQL_Port`.
abbrev pub ptql_port : List Lookup
ptql_port = lookup_any pid_match init_port

-- `PTQL_Pid`.
abbrev pub ptql_pid : List Lookup
ptql_pid = lookup_any pid_match init_pid

-- `PTQL_Service`.
abbrev pub ptql_service : List Lookup
ptql_service = lookup_any pid_match init_service

-- `ptql_map`.
abbrev pub ptql_map : List PtqlEntry
ptql_map =
    record { name = codes "Time"; members = ptql_time }
    ∷ record { name = codes "Cpu"; members = ptql_cpu }
    ∷ record { name = codes "CredName"; members = ptql_cred_name }
    ∷ record { name = codes "Mem"; members = ptql_mem }
    ∷ record { name = codes "Exe"; members = ptql_exe }
    ∷ record { name = codes "Cred"; members = ptql_cred }
    ∷ record { name = codes "State"; members = ptql_state }
    ∷ record { name = codes "Fd"; members = ptql_fd }
    ∷ record { name = codes "Args"; members = ptql_args }
    ∷ record { name = codes "Modules"; members = ptql_modules }
    ∷ record { name = codes "Env"; members = ptql_env }
    ∷ record { name = codes "Port"; members = ptql_port }
    ∷ record { name = codes "Pid"; members = ptql_pid }
    ∷ record { name = codes "Service"; members = ptql_service }
    ∷ record { name = codes "Disk_IO"; members = ptql_disk_io }
    ∷ []
