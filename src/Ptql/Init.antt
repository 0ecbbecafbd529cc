-- ===== src/Ptql/Init.antt =====
-- The `init` functions of the lookups: what a branch on arguments, a port, a process id or a service
-- keeps of its text. The `pid_t` of a process is its 32-bit pattern.
use libsigar.Base.{ℕ, ◌%◌, true, ◌==◌, if◌then◌else◌, u32_mod}
use libsigar.Text.{Bytes, codes, str_eq, strtou, strtol, strtonum_failed}
use libsigar.Ptql.Types.{
  OpName, op_rank, OpFlags, ParseBranch, pid_pid, pid_file, pid_sudo_file, pid_tcp_port,
  pid_service_name, pid_service_display, pid_service_path, pid_service_exe, pid_service_pid,
  unsupported_attribute, not_a_number, requires_eq, unsupported_protocol, Result, ok, malformed,
}

-- `any_value_t` as a branch's `data` holds it before a match.
pub data Data : Type 0 where
  data_zero : Data
  data_pid data_ui32 : ℕ → Data
  data_str : Bytes → Data

-- What an `init` sets.
pub record Inited : Type 0 where
  pub stored : Data
  pub flags : ℕ
  pub op_flags : OpFlags

unfoldable pub branch_init_any : ParseBranch → OpFlags → Result Inited
branch_init_any p fl = ok (record { stored = data_str p.attr; flags = 0; op_flags = fl })

unfoldable pub args_branch_init : ParseBranch → OpFlags → Result Inited
args_branch_init p fl =
    let num = strtol p.attr in
    if str_eq p.attr (codes "*")
    then ok (record { stored = data_zero; flags = 0; op_flags = record fl { glob = true } })
    else if strtonum_failed num
    then malformed (not_a_number p.attr)
    else ok (record { stored = data_ui32 (num.value % u32_mod); flags = 0; op_flags = fl })

-- Both protocols get the kind of `tcp`.
unfoldable pub branch_init_port : ParseBranch → OpName → OpFlags → Result Inited
branch_init_port p op fl =
    let num = strtou 64 p.value in
    let port : ℕ → Result Inited = λ kind.
      if strtonum_failed num
      then malformed (not_a_number p.value)
      else ok (record {
        stored = data_ui32 (num.value % u32_mod);
        flags = kind;
        op_flags = record fl { pid = true };
      }) in
    if op_rank op == 0
    then (if str_eq p.attr (codes "tcp")
        then port pid_tcp_port
        else if str_eq p.attr (codes "udp")
        then port pid_tcp_port
        else malformed (unsupported_protocol p.name p.attr))
    else malformed (requires_eq p.name)

unfoldable pub branch_init_pid : ℕ → ParseBranch → OpFlags → Result Inited
branch_init_pid getpid p fl =
    let pid_flags = record fl { pid = true } in
    let num = strtou 64 p.value in
    let file : ℕ → Result Inited =
      λ kind. ok (record { stored = data_str p.value; flags = kind; op_flags = pid_flags }) in
    if str_eq p.attr (codes "Pid")
    then (if str_eq p.value (codes "$$")
        then ok (record { stored = data_pid getpid; flags = pid_pid; op_flags = pid_flags })
        else if strtonum_failed num
        then malformed (not_a_number p.value)
        else ok (record {
          stored = data_pid (num.value % u32_mod);
          flags = pid_pid;
          op_flags = pid_flags;
        }))
    else if str_eq p.attr (codes "PidFile")
    then file pid_file
    else if str_eq p.attr (codes "SudoPidFile")
    then file pid_sudo_file
    else malformed (unsupported_attribute p.name p.attr)

unfoldable pub branch_init_service : ParseBranch → OpFlags → Result Inited
branch_init_service p fl =
    let kind : ℕ → Result Inited =
      λ k. ok (record { stored = data_zero; flags = k; op_flags = record fl { pid = true } }) in
    if str_eq p.attr (codes "Name")
    then kind pid_service_name
    else if str_eq p.attr (codes "DisplayName")
    then kind pid_service_display
    else if str_eq p.attr (codes "Path")
    then kind pid_service_path
    else if str_eq p.attr (codes "Exe")
    then kind pid_service_exe
    else if str_eq p.attr (codes "Pid")
    then kind pid_service_pid
    else malformed (unsupported_attribute p.name p.attr)
