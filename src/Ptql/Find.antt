-- ===== src/Ptql/Find.antt =====
-- `sigar_ptql_query_find` and `sigar_ptql_query_find_process`: the processes that a query is run on,
-- and those that match. A process list that grows is a list.
use libsigar.Base.{
  ℕ, ◌+◌, ◌%◌, Bool, true, false, ◌&&◌, ◌||◌, not, [], ◌∷◌, ◌++◌, List, Option, none, some, ltb,
  leb, ◌==◌, if◌then◌else◌, u32_mod,
}
use libsigar.Text.{Bytes, strtou}
use libsigar.Ptql.Types.{
  op_rank, pid_file, pid_sudo_file, pid_tcp_port, pid_udp_port, pid_service_name,
}
use libsigar.Ptql.Ops.{op_ui32}
use libsigar.Ptql.Init.{Data, data_zero, data_pid, data_ui32, data_str}
use libsigar.Ptql.Branch.{Branch}
use libsigar.Ptql.Match.{
  Answer, answer, failed, Outcome, done, fault, ◌>>=◌, Platform, in_table, data_as_ui32,
}
use libsigar.Ptql.Process.{sigar_ok, sigar_enotimpl, query_match}

-- What the search takes from the platform: the processes, files, and the owner of a port.
pub record Processes : Type 0 where
  pub proc_list : Answer (List ℕ)
  pub file2str : Bytes → Answer Bytes
  pub sudo_file2str : Bytes → Answer Bytes
  pub proc_port : Bool → ℕ → Answer ℕ

-- `ERANGE`.
abbrev pub erange_status : ℕ
erange_status = 34

-- `str2pid` of a file's text. With no digit `errno` is still 0, so the caller is told `SIGAR_OK`, with
-- the 0 of the failed conversion as the process id.
unfoldable pub pid_of_text : Bytes → Answer ℕ
pid_of_text text =
    let num = strtou 64 text in
    if num.converted && num.erange
    then failed erange_status
    else answer (if num.converted then num.value % u32_mod else 0)

abbrev pub pid_of_file : Answer Bytes → Answer ℕ
pid_of_file (failed st) = failed st
pid_of_file (answer text) = pid_of_text text

abbrev pub data_as_str : Data → Outcome Bytes
data_as_str (data_str s) = done s
data_as_str _ = fault

abbrev pub data_as_pid : Data → Outcome ℕ
data_as_pid data_zero = done 0
data_as_pid (data_pid n) = done n
data_as_pid (data_ui32 n) = done n
data_as_pid _ = fault

module _ {Dbl : Type 0} (ps : Processes) where
  -- `ptql_pid_get`, with `ptql_pid_port_get`.
  unfoldable pub pid_get : Branch Dbl → Outcome (Answer ℕ)
  unfolding pid_of_text
  pid_get b =
      if b.flags == pid_file
      then (do name ← data_as_str b.stored; done (pid_of_file (ps.file2str name)))
      else if b.flags == pid_sudo_file
      then (do name ← data_as_str b.stored; done (pid_of_file (ps.sudo_file2str name)))
      else if b.flags == pid_service_name
      then done (failed sigar_enotimpl)
      else if b.flags == pid_udp_port || b.flags == pid_tcp_port
      then (do port ← data_as_ui32 b.stored; done (ps.proc_port (b.flags == pid_udp_port) port))
      else (do pid ← data_as_pid b.stored; done (answer pid))

  -- The pids that `pid_branch_match` accepts.
  unfoldable pub filter_pids : Branch Dbl → ℕ → List ℕ → Outcome (List ℕ)
  filter_pids b match_pid [] = done []
  filter_pids b match_pid (pid ∷ pids) = do
    m ← in_table (op_ui32 b.op_name pid match_pid)
    rest ← filter_pids b match_pid pids
    done (if m then pid ∷ rest else rest)

  abbrev pub list_matches : Branch Dbl → Answer (List ℕ) → ℕ → List ℕ → Outcome (Answer (List ℕ))
  list_matches b (failed st) match_pid proclist = done (failed st)
  list_matches b (answer pids) match_pid proclist = do
    more ← filter_pids b match_pid pids
    done (answer (proclist ++ more))

  -- A service query other than by the name matches nothing on Unix; a pid that cannot be had is no
  -- match.
  unfoldable pub pid_list_get : Branch Dbl → List ℕ → Outcome (Answer (List ℕ))
  unfolding pid_get filter_pids
  pid_list_get b proclist =
      if leb pid_service_name b.flags
        && (ltb pid_service_name b.flags || not (op_rank b.op_name == 0))
      then done (answer proclist)
      else (do
        a ← pid_get b
        elim a [
          | failed st ↦ done (answer proclist)
          | answer match_pid ↦ list_matches b ps.proc_list match_pid proclist
        ])

  -- The pids that the branches of kind `Pid` select, one after the other; `none` if there is no such
  -- branch.
  unfoldable pub prefilter :
      List (Branch Dbl) → Option (List ℕ) → Outcome (Answer (Option (List ℕ)))
  prefilter [] proclist = done (answer proclist)
  prefilter (b ∷ bs) proclist =
      let skip = prefilter bs proclist in
      let use_pid : Outcome (Answer (Option (List ℕ))) = (do
        a ← pid_list_get b (elim proclist [ none ↦ [] | some l ↦ l ])
        elim a [ failed st ↦ done (failed st) | answer l ↦ prefilter bs (some l) ]) in
      if b.op_flags.pid then use_pid else skip

  unfoldable pub proc_list_get : List (Branch Dbl) → Outcome (Answer (List ℕ))
  unfolding prefilter pid_list_get
  proc_list_get query = do
    a ← prefilter query none
    elim a [
      | failed st ↦ done (failed st)
      | answer none ↦ done ps.proc_list
      | answer (some l) ↦ done (answer l)
    ]

  module _ (os : Platform Dbl) (query : List (Branch Dbl)) where
    -- The loop of both searches: the pids that match, until a method is not implemented.
    unfoldable pub find_from : List ℕ → Outcome (Answer (List ℕ))
    find_from [] = done (answer [])
    find_from (pid ∷ pids) = do
      st ← query_match os query pid
      rest ← (if st == sigar_enotimpl then done (failed sigar_enotimpl) else find_from pids)
      done (elim rest [
        | failed e ↦ failed e
        | answer l ↦ answer (if st == sigar_ok then pid ∷ l else l)
      ])

    unfoldable pub query_find : Outcome (Answer (List ℕ))
    unfolding proc_list_get find_from
    query_find = do
      a ← proc_list_get query
      elim a [ failed st ↦ done (failed st) | answer pids ↦ find_from pids ]

-- How `sigar_ptql_query_find_process` ends; what a search that finds no single process leaves in
-- `*pid` is not part of it.
pub data FindProcess : Type 0 where
  found_process : ℕ → FindProcess
  none_matched : FindProcess
  multiple_matched search_failed : ℕ → FindProcess

abbrev pub process_result : ℕ → ℕ → FindProcess
process_result matches pid =
    if matches == 1
    then found_process pid
    else if matches == 0
    then none_matched
    else multiple_matched matches

module _ {Dbl : Type 0} (ps : Processes) (os : Platform Dbl) (query : List (Branch Dbl)) where
  -- The loop, with `matches` and `*pid` as its state.
  unfoldable pub count_from : List ℕ → ℕ → ℕ → Outcome FindProcess
  count_from [] matches last = done (process_result matches last)
  count_from (pid ∷ pids) matches last = do
    st ← query_match os query pid
    elim (st == sigar_ok) [
      | true ↦ count_from pids (matches + 1) pid
      | false ↦ elim (st == sigar_enotimpl) [
        | true ↦ done (search_failed sigar_enotimpl)
        | false ↦ count_from pids matches last
      ]
    ]

  unfoldable pub query_find_process : ℕ → Outcome FindProcess
  unfolding proc_list_get count_from
  query_find_process before = do
    a ← proc_list_get ps query
    elim a [ failed st ↦ done (search_failed st) | answer pids ↦ count_from pids 0 before ]
