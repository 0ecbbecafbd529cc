-- ===== src/Ptql/Tests.antt =====
-- The theorems on queries at concrete queries, and runs of the code.
use libsigar.Base.{
  Bool, ℕ, true, false, [], ◌∷◌, List, none, some, ◌≡◌, ◌≢◌, ◌↔◌, refl, arith, ltb, leb, ◌==◌,
  if◌then◌else◌, All,
}
use libsigar.Text.{
  Bytes, codes, str_eq, strtou, str_cmp, split_at, skip_space, read_digits, read_sign, strtol,
}
use libsigar.Ptql.Types.{
  op_ew, no_flags, ParseBranch, Result, ok, malformed, type_str, struct_member, init_none,
  pid_tcp_port, op_ne, unsupported_operator_for,
}
use libsigar.Ptql.Ops.{op_code_get, op_ui64, op_ui32, op_chr, op_dbl, op_str}
use libsigar.Ptql.Init.{
  data_zero, branch_init_any, args_branch_init, branch_init_port, branch_init_pid,
  branch_init_service,
}
use libsigar.Ptql.Parse.{branch_parse, rename_service, modifier, parse_modifiers, parse_query}
use libsigar.Ptql.RoundTrip.{print, flags_of, branch_parse-print}
use libsigar.Ptql.Branch.{
  value_str, Host, Branch, branch_add, value_ui32, find_method, find_attr, any_member, find_lookup,
  check_operator, supported, run_init, set_variable, parse_value, branch_value,
}
use libsigar.Ptql.Accepted.{Accepted, branch_add-Accepted}
use libsigar.Ptql.Query.{query_create, sort_branches, has_ref, pieces, add_pieces, insert_branch}
use libsigar.Ptql.Match.{
  Answer, answer, failed, done, fault, ◌>>=◌, Cell, cell_str, cell_ui32, Platform, str_match,
  match_text, branch_match, branch_match_ref, match_any, match_index, ptql_args, ptql_modules,
  env_lookup, ptql_env,
}
use libsigar.Ptql.Process.{
  sigar_ok, query_match, get_any, match_cell, match_answer, match_struct, match_branch, with_parent,
  match_round, match_from,
}
use libsigar.Ptql.Conjunction.{IsHonest, Holds, query_match-All}
use libsigar.Ptql.Sorted.{IsSorted, query_match-sort}
use libsigar.Ptql.Find.{
  Processes, query_find, query_find_process, pid_of_text, pid_get, filter_pids, pid_list_get,
  prefilter, proc_list_get, find_from, count_from,
}
use libsigar.Ptql.Selected.{process_of, query_find_process-query_find}
use libsigar.Util.Search.{rest_matches, search_from, str_str, strcasestr, strstr}
use libsigar.Ptql.Faultless.{match_cell-branch_add}
use libsigar.Ptql.Picks.{Picks, query_find-Picks}

program : Unit {0}
unfolding find_method find_attr any_member find_lookup check_operator supported run_init
    set_variable parse_value branch_value branch_add pid_of_text pid_get filter_pids pid_list_get
    prefilter proc_list_get find_from query_find count_from query_find_process branch_init_any
    args_branch_init branch_init_port branch_init_pid branch_init_service str_match match_text
    branch_match branch_match_ref match_any match_index ptql_args ptql_modules env_lookup ptql_env
    op_code_get op_ui64 op_ui32 op_chr op_dbl op_str modifier parse_modifiers parse_query
    rename_service branch_parse get_any match_cell match_answer match_struct match_branch
    with_parent match_round match_from query_match pieces add_pieces insert_branch sort_branches
    has_ref query_create print str_eq str_cmp split_at skip_space read_digits read_sign strtou
    strtol rest_matches search_from str_str strcasestr strstr
program = tt

abbrev host : Host
host = record { Dbl = ℕ; strtod = λ s. some (strtou 64 s).value; getenv = λ s. none; getpid = 7 }

-- Process 1 is `init`, process 2 its child `sh`; others do not exist.
abbrev member : Bytes → Bytes → ℕ → Answer (Cell ℕ)
member class name pid =
    if leb 3 pid
    then failed 3
    else if str_eq name (codes "name")
    then answer (cell_str (if pid == 1 then codes "init" else codes "sh"))
    else answer (cell_ui32 (if pid == 1 then 0 else 1))

abbrev os : Platform ℕ
os = record {
  order = record { dbl_zero = 0; dbl_eq = λ a b. a == b; dbl_lt = ltb; dbl_le = leb };
  member = member;
  state_ppid = λ pid. if pid == 2 then answer 1 else failed 3;
  proc_args = λ pid. failed 3;
  proc_modules = λ pid. failed 3;
  proc_env = λ pid. failed 3;
  re_impl = none;
}

abbrev ps : Processes
ps = record {
  proc_list = answer (1 ∷ 2 ∷ []);
  file2str = λ s. failed 2;
  sudo_file2str = λ s. failed 2;
  proc_port = λ udp port. failed 2;
}

abbrev branch_of : Result (Branch ℕ) → List (Branch ℕ) → List (Branch ℕ)
branch_of (ok b) bs = b ∷ bs
branch_of (malformed e) bs = []

abbrev parsed : Bytes → ParseBranch
parsed s = elim (branch_parse s) [
  | ok p ↦ p
  | malformed e ↦ record { name = []; attr = []; op = []; value = []; op_flags = no_flags }
]

-- The parent's name is `init`, and the process is named `sh`.
abbrev query : List (Branch ℕ)
query =
    branch_of (branch_add host (parsed (codes "State.Name.Peq=init")) 0)
      (branch_of (branch_add host (parsed (codes "State.Ppid.eq=1")) 1) [])

found : query_find ps os query ≡ done (answer (2 ∷ []))
unfolding program
found = refl

created : query_create host (codes "State.Name.Peq=init,State.Ppid.eq=1") ≡ ok (sort_branches query)
unfolding program
created = refl

not_numeric :
    branch_add host (parsed (codes "State.Ppid.ew=1")) 0
    ≡ malformed (unsupported_operator_for (codes "ew") (codes "State") (codes "Ppid"))
unfolding program
not_numeric = refl

-- `Port.udp.eq` gets the kind of a TCP port.
udp_port :
    elim (branch_add host (parsed (codes "Port.udp.eq=53")) 0) [
      | ok b ↦ some b.flags
      | malformed e ↦ none
    ]
    ≡ some pid_tcp_port
unfolding program
udp_port = refl

-- An operator on texts is accepted for a process id, and its slot in the table of numbers does not exist.
pid_contains :
    query_find ps os (branch_of (branch_add host (parsed (codes "Pid.Pid.ct=1")) 0) []) ≡ fault
unfolding program
pid_contains = refl

-- A process id file with no number is read as the process id 0.
empty_pid_file : pid_of_text (codes "none") ≡ answer 0
unfolding program
empty_pid_file = refl

member_honest : (name : Bytes) (pid : ℕ) → member [] name pid ≢ failed sigar_ok
member_honest name pid h = ground arith

honest : IsHonest os
honest = record {
  member_lem = λ c m pid h. member_honest m pid h;
  ppid_lem = λ pid h. ground arith;
}

query_match-All_example : (query_match os query 2 ≡ done sigar_ok) ↔ All (Holds os 2) query
query_match-All_example = query_match-All os query 2 honest (unfold program in refl)

query_find-Picks_example :
    (query_find ps os query ≡ done (answer (2 ∷ []))) ↔ Picks os query (1 ∷ 2 ∷ []) (2 ∷ [])
query_find-Picks_example =
    query_find-Picks os query ps (1 ∷ 2 ∷ []) (2 ∷ []) (unfold program in refl)

query_match-sort_example :
    IsSorted (sort_branches query)
    × ((query_match os (sort_branches query) 2 ≡ done sigar_ok)
        ↔ (query_match os query 2 ≡ done sigar_ok))
query_match-sort_example = query_match-sort os query 2 honest (unfold program in refl)

query_find_process-query_find_example :
    query_find_process ps os query 0 ≡ (do a ← query_find ps os query; done (process_of 0 0 a))
query_find_process-query_find_example = query_find_process-query_find ps os query 0

-- The second branch refers to the first: the process is its own parent's name.
abbrev referring : ParseBranch
referring = parsed (codes "State.Name.Pne=$1")

abbrev referring_branch : Branch ℕ
referring_branch = record {
  lookup = record {
    name = some (codes "Name");
    get = struct_member (codes "proc_state") (codes "name");
    type = type_str;
    init = init_none;
  };
  stored = data_zero;
  flags = 0;
  op_flags = record no_flags { parent = true; ref = true };
  op_name = op_ne;
  value = value_ui32 0;
}

branch_add-Accepted_example : Accepted host 1 referring_branch
branch_add-Accepted_example =
    branch_add-Accepted host referring 1 referring_branch (unfold program in refl)
      (unfold program in refl)

branch_parse-print_example :
    branch_parse (print (codes "State") (codes "Name") true false (codes "ct") (codes "a=b.c"))
    ≡ ok (
        rename_service (record {
          name = codes "State";
          attr = codes "Name";
          op = codes "ct";
          value = codes "a=b.c";
          op_flags = flags_of true false;
        }))
branch_parse-print_example =
    branch_parse-print (codes "State") (codes "Name") true false (codes "ct") (codes "a=b.c")
      (omega arith) (omega arith) (omega arith) (omega arith) (omega arith) refl

abbrev own_name : ParseBranch
own_name = parsed (codes "State.Name.Iew=HTTPD")

abbrev own_name_branch : Branch ℕ
own_name_branch = record {
  lookup = record {
    name = some (codes "Name");
    get = struct_member (codes "proc_state") (codes "name");
    type = type_str;
    init = init_none;
  };
  stored = data_zero;
  flags = 0;
  op_flags = record no_flags { icase = true };
  op_name = op_ew;
  value = value_str (codes "HTTPD");
}

match_cell-branch_add_example :
    (m : Bool) × (match_cell os own_name_branch [] (cell_str (codes "/usr/sbin/httpd")) ≡ done m)
match_cell-branch_add_example =
    match_cell-branch_add host os own_name 0 own_name_branch [] (cell_str (codes "/usr/sbin/httpd"))
      (unfold program in refl) (unfold program in refl) (unfold program in refl)
      (codes "/usr/sbin/httpd", refl)

-- A reference to a branch of Env compares with the name of the variable, not with its value.
abbrev os_with_env : Platform ℕ
os_with_env = record os { proc_env = λ pid. answer ((codes "sh", codes "yes") ∷ []) }

env_reference :
    query_match os_with_env
      (branch_of
        (branch_add host (parsed (codes "Env.sh.eq=yes")) 0)
        (branch_of (branch_add host (parsed (codes "State.Name.eq=$1")) 1) []))
      2
    ≡ done sigar_ok
unfolding program
env_reference = refl
