-- ===== src/Ptql/Process.antt =====
-- `sigar_ptql_query_match`: the branches of a query against one process, in order.
use libsigar.Base.{
  ℕ, Bool, true, false, [], ◌∷◌, ◌++◌, List, Option, none, some, ◌==◌, if◌then◌else◌, get_elem?,
}
use libsigar.Ptql.Types.{
  type_rank, Getter, struct_member, args_match, modules_match, env_match, pid_match,
}
use libsigar.Ptql.Init.{data_str}
use libsigar.Ptql.Branch.{Branch}
use libsigar.Ptql.Match.{
  Answer, answer, failed, Outcome, done, fault, ◌>>=◌, Cell, cell_str, Platform, as_ui32, str_match,
  branch_match, branch_match_ref, ptql_args, ptql_modules, ptql_env,
}

-- `SIGAR_OK`, and what a query that does not match returns.
abbrev pub sigar_ok : ℕ
sigar_ok = 0

abbrev pub no_match : ℕ
no_match = 1

abbrev pub sigar_enotimpl : ℕ
sigar_enotimpl = 20001

-- What the matching of one branch says: it matched, with the data that it points to if any, or
-- the call returns a status.
pub data Verdict (Dbl : Type 0) : Type 0 where
  matched : Option (Cell Dbl) → Verdict Dbl
  returns : ℕ → Verdict Dbl

abbrev pub verdict_of : {Dbl : Type 0} → Option (Cell Dbl) → Bool → Verdict Dbl
verdict_of cell true = matched cell
verdict_of cell false = returns no_match

module _ {Dbl : Type 0} (os : Platform Dbl) where
  -- A getter of a branch of type ANY: any status but `SIGAR_OK` is no match.
  abbrev pub from_answer : {A : Type 0} → Answer A → (A → Outcome Bool) → Outcome Bool
  from_answer (answer a) f = f a
  from_answer (failed st) f = done false

  unfoldable pub get_any : Branch Dbl → ℕ → Outcome Bool
  get_any b pid = elim b.lookup.get [
    | args_match ↦ from_answer (os.proc_args pid) (ptql_args os b)
    | modules_match ↦ from_answer (os.proc_modules pid) (ptql_modules os b)
    | env_match ↦ from_answer (os.proc_env pid) (ptql_env os b)
    | pid_match ↦ done true
    | struct_member c m ↦ fault
  ]

  -- What `branch->data` of an earlier branch of type ANY points to, for a branch that refers to it: the
  -- text stored when it was parsed. A number is no pointer.
  abbrev pub stored_cell : Branch Dbl → Option (Cell Dbl)
  stored_cell b = elim b.stored [ data_str s ↦ some (cell_str s) | _ ↦ none ]

  -- The member of the branch that is referred to: the structure that an earlier round filled, or the
  -- text that the branch holds.
  abbrev pub referred : List (Option (Cell Dbl)) → ℕ → Outcome (Cell Dbl)
  referred cells n = elim (get_elem? cells n) [ some (some c) ↦ done c | _ ↦ fault ]

  unfoldable pub match_cell : Branch Dbl → List (Option (Cell Dbl)) → Cell Dbl → Outcome Bool
  match_cell b cells c =
      if b.op_flags.ref
      then (do n ← as_ui32 b.value; r ← referred cells n; branch_match_ref os b b.lookup.type c r)
      else if type_rank b.lookup.type == 4
      then (elim c [ cell_str s ↦ str_match os b s | _ ↦ fault ])
      else branch_match os b b.lookup.type c

  -- The standard getters: a status that is no `SIGAR_OK` is returned.
  unfoldable pub match_answer :
      (Cell Dbl → Outcome Bool) → Answer (Cell Dbl) → Outcome (Verdict Dbl)
  match_answer f (failed st) = done (returns st)
  match_answer f (answer cell) = do m ← f cell; done (verdict_of (some cell) m)

  unfoldable pub match_struct : (Cell Dbl → Outcome Bool) → Getter → ℕ → Outcome (Verdict Dbl)
  unfolding match_answer
  match_struct f (struct_member c m) pid = match_answer f (os.member c m pid)
  match_struct f _ pid = fault

  -- One round of the loop, behind the parent's lookup; `f` compares the member.
  unfoldable pub match_branch : Branch Dbl → (Cell Dbl → Outcome Bool) → ℕ → Outcome (Verdict Dbl)
  unfolding get_any match_struct
  match_branch b f pid =
      if type_rank b.lookup.type == 5
      then (do m ← get_any b pid; done (verdict_of (stored_cell b) m))
      else match_struct f b.lookup.get pid

  unfoldable pub with_parent : Answer ℕ → (ℕ → Outcome (Verdict Dbl)) → Outcome (Verdict Dbl)
  with_parent (failed st) f = done (returns st)
  with_parent (answer ppid) f = f ppid

  unfoldable pub match_round : Branch Dbl → (Cell Dbl → Outcome Bool) → ℕ → Outcome (Verdict Dbl)
  unfolding match_branch with_parent
  match_round b f pid =
      if b.op_flags.parent
      then with_parent (os.state_ppid pid) (match_branch b f)
      else match_branch b f pid

  unfoldable pub match_from : List (Branch Dbl) → List (Option (Cell Dbl)) → ℕ → Outcome ℕ
  match_from [] cells pid = done sigar_ok
  match_from (b ∷ bs) cells pid = do
    v ← match_round b (match_cell b cells) pid
    elim v [ matched c ↦ match_from bs (cells ++ c ∷ []) pid | returns st ↦ done st ]

  unfoldable pub query_match : List (Branch Dbl) → ℕ → Outcome ℕ
  unfolding match_from
  query_match query pid = match_from query [] pid
