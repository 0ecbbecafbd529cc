-- ===== src/Ptql/Branch.antt =====
-- `ptql_branch_add`: a parsed branch compiled against the table of methods. `strtod`, the environment
-- and the own process id are parameters.
use libsigar.Base.{
  ℕ, ◌+◌, ◌-◌, ◌%◌, Bool, true, false, ◌&&◌, [], ◌∷◌, List, Option, none, some, ltb, leb, ◌==◌,
  if◌then◌else◌, u32_mod,
}
use libsigar.Text.{Bytes, str_eq, is_digit, strtou, atoi, strtonum_failed}
use libsigar.Ptql.Types.{
  ValueType, type_ui64, type_ui32, type_dbl, type_chr, type_str, type_any, type_rank, OpName,
  op_rank, op_max_nstr, OpFlags, ParseBranch, Init, init_none, init_any, init_args, init_port,
  init_pid, init_service, Lookup, PtqlEntry, unsupported_operator, unsupported_method,
  unsupported_attribute, unsupported_operator_for, unsupported_variable, out_of_range,
  self_reference, not_a_number, not_a_char, Result, ok, malformed, ◌>>=◌, need,
}
use libsigar.Ptql.Init.{
  Data, data_zero, Inited, branch_init_any, args_branch_init, branch_init_port, branch_init_pid,
  branch_init_service,
}
use libsigar.Ptql.Ops.{op_code_get}
use libsigar.Ptql.Table.{ptql_map}

-- What the code takes from its host.
pub record Host : Type 1 where
  pub Dbl : Type 0
  pub strtod : Bytes → Option Dbl
  pub getenv : Bytes → Option Bytes
  pub getpid : ℕ

-- `any_value_t` as a branch's `value`; `value_zero` has the null pointer for `str`.
pub data Value (Dbl : Type 0) : Type 0 where
  value_zero : Value Dbl
  value_ui64 value_ui32 value_chr : ℕ → Value Dbl
  value_dbl : Dbl → Value Dbl
  value_str : Bytes → Value Dbl

-- `ptql_branch_t`.
pub record Branch (Dbl : Type 0) : Type 0 where
  pub lookup : Lookup
  pub stored : Data
  pub flags : ℕ
  pub op_flags : OpFlags
  pub op_name : OpName
  pub value : Value Dbl

-- The first entry of `ptql_map` with the name.
unfoldable pub find_method : Bytes → List PtqlEntry → Option PtqlEntry
find_method name [] = none
find_method name (e ∷ es) = if str_eq e.name name then some e else find_method name es

abbrev pub has_name : Bytes → Lookup → Bool
has_name attr l = elim l.name [ none ↦ false | some n ↦ str_eq n attr ]

unfoldable pub find_attr : Bytes → List Lookup → Option Lookup
find_attr attr [] = none
find_attr attr (l ∷ ls) = if has_name attr l then some l else find_attr attr ls

-- `Args`, `Env` and the like take any attribute.
unfoldable pub any_member : List Lookup → Option Lookup
any_member [] = none
any_member (l ∷ ls) = if type_rank l.type == 5 then some l else none

unfoldable pub find_lookup : ParseBranch → Result Lookup
unfolding find_method find_attr any_member str_eq
find_lookup p = do
  entry ← need (find_method p.name ptql_map) (unsupported_method p.name)
  elim (find_attr p.attr entry.members) [
    | some l ↦ ok l
    | none ↦ need (any_member entry.members) (unsupported_attribute p.name p.attr)
  ]

unfoldable pub check_operator : ParseBranch → OpName → ValueType → Result (Unit {0})
check_operator p op type =
    if ltb (type_rank type) 4 && ltb op_max_nstr (op_rank op)
    then malformed (unsupported_operator_for p.op p.name p.attr)
    else ok tt

unfoldable pub supported : ParseBranch → Result OpName
unfolding op_code_get
supported p =
    let op = op_code_get p.op in
    if op_rank op == 10 then malformed (unsupported_operator p.op) else ok op

module _ (host : Host) where
  open host use {Dbl, strtod, getenv, getpid}

  unfoldable pub run_init : Init → ParseBranch → OpName → OpFlags → Result Inited
  unfolding branch_init_any args_branch_init branch_init_port branch_init_pid branch_init_service
  run_init init_none p op fl = ok (record { stored = data_zero; flags = 0; op_flags = fl })
  run_init init_any p op fl = branch_init_any p fl
  run_init init_args p op fl = args_branch_init p fl
  run_init init_port p op fl = branch_init_port p op fl
  run_init init_pid p op fl = branch_init_pid getpid p fl
  run_init init_service p op fl = branch_init_service p fl

  -- A value behind `$`: the number of an earlier branch, or a variable of the environment. `number`
  -- counts the branches, this one included.
  unfoldable pub set_variable : ParseBranch → Bytes → ℕ → Result (Bool × Value Dbl)
  set_variable p [] number =
      ok (false, elim (getenv []) [ none ↦ value_zero | some v ↦ value_str v ])
  set_variable p (c ∷ s) number =
      let ref = (atoi (c ∷ s) + u32_mod - 1) % u32_mod in
      if is_digit c
      then (if leb number ref
          then malformed (out_of_range p.value number)
          else if ref == number - 1
          then malformed (self_reference p.value)
          else ok (true, value_ui32 ref))
      else ok (false, elim (getenv (c ∷ s)) [ none ↦ value_zero | some v ↦ value_str v ])

  -- The value of a branch that is no variable, by the type of its attribute.
  unfoldable pub parse_value : ValueType → Bytes → Result (Value Dbl)
  parse_value type_ui64 v =
      let num = strtou 64 v in
      if strtonum_failed num then malformed (not_a_number v) else ok (value_ui64 num.value)
  parse_value type_ui32 v =
      let num = strtou 64 v in
      if strtonum_failed num
      then malformed (not_a_number v)
      else ok (value_ui32 (num.value % u32_mod))
  parse_value type_dbl v = elim (strtod v) [
    | none ↦ malformed (not_a_number v)
    | some d ↦ ok (value_dbl d)
  ]
  parse_value type_chr [] = malformed (not_a_char [])
  parse_value type_chr (c ∷ []) = ok (value_chr c)
  parse_value type_chr (c ∷ d ∷ s) = malformed (not_a_char (c ∷ d ∷ s))
  parse_value type_str v = ok (value_str v)
  parse_value type_any v = ok (value_str v)

  unfoldable pub branch_value :
      ParseBranch → OpName → ValueType → Bytes → ℕ → Result (Bool × Value Dbl)
  unfolding set_variable parse_value
  branch_value p op type [] number = do v ← parse_value type []; ok (false, v)
  branch_value p op type (c ∷ s) number =
      if c == b'$'
      then (if op_rank op == 8
          then malformed (unsupported_variable p.op (c ∷ s))
          else set_variable p s number)
      else (do v ← parse_value type (c ∷ s); ok (false, v))

  -- `before` is the number of branches already in the list.
  unfoldable pub branch_add : ParseBranch → ℕ → Result (Branch Dbl)
  branch_add p before = do
    op ← supported p
    lookup ← find_lookup p
    inited ← run_init lookup.init p op p.op_flags
    _ ← check_operator p op lookup.type
    (is_ref, value) ← branch_value p op lookup.type p.value (before + 1)
    ok (record {
      lookup = lookup;
      stored = inited.stored;
      flags = inited.flags;
      op_flags = (if is_ref then record inited.op_flags { ref = true } else inited.op_flags);
      op_name = op;
      value = value;
    })
