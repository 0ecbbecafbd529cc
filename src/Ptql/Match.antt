-- ===== src/Ptql/Match.antt =====
-- Matching a query against a process. The platform's getters are parameters: they answer with a value
-- or with a status that is no `SIGAR_OK`. An outcome `fault` is a read of another member of a union
-- than the one written, of memory that was never filled, or past a table.
use libsigar.Base.{
  ℕ, zero, ◌-◌, ◌^◌, Bool, true, false, [], ◌∷◌, List, Option, none, some, ltb, leb, ◌==◌,
  if◌then◌else◌, length, get_elem?,
}
use libsigar.Text.{Bytes, str_eq}
use libsigar.Ptql.Types.{
  ValueType, type_ui64, type_ui32, type_dbl, type_chr, type_str, type_any, op_rank,
}
use libsigar.Ptql.Ops.{DoubleOrder, op_ui64, op_ui32, op_dbl, op_chr, op_str}
use libsigar.Ptql.Init.{Data, data_zero, data_ui32, data_str}
use libsigar.Ptql.Branch.{
  Branch, Value, value_zero, value_ui64, value_ui32, value_chr, value_dbl, value_str,
}
pub use libsigar.Outcome.{Answer, answer, failed, Outcome, done, fault, ◌>>=◌}

-- The member of a struct that a lookup's offset points at.
pub data Cell (Dbl : Type 0) : Type 0 where
  cell_ui64 cell_ui32 cell_chr : ℕ → Cell Dbl
  cell_dbl : Dbl → Cell Dbl
  cell_str : Bytes → Cell Dbl

-- The platform layer, and the caller's regular expressions.
pub record Platform (Dbl : Type 0) : Type 0 where
  pub order : DoubleOrder Dbl
  pub member : Bytes → Bytes → ℕ → Answer (Cell Dbl)
  pub state_ppid : ℕ → Answer ℕ
  pub proc_args : ℕ → Answer (List Bytes)
  pub proc_modules : ℕ → Answer (List Bytes)
  pub proc_env : ℕ → Answer (List (Bytes × Bytes))
  pub re_impl : Option (Bytes → Bytes → Bool)

abbrev pub in_table : Option Bool → Outcome Bool
in_table (some b) = done b
in_table none = fault

-- `branch->data` read as a number; the union was zeroed before it was written.
abbrev pub data_as_ui32 : Data → Outcome ℕ
data_as_ui32 data_zero = done 0
data_as_ui32 (data_ui32 n) = done n
data_as_ui32 _ = fault

module _ {Dbl : Type 0} where
  -- `branch->value` read as each member; the union was zeroed before it was written.
  abbrev pub as_ui64 : Value Dbl → Outcome ℕ
  as_ui64 value_zero = done 0
  as_ui64 (value_ui64 n) = done n
  as_ui64 _ = fault

  abbrev pub as_ui32 : Value Dbl → Outcome ℕ
  as_ui32 value_zero = done 0
  as_ui32 (value_ui32 n) = done n
  as_ui32 _ = fault

  abbrev pub as_chr : Value Dbl → Outcome ℕ
  as_chr value_zero = done 0
  as_chr (value_chr c) = done c
  as_chr _ = fault

  abbrev pub as_dbl : Dbl → Value Dbl → Outcome Dbl
  as_dbl dbl_zero value_zero = done dbl_zero
  as_dbl dbl_zero (value_dbl d) = done d
  as_dbl dbl_zero _ = fault

  -- `none` is the null pointer, which has all bits zero.
  abbrev pub as_str : Value Dbl → Outcome (Option Bytes)
  as_str value_zero = done none
  as_str (value_str s) = done (some s)
  as_str (value_ui32 zero) = done none
  as_str _ = fault

  module _ (os : Platform Dbl) where
    unfoldable pub str_match : Branch Dbl → Bytes → Outcome Bool
    str_match b value = do
      needle ← as_str b.value
      elim needle [
        | none ↦ done false
        | some n ↦
            if op_rank b.op_name == 8
            then (elim os.re_impl [ none ↦ done false | some re ↦ done (re value n) ])
            else in_table (op_str b.op_flags.icase b.op_name value n)
      ]

    -- `branch->match.str` against the value.
    unfoldable pub match_text : Branch Dbl → Bytes → Outcome Bool
    match_text b s = do
      needle ← as_str b.value
      elim needle [ none ↦ done false | some n ↦ in_table (op_str b.op_flags.icase b.op_name s n) ]

    -- The branch's own member against its value.
    unfoldable pub branch_match : Branch Dbl → ValueType → Cell Dbl → Outcome Bool
    branch_match b type_ui64 (cell_ui64 n) = do
      v ← as_ui64 b.value
      in_table (op_ui64 b.op_name n v)
    branch_match b type_ui32 (cell_ui32 n) = do
      v ← as_ui32 b.value
      in_table (op_ui32 b.op_name n v)
    branch_match b type_dbl (cell_dbl d) = do
      v ← as_dbl os.order.dbl_zero b.value
      in_table (op_dbl os.order b.op_name d v)
    branch_match b type_chr (cell_chr c) = do v ← as_chr b.value; in_table (op_chr b.op_name c v)
    branch_match b type_str (cell_str s) = match_text b s
    branch_match b type_any (cell_str s) = match_text b s
    branch_match b _ _ = fault

    -- The branch's own member against that of an earlier branch.
    unfoldable pub branch_match_ref : Branch Dbl → ValueType → Cell Dbl → Cell Dbl → Outcome Bool
    branch_match_ref b type_ui64 (cell_ui64 m) (cell_ui64 n) = in_table (op_ui64 b.op_name m n)
    branch_match_ref b type_ui32 (cell_ui32 m) (cell_ui32 n) = in_table (op_ui32 b.op_name m n)
    branch_match_ref b type_dbl (cell_dbl c) (cell_dbl d) = in_table (op_dbl os.order b.op_name c d)
    branch_match_ref b type_chr (cell_chr m) (cell_chr n) = in_table (op_chr b.op_name m n)
    branch_match_ref b type_str (cell_str s) (cell_str t) =
        in_table (op_str b.op_flags.icase b.op_name s t)
    branch_match_ref b type_any (cell_str s) (cell_str t) =
        in_table (op_str b.op_flags.icase b.op_name s t)
    branch_match_ref b _ _ _ = fault

    -- The first text of a list that matches.
    unfoldable pub match_any : Branch Dbl → List Bytes → Outcome Bool
    match_any b [] = done false
    match_any b (s ∷ ss) =
        let rest = match_any b ss in do m ← str_match b s; if m then done true else rest

    -- The text at an index, if there is one.
    abbrev pub match_at : Branch Dbl → List Bytes → ℕ → Outcome Bool
    match_at b ss i = elim (get_elem? ss i) [ none ↦ done false | some s ↦ str_match b s ]

    -- `int num = branch->data.ui32; if (num < 0) num += args.number`.
    unfoldable pub match_index : Branch Dbl → List Bytes → ℕ → Outcome Bool
    match_index b args num =
        if ltb num (2 ^ 31)
        then match_at b args num
        else if leb (2 ^ 32 - num) (length args)
        then match_at b args (length args - (2 ^ 32 - num))
        else done false

    unfoldable pub ptql_args : Branch Dbl → List Bytes → Outcome Bool
    unfolding match_any match_index
    ptql_args b args =
        if b.op_flags.glob
        then match_any b args
        else (do num ← data_as_ui32 b.stored; match_index b args num)

    unfoldable pub ptql_modules : Branch Dbl → List Bytes → Outcome Bool
    unfolding match_any
    ptql_modules b names =
        if b.op_flags.glob
        then match_any b names
        else (do ix ← data_as_ui32 b.stored; match_at b names ix)

    unfoldable pub env_lookup : Bytes → List (Bytes × Bytes) → Option Bytes
    env_lookup key [] = none
    env_lookup key ((k, v) ∷ env) = if str_eq key k then some v else env_lookup key env

    unfoldable pub ptql_env : Branch Dbl → List (Bytes × Bytes) → Outcome Bool
    unfolding env_lookup
    ptql_env b env = elim b.stored [
      | data_str key ↦ elim (env_lookup key env) [ none ↦ done false | some v ↦ str_match b v ]
      | _ ↦ fault
    ]
