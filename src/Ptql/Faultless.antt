-- ===== src/Ptql/Faultless.antt =====
-- A branch with a literal value never faults on a member of its attribute's type.
use libsigar.Base.{
  ℕ, ◌≤◌, ◌<◌, Bool, false, List, Option, some, ◌≡◌, refl, arith, ◌==◌, Bool-cases, Option-cases,
  inl, inr, subst,
}
use libsigar.Text.{Bytes}
use libsigar.Ptql.Types.{
  ValueType, type_rank, type_ui64, type_ui32, type_dbl, type_chr, type_str, type_any, OpName, op_eq,
  op_ne, op_gt, op_ge, op_lt, op_le, op_max, op_rank, ParseBranch, ok,
}
use libsigar.Ptql.Ops.{DoubleOrder, op_ui64, op_ui32, op_dbl, op_chr, op_str}
use libsigar.Ptql.Branch.{Host, Branch, Value, value_str, branch_add}
use libsigar.Ptql.Accepted.{Ensures, branch_add-Accepted}
use libsigar.Ptql.Match.{
  done, Cell, cell_str, Platform, str_match, match_text, branch_match, in_table,
}
use libsigar.Ptql.Process.{match_cell}
use libsigar.Ptql.Literal.{HasType, IsCell, IsLiteral, Literal, branch_add-Literal}

-- The tables have a slot for each operator that a branch of their type may have.
op_ui64-slot : (op : OpName) (a b : ℕ) → op_rank op ≤ 5 → (m : Bool) × (op_ui64 op a b ≡ some m)
unfolding op_ui64
op_ui64-slot op_eq a b h = (_, refl)
op_ui64-slot op_ne a b h = (_, refl)
op_ui64-slot op_gt a b h = (_, refl)
op_ui64-slot op_ge a b h = (_, refl)
op_ui64-slot op_lt a b h = (_, refl)
op_ui64-slot op_le a b h = (_, refl)
op_ui64-slot _ a b h = absurd (omega arith)

op_ui32-slot : (op : OpName) (a b : ℕ) → op_rank op ≤ 5 → (m : Bool) × (op_ui32 op a b ≡ some m)
unfolding op_ui32
op_ui32-slot op_eq a b h = (_, refl)
op_ui32-slot op_ne a b h = (_, refl)
op_ui32-slot op_gt a b h = (_, refl)
op_ui32-slot op_ge a b h = (_, refl)
op_ui32-slot op_lt a b h = (_, refl)
op_ui32-slot op_le a b h = (_, refl)
op_ui32-slot _ a b h = absurd (omega arith)

op_chr-slot : (op : OpName) (a b : ℕ) → op_rank op ≤ 5 → (m : Bool) × (op_chr op a b ≡ some m)
unfolding op_chr
op_chr-slot op_eq a b h = (_, refl)
op_chr-slot op_ne a b h = (_, refl)
op_chr-slot op_gt a b h = (_, refl)
op_chr-slot op_ge a b h = (_, refl)
op_chr-slot op_lt a b h = (_, refl)
op_chr-slot op_le a b h = (_, refl)
op_chr-slot _ a b h = absurd (omega arith)

op_dbl-slot :
    {Dbl : Type 0} (o : DoubleOrder Dbl) (op : OpName) (a b : Dbl)
    → op_rank op ≤ 5
    → (m : Bool) × (op_dbl o op a b ≡ some m)
unfolding op_dbl
op_dbl-slot o op_eq a b h = (_, refl)
op_dbl-slot o op_ne a b h = (_, refl)
op_dbl-slot o op_gt a b h = (_, refl)
op_dbl-slot o op_ge a b h = (_, refl)
op_dbl-slot o op_lt a b h = (_, refl)
op_dbl-slot o op_le a b h = (_, refl)
op_dbl-slot o _ a b h = absurd (omega arith)

op_str-slot :
    (icase : Bool) (op : OpName) (a b : Bytes)
    → op_rank op < 10
    → (m : Bool) × (op_str icase op a b ≡ some m)
unfolding op_str
op_str-slot icase op_max a b h = absurd (omega arith)
op_str-slot icase _ a b h = (_, refl)

module _ {Dbl : Type 0} (os : Platform Dbl) where
  in_table-done : {o : Option Bool} → (m : Bool) × (o ≡ some m) → (m : Bool) × (in_table o ≡ done m)
  in_table-done (m, e) = (m, rw e refl)

  branch_match-done :
      (b : Branch Dbl) (type : ValueType) (c : Cell Dbl)
      → type_rank type < 4
      → op_rank b.op_name ≤ 5
      → HasType type b.value
      → IsCell type c
      → (m : Bool) × (branch_match os b type c ≡ done m)
  unfolding branch_match
  branch_match-done b type_ui64 c lt op (v, e) (n, f) =
      rw (f, branch_match, e) (in_table-done (op_ui64-slot b.op_name n v op))
  branch_match-done b type_ui32 c lt op (v, e) (n, f) =
      rw (f, branch_match, e) (in_table-done (op_ui32-slot b.op_name n v op))
  branch_match-done b type_dbl c lt op (v, e) (n, f) =
      rw (f, branch_match, e) (in_table-done (op_dbl-slot os.order b.op_name n v op))
  branch_match-done b type_chr c lt op (v, e) (n, f) =
      rw (f, branch_match, e) (in_table-done (op_chr-slot b.op_name n v op))
  branch_match-done b type_str c lt op t f = absurd (omega arith)
  branch_match-done b type_any c lt op t f = absurd (omega arith)

  str_match-done :
      (b : Branch Dbl) (n s : Bytes)
      → op_rank b.op_name < 10
      → b.value ≡ value_str n
      → (m : Bool) × (str_match os b s ≡ done m)
  unfolding str_match
  str_match-done b n s op e = elim (Bool-cases (op_rank b.op_name == 8)) [
    | inr other ↦
        rw (str_match, e, other) (in_table-done (op_str-slot b.op_flags.icase b.op_name s n op))
    | inl re ↦ elim (Option-cases os.re_impl) [
      | inl without ↦ rw (str_match, e, re, without) (false, refl)
      | inr (f, with_re) ↦ rw (str_match, e, re, with_re) (f s n, refl)
    ]
  ]

text_value :
    {Dbl : Type 0} (type : ValueType) (v : Value Dbl)
    → type_rank type ≡ 4
    → HasType type v
    → (s : Bytes) × (v ≡ value_str s)
text_value type_str v e t = t
text_value _ v e t = absurd (omega arith)

text_cell :
    {Dbl : Type 0} (type : ValueType) (c : Cell Dbl)
    → type_rank type ≡ 4
    → IsCell type c
    → (s : Bytes) × (c ≡ cell_str s)
text_cell type_str c e t = t
text_cell _ c e t = absurd (omega arith)

number_type :
    {Dbl : Type 0} (type : ValueType) (c : Cell Dbl)
    → (type_rank type == 4) ≡ false
    → IsCell type c
    → type_rank type < 4
number_type type_str c e t = absurd (cc)
number_type type_any c e t = absurd t
number_type _ c e t = omega arith

-- A branch that was parsed with no reference flag, and accepted with a value that is no variable,
-- never faults on a member of the type of its attribute: the comparison ends with a truth value.
pub match_cell-branch_add :
    (host : Host) (os : Platform host.Dbl) (p : ParseBranch) (before : ℕ) (b : Branch host.Dbl)
    (cells : List (Option (Cell host.Dbl))) (c : Cell host.Dbl)
    → p.op_flags.ref ≡ false
    → IsLiteral p.value
    → branch_add host p before ≡ ok b
    → IsCell b.lookup.type c
    → (m : Bool) × (match_cell os b cells c ≡ done m)
unfolding match_cell branch_match match_text
match_cell-branch_add host os p before b cells c fresh lit h cell =
    let l = subst (Ensures (Literal host)) h (branch_add-Literal host p before fresh lit) in
    let a = branch_add-Accepted host p before b fresh h in
    elim (Bool-cases (type_rank b.lookup.type == 4)) [
      | inl text ↦
          let e : type_rank b.lookup.type ≡ 4 = ground arith in
          let (n, ev) = text_value b.lookup.type b.value e l.typed in
          let (s, ec) = text_cell b.lookup.type c e cell in
          rw (match_cell, l.plain, text, ec) (str_match-done os b n s a.known ev)
      | inr number ↦
          let lt = number_type b.lookup.type c number cell in
          rw (match_cell, l.plain, number)
            (branch_match-done os b b.lookup.type c lt (a.numeric lt) l.typed cell)
    ]
