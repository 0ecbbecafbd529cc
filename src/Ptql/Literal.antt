-- ===== src/Ptql/Literal.antt =====
-- A branch with a literal value never faults on a member of its attribute's type.
use libsigar.Base.{
  ℕ, ◌+◌, ◌%◌, Bool, true, false, [], ◌∷◌, ◌≡◌, refl, ◌==◌, if◌then◌else◌, Bool-cases, Option-cases,
  inl, inr, subst, u32_mod, ◌∙◌,
}
use libsigar.Text.{Bytes, strtou, strtonum_failed}
use libsigar.Ptql.Types.{
  ValueType, type_ui64, type_ui32, type_dbl, type_chr, type_str, type_any, OpName, ParseBranch,
  Lookup, ok,
}
use libsigar.Ptql.Init.{Inited}
use libsigar.Ptql.Branch.{
  Host, Branch, Value, value_ui64, value_ui32, value_dbl, value_chr, value_str, run_init,
  parse_value, branch_value, find_lookup, check_operator, supported, branch_add,
}
use libsigar.Ptql.Accepted.{Ensures, bind_rule, run_init-ref}
use libsigar.Ptql.Match.{Cell, cell_ui64, cell_ui32, cell_dbl, cell_chr, cell_str}

-- The value is the member of the union that the type reads.
abbrev pub HasType : {Dbl : Type 0} → ValueType → Value Dbl → Type 0
HasType type_ui64 v = (n : ℕ) × (v ≡ value_ui64 n)
HasType type_ui32 v = (n : ℕ) × (v ≡ value_ui32 n)
HasType {Dbl} type_dbl v = (d : Dbl) × (v ≡ value_dbl d)
HasType type_chr v = (n : ℕ) × (v ≡ value_chr n)
HasType type_str v = (s : Bytes) × (v ≡ value_str s)
HasType type_any v = (s : Bytes) × (v ≡ value_str s)

-- The member of a struct is of the type.
abbrev pub IsCell : {Dbl : Type 0} → ValueType → Cell Dbl → Type 0
IsCell type_ui64 c = (n : ℕ) × (c ≡ cell_ui64 n)
IsCell type_ui32 c = (n : ℕ) × (c ≡ cell_ui32 n)
IsCell {Dbl} type_dbl c = (d : Dbl) × (c ≡ cell_dbl d)
IsCell type_chr c = (n : ℕ) × (c ≡ cell_chr n)
IsCell type_str c = (s : Bytes) × (c ≡ cell_str s)
IsCell type_any c = ⊥

-- A value that is no variable.
abbrev pub IsLiteral : Bytes → Type 0
IsLiteral [] = Unit
IsLiteral (c ∷ s) = (c == b'$') ≡ false

module _ (host : Host) where
  open host use {Dbl, strtod, getenv, getpid}

  parse_value-HasType :
      (type : ValueType) (v : Bytes) → Ensures (HasType type) (parse_value host type v)
  unfolding parse_value
  parse_value-HasType type_ui64 v = elim (Bool-cases (strtonum_failed (strtou 64 v))) [
    | inl e ↦ rw e tt
    | inr e ↦ rw e ((strtou 64 v).value, refl)
  ]
  parse_value-HasType type_ui32 v = elim (Bool-cases (strtonum_failed (strtou 64 v))) [
    | inl e ↦ rw e tt
    | inr e ↦ rw e ((strtou 64 v).value % u32_mod, refl)
  ]
  parse_value-HasType type_dbl v = elim (Option-cases (strtod v)) [
    | inl e ↦ rw (parse_value, e) tt
    | inr (d, e) ↦ rw (parse_value, e) (d, refl)
  ]
  parse_value-HasType type_chr [] = tt
  parse_value-HasType type_chr (c ∷ []) = (c, refl)
  parse_value-HasType type_chr (c ∷ d ∷ s) = tt
  parse_value-HasType type_str v = (v, refl)
  parse_value-HasType type_any v = (v, refl)

  branch_value-literal :
      (p : ParseBranch) (op : OpName) (type : ValueType) (v : Bytes) (number : ℕ)
      → IsLiteral v
      → Ensures (λ r. (r.0 ≡ false) × HasType type r.1) (branch_value host p op type v number)
  unfolding branch_value
  branch_value-literal p op type [] number h =
      bind_rule (λ r. (r.0 ≡ false) × HasType type r.1) (parse_value host type []) _
        (λ v e. (refl, subst (Ensures (HasType type)) e (parse_value-HasType type [])))
  branch_value-literal p op type (c ∷ s) number h = rw h (
      bind_rule (λ r. (r.0 ≡ false) × HasType type r.1) (parse_value host type (c ∷ s)) _
        (λ v e. (refl, subst (Ensures (HasType type)) e (parse_value-HasType type (c ∷ s)))))

  pub record Literal (b : Branch Dbl) : Type 0 where
    pub typed : HasType b.lookup.type b.value
    pub plain : b.op_flags.ref ≡ false

  literal :
      (p : ParseBranch) (op : OpName) (l : Lookup) (i : Inited) (r : Bool × Value Dbl)
      → p.op_flags.ref ≡ false
      → run_init host l.init p op p.op_flags ≡ ok i
      → (r.0 ≡ false) × HasType l.type r.1
      → Literal (record {
        lookup = l;
        stored = i.stored;
        flags = i.flags;
        op_flags = (if r.0 then record i.op_flags { ref = true } else i.op_flags);
        op_name = op;
        value = r.1;
      })
  literal p op l i (true, x) fresh e (h, t) = absurd (cc)
  literal p op l i (false, x) fresh e (h, t) = record {
    typed = t;
    plain = run_init-ref host l.init p op p.op_flags i e ∙ fresh;
  }

  pub branch_add-Literal :
      (p : ParseBranch) (before : ℕ)
      → p.op_flags.ref ≡ false
      → IsLiteral p.value
      → Ensures Literal (branch_add host p before)
  unfolding branch_add
  branch_add-Literal p before fresh lit = bind_rule Literal (supported p) _ λ op e₀.
      bind_rule Literal (find_lookup p) _ λ l e₁.
        bind_rule Literal (run_init host l.init p op p.op_flags) _ λ i e₂.
          bind_rule Literal (check_operator p op l.type) _ λ u e₃.
            bind_rule Literal (branch_value host p op l.type p.value (before + 1)) _ λ r e₄.
              literal p op l i r fresh e₂ (
                subst (Ensures (λ x. (x.0 ≡ false) × HasType l.type x.1)) e₄
                  (branch_value-literal p op l.type p.value (before + 1) lit))
