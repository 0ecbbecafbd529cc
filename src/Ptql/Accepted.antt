-- ===== src/Ptql/Accepted.antt =====
-- What a branch satisfies once it has been accepted: its operator has a slot in the table that its
-- type selects, and a reference is to an earlier branch.
use libsigar.Base.{
  ℕ, ◌+◌, ◌-◌, ◌%◌, ◌≤◌, ◌<◌, Bool, true, false, [], ◌∷◌, ◌≡◌, refl, arith, ◌==◌, if◌then◌else◌,
  Bool-cases, inl, inr, subst, u32_mod,
}
use libsigar.Text.{Bytes, atoi}
use libsigar.Ptql.Types.{
  ValueType, type_rank, OpName, op_eq, op_rank, OpFlags, ParseBranch, Init, init_none, init_any,
  init_args, init_port, init_pid, init_service, Lookup, Result, ok, malformed, ◌>>=◌, op_max_nstr,
}
use libsigar.Ptql.Init.{Inited}
use libsigar.Ptql.Branch.{
  Host, Branch, Value, value_ui32, run_init, set_variable, parse_value, branch_value, find_lookup,
  check_operator, supported, branch_add,
}

-- A result that is no error satisfies `P`; `bind_rule` goes through a chain of steps.
abbrev pub Ensures {ℓ} : {A : Type ℓ} → (A → Type 0) → Result A → Type 0
Ensures P (ok a) = P a
Ensures P (malformed e) = Unit

pub bind_rule {ℓ} :
    {A B : Type ℓ} (P : B → Type 0) (m : Result A) (f : A → Result B)
    → ((a : A) → m ≡ ok a → Ensures P (f a))
    → Ensures P (m >>= f)
bind_rule P (ok a) f h = h a refl
bind_rule P (malformed e) f h = tt

op_rank-lt : (op : OpName) → op_rank op < 11
op_rank-lt op_eq = omega arith
op_rank-lt _ = omega arith

module _ (host : Host) where
  open host use {Dbl, strtod, getenv, getpid}

  pub record Accepted (before : ℕ) (b : Branch Dbl) : Type 0 where
    pub known : op_rank b.op_name < 10
    pub numeric : type_rank b.lookup.type < 4 → op_rank b.op_name ≤ op_max_nstr
    pub reference : b.op_flags.ref ≡ true → (n : ℕ) × (b.value ≡ value_ui32 n) × (n < before)

  supported_known : (p : ParseBranch) (op : OpName) → supported p ≡ ok op → op_rank op < 10
  unfolding supported
  supported_known p op h = ground (arith, op_rank-lt op)

  check_operator_sound :
      (p : ParseBranch) (op : OpName) (type : ValueType)
      → check_operator p op type ≡ ok tt
      → type_rank type < 4
      → op_rank op ≤ op_max_nstr
  unfolding check_operator
  check_operator_sound p op type h lt = ground arith

  pub run_init-ref :
      (i : Init) (p : ParseBranch) (op : OpName) (fl : OpFlags) (r : Inited)
      → run_init host i p op fl ≡ ok r
      → r.op_flags.ref ≡ fl.ref
  unfolding run_init
  run_init-ref init_none p op fl r h = ground arith
  run_init-ref init_any p op fl r h = ground arith
  run_init-ref init_args p op fl r h = ground arith
  run_init-ref init_port p op fl r h = ground arith
  run_init-ref init_pid p op fl r h = ground arith
  run_init-ref init_service p op fl r h = ground arith

  set_variable-ref :
      (p : ParseBranch) (s : Bytes) (number : ℕ) (x : Value Dbl)
      → set_variable host p s (number + 1) ≡ ok (true, x)
      → (n : ℕ) × (x ≡ value_ui32 n) × (n < number)
  unfolding set_variable
  set_variable-ref p [] number x h = absurd (ground arith)
  set_variable-ref p (c ∷ s) number x h =
      ((atoi (c ∷ s) + u32_mod - 1) % u32_mod, ground arith, ground arith)

  false_bind :
      (m : Result (Value Dbl)) (x : Value Dbl)
      → ◌>>=◌ {B = Bool × Value Dbl} m (λ v. ok (false, v)) ≡ ok (true, x)
      → ⊥
  false_bind (ok v) x h = ground arith
  false_bind (malformed e) x h = cc

  branch_value-ref :
      (p : ParseBranch) (op : OpName) (type : ValueType) (v : Bytes) (number : ℕ) (x : Value Dbl)
      → branch_value host p op type v (number + 1) ≡ ok (true, x)
      → (n : ℕ) × (x ≡ value_ui32 n) × (n < number)
  unfolding branch_value
  branch_value-ref p op type [] number x h = absurd (false_bind (parse_value host type []) x h)
  branch_value-ref p op type (c ∷ s) number x h = elim (Bool-cases (c == b'$')) [
    | inr plain ↦ absurd (false_bind (parse_value host type (c ∷ s)) x (rw plain at h))
    | inl dollar ↦ elim (Bool-cases (op_rank op == 8)) [
      | inl re ↦ absurd (cc (rw (dollar, re) at h))
      | inr other ↦ set_variable-ref p s number x (rw (dollar, other) at h)
    ]
  ]

  accept :
      (p : ParseBranch) (before : ℕ) (op : OpName) (l : Lookup) (i : Inited) (r : Bool × Value Dbl)
      → p.op_flags.ref ≡ false
      → supported p ≡ ok op
      → run_init host l.init p op p.op_flags ≡ ok i
      → check_operator p op l.type ≡ ok tt
      → branch_value host p op l.type p.value (before + 1) ≡ ok r
      → Accepted before (record {
        lookup = l;
        stored = i.stored;
        flags = i.flags;
        op_flags = (if r.0 then record i.op_flags { ref = true } else i.op_flags);
        op_name = op;
        value = r.1;
      })
  accept p before op l i (true, x) fresh e₀ e₂ e₃ e₄ = record {
    known = supported_known p op e₀;
    numeric = check_operator_sound p op l.type e₃;
    reference = λ _. branch_value-ref p op l.type p.value before x e₄;
  }
  accept p before op l i (false, x) fresh e₀ e₂ e₃ e₄ = record {
    known = supported_known p op e₀;
    numeric = check_operator_sound p op l.type e₃;
    reference = λ h. absurd (cc (run_init-ref l.init p op p.op_flags i e₂));
  }

  branch_add-Ensures :
      (p : ParseBranch) (before : ℕ)
      → p.op_flags.ref ≡ false
      → Ensures (Accepted before) (branch_add host p before)
  unfolding branch_add
  branch_add-Ensures p before fresh = bind_rule (Accepted before) (supported p) _ λ op e₀.
      bind_rule (Accepted before) (find_lookup p) _ λ l e₁.
        bind_rule (Accepted before) (run_init host l.init p op p.op_flags) _ λ i e₂.
          bind_rule (Accepted before) (check_operator p op l.type) _ λ u e₃.
            bind_rule (Accepted before) (branch_value host p op l.type p.value (before + 1)) _
              λ r e₄. accept p before op l i r fresh e₀ e₂ e₃ e₄

  -- A branch that was parsed with no reference flag and then accepted has an operator that is
  -- known and, for a number, has a slot in the table of its type; if it is a reference, it is one
  -- to an earlier branch.
  pub branch_add-Accepted :
      (p : ParseBranch) (before : ℕ) (b : Branch Dbl)
      → p.op_flags.ref ≡ false
      → branch_add host p before ≡ ok b
      → Accepted before b
  branch_add-Accepted p before b fresh h =
      subst (Ensures (Accepted before)) h (branch_add-Ensures p before fresh)
