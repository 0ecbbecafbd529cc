-- ===== src/Ptql/Conjunction.antt =====
-- A query with no references is the conjunction of its branches, in any order.
use libsigar.Base.{
  ℕ, Bool, true, false, [], ◌∷◌, ◌++◌, List, Option, some, ◌≡◌, ◌≢◌, ◌↔◌, refl, sym, arith, ap, ◌∙◌,
  fun_ext, ◌==◌, All, Bool-cases, inl, inr,
}
use libsigar.Ptql.Types.{Getter, struct_member, type_rank}
use libsigar.Ptql.Branch.{Branch}
use libsigar.Ptql.Query.{has_ref}
use libsigar.Ptql.Match.{Answer, answer, failed, Outcome, done, fault, ◌>>=◌, Cell, Platform}
use libsigar.Ptql.Process.{
  sigar_ok, Verdict, matched, returns, verdict_of, match_cell, match_answer, match_struct,
  with_parent, match_branch, match_round, match_from, query_match, get_any, stored_cell,
}

module _ {Dbl : Type 0} (os : Platform Dbl) where
  -- A getter that fails returns a status other than `SIGAR_OK`.
  pub record IsHonest : Type 0 where
    pub member_lem : (c m : List ℕ) (pid : ℕ) → os.member c m pid ≢ failed sigar_ok
    pub ppid_lem : (pid : ℕ) → os.state_ppid pid ≢ failed sigar_ok

  -- The branch matches the process.
  abbrev pub Holds : ℕ → Branch Dbl → Type 0
  Holds pid b =
      (c : Option (Cell Dbl)) × (match_round os b (match_cell os b []) pid ≡ done (matched c))

  -- Without a reference a branch does not look at the members of the earlier ones.
  match_cell-cells :
      (b : Branch Dbl) (cells : List (Option (Cell Dbl))) (c : Cell Dbl)
      → b.op_flags.ref ≡ false
      → match_cell os b cells c ≡ match_cell os b [] c
  unfolding match_cell
  match_cell-cells b cells c plain = simp plain

  match_round-cells :
      (b : Branch Dbl) (cells : List (Option (Cell Dbl))) (pid : ℕ)
      → b.op_flags.ref ≡ false
      → match_round os b (match_cell os b cells) pid ≡ match_round os b (match_cell os b []) pid
  match_round-cells b cells pid plain =
      ap (λ f. match_round os b f pid) (fun_ext (λ c. match_cell-cells b cells c plain))

  verdict_honest :
      (m : Outcome Bool) (c : Option (Cell Dbl))
      → ◌>>=◌ {B = Verdict Dbl} m (λ x. done (verdict_of c x)) ≢ done (returns sigar_ok)
  verdict_honest (done true) c h = ground arith
  verdict_honest (done false) c h = ground arith
  verdict_honest fault c h = cc

  match_answer_honest :
      (f : Cell Dbl → Outcome Bool) (a : Answer (Cell Dbl))
      → a ≢ failed sigar_ok
      → match_answer os f a ≢ done (returns sigar_ok)
  unfolding match_answer
  match_answer_honest f (failed st) honest h = honest (ground arith)
  match_answer_honest f (answer c) honest h = verdict_honest (f c) (some c) h

  match_struct_honest :
      (f : Cell Dbl → Outcome Bool) (g : Getter) (pid : ℕ)
      → IsHonest
      → match_struct os f g pid ≢ done (returns sigar_ok)
  unfolding match_struct
  match_struct_honest f (struct_member c m) pid honest h =
      match_answer_honest f (os.member c m pid) (honest.member_lem c m pid) h
  match_struct_honest f _ pid honest h = cc

  match_branch_honest :
      (b : Branch Dbl) (f : Cell Dbl → Outcome Bool) (pid : ℕ)
      → IsHonest
      → match_branch os b f pid ≢ done (returns sigar_ok)
  unfolding match_branch
  match_branch_honest b f pid honest h = elim (Bool-cases (type_rank b.lookup.type == 5)) [
    | inl any ↦ verdict_honest (get_any os b pid) (stored_cell os b) (rw any at h)
    | inr member ↦ match_struct_honest f b.lookup.get pid honest (rw member at h)
  ]

  with_parent_honest :
      (a : Answer ℕ) (f : ℕ → Outcome (Verdict Dbl))
      → a ≢ failed sigar_ok
      → ((pid : ℕ) → f pid ≢ done (returns sigar_ok))
      → with_parent os a f ≢ done (returns sigar_ok)
  unfolding with_parent
  with_parent_honest (failed st) f ha hf h = ha (ground arith)
  with_parent_honest (answer pid) f ha hf h = hf pid h

  match_round_honest :
      (b : Branch Dbl) (f : Cell Dbl → Outcome Bool) (pid : ℕ)
      → IsHonest
      → match_round os b f pid ≢ done (returns sigar_ok)
  unfolding match_round
  match_round_honest b f pid honest h = elim (Bool-cases b.op_flags.parent) [
    | inl up ↦
        with_parent_honest (os.state_ppid pid) (match_branch os b f) (honest.ppid_lem pid)
          (λ p. match_branch_honest b f p honest) (simp up at h)
    | inr own ↦ match_branch_honest b f pid honest (simp own at h)
  ]

  -- The verdict of one round and what the loop does with it.
  after :
      (v : Outcome (Verdict Dbl)) (k : Option (Cell Dbl) → Outcome ℕ)
      → v ≢ done (returns sigar_ok)
      → ◌>>=◌ {B = ℕ} v (λ x. elim x [ matched c ↦ k c | returns st ↦ done st ]) ≡ done sigar_ok
      → (c : Option (Cell Dbl)) × (v ≡ done (matched c)) × (k c ≡ done sigar_ok)
  after (done (matched c)) k honest h = (c, refl, h)
  after (done (returns st)) k honest h = absurd (honest (ground arith))
  after fault k honest h = absurd (cc)

  match_from-All :
      (bs : List (Branch Dbl)) (cells : List (Option (Cell Dbl))) (pid : ℕ)
      → IsHonest
      → has_ref bs ≡ false
      → match_from os bs cells pid ≡ done sigar_ok
      → All (Holds pid) bs
  unfolding match_from has_ref
  match_from-All [] cells pid honest plain h = tt
  match_from-All (b ∷ bs) cells pid honest plain h =
      let f = match_cell os b cells in
      let (c, here, rest) =
        after (match_round os b f pid) (λ c. match_from os bs (cells ++ c ∷ []) pid)
          (match_round_honest b f pid honest) h in
      (
        (c, sym (match_round-cells b cells pid (ground arith)) ∙ here),
        match_from-All bs (cells ++ c ∷ []) pid honest (ground arith) rest,
      )

  All-match_from :
      (bs : List (Branch Dbl)) (cells : List (Option (Cell Dbl))) (pid : ℕ)
      → has_ref bs ≡ false
      → All (Holds pid) bs
      → match_from os bs cells pid ≡ done sigar_ok
  unfolding match_from has_ref
  All-match_from [] cells pid plain h = refl
  All-match_from (b ∷ bs) cells pid plain ((c, here), rest) =
      rw (match_round-cells b cells pid (ground arith), here)
        (All-match_from bs (cells ++ c ∷ []) pid (ground arith) rest)

  -- A query with no reference returns SIGAR_OK exactly if each of its branches matches the
  -- process, where no getter fails with the status SIGAR_OK.
  pub query_match-All :
      (query : List (Branch Dbl)) (pid : ℕ)
      → IsHonest
      → has_ref query ≡ false
      → (query_match os query pid ≡ done sigar_ok) ↔ All (Holds pid) query
  unfolding query_match
  query_match-All query pid honest plain =
      (match_from-All query [] pid honest plain, All-match_from query [] pid plain)
