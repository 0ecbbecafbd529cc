-- ===== src/Ptql/Picks.antt =====
-- Which processes `sigar_ptql_query_find` lists.
use libsigar.Base.{
  ℕ, false, [], ◌∷◌, List, ◌≡◌, ◌↔◌, refl, ap, ◌∙◌, subst, ◌==◌, if◌then◌else◌, ==_iff, Bool-cases,
  inl, inr, ◌⊎◌,
}
use libsigar.Ptql.Branch.{Branch}
use libsigar.Ptql.Match.{Answer, answer, failed, Outcome, done, fault, ◌>>=◌, Platform}
use libsigar.Ptql.Process.{sigar_ok, sigar_enotimpl, query_match}
use libsigar.Ptql.Find.{Processes, proc_list_get, find_from, query_find}

module _ {Dbl : Type 0} (os : Platform Dbl) (query : List (Branch Dbl)) where
  -- The processes of a list that match, in its order, where no method is missing.
  pub data Picks : List ℕ → List ℕ → Type 0 where
    picks_nil : Picks [] []
    picks_hit :
        {pid : ℕ} {pids l : List ℕ}
        → query_match os query pid ≡ done sigar_ok
        → Picks pids l
        → Picks (pid ∷ pids) (pid ∷ l)
    picks_miss :
        {pid : ℕ} {pids l : List ℕ} (st : ℕ)
        → query_match os query pid ≡ done st
        → (st == sigar_ok) ≡ false
        → (st == sigar_enotimpl) ≡ false
        → Picks pids l
        → Picks (pid ∷ pids) l

  -- What one round makes of the status and of the rest of the list.
  abbrev round : ℕ → Outcome ℕ → Outcome (Answer (List ℕ)) → Outcome (Answer (List ℕ))
  round pid m found = do
    st ← m
    rest ← (if st == sigar_enotimpl then done (failed sigar_enotimpl) else found)
    done (elim rest [
      | failed e ↦ failed e
      | answer l ↦ answer (if st == sigar_ok then pid ∷ l else l)
    ])

  Picks-find_from :
      (ps : Processes) {pids l : List ℕ}
      → Picks pids l
      → find_from ps os query pids ≡ done (answer l)
  unfolding find_from
  Picks-find_from ps picks_nil = refl
  Picks-find_from ps (picks_hit e p) = rw (e, Picks-find_from ps p) refl
  Picks-find_from ps (picks_miss st e ok impl p) = rw (e, impl, Picks-find_from ps p, ok) refl

  round-Picks :
      (pid st : ℕ) (pids l : List ℕ) (found : Outcome (Answer (List ℕ)))
      → query_match os query pid ≡ done st
      → ((r : List ℕ) → found ≡ done (answer r) → Picks pids r)
      → round pid (done st) found ≡ done (answer l)
      → Picks (pid ∷ pids) l
  round-Picks pid st pids l fault e p h = elim (Bool-cases (st == sigar_enotimpl)) [
    | inl stop ↦ absurd (cc (rw stop at h))
    | inr go ↦ absurd (cc (rw go at h))
  ]
  round-Picks pid st pids l (done (failed f)) e p h = elim (Bool-cases (st == sigar_enotimpl)) [
    | inl stop ↦ absurd (cc (rw stop at h))
    | inr go ↦ absurd (cc (rw go at h))
  ]
  round-Picks pid st pids l (done (answer r)) e p h = elim (Bool-cases (st == sigar_enotimpl)) [
    | inl stop ↦ absurd (cc (rw stop at h))
    | inr go ↦ elim (Bool-cases (st == sigar_ok)) [
      | inl hit ↦
          let same : pid ∷ r ≡ l = cc (rw (go, hit) at h) in
          let zero_status : st ≡ sigar_ok = (==_iff st sigar_ok).0 hit in
          subst (Picks (pid ∷ pids)) same (picks_hit (e ∙ ap done zero_status) (p r refl))
      | inr miss ↦
          let same : r ≡ l = cc (rw (go, miss) at h) in
          subst (Picks (pid ∷ pids)) same (picks_miss st e miss go (p r refl))
    ]
  ]

  Outcome-cases : (m : Outcome ℕ) → (m ≡ fault) ⊎ ((st : ℕ) × (m ≡ done st))
  Outcome-cases (done st) = inr (st, refl)
  Outcome-cases fault = inl refl

  find_from-Picks :
      (ps : Processes) (pids l : List ℕ)
      → find_from ps os query pids ≡ done (answer l)
      → Picks pids l
  unfolding find_from
  find_from-Picks ps [] l h = let same : [] ≡ l = cc h in subst (Picks []) same picks_nil
  find_from-Picks ps (pid ∷ pids) l h = elim (Outcome-cases (query_match os query pid)) [
    | inl broken ↦ absurd (cc (rw broken at h))
    | inr (st, e) ↦
        round-Picks pid st pids l (find_from ps os query pids) e (find_from-Picks ps pids)
          (rw e at h)
  ]

  -- Where the query selects a process list, the search gives a list exactly if it is that of the
  -- processes that match, in their order, and none of the others has the status SIGAR_ENOTIMPL or a
  -- fault.
  pub query_find-Picks :
      (ps : Processes) (pids l : List ℕ)
      → proc_list_get ps query ≡ done (answer pids)
      → (query_find ps os query ≡ done (answer l)) ↔ Picks pids l
  unfolding query_find
  query_find-Picks ps pids l e = rw (query_find, e) (find_from-Picks ps pids l, Picks-find_from ps)
