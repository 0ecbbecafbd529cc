-- ===== src/Ptql/Selected.antt =====
-- What the two searches of a query find: the processes that match, and the only one that matches.
use libsigar.Base.{
  ℕ, suc, ◌+◌, Bool, true, false, ◌&&◌, [], ◌∷◌, List, ◌≡◌, refl, sym, ap, ◌∙◌, arith, ◌==◌,
  if◌then◌else◌, length,
}
use libsigar.Ptql.Branch.{Branch}
use libsigar.Ptql.Match.{Answer, answer, failed, Outcome, done, fault, ◌>>=◌, Platform}
use libsigar.Ptql.Process.{sigar_ok, sigar_enotimpl, query_match}
use libsigar.Ptql.Find.{
  Processes, proc_list_get, find_from, query_find, FindProcess, search_failed, process_result,
  count_from, query_find_process,
}

-- How many processes a search found decides what the other search says.
abbrev pub last_of : ℕ → List ℕ → ℕ
last_of before [] = before
last_of before (pid ∷ pids) = last_of pid pids

abbrev pub process_of : ℕ → ℕ → Answer (List ℕ) → FindProcess
process_of matches before (failed st) = search_failed st
process_of matches before (answer l) = process_result (matches + length l) (last_of before l)

bind-bind :
    {A B C : Type 0} (m : Outcome A) (h : A → Outcome C) (f : A → Outcome B) (g : B → Outcome C)
    → ((x : A) → h x ≡ ◌>>=◌ {B = C} (f x) g)
    → ◌>>=◌ {B = C} m h ≡ ◌>>=◌ {B = C} (◌>>=◌ {B = B} m f) g
bind-bind (done x) h f g e = e x
bind-bind fault h f g e = refl

module _ {Dbl : Type 0} (ps : Processes) (os : Platform Dbl) (query : List (Branch Dbl)) where
  -- One process in front of those that a search found.
  abbrev pub with_first : Bool → ℕ → Answer (List ℕ) → Answer (List ℕ)
  with_first m pid (failed e) = failed e
  with_first m pid (answer l) = answer (if m then pid ∷ l else l)

  process_of-with_first :
      (matches before pid : ℕ) (a : Answer (List ℕ))
      → process_of matches before (with_first true pid a) ≡ process_of (matches + 1) pid a
  process_of-with_first matches before pid (failed e) = refl
  process_of-with_first matches before pid (answer l) =
      let e : matches + suc (length l) ≡ matches + 1 + length l = omega arith in
      ap (λ n. process_result n (last_of pid l)) e

  first_done :
      (found : Outcome (Answer (List ℕ))) (matches before pid : ℕ)
      → ◌>>=◌ {B = FindProcess} found (λ a. done (process_of (matches + 1) pid a))
        ≡ ◌>>=◌ {B = FindProcess}
            (◌>>=◌ {B = Answer (List ℕ)} found (λ a. done (with_first true pid a)))
            (λ a. done (process_of matches before a))
  first_done (done a) matches before pid =
      ap done (sym (process_of-with_first matches before pid a))
  first_done fault matches before pid = refl

  skip_done :
      (found : Outcome (Answer (List ℕ))) (pid : ℕ)
      → found ≡ ◌>>=◌ {B = Answer (List ℕ)} found (λ a. done (with_first false pid a))
  skip_done (done (answer l)) pid = refl
  skip_done (done (failed e)) pid = refl
  skip_done fault pid = refl

  -- One round of the counting loop, and of the other, by the tests of the status.
  abbrev pub count_step :
      Bool → Bool → ℕ → ℕ → ℕ → (ℕ → ℕ → Outcome FindProcess) → Outcome FindProcess
  count_step hit stop pid matches last count = elim hit [
    | true ↦ count (matches + 1) pid
    | false ↦ elim stop [ true ↦ done (search_failed sigar_enotimpl) | false ↦ count matches last ]
  ]

  abbrev pub find_step : Bool → Bool → ℕ → Outcome (Answer (List ℕ)) → Outcome (Answer (List ℕ))
  find_step hit stop pid found = do
    rest ← (if stop then done (failed sigar_enotimpl) else found)
    done (with_first hit pid rest)

  count_step-find_step :
      (hit stop : Bool) (pid matches last : ℕ) (found : Outcome (Answer (List ℕ)))
      (count : ℕ → ℕ → Outcome FindProcess)
      → (hit && stop) ≡ false
      → ((n p : ℕ) → count n p ≡ ◌>>=◌ {B = FindProcess} found (λ a. done (process_of n p a)))
      → count_step hit stop pid matches last count
        ≡ ◌>>=◌ {B = FindProcess}
            (find_step hit stop pid found)
            (λ a. done (process_of matches last a))
  count_step-find_step true true pid matches last found count both h = absurd (ground arith)
  count_step-find_step true false pid matches last found count both h =
      h (matches + 1) pid ∙ first_done found matches last pid
  count_step-find_step false true pid matches last found count both h = refl
  count_step-find_step false false pid matches last found count both h =
      h matches last
      ∙ ap (λ o. ◌>>=◌ {B = FindProcess} o (λ a. done (process_of matches last a)))
          (skip_done found pid)

  not_both : (st : ℕ) → ((st == sigar_ok) && (st == sigar_enotimpl)) ≡ false
  not_both st = ground arith

  count_from-find_from :
      (pids : List ℕ) (matches last : ℕ)
      → count_from ps os query pids matches last
        ≡ ◌>>=◌ {B = FindProcess}
            (find_from ps os query pids)
            (λ a. done (process_of matches last a))
  unfolding count_from find_from
  count_from-find_from [] matches last =
      let e : matches ≡ matches + 0 = omega arith in ap (λ n. done (process_result n last)) e
  count_from-find_from (pid ∷ pids) matches last = bind-bind (query_match os query pid) _ _ _ (λ st.
      count_step-find_step (st == sigar_ok) (st == sigar_enotimpl) pid matches last
        (find_from ps os query pids) (count_from ps os query pids) (not_both st)
        (λ n p. count_from-find_from pids n p))

  -- `sigar_ptql_query_find_process` says what the list of `sigar_ptql_query_find` says: it gives the
  -- process of a list of one, tells an empty list and a longer one apart, and fails with the same status.
  pub query_find_process-query_find :
      (before : ℕ)
      → query_find_process ps os query before
        ≡ (do a ← query_find ps os query; done (process_of 0 before a))
  unfolding query_find_process query_find
  query_find_process-query_find before = bind-bind (proc_list_get ps query) _ _ _ (λ a.
      elim a
        as (λ x.
          elim x [
            | failed st ↦ done (search_failed st)
            | answer pids ↦ count_from ps os query pids 0 before
          ]
          ≡ ◌>>=◌ {B = FindProcess}
              (elim x [ failed st ↦ done (failed st) | answer pids ↦ find_from ps os query pids ])
              (λ r. done (process_of 0 before r))) [
                | failed st ↦ refl
                | answer pids ↦ count_from-find_from pids 0 before
              ])
