-- ===== src/Sigar/Summary.antt =====
-- `sigar_proc_stat_get`: the summary of all processes. The platform's `sigar_proc_state_get` is a parameter.
use libsigar.Base.{
  ℕ, ◌+◌, ◌%◌, ◌^◌, ◌<◌, ◌≤◌, List, [], ◌∷◌, ◌≡◌, refl, ◌∙◌, arith, ◌==◌, if◌then◌else◌, length,
  u64_mod, field_notimpl,
}
use libsigar.Outcome.{Answer, answer, failed}
use libsigar.Text.{Bytes}

-- `sigar_proc_state_t`.
pub record ProcState : Type 0 where
  pub name : Bytes
  pub state : ℕ
  pub ppid : ℕ
  pub tty : ℕ
  pub priority : ℕ
  pub nice : ℕ
  pub processor : ℕ
  pub threads : ℕ
  pub open_files : ℕ

-- `sigar_proc_stat_t`.
pub record Summary : Type 0 where
  pub total : ℕ
  pub sleeping : ℕ
  pub running : ℕ
  pub zombie : ℕ
  pub stopped : ℕ
  pub idle : ℕ
  pub threads : ℕ
  pub open_files : ℕ

abbrev pub summary_zero : Summary
summary_zero = record {
  total = 0;
  sleeping = 0;
  running = 0;
  zombie = 0;
  stopped = 0;
  idle = 0;
  threads = field_notimpl;
  open_files = field_notimpl;
}

-- A number that is there is added to the sum, which starts as missing.
unfoldable pub add_known : ℕ → ℕ → ℕ
add_known sum x =
    if x == field_notimpl then sum else if sum == field_notimpl then x else (sum + x) % u64_mod

abbrev pub next64 : ℕ → ℕ
next64 n = (n + 1) % u64_mod

-- The switch over the state.
unfoldable pub count_proc_state : ℕ → Summary → Summary
count_proc_state state s =
    if state == b'D'
    then record s { idle = next64 s.idle }
    else if state == b'R'
    then record s { running = next64 s.running }
    else if state == b'S'
    then record s { sleeping = next64 s.sleeping }
    else if state == b'T'
    then record s { stopped = next64 s.stopped }
    else if state == b'Z'
    then record s { zombie = next64 s.zombie }
    else s

-- A process whose state can not be read is passed over.
unfoldable pub count_answer : Answer ProcState → Summary → Summary
unfolding add_known count_proc_state
count_answer (failed st) s = s
count_answer (answer p) s = count_proc_state p.state (record s {
  threads = add_known s.threads p.threads;
  open_files = add_known s.open_files p.open_files;
})

unfoldable pub summarize : (ℕ → Answer ProcState) → List ℕ → Summary → Summary
summarize proc_state_get [] s = s
summarize proc_state_get (pid ∷ pids) s =
    summarize proc_state_get pids (count_answer (proc_state_get pid) s)

unfoldable pub proc_stat_get : (ℕ → Answer ProcState) → Answer (List ℕ) → ℕ × Summary
unfolding summarize count_answer
proc_stat_get proc_state_get (failed st) = (st, summary_zero)
proc_stat_get proc_state_get (answer pids) =
    (0, summarize proc_state_get pids (record summary_zero { total = length pids }))

-- All processes with one of the five states.
abbrev pub in_states : Summary → ℕ
in_states s = s.sleeping + s.running + s.zombie + s.stopped + s.idle

-- The processes whose state is read, and is one of the five.
abbrev pub is_known : Answer ProcState → ℕ
is_known (failed st) = 0
is_known (answer p) =
    if p.state == b'D'
    then 1
    else if p.state == b'R'
    then 1
    else if p.state == b'S'
    then 1
    else if p.state == b'T'
    then 1
    else if p.state == b'Z'
    then 1
    else 0

unfoldable pub known : (ℕ → Answer ProcState) → List ℕ → ℕ
known proc_state_get [] = 0
known proc_state_get (pid ∷ pids) = is_known (proc_state_get pid) + known proc_state_get pids

count_proc_state-in_states :
    (p : ProcState) (s : Summary)
    → in_states s + 1 < 2 ^ 64
    → (in_states (count_proc_state p.state s) ≡ in_states s + is_known (answer p))
      × ((count_proc_state p.state s).total ≡ s.total)
unfolding count_proc_state
count_proc_state-in_states p s h = ground arith

is_known_bound : (a : Answer ProcState) → is_known a ≤ 1
is_known_bound (failed st) = omega arith
is_known_bound (answer p) = ground arith

known-bound :
    (proc_state_get : ℕ → Answer ProcState) (pids : List ℕ)
    → known proc_state_get pids ≤ length pids
unfolding known
known-bound proc_state_get [] = omega arith
known-bound proc_state_get (pid ∷ pids) =
    omega (arith, known-bound proc_state_get pids, is_known_bound (proc_state_get pid))

count_answer-in_states :
    (a : Answer ProcState) (s : Summary)
    → in_states s + 1 < 2 ^ 64
    → (in_states (count_answer a s) ≡ in_states s + is_known a)
      × ((count_answer a s).total ≡ s.total)
unfolding count_answer
count_answer-in_states (failed st) s h = (omega arith, refl)
count_answer-in_states (answer p) s h =
    count_proc_state-in_states p
      (record s {
        threads = add_known s.threads p.threads;
        open_files = add_known s.open_files p.open_files;
      })
      h

summarize-in_states :
    (proc_state_get : ℕ → Answer ProcState) (pids : List ℕ) (s : Summary)
    → in_states s + length pids < 2 ^ 64
    → (in_states (summarize proc_state_get pids s) ≡ in_states s + known proc_state_get pids)
      × ((summarize proc_state_get pids s).total ≡ s.total)
unfolding summarize known
summarize-in_states proc_state_get [] s h = (omega arith, refl)
summarize-in_states proc_state_get (pid ∷ pids) s h =
    let (e, t) = count_answer-in_states (proc_state_get pid) s (omega arith) in
    let one = is_known_bound (proc_state_get pid) in
    let (e', t') =
      summarize-in_states proc_state_get pids (count_answer (proc_state_get pid) s) (omega arith) in
    (omega arith, t' ∙ t)

-- For fewer than 2 ^ 64 processes the five counts add up to the processes whose state is read and is
-- one of the five, which are at most the total, and the total is their number.
pub proc_stat_get-counts :
    (proc_state_get : ℕ → Answer ProcState) (pids : List ℕ)
    → length pids < 2 ^ 64
    → let (status, s) = proc_stat_get proc_state_get (answer pids) in
      (status ≡ 0)
      × (s.total ≡ length pids)
      × (in_states s ≡ known proc_state_get pids)
      × (in_states s ≤ s.total)
unfolding proc_stat_get
proc_stat_get-counts proc_state_get pids h =
    let (e, t) =
      summarize-in_states proc_state_get pids (record summary_zero { total = length pids })
        (omega arith) in
    (refl, t, omega arith, omega (arith, known-bound proc_state_get pids))
