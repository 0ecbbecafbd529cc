-- ===== src/Linux/Cpu.antt =====
-- `get_cpu_metrics`, `sigar_cpu_get`, `sigar_cpu_list_get` and `sigar_system_stats_get`, from the lines of
-- /proc/stat.
use mathlib.Core.List.{map}
use libsigar.Base.{
  ℕ, ◌+◌, ◌-◌, ◌%◌, ◌^◌, Bool, false, ◌&&◌, not, List, [], ◌∷◌, ◌++◌, ◌≡◌, sym, ap, ◌==◌,
  if◌then◌else◌, take, u64_mod, Bool-cases, inl, inr, append_assoc, append-nil,
}
use libsigar.Outcome.{Answer, answer, failed, Outcome, done, fault}
use libsigar.Text.{Bytes, codes, str_eq}
use libsigar.Util.Words.{skip_token}
use libsigar.Linux.Read.{strtoul}

-- `sigar_cpu_t`.
pub record Cpu : Type 0 where
  pub user : ℕ
  pub sys : ℕ
  pub nice : ℕ
  pub idle : ℕ
  pub wait : ℕ
  pub irq : ℕ
  pub soft_irq : ℕ
  pub stolen : ℕ
  pub total : ℕ

abbrev pub cpu_zero : Cpu
cpu_zero = record {
  user = 0;
  sys = 0;
  nice = 0;
  idle = 0;
  wait = 0;
  irq = 0;
  soft_irq = 0;
  stolen = 0;
  total = 0;
}

abbrev pub is_blank : Bytes → Bool
is_blank [] = false
is_blank (c ∷ s) = c == b' '

-- `-1`, as the bits of an `int`.
abbrev pub minus_one : ℕ
minus_one = 2 ^ 32 - 1

-- `add_ticks` is `x += SIGAR_TICK2MSEC(n)`, which goes through `double`.
module _ (add_ticks : ℕ → ℕ → ℕ) where
  abbrev pub sum_cpu : Cpu → Cpu
  sum_cpu c = record c {
    total = (c.user + c.nice + c.sys + c.idle + c.wait + c.irq + c.soft_irq + c.stolen) % u64_mod;
  }

  -- Since 2.6.11.
  abbrev pub read_stolen : Bytes → Cpu → Cpu
  read_stolen ptr c =
      let (stolen, rest) = strtoul ptr in
      if is_blank ptr then record c { stolen = add_ticks c.stolen stolen } else c

  -- Since 2.6.
  abbrev pub read_waits : Bytes → Cpu → Cpu
  read_waits ptr c =
      let (wait, p) = strtoul ptr in
      let (irq, q) = strtoul p in
      let (soft_irq, r) = strtoul q in
      if is_blank ptr
      then read_stolen r (record c {
        wait = add_ticks c.wait wait;
        irq = add_ticks c.irq irq;
        soft_irq = add_ticks c.soft_irq soft_irq;
      })
      else c

  unfoldable pub get_cpu_metrics : Cpu → Bytes → Cpu
  get_cpu_metrics c line =
      let (user, p) = strtoul (skip_token line) in
      let (nice, q) = strtoul p in
      let (sys, r) = strtoul q in
      let (idle, s) = strtoul r in
      sum_cpu (
        read_waits s (record c {
          user = add_ticks c.user user;
          nice = add_ticks c.nice nice;
          sys = add_ticks c.sys sys;
          idle = add_ticks c.idle idle;
        }))

  unfoldable pub cpu_get : Answer Bytes → Cpu → ℕ × Cpu
  unfolding get_cpu_metrics
  cpu_get (failed st) c = (st, c)
  cpu_get (answer buffer) c = (0, get_cpu_metrics cpu_zero buffer)

  abbrev pub is_cpu_line : Bytes → Bool
  is_cpu_line line = str_eq (take 3 line) (codes "cpu")

  -- A write to the last element of the list.
  unfoldable pub merge_last : Bytes → List Cpu → List Cpu
  merge_last line [] = []
  merge_last line (c ∷ []) = get_cpu_metrics c line ∷ []
  merge_last line (c ∷ d ∷ cs) = c ∷ merge_last line (d ∷ cs)

  -- The loop over the lines; `i` counts the processors.
  unfoldable pub cpu_lines : Bool → ℕ → ℕ → List Bytes → List Cpu → List Cpu
  unfolding merge_last
  cpu_lines core_rollup lcpu i [] cpus = cpus
  cpu_lines core_rollup lcpu i (line ∷ lines) cpus =
      let next =
        if core_rollup && not (i % lcpu == 0)
        then merge_last line cpus
        else cpus ++ get_cpu_metrics cpu_zero line ∷ [] in
      let rest = cpu_lines core_rollup lcpu (i + 1) lines next in
      if not (is_cpu_line line) then cpus else rest

  -- With no processor the buffer that is read was never written.
  abbrev pub some_cpus : List Cpu → Outcome (ℕ × List Cpu)
  some_cpus [] = fault
  some_cpus (c ∷ cs) = done (0, c ∷ cs)

  unfoldable pub cpu_list_get : Bool → ℕ → Answer (List Bytes) → Outcome (ℕ × List Cpu)
  unfolding cpu_lines
  cpu_list_get core_rollup lcpu (failed st) = done (st, [])
  cpu_list_get core_rollup lcpu (answer []) = done (minus_one, [])
  cpu_list_get core_rollup lcpu (answer (first ∷ lines)) =
      some_cpus (cpu_lines core_rollup lcpu 0 lines [])

  -- The lines of processors at the front.
  unfoldable pub cpu_prefix : List Bytes → List Bytes
  cpu_prefix [] = []
  cpu_prefix (line ∷ lines) = if is_cpu_line line then line ∷ cpu_prefix lines else []

  cpu_lines-map :
      (lcpu i : ℕ) (lines : List Bytes) (cpus : List Cpu)
      → cpu_lines false lcpu i lines cpus
        ≡ cpus ++ map (get_cpu_metrics cpu_zero) (cpu_prefix lines)
  unfolding cpu_lines cpu_prefix
  cpu_lines-map lcpu i [] cpus = sym (append-nil cpus)
  cpu_lines-map lcpu i (line ∷ lines) cpus = elim (Bool-cases (is_cpu_line line)) [
    | inl cpu ↦
        rw (cpu, cpu_lines-map lcpu (i + 1) lines (cpus ++ get_cpu_metrics cpu_zero line ∷ []))
          (append_assoc cpus (get_cpu_metrics cpu_zero line ∷ [])
            (map (get_cpu_metrics cpu_zero) (cpu_prefix lines)))
    | inr other ↦ rw other (sym (append-nil cpus))
  ]

  -- Where processors are not merged, the list has the metrics of each line of a processor that follows
  -- the first line, in their order; if there is none, memory is read that was never written.
  pub cpu_list_get-map :
      (lcpu : ℕ) (first : Bytes) (lines : List Bytes)
      → cpu_list_get false lcpu (answer (first ∷ lines))
        ≡ some_cpus (map (get_cpu_metrics cpu_zero) (cpu_prefix lines))
  unfolding cpu_list_get
  cpu_list_get-map lcpu first lines = ap some_cpus (cpu_lines-map lcpu 0 lines [])

-- The counters of /proc/stat.
pub record SystemStats : Type 0 where
  pub ctxt_switches : ℕ
  pub irq : ℕ
  pub soft_irq : ℕ

-- A line changes the counter that it names.
unfoldable pub stats_line : Bytes → SystemStats → SystemStats
stats_line line stats =
    let number = (strtoul (skip_token line)).0 in
    if str_eq (take 4 line) (codes "ctxt")
    then record stats { ctxt_switches = number }
    else if str_eq (take 4 line) (codes "intr")
    then record stats { irq = number }
    else if str_eq (take 7 line) (codes "softirq")
    then record stats { soft_irq = number }
    else stats

unfoldable pub stats_lines : List Bytes → SystemStats → SystemStats
unfolding stats_line
stats_lines [] stats = stats
stats_lines (line ∷ lines) stats = stats_lines lines (stats_line line stats)

unfoldable pub system_stats_get : Answer (List Bytes) → SystemStats → ℕ × SystemStats
unfolding stats_lines
system_stats_get (failed st) stats = (st, stats)
system_stats_get (answer lines) stats = (0, stats_lines lines stats)
