-- ===== src/Format/Percent.antt =====
-- `sigar_cpu_perc_calculate`: the shares of a processor's time between two readings. The `double`s are
-- a parameter.
use libsigar.Base.{ℕ, ◌-◌, ◌<◌, Bool, false, ◌≡◌, refl, if◌then◌else◌, sub64, u64_mod, arith}
use libsigar.Linux.Cpu.{Cpu}

-- What the code does with a `double`.
pub record CpuDoubles (D : Type 0) : Type 0 where
  pub of_u64 : ℕ → D
  pub is_negative : D → Bool
  pub dbl_zero : D
  pub add : D → D → D
  pub divide : D → D → D

-- `sigar_cpu_perc_t`.
pub record CpuPerc (D : Type 0) : Type 0 where
  pub user_share : D
  pub sys_share : D
  pub nice_share : D
  pub idle_share : D
  pub wait_share : D
  pub irq_share : D
  pub soft_irq_share : D
  pub stolen_share : D
  pub combined : D

module _ {D : Type 0} (dbl : CpuDoubles D) where
  -- The difference is one of unsigned words before it becomes a `double`.
  abbrev pub diff : ℕ → ℕ → D
  diff curr prev =
      let d = dbl.of_u64 (sub64 curr prev) in if dbl.is_negative d then dbl.dbl_zero else d

  abbrev pub sum_of : D → D → D → D → D → D → D → D → D
  sum_of a b c d e f g h =
      dbl.add (dbl.add (dbl.add (dbl.add (dbl.add (dbl.add (dbl.add a b) c) d) e) f) g) h

  unfoldable pub cpu_perc_calculate : Cpu → Cpu → CpuPerc D
  cpu_perc_calculate prev curr =
      let diff_user = diff curr.user prev.user in
      let diff_sys = diff curr.sys prev.sys in
      let diff_nice = diff curr.nice prev.nice in
      let diff_idle = diff curr.idle prev.idle in
      let diff_wait = diff curr.wait prev.wait in
      let diff_irq = diff curr.irq prev.irq in
      let diff_soft_irq = diff curr.soft_irq prev.soft_irq in
      let diff_stolen = diff curr.stolen prev.stolen in
      let diff_total =
        sum_of diff_user diff_sys diff_nice diff_idle diff_wait diff_irq diff_soft_irq
          diff_stolen in
      let user = dbl.divide diff_user diff_total in
      let sys = dbl.divide diff_sys diff_total in
      let nice = dbl.divide diff_nice diff_total in
      let wait = dbl.divide diff_wait diff_total in
      record {
        user_share = user;
        sys_share = sys;
        nice_share = nice;
        idle_share = dbl.divide diff_idle diff_total;
        wait_share = wait;
        irq_share = dbl.divide diff_irq diff_total;
        soft_irq_share = dbl.divide diff_soft_irq diff_total;
        stolen_share = dbl.divide diff_stolen diff_total;
        combined = dbl.add (dbl.add (dbl.add user sys) nice) wait;
      }

  -- A counter that went back gives the difference of words, 2 ^ 64 less what it lost: the condition that
  -- would make it 0 is never met, since no unsigned word is a negative `double`.
  pub diff_back :
      ((n : ℕ) → dbl.is_negative (dbl.of_u64 n) ≡ false)
      → (prev curr : ℕ) → curr < prev
      → prev < u64_mod
      → diff curr prev ≡ dbl.of_u64 (u64_mod - (prev - curr))
  diff_back nonneg prev curr less fits =
      let e : sub64 curr prev ≡ u64_mod - (prev - curr) = omega arith in
      rw (nonneg (sub64 curr prev), e) refl
