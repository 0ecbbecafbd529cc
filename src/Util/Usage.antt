-- ===== src/Util/Usage.antt =====
-- The share of a file system that is used.
use libsigar.Base.{
  ℕ, ◌+◌, ◌-◌, ◌*◌, ◌/◌, ◌%◌, ◌^◌, ◌<◌, ◌≤◌, ◌≡◌, inl, inr, Bool-cases, ==_iff, arith, ◌==◌,
  if◌then◌else◌, u64_mod, sub64,
}
use native.Mathlib.Nat.{div-lt_iff_lt-mul, mul-mod_right, mul-div_right}
use libsigar.Util.Words.{usage_calc_used}

share :
    (used utotal : ℕ)
    → used ≤ utotal
    → 0 < utotal
    → used * 100 / utotal + (if used * 100 % utotal == 0 then 0 else 1) ≤ 100
share used utotal le pos = elim (Bool-cases (used == utotal)) [
  | inl all ↦
      let e : used ≡ utotal = (==_iff used utotal).0 all in
      let m : used * 100 % utotal ≡ 0 = rw e (mul-mod_right utotal 100) in
      let d : used * 100 / utotal ≡ 100 = rw e (mul-div_right 100 pos) in rw (m, d) (omega arith)
  | inr some_free ↦
      let lt : used < utotal = ground arith in
      let d : used * 100 / utotal < 100 = (div-lt_iff_lt-mul pos).1 (omega arith) in
      elim (Bool-cases (used * 100 % utotal == 0)) [
        | inl exact ↦ rw exact (omega (arith, d))
        | inr above ↦ rw above (omega (arith, d))
      ]
]

-- For sizes of 64 bits, with no more free than there is, nothing overflows: the share is at most one
-- hundred hundredths.
pub usage_calc_used-bound :
    (total free avail : ℕ)
    → free ≤ total
    → total < 2 ^ 64
    → avail < 2 ^ 64
    → usage_calc_used total free avail ≤ 100
unfolding usage_calc_used
usage_calc_used-bound total free avail le ht ha =
    let used = (total - free) / 1024 in
    let diff : sub64 total free ≡ total - free = omega arith in
    let fits : (used + avail / 1024) % u64_mod ≡ used + avail / 1024 = omega arith in
    let hundred : used * 100 % u64_mod ≡ used * 100 = omega arith in
    rw (diff, fits, hundred)
      (elim (Bool-cases (used + avail / 1024 == 0)) [
        | inl none_used ↦ rw none_used (omega arith)
        | inr some_used ↦
            rw some_used (share used (used + avail / 1024) (omega arith) (ground arith))
      ])
