-- ===== src/Util/CpuModel.antt =====
-- The model of a processor in src/sigar_util.c: the name without its vendor, the frequency in it, and the
-- number of cores. `cpuid` is a parameter.
use libsigar.Base.{
  ℕ, ◌-◌, ==_iff, ◌+◌, ◌*◌, ◌/◌, ◌%◌, Bool, true, false, ◌&&◌, ◌||◌, not, Option, none, some, List,
  [], ◌∷◌, ◌≡◌, refl, arith, ltb, ◌==◌, if◌then◌else◌, length, take, drop, All, Bool-cases, inl,
  inr, u32_mod,
}
use libsigar.Text.{Bytes, codes, str_eq, is_digit, strtou}
use libsigar.Outcome.{Outcome, done, fault}

abbrev pub blank : ℕ
blank = 32

unfoldable pub skip_blanks : Bytes → Bytes
skip_blanks [] = []
skip_blanks (c ∷ s) = if c == blank then skip_blanks s else c ∷ s

abbrev pub keep_byte : ℕ → Option Bytes → Option Bytes
keep_byte c none = if c == blank then none else some (c ∷ [])
keep_byte c (some t) = some (c ∷ t)

-- The loop from the end, which runs out of the buffer if there is nothing but blanks.
unfoldable pub trim_blanks : Bytes → Option Bytes
trim_blanks [] = none
trim_blanks (c ∷ s) = keep_byte c (trim_blanks s)

abbrev pub starts_with : Bytes → Bytes → Bool
starts_with text s = str_eq (take (length text) s) text

-- `cpu_models`: what a name begins with, and what it becomes.
abbrev pub cpu_models : List (Bytes × Bytes)
cpu_models =
    (codes "Xeon", codes "Xeon")
    ∷ (codes "XEON", codes "Xeon")
    ∷ (codes "Pentium III", codes "Pentium III")
    ∷ (codes "Pentium II", codes "Pentium II")
    ∷ (codes "Pentium(R) III", codes "Pentium III")
    ∷ (codes "Pentium(R) 4", codes "Pentium 4")
    ∷ (codes "Pentium(R) M", codes "Pentium M")
    ∷ (codes "Pentium Pro", codes "Pentium Pro")
    ∷ (codes "Celeron", codes "Celeron")
    ∷ (codes "Opteron", codes "Opteron")
    ∷ (codes "Athlon", codes "Athlon")
    ∷ (codes "Duron", codes "Duron")
    ∷ (codes "K6(tm)-III", codes "K6 III")
    ∷ (codes "K6(tm) 3D+", codes "K6 3D+")
    ∷ []

-- The name of the first entry that the text begins with, or the text.
unfoldable pub find_model : List (Bytes × Bytes) → Bytes → Bytes
find_model [] ptr = ptr
find_model ((name, rname) ∷ models) ptr =
    let rest = find_model models ptr in if starts_with name ptr then rname else rest

abbrev pub skip_cpu_r : Bytes → Bytes
skip_cpu_r ptr = if starts_with (codes "(R)") ptr then drop 3 ptr else ptr

abbrev pub skip_vendor : Bytes → Bytes → Bytes
skip_vendor vendor ptr =
    if starts_with vendor ptr then skip_blanks (skip_cpu_r (drop (length vendor) ptr)) else ptr

abbrev pub skip_dash : Bytes → Bytes
skip_dash [] = []
skip_dash (c ∷ s) = if c == b'-' then s else c ∷ s

-- `info->model` afterwards, from the vendor and the model before.
unfoldable pub cpu_model_adjust : Bytes → Bytes → Outcome Bytes
cpu_model_adjust vendor model = elim (trim_blanks model) [
  | none ↦ fault
  | some trimmed ↦
      done (find_model cpu_models (skip_dash (skip_vendor vendor (skip_blanks trimmed))))
]

-- `SIGAR_FIELD_NOTIMPL` as an `int`.
abbrev pub no_mhz : ℕ
no_mhz = u32_mod - 1

-- What stands behind the first number after a space: a fraction, a unit, or another text.
abbrev pub mhz_at : ℕ → Bytes → Option ℕ
mhz_at mhz rest =
    let n = strtou 64 (drop 1 rest) in
    let sum = (mhz * 100 + n.value) % u32_mod in
    if starts_with (codes ".") rest
    then some (
        if starts_with (codes "GHz") n.rest && not (sum == no_mhz) then sum * 10 % u32_mod else sum)
    else if starts_with (codes "GHz") rest
    then some (if mhz == no_mhz then mhz else mhz * 10 % u32_mod)
    else if starts_with (codes "MHz") rest
    then some mhz
    else none

-- The search of a space, and of a digit behind it (`true`). A number that is followed by no unit is
-- passed over; its digits are no spaces, so the search may go on from its second one.
unfoldable pub mhz_from : Bool → Bytes → ℕ
mhz_from seeking [] = no_mhz
mhz_from false (c ∷ s) = mhz_from (c == blank) s
mhz_from true (c ∷ s) =
    let n = strtou 64 (c ∷ s) in
    let skipped = mhz_from true s in
    let searched = mhz_from false s in
    if is_digit c
    then (elim (mhz_at (n.value % u32_mod) n.rest) [ some mhz ↦ mhz | none ↦ searched ])
    else skipped

unfoldable pub cpu_mhz_from_model : Bytes → ℕ
cpu_mhz_from_model model = mhz_from false model

-- The registers of `cpuid` that are read.
pub record Cpuid : Type 0 where
  pub ebx : ℕ
  pub edx : ℕ

-- `sigar->lcpu`, with `none` for -1, and `sigar->cpu_list_cores`.
pub record Cores : Type 0 where
  pub lcpu : Option ℕ
  pub cpu_list_cores : Bool

abbrev pub is_known_vendor : ℕ → Bool
is_known_vendor ebx = ebx == 0x756e6547 || ebx == 0x68747541

abbrev pub count_cores : (ℕ → Cpuid) → ℕ
count_cores cpuid =
    if is_known_vendor (cpuid 0).ebx && (cpuid 1).edx / 0x10000000 % 2 == 1
    then (cpuid 1).ebx / 0x10000 % 256
    else 1

-- The number of cores of a socket, asked for once.
abbrev pub cores_of : (ℕ → Cpuid) → Option ℕ → ℕ
cores_of cpuid none = count_cores cpuid
cores_of cpuid (some lcpu) = lcpu

unfoldable pub cpu_core_count : (ℕ → Cpuid) → Cores → ℕ × Cores
cpu_core_count cpuid sigar =
    let lcpu = cores_of cpuid sigar.lcpu in (lcpu, record sigar { lcpu = some lcpu })

abbrev pub is_unset : Option ℕ → Bool
is_unset none = true
is_unset (some lcpu) = false

-- Whether cores are rolled up to sockets; `debug` says that the log is verbose.
unfoldable pub cpu_core_rollup : (ℕ → Cpuid) → Bool → Cores → Bool × Cores
cpu_core_rollup cpuid debug sigar =
    let log_rollup = debug && is_unset sigar.lcpu in
    let (lcpu, sigar') = cpu_core_count cpuid sigar in
    (not sigar.cpu_list_cores && (log_rollup && ltb 1 lcpu), sigar')

-- Cores are rolled up in a verbose log's first call only.
pub cpu_core_rollup_quiet :
    (cpuid : ℕ → Cpuid) (sigar : Cores) → (cpu_core_rollup cpuid false sigar).0 ≡ false
unfolding cpu_core_rollup
cpu_core_rollup_quiet cpuid sigar = elim (Bool-cases sigar.cpu_list_cores) [
  | inl cores ↦ rw cores refl
  | inr sockets ↦ rw sockets refl
]

not_kept : (c : ℕ) (o : Option Bytes) → keep_byte c o ≡ none → (c ≡ blank) × (o ≡ none)
not_kept c none h = elim (Bool-cases (c == blank)) [
  | inl same ↦ ((==_iff c blank).0 same, refl)
  | inr other ↦ let impossible : some (c ∷ []) ≡ none = rw other at h in ground arith
]
not_kept c (some t) h = ground arith

-- The loop from the end stays in the buffer unless the model is nothing but blanks.
pub trim_blanks-All : (s : Bytes) → trim_blanks s ≡ none → All (λ c. c ≡ blank) s
unfolding trim_blanks
trim_blanks-All [] h = tt
trim_blanks-All (c ∷ s) h =
    let (same, rest) = not_kept c (trim_blanks s) h in (same, trim_blanks-All s rest)
