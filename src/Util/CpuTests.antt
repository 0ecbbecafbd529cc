-- ===== src/Util/CpuTests.antt =====
-- The models of processors at concrete names.
use libsigar.Base.{ℕ, true, false, some, none, [], ◌∷◌, ◌≡◌, refl, if◌then◌else◌, ◌==◌}
use libsigar.Text.{codes, str_eq, strtou, skip_space, read_sign, read_digits, split_at, strtol}
use libsigar.Outcome.{done, fault}
use libsigar.Util.CpuModel.{
  cpu_model_adjust, trim_blanks, skip_blanks, find_model, cpu_mhz_from_model, mhz_from, Cpuid,
  cpu_core_rollup, cpu_core_count,
}
use libsigar.Linux.CpuInfo.{get_cpu_info, cpu_info_lines, cpu_info_line, cpu_info_strval}

a_xeon :
    cpu_model_adjust (codes "Intel") (codes " Intel(R) XEON(TM) CPU 2.40GHz ") ≡ done (codes "Xeon")
unfolding cpu_model_adjust trim_blanks skip_blanks find_model str_eq
a_xeon = refl

all_blanks : cpu_model_adjust (codes "Intel") (codes "   ") ≡ fault
unfolding cpu_model_adjust trim_blanks
all_blanks = refl

a_fraction : cpu_mhz_from_model (codes "Intel(R) Xeon(TM) CPU 2.40GHz") ≡ 2400
unfolding cpu_mhz_from_model mhz_from strtou skip_space read_sign read_digits str_eq
a_fraction = refl

a_number : cpu_mhz_from_model (codes "Pentium 4 CPU 1500MHz") ≡ 1500
unfolding cpu_mhz_from_model mhz_from strtou skip_space read_sign read_digits str_eq
a_number = refl

abbrev two_cores : ℕ → Cpuid
two_cores request =
    if request == 0
    then record { ebx = 0x756e6547; edx = 0 }
    else record { ebx = 0x20000; edx = 0x10000000 }

-- The sockets are asked for, and the log is not verbose.
not_rolled_up :
    cpu_core_rollup two_cores false (record { lcpu = none; cpu_list_cores = false })
    ≡ (false, record { lcpu = some 2; cpu_list_cores = false })
unfolding cpu_core_rollup cpu_core_count
not_rolled_up = refl

rolled_up_once :
    cpu_core_rollup two_cores true (record { lcpu = none; cpu_list_cores = false })
    ≡ (true, record { lcpu = some 2; cpu_list_cores = false })
unfolding cpu_core_rollup cpu_core_count
rolled_up_once = refl

-- The model after the frequency takes the lowest byte of it: 1500 becomes 1280.
mhz_before_model :
    get_cpu_info (
      codes "processor : 0"
      ∷ codes "cpu MHz : 1500"
      ∷ codes "model name : Athlon 64 X"
      ∷ (10 ∷ [])
      ∷ [])
    ≡ done (true, record { vendor = []; model = codes "Athlon"; mhz = 1280; cache_size = 0 }, [])
unfolding get_cpu_info cpu_info_lines cpu_info_line cpu_info_strval split_at skip_space str_eq
    strtol read_sign read_digits cpu_model_adjust trim_blanks skip_blanks find_model
mhz_before_model = refl
