-- ===== src/Linux/CpuInfo.antt =====
-- `get_cpu_info`: what Linux tells of a processor in the lines of /proc/cpuinfo. `isspace` takes the bytes
-- that it takes in the C locale. A text is cut at the zero that `cpu_info_strcpy` writes.
use libsigar.Base.{
  ℕ, suc, ◌-◌, ◌%◌, Bool, false, ◌||◌, Option, none, some, List, [], ◌∷◌, ltb, ◌==◌, if◌then◌else◌,
  length, take,
}
use libsigar.Text.{Bytes, codes, str_eq, split_at, skip_space, atoi}
use libsigar.Outcome.{Outcome, done, fault, ◌>>=◌}
use libsigar.Util.CpuModel.{starts_with, cpu_model_adjust}
use libsigar.Linux.Read.{strtoul}

-- The fields of `sigar_cpu_info_t` that are set here.
pub record CpuInfo : Type 0 where
  pub vendor : Bytes
  pub model : Bytes
  pub mhz : ℕ
  pub cache_size : ℕ

abbrev pub no_info : CpuInfo
no_info = record { vendor = []; model = []; mhz = 0; cache_size = 0 }

-- `sizeof(info->vendor)` and `sizeof(info->model)`.
abbrev pub info_len : ℕ
info_len = 128

-- The text behind the colon.
unfoldable pub cpu_info_strval : Bytes → Option Bytes
cpu_info_strval ptr = elim (split_at b':' ptr) [
  | none ↦ none
  | some (key, rest) ↦ some (skip_space rest)
]

-- What `cpu_info_strcpy` leaves in the buffer: the text without its last byte, that of the line's end. An
-- empty text makes it write in front of the buffer, and one that fills the buffer has no end in it.
abbrev pub copied_text : Bytes → Outcome Bytes
copied_text [] = fault
copied_text (c ∷ s) =
    if ltb (suc (length s)) info_len then done (take (length s) (c ∷ s)) else fault

abbrev pub short_vendor : Bytes → Bytes
short_vendor v =
    if str_eq v (codes "GenuineIntel")
    then codes "Intel"
    else if str_eq v (codes "AuthenticAMD")
    then codes "AMD"
    else v

-- The zero that is written behind the buffer of the vendor is the first byte of the model.
abbrev pub set_vendor : Option Bytes → CpuInfo → Outcome CpuInfo
set_vendor none info = done (record info { vendor = short_vendor info.vendor })
set_vendor (some text) info =
    copied_text text >>= λ v. done (record info { vendor = short_vendor v; model = [] })

-- The zero behind the buffer of the model is the lowest byte of the frequency, on a little-endian machine.
abbrev pub copy_model : Option Bytes → CpuInfo → Outcome CpuInfo
copy_model none info = done info
copy_model (some text) info =
    copied_text text >>= λ t. done (record info { model = t; mhz = info.mhz - info.mhz % 256 })

abbrev pub set_model : Option Bytes → CpuInfo → Outcome CpuInfo
set_model text info = copy_model text info >>= λ copied.
    cpu_model_adjust copied.vendor copied.model >>= λ adjusted.
    done (record copied { model = adjusted })

-- A null pointer is read if there is no colon.
abbrev pub set_mhz : Option Bytes → CpuInfo → Outcome CpuInfo
set_mhz none info = fault
set_mhz (some text) info = done (record info { mhz = atoi text })

abbrev pub set_cache_size : Option Bytes → CpuInfo → Outcome CpuInfo
set_cache_size none info = fault
set_cache_size (some text) info = done (record info { cache_size = (strtoul text).0 })

-- The case of the switch for a line.
unfoldable pub cpu_info_line : Bytes → CpuInfo → Outcome CpuInfo
cpu_info_line ptr info =
    let text = cpu_info_strval ptr in
    if starts_with (codes "vendor") ptr
    then set_vendor text info
    else if starts_with (codes "family") ptr
    then set_model text info
    else if starts_with (codes "model name") ptr
    then set_model text info
    else if starts_with (codes "cpu MHz") ptr
    then set_mhz text info
    else if starts_with (codes "cache size") ptr
    then set_cache_size text info
    else done info

abbrev pub is_blank_line : Bytes → Bool
is_blank_line [] = false
is_blank_line (c ∷ s) = c == 10

-- Whether a processor was found, its fields, and the lines that are left.
unfoldable pub cpu_info_lines : Bool → CpuInfo → List Bytes → Outcome (Bool × CpuInfo × List Bytes)
cpu_info_lines found info [] = done (found, info, [])
cpu_info_lines found info (ptr ∷ lines) =
    if is_blank_line ptr
    then done (found, info, lines)
    else (cpu_info_line ptr info >>= λ info'.
        cpu_info_lines (found || starts_with (codes "processor") ptr) info' lines)

unfoldable pub get_cpu_info : List Bytes → Outcome (Bool × CpuInfo × List Bytes)
get_cpu_info lines = cpu_info_lines false no_info lines
