-- ===== src/Linux/Memory.antt =====
-- `sigar_mem_get` and `sigar_swap_get`, from the texts of /proc/meminfo, /proc/mtrr, /proc/vmstat and
-- /proc/stat. `strtoull` with the base 0 and `double` are parameters.
use libsigar.Base.{
  ℕ, ◌+◌, ◌-◌, ◌*◌, ◌/◌, ◌%◌, ◌^◌, Bool, true, false, ◌&&◌, not, List, [], ◌∷◌, Option, none, some,
  ltb, leb, ◌==◌, if◌then◌else◌, length, drop, sub64, u32_mod, u64_mod, field_notimpl,
}
use libsigar.Outcome.{enoent_status, Answer, answer, failed}
use libsigar.Text.{Bytes, codes, atoi}
use libsigar.Util.Search.{strstr}
use libsigar.Util.Words.{skip_spaces, skip_token, skip_stop, calc_ram}
use libsigar.Linux.Read.{strtoul}

-- `sigar_mem_t`.
pub record Mem (Dbl : Type 0) : Type 0 where
  pub ram : ℕ
  pub total : ℕ
  pub used : ℕ
  pub free : ℕ
  pub actual_used : ℕ
  pub actual_free : ℕ
  pub used_percent : Dbl
  pub free_percent : Dbl

-- `sigar_swap_t`.
pub record Swap : Type 0 where
  pub total : ℕ
  pub used : ℕ
  pub free : ℕ
  pub page_in : ℕ
  pub page_out : ℕ

module _ (strtoull0 : Bytes → ℕ × Bytes) where
  abbrev pub scaled : ℕ → Bytes → ℕ
  scaled val [] = val
  scaled val (c ∷ tok) =
      if c == b'k'
      then val * 1024 % u64_mod
      else if c == b'M'
      then val * (1024 * 1024) % u64_mod
      else val

  unfoldable pub meminfo : Bytes → Bytes → ℕ
  meminfo buffer attr = elim (strstr buffer attr) [
    | none ↦ 0
    | some ptr ↦
        let (val, tok) = strtoull0 (drop (length attr) ptr) in scaled val (skip_stop b' ' tok)
  ]

  -- The pages in and out, one after the other on a kernel of 2.4, with a name between them later.
  abbrev pub swap_pages : Option Bytes → Bool → Swap → Swap
  swap_pages none named swap = swap
  swap_pages (some ptr) named swap =
      let (page_in, p) = strtoul (skip_token ptr) in
      let (page_out, q) = strtoul (if named then skip_token p else p) in
      record swap { page_in = page_in; page_out = page_out }

  abbrev pub swap_vm : Answer Bytes → Answer Bytes → Swap → ℕ × Swap
  swap_vm (answer vmstat) stat swap =
      (0, swap_pages (strstr vmstat (b'\n' ∷ codes "pswpin")) true swap)
  swap_vm (failed st) (failed st') swap = (st', swap)
  swap_vm (failed st) (answer stat) swap =
      (0, swap_pages (strstr stat (b'\n' ∷ codes "swap")) false swap)

  unfoldable pub swap_get : Answer Bytes → Answer Bytes → Answer Bytes → Swap → ℕ × Swap
  unfolding meminfo
  swap_get (failed st) vmstat stat swap = (st, swap)
  swap_get (answer buffer) vmstat stat swap =
      let total = meminfo buffer (codes "SwapTotal:") in
      let free = meminfo buffer (codes "SwapFree:") in
      swap_vm vmstat stat record {
        total = total;
        free = free;
        used = sub64 total free;
        page_in = field_notimpl;
        page_out = field_notimpl;
      }

-- The size of a write-back register, 0 for another line.
unfoldable pub mtrr_size : Bytes → ℕ
mtrr_size line = elim (strstr line (codes "size=")) [
  | none ↦ 0
  | some ptr ↦ elim (strstr ptr (codes "write-back")) [
    | none ↦ 0
    | some q ↦ atoi (skip_spaces (drop 5 ptr))
  ]
]

-- The sum, in an `int`.
unfoldable pub mtrr_total : List Bytes → ℕ → ℕ
unfolding mtrr_size
mtrr_total [] total = total
mtrr_total (line ∷ lines) total = mtrr_total lines ((total + mtrr_size line) % u32_mod)

-- An `int` as an unsigned number of 64 bits.
abbrev pub widen : ℕ → ℕ
widen x = if leb (2 ^ 31) x then x + (u64_mod - u32_mod) else x

-- The sum, unless it is way off.
unfoldable pub plausible : ℕ → ℕ → ℕ
plausible total sys_total = if ltb 256 (sub64 (widen total) sys_total) then 0 else total

module _ {Dbl : Type 0} where
  abbrev pub ram_from : ℕ → Mem Dbl → ℕ → ℕ × Mem Dbl × ℕ
  ram_from total mem ram =
      if total == 0 then (enoent_status, mem, ram) else (0, record mem { ram = widen total }, total)

  abbrev pub ram_read : Answer (List Bytes) → Mem Dbl → ℕ → ℕ × Mem Dbl × ℕ
  ram_read (failed st) mem ram = (st, mem, ram)
  ram_read (answer lines) mem ram =
      ram_from (plausible (mtrr_total lines 0) (mem.total / (1024 * 1024))) mem ram

  -- `sigar->ram` is kept as the last component; it is -1 first, and 0 stands for none.
  unfoldable pub get_ram : Answer (List Bytes) → Mem Dbl → ℕ → ℕ × Mem Dbl × ℕ
  unfolding mtrr_total plausible
  get_ram mtrr mem ram =
      if not (ram == 0) && ltb ram (2 ^ 31)
      then (0, record mem { ram = ram }, ram)
      else if ram == 0
      then (enoent_status, mem, ram)
      else ram_read mtrr mem ram

  -- `sigar_mem_calc_ram`; `ratio` divides two signed numbers of 64 bits.
  unfoldable pub mem_calc_ram : (ℕ → ℕ → Dbl) → Mem Dbl → Mem Dbl
  mem_calc_ram ratio mem =
      let total = mem.total / 1024 in
      record mem {
        ram = widen (calc_ram mem.total);
        used_percent = ratio (sub64 total (mem.actual_free / 1024) * 100 % u64_mod) total;
        free_percent = ratio (sub64 total (mem.actual_used / 1024) * 100 % u64_mod) total;
      }

  unfoldable pub mem_read : (Bytes → ℕ × Bytes) → Bytes → Mem Dbl → Mem Dbl
  mem_read strtoull0 buffer mem =
      let total = meminfo strtoull0 buffer (codes "MemTotal:") in
      let free = meminfo strtoull0 buffer (codes "MemFree:") in
      let buffers = meminfo strtoull0 buffer (codes "Buffers:") in
      let cached = meminfo strtoull0 buffer (codes "Cached:") in
      let kern = (buffers + cached) % u64_mod in
      let used = sub64 total free in
      record mem {
        total = total;
        free = free;
        used = used;
        actual_free = (free + kern) % u64_mod;
        actual_used = sub64 used kern;
      }

  -- The status of `get_ram` is dropped.
  unfoldable pub mem_get :
      (Bytes → ℕ × Bytes)
      → (ℕ → ℕ → Dbl)
      → Answer Bytes
      → Answer (List Bytes)
      → Mem Dbl
      → ℕ
      → ℕ × Mem Dbl × ℕ
  unfolding mem_read get_ram
  mem_get strtoull0 ratio (failed st) mtrr mem ram = (st, mem, ram)
  mem_get strtoull0 ratio (answer buffer) mtrr mem ram =
      let (status, mem', ram') =
        get_ram mtrr (mem_calc_ram ratio (mem_read strtoull0 buffer mem)) ram in
      (0, mem', ram')
