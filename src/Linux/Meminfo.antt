-- ===== src/Linux/Meminfo.antt =====
-- What is read of the memory from the text of /proc/meminfo, and when the registers of /proc/mtrr are
-- believed.
use libsigar.Base.{
  ℕ, ◌+◌, Bool, ◌≤◌, ◌++◌, ◌∙◌, some, ◌-◌, ◌*◌, ◌/◌, ◌%◌, ◌^◌, ◌<◌, true, false, ◌&&◌, not, List,
  [], ◌∷◌, ◌≡◌, ◌≢◌, refl, arith, ltb, leb, ◌==◌, if◌then◌else◌, length, drop, sub64, u64_mod,
  Bool-cases, inl, inr,
}
use libsigar.Outcome.{enoent_status, Answer, answer, failed}
use libsigar.Text.{Bytes, codes}
use libsigar.Util.Search.{strstr}
use libsigar.Util.Words.{skip_stop}
use libsigar.Linux.Read.{Numeral}
use libsigar.Linux.Columns.{indent, columns}
use libsigar.Linux.Memory.{
  Mem, meminfo, mtrr_total, plausible, widen, ram_from, ram_read, get_ram, mem_calc_ram, mem_read,
  mem_get,
}

module _ {Dbl : Type 0} where
  ram_from-keeps :
      {A : Type 0} (f : Mem Dbl → A) (total : ℕ) (mem : Mem Dbl) (ram : ℕ)
      → ((m : Mem Dbl) (r : ℕ) → f (record m { ram = r }) ≡ f m)
      → f (ram_from total mem ram).1 ≡ f mem
  ram_from-keeps f total mem ram h = elim (Bool-cases (total == 0)) [
    | inl gone ↦ rw gone refl
    | inr there ↦ rw there (h mem (widen total))
  ]

  ram_read-keeps :
      {A : Type 0} (f : Mem Dbl → A) (mtrr : Answer (List Bytes)) (mem : Mem Dbl) (ram : ℕ)
      → ((m : Mem Dbl) (r : ℕ) → f (record m { ram = r }) ≡ f m)
      → f (ram_read mtrr mem ram).1 ≡ f mem
  ram_read-keeps f (failed st) mem ram h = refl
  ram_read-keeps f (answer lines) mem ram h = ram_from-keeps f _ mem ram h

  get_ram-keeps :
      {A : Type 0} (f : Mem Dbl → A) (mtrr : Answer (List Bytes)) (mem : Mem Dbl) (ram : ℕ)
      → ((m : Mem Dbl) (r : ℕ) → f (record m { ram = r }) ≡ f m)
      → f (get_ram mtrr mem ram).1 ≡ f mem
  unfolding get_ram
  get_ram-keeps f mtrr mem ram h = elim (Bool-cases (not (ram == 0) && ltb ram (2 ^ 31))) [
    | inl cached ↦ rw cached (h mem ram)
    | inr unknown ↦ elim (Bool-cases (ram == 0)) [
      | inl gone ↦ rw (unknown, gone) refl
      | inr fresh ↦ rw (unknown, fresh) (ram_read-keeps f mtrr mem ram h)
    ]
  ]

-- What the kernel tells of its memory in kilobytes, each number with the blanks in front of it beside
-- the first.
pub record KernelMem : Type 0 where
  pub total : ℕ × Numeral
  pub free : ℕ × Numeral
  pub buffers : ℕ × Numeral
  pub cached : ℕ × Numeral

-- A zero in front of other digits makes a number octal.
abbrev pub is_octal : Bytes → Bool
is_octal [] = false
is_octal (c ∷ []) = false
is_octal (c ∷ d ∷ w) = c == b'0'

-- What follows the attribute: the number, and its unit with the rest of the text.
abbrev pub in_kilobytes : ℕ × Numeral → Bytes → Bytes
in_kilobytes (k, n) rest = columns ((k, n.text) ∷ (0, b'k' ∷ rest) ∷ [])

-- The first place of the attribute in the text has that number behind it, in kilobytes.
abbrev pub Says : Bytes → Bytes → ℕ × Numeral → Type 0
Says buffer attr n =
    (is_octal n.1.text ≡ false)
    × ((rest : Bytes) × (strstr buffer attr ≡ some (attr ++ in_kilobytes n rest)))

-- `strtoull` with the base 0 reads a number in decimal, up to the blank behind it.
abbrev pub ReadsDecimal : (Bytes → ℕ × Bytes) → Type 0
ReadsDecimal strtoull0 =
    (k : ℕ) (n : Numeral) (w : Bytes)
    → is_octal n.text ≡ false
    → strtoull0 (columns ((k, n.text) ∷ (0, w) ∷ [])) ≡ (n.value, columns ((0, w) ∷ []))

-- In bytes: the whole, what is free, what is used, and what is so if the buffers and the page cache
-- count as free; the shares are those of the kilobytes. The estimate is set to 0.
abbrev pub mem_of : {Dbl : Type 0} → (ℕ → ℕ → Dbl) → KernelMem → Mem Dbl
mem_of ratio k =
    let total = k.total.1.value in
    let free = k.free.1.value in
    let available = free + k.buffers.1.value + k.cached.1.value in
    record {
      ram = 0;
      total = 1024 * total;
      used = 1024 * (total - free);
      free = 1024 * free;
      actual_used = 1024 * (total - available);
      actual_free = 1024 * available;
      used_percent = ratio (100 * (total - available)) total;
      free_percent = ratio (100 * available) total;
    }

drop-length : (attr s : Bytes) → drop (length attr) (attr ++ s) ≡ s
drop-length [] s = refl
drop-length (c ∷ attr) s = drop-length attr s

meminfo-in_kilobytes :
    (strtoull0 : Bytes → ℕ × Bytes) (buffer attr : Bytes) (n : ℕ × Numeral)
    → ReadsDecimal strtoull0
    → Says buffer attr n
    → 1024 * n.1.value < 2 ^ 64
    → meminfo strtoull0 buffer attr ≡ 1024 * n.1.value
unfolding meminfo columns indent skip_stop
meminfo-in_kilobytes strtoull0 buffer attr (k, n) reads (decimal, (rest, there)) small =
    rw
      (meminfo, there, drop-length attr (in_kilobytes (k, n) rest), reads k n (b'k' ∷ rest) decimal)
      (omega arith)

mem_numbers :
    {Dbl : Type 0} (ratio : ℕ → ℕ → Dbl) (t f b c : ℕ)
    → f + b + c ≤ t
    → 1024 * t < 2 ^ 64
    → let used = sub64 (1024 * t) (1024 * f) in
      let kern = (1024 * b + 1024 * c) % u64_mod in
      let free = (1024 * f + kern) % u64_mod in
      Path
        (Mem Dbl)
        (record {
          ram = 0;
          total = 1024 * t;
          used = used;
          free = 1024 * f;
          actual_used = sub64 used kern;
          actual_free = free;
          used_percent =
              ratio (sub64 (1024 * t / 1024) (free / 1024) * 100 % u64_mod) (1024 * t / 1024);
          free_percent =
              ratio
                (sub64 (1024 * t / 1024) (sub64 used kern / 1024) * 100 % u64_mod)
                (1024 * t / 1024);
        })
        (record {
          ram = 0;
          total = 1024 * t;
          used = 1024 * (t - f);
          free = 1024 * f;
          actual_used = 1024 * (t - (f + b + c));
          actual_free = 1024 * (f + b + c);
          used_percent = ratio (100 * (t - (f + b + c))) t;
          free_percent = ratio (100 * (f + b + c)) t;
        })
mem_numbers ratio t f b c le small =
    let used : sub64 (1024 * t) (1024 * f) ≡ 1024 * (t - f) = omega arith in
    let kern : (1024 * b + 1024 * c) % u64_mod ≡ 1024 * (b + c) = omega arith in
    let really_used : sub64 (1024 * (t - f)) (1024 * (b + c)) ≡ 1024 * (t - (f + b + c)) =
      omega arith in
    let really_free : (1024 * f + 1024 * (b + c)) % u64_mod ≡ 1024 * (f + b + c) = omega arith in
    let whole : 1024 * t / 1024 ≡ t = omega arith in
    let used_part : sub64 t (1024 * (f + b + c) / 1024) * 100 % u64_mod ≡ 100 * (t - (f + b + c)) =
      omega arith in
    let free_part : sub64 t (1024 * (t - (f + b + c)) / 1024) * 100 % u64_mod ≡ 100 * (f + b + c) =
      omega arith in
    rw (used, kern, really_used, really_free, whole, used_part, free_part) refl

-- If the first place of each of the four attributes in the text of /proc/meminfo has behind it a
-- number of kilobytes that is not written as an octal one, `strtoull` reads such a number in
-- decimal, what is free, the buffers and the page cache are together no more than the whole, and
-- the whole in bytes is below 2 ^ 64, then the status is SIGAR_OK, and in bytes the whole and what
-- is free are the numbers of the kernel, what is used the rest, what is really free the sum of the
-- three, what is really used the rest of that, and the shares those of the kilobytes. The estimate
-- of the memory in megabytes is left out.
pub mem_get-mem_of :
    {Dbl : Type 0} (strtoull0 : Bytes → ℕ × Bytes) (ratio : ℕ → ℕ → Dbl) (buffer : Bytes)
    (k : KernelMem) (mtrr : Answer (List Bytes)) (mem : Mem Dbl) (ram : ℕ)
    → ReadsDecimal strtoull0
    → Says buffer (codes "MemTotal:") k.total
    → Says buffer (codes "MemFree:") k.free
    → Says buffer (codes "Buffers:") k.buffers
    → Says buffer (codes "Cached:") k.cached
    → k.free.1.value + k.buffers.1.value + k.cached.1.value ≤ k.total.1.value
    → 1024 * k.total.1.value < 2 ^ 64
    → let (status, mem', ram') = mem_get strtoull0 ratio (answer buffer) mtrr mem ram in
      (status ≡ 0) × (record mem' { ram = 0 } ≡ mem_of ratio k)
unfolding mem_get mem_read mem_calc_ram
mem_get-mem_of strtoull0 ratio buffer k mtrr mem ram reads ht hf hb hc le small =
    let m = mem_calc_ram ratio (mem_read strtoull0 buffer mem) in
    let value =
      λ (attr : Bytes) (n : ℕ × Numeral). meminfo-in_kilobytes strtoull0 buffer attr n reads in
    (
      refl,
      get_ram-keeps (λ m. record m { ram = 0 }) mtrr m ram (λ x r. refl)
          ∙ rw
              (
                value (codes "MemTotal:") k.total ht small,
                value (codes "MemFree:") k.free hf (omega arith),
                value (codes "Buffers:") k.buffers hb (omega arith),
                value (codes "Cached:") k.cached hc (omega arith),
              )
              (mem_numbers ratio k.total.1.value k.free.1.value k.buffers.1.value k.cached.1.value
                le small),
    )

-- The first time, a sum of the registers below 2 ^ 31 that is not 0 is believed exactly if it is no
-- less than the megabytes of the memory and at most 256 more; otherwise the status is ENOENT and the
-- estimate stays.
pub get_ram_first :
    {Dbl : Type 0} (lines : List Bytes) (mem : Mem Dbl)
    → mem.total < 2 ^ 64
    → mtrr_total lines 0 < 2 ^ 31
    → mtrr_total lines 0 ≢ 0
    → let total = mtrr_total lines 0 in
      let mb = mem.total / (1024 * 1024) in
      get_ram (answer lines) mem (2 ^ 32 - 1) ≡ (
        if leb mb total && leb total (mb + 256)
        then (0, record mem { ram = total }, total)
        else (enoent_status, mem, 2 ^ 32 - 1))
unfolding get_ram plausible
get_ram_first lines mem small low some_size =
    let total = mtrr_total lines 0 in
    let mb = mem.total / (1024 * 1024) in
    let no_sign : widen total ≡ total = ground arith in
    let e : (total == 0) ≡ false = ground arith in
    elim (Bool-cases (leb mb total && leb total (mb + 256))) [
      | inl near ↦
          let test : ltb 256 (sub64 total mb) ≡ false = ground arith in
          rw (no_sign, near, test, e, no_sign) refl
      | inr far ↦
          let test : ltb 256 (sub64 total mb) ≡ true = ground arith in rw (no_sign, far, test) refl
    ]
