-- ===== src/Util/Words.antt =====
-- Numbers, words and arguments as texts: `sigar_uitoa`, `sigar_getword`, `sigar_skip_token` and the
-- arguments of `sigar_procfs_args_get` in src/sigar_util.c.
use libsigar.Base.{
  ℕ, zero, suc, ◌+◌, ◌-◌, ◌*◌, ◌/◌, ◌%◌, ◌||◌, [], ◌∷◌, List, Option, none, some, ◌==◌,
  if◌then◌else◌, leb, ◌^◌, u32_mod, u64_mod, sub64,
}
use libsigar.Text.{Bytes, is_space}

-- The digits go to the left, into a buffer with room for `room` of them.
unfoldable pub digits_from : ℕ → ℕ → Bytes → Option Bytes
digits_from zero n start = none
digits_from (suc room) n start =
    let start' = (b'0' + n % 10) ∷ start in
    let rest = digits_from room (n / 10) start' in if n / 10 == 0 then some start' else rest

-- `UITOA_BUFFER_SIZE - 1`, the bytes before the terminating zero.
abbrev pub uitoa_room : ℕ
uitoa_room = 12

unfoldable pub uitoa : ℕ → Option Bytes
unfolding digits_from
uitoa n = digits_from uitoa_room n []

unfoldable pub skip_spaces : Bytes → Bytes
skip_spaces [] = []
skip_spaces (c ∷ s) = if is_space c then skip_spaces s else c ∷ s

unfoldable pub skip_word : Bytes → Bytes
skip_word [] = []
skip_word (c ∷ s) = if is_space c then c ∷ s else skip_word s

unfoldable pub skip_token : Bytes → Bytes
unfolding skip_spaces skip_word
skip_token p = skip_word (skip_spaces p)

unfoldable pub skip_multiple_token : Bytes → ℕ → Bytes
skip_multiple_token p zero = p
skip_multiple_token p (suc count) = skip_multiple_token (skip_token p) count

-- The word before the first `stop`, and what comes from there on.
unfoldable pub word_until : ℕ → Bytes → Bytes × Bytes
word_until stop [] = ([], [])
word_until stop (c ∷ s) =
    let (w, r) = word_until stop s in if c == stop then ([], c ∷ s) else (c ∷ w, r)

unfoldable pub skip_stop : ℕ → Bytes → Bytes
skip_stop stop [] = []
skip_stop stop (c ∷ s) = if c == stop then skip_stop stop s else c ∷ s

-- The word, and the line that is left.
unfoldable pub getword : Bytes → ℕ → Bytes × Bytes
unfolding word_until skip_stop
getword line stop =
    let (w, pos) = word_until stop line in (w, if stop == 0 then pos else skip_stop stop pos)

-- One more byte at the front of the first argument.
abbrev pub extend : ℕ → List Bytes → List Bytes
extend c [] = (c ∷ []) ∷ []
extend c (w ∷ ws) = (c ∷ w) ∷ ws

-- The arguments in the bytes that were read, which a zero ends; the last may have none.
unfoldable pub args_of : Bytes → List Bytes
args_of [] = []
args_of (c ∷ s) = let rest = args_of s in if c == 0 then [] ∷ rest else extend c rest

-- The memory in megabytes, up to the next multiple of 8, as the bits of an `int`: one with the sign bit
-- has no positive remainder.
unfoldable pub calc_ram : ℕ → ℕ
calc_ram total =
    let ram = total / (1024 * 1024) % u32_mod in
    if leb (2 ^ 31) ram || ram % 8 == 0 then ram else ram + (8 - ram % 8)

-- The share of a file system that is used, in hundredths, rounded up.
unfoldable pub usage_calc_used : ℕ → ℕ → ℕ → ℕ
usage_calc_used total free avail =
    let used = sub64 total free / 1024 in
    let utotal = (used + avail / 1024) % u64_mod in
    let u100 = used * 100 % u64_mod in
    if utotal == 0 then 0 else u100 / utotal + (if u100 % utotal == 0 then 0 else 1)
