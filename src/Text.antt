-- ===== src/Text.antt =====
-- C strings as lists of bytes, and the C library's functions on them that the code calls: comparison,
-- searching a byte, character classes, and reading decimal numbers.
use Prim.Native.Char.{code}
use Prim.Native.String.{String}
use libsigar.Base.{
  ℕ, ◌+◌, ◌-◌, ◌*◌, ◌%◌, ◌^◌, Bool, true, false, ◌&&◌, ◌||◌, not, [], ◌∷◌, ◌++◌, List, Option, none,
  some, ◌≡◌, ◌≢◌, refl, arith, ltb, leb, ◌==◌, if◌then◌else◌, take, All,
}

abbrev pub Bytes : Type 0
Bytes = List ℕ

-- The bytes of an ASCII literal.
abbrev pub codes : String → Bytes
codes String.[] = []
codes (String.◌∷◌ c s) = code c ∷ codes s

abbrev pub is_digit : ℕ → Bool
is_digit c = leb b'0' c && leb c b'9'

abbrev pub is_upper : ℕ → Bool
is_upper c = leb b'A' c && leb c b'Z'

-- Space, and `\t` to `\r`.
abbrev pub is_space : ℕ → Bool
is_space c = c == 32 || (leb 9 c && leb c 13)

abbrev pub to_lower : ℕ → ℕ
to_lower c = if is_upper c then c + 32 else c

-- `strcmp(a, b) == 0`.
unfoldable pub str_eq : Bytes → Bytes → Bool
str_eq [] [] = true
str_eq [] (b ∷ t) = false
str_eq (a ∷ s) [] = false
str_eq (a ∷ s) (b ∷ t) = a == b && str_eq s t

-- The sign of `strcmp` and, with `to_lower` for `fold`, of `strcasecmp`.
pub data Sign : Type 0 where
  below same above : Sign

unfoldable pub str_cmp : (ℕ → ℕ) → Bytes → Bytes → Sign
str_cmp fold [] [] = same
str_cmp fold [] (b ∷ t) = below
str_cmp fold (a ∷ s) [] = above
str_cmp fold (a ∷ s) (b ∷ t) =
    let rest = str_cmp fold s t in
    if ltb (fold a) (fold b) then below else if ltb (fold b) (fold a) then above else rest

-- `strncmp` reads at most `n` bytes of each.
abbrev pub strn_cmp : (ℕ → ℕ) → Bytes → Bytes → ℕ → Sign
strn_cmp fold s t n = str_cmp fold (take n s) (take n t)

-- `strchr(s, c)`, with what stands before the byte and behind it.
unfoldable pub split_at : ℕ → Bytes → Option (Bytes × Bytes)
split_at c [] = none
split_at c (b ∷ s) =
    if b == c
    then some ([], s)
    else (elim (split_at c s) [ none ↦ none | some (l, r) ↦ some (b ∷ l, r) ])

-- What `strtoul` and its kin read: the value, whether there was a digit, whether it fitted, the rest.
pub record Number : Type 0 where
  pub value : ℕ
  pub converted : Bool
  pub erange : Bool
  pub rest : Bytes

unfoldable pub skip_space : Bytes → Bytes
skip_space [] = []
skip_space (c ∷ s) = if is_space c then skip_space s else c ∷ s

-- The digits' value, how many there are, and the rest.
unfoldable pub read_digits : ℕ → ℕ → Bytes → ℕ × ℕ × Bytes
read_digits v n [] = (v, n, [])
read_digits v n (c ∷ s) =
    let more = read_digits (v * 10 + (c - b'0')) (n + 1) s in
    if is_digit c then more else (v, n, c ∷ s)

unfoldable pub read_sign : Bytes → Bool × Bytes
read_sign [] = (false, [])
read_sign (c ∷ s) =
    if c == b'-' then (true, s) else if c == b'+' then (false, s) else (false, c ∷ s)

-- `strtoull(s, &ptr, 10)`, for an unsigned type of `w` bits: a minus sign negates in the type.
unfoldable pub strtou : ℕ → Bytes → Number
unfolding skip_space read_digits read_sign
strtou w s =
    let (minus, t) = read_sign (skip_space s) in
    let (v, n, r) = read_digits 0 0 t in
    if n == 0
    then record { value = 0; converted = false; erange = false; rest = s }
    else if leb (2 ^ w) v
    then record { value = 2 ^ w - 1; converted = true; erange = true; rest = r }
    else record {
      value = if minus then (2 ^ w - v) % 2 ^ w else v;
      converted = true;
      erange = false;
      rest = r;
    }

abbrev pub is_nil : Bytes → Bool
is_nil [] = true
is_nil (c ∷ s) = false

-- `strtonum_failed`.
abbrev pub strtonum_failed : Number → Bool
strtonum_failed n = not n.converted || (n.erange || not (is_nil n.rest))

pub str_eq_self : (s : Bytes) → str_eq s s ≡ true
unfolding str_eq
str_eq_self [] = refl
str_eq_self (c ∷ s) = ground (arith, str_eq_self s)

pub str_eq→≡ : (s t : Bytes) → str_eq s t ≡ true → s ≡ t
unfolding str_eq
str_eq→≡ [] [] h = refl
str_eq→≡ [] (b ∷ t) h = cc
str_eq→≡ (a ∷ s) [] h = cc
str_eq→≡ (a ∷ s) (b ∷ t) h = ground (arith, str_eq→≡ s t)

-- A text that lacks a byte is cut at the first place where the byte is put.
abbrev pub Lacks : ℕ → Bytes → Type 0
Lacks c = All (λ b. b ≢ c)

pub split_at-append : (c : ℕ) (l r : Bytes) → Lacks c l → split_at c (l ++ c ∷ r) ≡ some (l, r)
unfolding split_at
split_at-append c [] r h = ground arith
split_at-append c (b ∷ l) r (hb, hl) = rw (split_at-append c l r hl) (ground arith)

-- `(unsigned)strtol(s, &ptr, 10)` for a 64-bit `long`, as its bit pattern.
unfoldable pub strtol : Bytes → Number
unfolding skip_space read_digits read_sign
strtol s =
    let (minus, t) = read_sign (skip_space s) in
    let (v, n, r) = read_digits 0 0 t in
    if n == 0
    then record { value = 0; converted = false; erange = false; rest = s }
    else if leb (if minus then 2 ^ 63 + 1 else 2 ^ 63) v
    then record {
      value = if minus then 2 ^ 63 else 2 ^ 63 - 1;
      converted = true;
      erange = true;
      rest = r;
    }
    else record {
      value = if minus then (2 ^ 64 - v) % 2 ^ 64 else v;
      converted = true;
      erange = false;
      rest = r;
    }

-- `atoi`, the low 32 bits of `strtol`, as in glibc.
abbrev pub atoi : Bytes → ℕ
atoi s = (strtol s).value % 2 ^ 32
