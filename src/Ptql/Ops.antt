-- ===== src/Ptql/Ops.antt =====
-- The operators of a query: their names, and the tables of comparisons for each type of value. A
-- result `none` is a read past the end of the table.
use libsigar.Base.{
  ℕ, ◌+◌, ◌-◌, ◌%◌, Bool, true, false, not, Option, none, some, ltb, leb, ◌==◌, if◌then◌else◌,
  length, drop,
}
use libsigar.Text.{Bytes, codes, str_eq, Sign, below, same, above, str_cmp, strn_cmp, to_lower}
use libsigar.Ptql.Types.{
  OpName, op_eq, op_ne, op_gt, op_ge, op_lt, op_le, op_ew, op_sw, op_re, op_ct, op_max,
}
use libsigar.Util.Search.{strcasestr, strstr}

unfoldable pub op_code_get : Bytes → OpName
unfolding str_eq
op_code_get op =
    if str_eq op (codes "eq")
    then op_eq
    else if str_eq op (codes "ne")
    then op_ne
    else if str_eq op (codes "gt")
    then op_gt
    else if str_eq op (codes "ge")
    then op_ge
    else if str_eq op (codes "lt")
    then op_lt
    else if str_eq op (codes "le")
    then op_le
    else if str_eq op (codes "ew")
    then op_ew
    else if str_eq op (codes "sw")
    then op_sw
    else if str_eq op (codes "re")
    then op_re
    else if str_eq op (codes "ct")
    then op_ct
    else op_max

-- `ptql_op_ui64`, and `ptql_op_ui32`.
unfoldable pub op_ui64 : OpName → ℕ → ℕ → Option Bool
op_ui64 op_eq a b = some (a == b)
op_ui64 op_ne a b = some (not (a == b))
op_ui64 op_gt a b = some (ltb b a)
op_ui64 op_ge a b = some (leb b a)
op_ui64 op_lt a b = some (ltb a b)
op_ui64 op_le a b = some (leb a b)
op_ui64 _ a b = none

unfoldable pub op_ui32 : OpName → ℕ → ℕ → Option Bool
op_ui32 op_eq a b = some (a == b)
op_ui32 op_ne a b = some (not (a == b))
op_ui32 op_gt a b = some (ltb b a)
op_ui32 op_ge a b = some (leb b a)
op_ui32 op_lt a b = some (ltb a b)
op_ui32 op_le a b = some (leb a b)
op_ui32 _ a b = none

-- A `char` is signed: its order is that of the byte with its top bit flipped.
abbrev signed_char : ℕ → ℕ
signed_char c = (c + 128) % 256

-- `ptql_op_chr`.
unfoldable pub op_chr : OpName → ℕ → ℕ → Option Bool
op_chr op_eq a b = some (a == b)
op_chr op_ne a b = some (not (a == b))
op_chr op_gt a b = some (ltb (signed_char b) (signed_char a))
op_chr op_ge a b = some (leb (signed_char b) (signed_char a))
op_chr op_lt a b = some (ltb (signed_char a) (signed_char b))
op_chr op_le a b = some (leb (signed_char a) (signed_char b))
op_chr _ a b = none

-- The comparisons of `double`.
pub record DoubleOrder (Dbl : Type 0) : Type 0 where
  pub dbl_zero : Dbl
  pub dbl_eq : Dbl → Dbl → Bool
  pub dbl_lt : Dbl → Dbl → Bool
  pub dbl_le : Dbl → Dbl → Bool

-- `ptql_op_dbl`.
unfoldable pub op_dbl : {Dbl : Type 0} → DoubleOrder Dbl → OpName → Dbl → Dbl → Option Bool
op_dbl o op_eq a b = some (o.dbl_eq a b)
op_dbl o op_ne a b = some (not (o.dbl_eq a b))
op_dbl o op_gt a b = some (o.dbl_lt b a)
op_dbl o op_ge a b = some (o.dbl_le b a)
op_dbl o op_lt a b = some (o.dbl_lt a b)
op_dbl o op_le a b = some (o.dbl_le a b)
op_dbl o _ a b = none

-- `IS_ICASE`: how a byte is compared.
abbrev pub fold : Bool → ℕ → ℕ
fold true = to_lower
fold false = λ c. c

abbrev is_same : Sign → Bool
is_same same = true
is_same _ = false

abbrev is_above : Sign → Bool
is_above above = true
is_above _ = false

abbrev is_below : Sign → Bool
is_below below = true
is_below _ = false

abbrev pub found : Option Bytes → Bool
found none = false
found (some s) = true

str_ew : Bool → Bytes → Bytes → Bool
str_ew icase haystack needle =
    let nlen = length needle in
    let hlen = length haystack in
    if ltb hlen nlen
    then false
    else is_same (strn_cmp (fold icase) (drop (hlen - nlen) haystack) needle nlen)

str_sw : Bool → Bytes → Bytes → Bool
str_sw icase haystack needle = is_same (strn_cmp (fold icase) haystack needle (length needle))

str_ct : Bool → Bytes → Bytes → Bool
str_ct true haystack needle = found (strcasestr haystack needle)
str_ct false haystack needle = found (strstr haystack needle)

-- `ptql_op_str`; with no PCRE `ptql_op_str_re` is false.
unfoldable pub op_str : Bool → OpName → Bytes → Bytes → Option Bool
unfolding str_ew str_sw str_ct
op_str icase op_eq a b = some (is_same (str_cmp (fold icase) a b))
op_str icase op_ne a b = some (not (is_same (str_cmp (fold icase) a b)))
op_str icase op_gt a b = some (is_above (str_cmp (fold icase) a b))
op_str icase op_ge a b = some (not (is_below (str_cmp (fold icase) a b)))
op_str icase op_lt a b = some (is_below (str_cmp (fold icase) a b))
op_str icase op_le a b = some (not (is_above (str_cmp (fold icase) a b)))
op_str icase op_ew a b = some (str_ew icase a b)
op_str icase op_sw a b = some (str_sw icase a b)
op_str icase op_re a b = some false
op_str icase op_ct a b = some (str_ct icase a b)
op_str icase op_max a b = none
