-- ===== src/Ptql/RoundTrip.antt =====
-- Parsing a printed branch gives its parts back.
use libsigar.Base.{ℕ, Bool, true, false, [], ◌∷◌, ◌++◌, ◌≡◌, arith, if◌then◌else◌, append_assoc}
use libsigar.Text.{Bytes, is_upper, split_at-append, Lacks}
use libsigar.Ptql.Types.{OpFlags, no_flags, ok}
use libsigar.Ptql.Parse.{modifier, parse_modifiers, parse_query, rename_service, branch_parse}

-- The flags that a text can set.
abbrev pub flags_of : Bool → Bool → OpFlags
flags_of parent icase = record no_flags { parent = parent; icase = icase }

print_flags : Bool → Bool → Bytes
print_flags parent icase = (if parent then b'P' ∷ [] else []) ++ (if icase then b'I' ∷ [] else [])

-- `name.attr.PIop=value`.
unfoldable pub print : Bytes → Bytes → Bool → Bool → Bytes → Bytes → Bytes
unfolding print_flags
print name attr parent icase op value =
    name ++ b'.' ∷ (attr ++ b'.' ∷ (print_flags parent icase ++ (op ++ b'=' ∷ value)))

-- An operator begins with a byte that is no capital letter.
abbrev pub IsOperator : Bytes → Type 0
IsOperator [] = ⊥
IsOperator (c ∷ s) = is_upper c ≡ false

parse-print_flags :
    (parent icase : Bool) (op : Bytes)
    → IsOperator op
    → parse_query (print_flags parent icase ++ op) ≡ ok (flags_of parent icase, op)
unfolding parse_query parse_modifiers modifier print_flags
parse-print_flags parent icase [] h = absurd h
parse-print_flags true true (c ∷ s) h = rw (h, parse_modifiers)
parse-print_flags true false (c ∷ s) h = rw (h, parse_modifiers)
parse-print_flags false true (c ∷ s) h = rw (h, parse_modifiers)
parse-print_flags false false (c ∷ s) h = rw (h, parse_modifiers)

Lacks-append : (c : ℕ) (s t : Bytes) → Lacks c s → Lacks c t → Lacks c (s ++ t)
Lacks-append c [] t _ h = h
Lacks-append c (b ∷ s) t (hb, hs) h = (hb, Lacks-append c s t hs h)

print_flags-Lacks : (parent icase : Bool) → Lacks b'=' (print_flags parent icase)
unfolding print_flags
print_flags-Lacks true true = omega arith
print_flags-Lacks true false = omega arith
print_flags-Lacks false true = omega arith
print_flags-Lacks false false = tt

left_part : Bytes → Bytes → Bool → Bool → Bytes → Bytes
left_part name attr parent icase op =
    name ++ b'.' ∷ (attr ++ b'.' ∷ (print_flags parent icase ++ op))

print-left_part :
    (name attr : Bytes) (parent icase : Bool) (op value : Bytes)
    → print name attr parent icase op value ≡ left_part name attr parent icase op ++ b'=' ∷ value
unfolding print left_part
print-left_part name attr parent icase op value = simp append_assoc

left_part-Lacks :
    (name attr : Bytes) (parent icase : Bool) (op : Bytes)
    → Lacks b'=' name
    → Lacks b'=' attr
    → Lacks b'=' op
    → Lacks b'=' (left_part name attr parent icase op)
unfolding left_part
left_part-Lacks name attr parent icase op hn ha ho = Lacks-append b'=' name _ hn (
  omega arith,
  Lacks-append b'=' attr _ ha (
    omega arith,
    Lacks-append b'=' (print_flags parent icase) op (print_flags-Lacks parent icase) ho,
  ),
)

-- A branch printed from a name and an attribute without `.` and `=`, any of the two modifiers, an
-- operator without `=` that begins with no capital letter, and any value, is parsed into these
-- parts, but for the renaming of the attribute `Service`.
pub branch_parse-print :
    (name attr : Bytes) (parent icase : Bool) (op value : Bytes)
    → Lacks b'.' name
    → Lacks b'=' name
    → Lacks b'.' attr
    → Lacks b'=' attr
    → Lacks b'=' op
    → IsOperator op
    → branch_parse (print name attr parent icase op value)
      ≡ ok (
          rename_service (record {
            name = name;
            attr = attr;
            op = op;
            value = value;
            op_flags = flags_of parent icase;
          }))
unfolding branch_parse left_part
branch_parse-print name attr parent icase op value nd ne ad ae oe h = rw (
  print-left_part,
  split_at-append b'=' (left_part name attr parent icase op) value
      (left_part-Lacks name attr parent icase op ne ae oe),
  split_at-append b'.' name _ nd,
  split_at-append b'.' attr _ ad,
  parse-print_flags parent icase op h,
)
