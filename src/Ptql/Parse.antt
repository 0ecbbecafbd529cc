-- ===== src/Ptql/Parse.antt =====
-- `ptql_branch_parse`: one branch of a query into its four texts and its modifiers.
use libsigar.Base.{ℕ, true, false, [], ◌∷◌, ◌==◌, if◌then◌else◌}
use libsigar.Text.{Bytes, codes, is_upper, str_eq, split_at}
use libsigar.Ptql.Types.{
  OpFlags, no_flags, ParseBranch, missing_equals, missing_dot, missing_query, unsupported_modifier,
  Result, ok, malformed, ◌>>=◌, need,
}

unfoldable pub modifier : ℕ → OpFlags → Result OpFlags
modifier c flags =
    if c == b'P'
    then ok (record flags { parent = true })
    else if c == b'I'
    then ok (record flags { icase = true })
    else malformed (unsupported_modifier c)

-- The loop over capital letters; the rest is the operator.
unfoldable pub parse_modifiers : Bytes → OpFlags → Result (OpFlags × Bytes)
parse_modifiers [] flags = ok (flags, [])
parse_modifiers (c ∷ s) flags = elim (is_upper c) [
  | true ↦ modifier c flags >>= (λ f. parse_modifiers s f)
  | false ↦ ok (flags, c ∷ s)
]

unfoldable pub parse_query : Bytes → Result (OpFlags × Bytes)
unfolding parse_modifiers modifier
parse_query [] = malformed missing_query
parse_query (c ∷ s) = parse_modifiers (c ∷ s) no_flags

abbrev pub service : Bytes
service = codes "Service"

-- `Pid.Service` is `Service.Name`.
unfoldable pub rename_service : ParseBranch → ParseBranch
unfolding str_eq
rename_service p =
    if str_eq p.attr service then record p { name = p.attr; attr = codes "Name" } else p

unfoldable pub branch_parse : Bytes → Result ParseBranch
unfolding parse_query rename_service split_at
branch_parse query = do
  (left, value) ← need (split_at b'=' query) missing_equals
  (name, rest) ← need (split_at b'.' left) missing_dot
  (attr, text) ← need (split_at b'.' rest) missing_dot
  (flags, op) ← parse_query text
  ok (
      rename_service
        (record { name = name; attr = attr; op = op; value = value; op_flags = flags }))
