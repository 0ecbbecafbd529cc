-- ===== src/Ptql/Query.antt =====
-- `sigar_ptql_query_create`: the branches between commas, parsed, added and, unless one refers to
-- another, sorted by the type of their attributes. `qsort` is a stable sort, as in glibc.
use libsigar.Base.{ℕ, Bool, false, ◌||◌, [], ◌∷◌, ◌++◌, List, leb, ◌==◌, if◌then◌else◌, length}
use libsigar.Text.{Bytes, is_nil}
use libsigar.Ptql.Types.{type_rank, Result, ok, ◌>>=◌}
use libsigar.Ptql.Parse.{branch_parse}
use libsigar.Ptql.Branch.{Host, Branch, branch_add}

prepend : ℕ → List Bytes → List Bytes
prepend c [] = (c ∷ []) ∷ []
prepend c (p ∷ ps) = (c ∷ p) ∷ ps

-- The texts that the loop hands to the parser: it stops at the end, also behind a last comma.
unfoldable pub pieces : Bytes → List Bytes
unfolding prepend
pieces [] = [] ∷ []
pieces (c ∷ s) =
    let rest = pieces s in
    if c == b',' then (if is_nil s then [] ∷ [] else [] ∷ rest) else prepend c rest

module _ (host : Host) where
  open host use {Dbl}

  unfoldable pub add_pieces : List Bytes → List (Branch Dbl) → Result (List (Branch Dbl))
  add_pieces [] branches = ok branches
  add_pieces (text ∷ texts) branches = do
    parsed ← branch_parse text
    branch ← branch_add host parsed (length branches)
    add_pieces texts (branches ++ branch ∷ [])

-- `ptql_branch_compare`, in an insertion.
module _ {Dbl : Type 0} where
  unfoldable pub insert_branch : Branch Dbl → List (Branch Dbl) → List (Branch Dbl)
  insert_branch b [] = b ∷ []
  insert_branch b (d ∷ ds) =
      if leb (type_rank b.lookup.type) (type_rank d.lookup.type)
      then b ∷ d ∷ ds
      else d ∷ insert_branch b ds

  unfoldable pub sort_branches : List (Branch Dbl) → List (Branch Dbl)
  unfolding insert_branch
  sort_branches [] = []
  sort_branches (b ∷ bs) = insert_branch b (sort_branches bs)

  unfoldable pub has_ref : List (Branch Dbl) → Bool
  has_ref [] = false
  has_ref (b ∷ bs) = b.op_flags.ref || has_ref bs

unfoldable pub query_create : (host : Host) → Bytes → Result (List (Branch host.Dbl))
unfolding pieces add_pieces sort_branches has_ref
query_create host ptql = do
  branches ← add_pieces host (pieces ptql) []
  ok (if has_ref branches then branches else sort_branches branches)
