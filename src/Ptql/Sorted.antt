-- ===== src/Ptql/Sorted.antt =====
-- Sorting the branches of a query orders them by type, and does not change which processes match.
use libsigar.Base.{
  ℕ, ◌≤◌, false, ◌||◌, [], ◌∷◌, List, ◌≡◌, ◌↔◌, refl, ◌∙◌, arith, leb, All, Bool-cases, inl, inr,
}
use libsigar.Ptql.Types.{type_rank}
use libsigar.Ptql.Branch.{Branch}
use libsigar.Ptql.Query.{insert_branch, sort_branches, has_ref}
use libsigar.Ptql.Match.{done, Platform}
use libsigar.Ptql.Process.{sigar_ok, query_match}
use libsigar.Ptql.Conjunction.{IsHonest, Holds, query_match-All}

module _ {Dbl : Type 0} where
  -- The attributes' types are in ascending order.
  abbrev pub IsSorted : List (Branch Dbl) → Type 0
  IsSorted [] = Unit
  IsSorted (b ∷ bs) = All (λ d. type_rank b.lookup.type ≤ type_rank d.lookup.type) bs × IsSorted bs

  insert-All :
      (P : Branch Dbl → Type 0) (b : Branch Dbl) (bs : List (Branch Dbl))
      → (P b × All P bs) ↔ All P (insert_branch b bs)
  unfolding insert_branch
  insert-All P b [] = (λ h. h, λ h. h)
  insert-All P b (d ∷ ds) =
      elim (Bool-cases (leb (type_rank b.lookup.type) (type_rank d.lookup.type))) [
        | inl first ↦ rw first (λ h. h, λ h. h)
        | inr later ↦
            let i = insert-All P b ds in
            rw later (λ h. (h.1.0, i.0 (h.0, h.1.1)), λ h. let q = i.1 h.1 in (q.0, (h.0, q.1)))
      ]

  sort-All :
      (P : Branch Dbl → Type 0) (bs : List (Branch Dbl)) → All P bs ↔ All P (sort_branches bs)
  unfolding sort_branches
  sort-All P [] = (λ h. h, λ h. h)
  sort-All P (b ∷ bs) =
      let i = insert-All P b (sort_branches bs) in
      let r = sort-All P bs in (λ h. i.0 (h.0, r.0 h.1), λ h. let q = i.1 h in (q.0, r.1 q.1))

  All-mono :
      (P Q : Branch Dbl → Type 0) (bs : List (Branch Dbl))
      → ((b : Branch Dbl) → P b → Q b)
      → All P bs
      → All Q bs
  All-mono P Q [] h p = tt
  All-mono P Q (b ∷ bs) h (p, ps) = (h b p, All-mono P Q bs h ps)

  insert-IsSorted :
      (b : Branch Dbl) (bs : List (Branch Dbl)) → IsSorted bs → IsSorted (insert_branch b bs)
  unfolding insert_branch
  insert-IsSorted b [] s = (tt, tt)
  insert-IsSorted b (d ∷ ds) (low, s) =
      elim (Bool-cases (leb (type_rank b.lookup.type) (type_rank d.lookup.type))) [
        | inl first ↦
            let le : type_rank b.lookup.type ≤ type_rank d.lookup.type = ground arith in
            rw first ((le, All-mono _ _ ds (λ e h. omega arith) low), (low, s))
        | inr later ↦
            let le : type_rank d.lookup.type ≤ type_rank b.lookup.type = ground arith in
            rw later ((insert-All _ b ds).0 (le, low), insert-IsSorted b ds s)
      ]

  pub sort_branches-IsSorted : (bs : List (Branch Dbl)) → IsSorted (sort_branches bs)
  unfolding sort_branches
  sort_branches-IsSorted [] = tt
  sort_branches-IsSorted (b ∷ bs) = insert-IsSorted b (sort_branches bs) (sort_branches-IsSorted bs)

  has_ref-insert :
      (b : Branch Dbl) (bs : List (Branch Dbl))
      → has_ref (insert_branch b bs) ≡ (b.op_flags.ref || has_ref bs)
  unfolding insert_branch has_ref
  has_ref-insert b [] = refl
  has_ref-insert b (d ∷ ds) = ground (arith, has_ref-insert b ds)

  has_ref-sort : (bs : List (Branch Dbl)) → has_ref (sort_branches bs) ≡ has_ref bs
  unfolding sort_branches has_ref
  has_ref-sort [] = refl
  has_ref-sort (b ∷ bs) = ground (arith, has_ref-insert b (sort_branches bs), has_ref-sort bs)

  -- A query with no reference may be sorted, where no getter fails with the status SIGAR_OK: its
  -- branches come in the order of their types, and it matches the same processes.
  pub query_match-sort :
      (os : Platform Dbl) (query : List (Branch Dbl)) (pid : ℕ)
      → IsHonest os
      → has_ref query ≡ false
      → IsSorted (sort_branches query)
        × ((query_match os (sort_branches query) pid ≡ done sigar_ok)
            ↔ (query_match os query pid ≡ done sigar_ok))
  query_match-sort os query pid honest plain =
      let a = query_match-All os query pid honest plain in
      let b = query_match-All os (sort_branches query) pid honest (has_ref-sort query ∙ plain) in
      let s = sort-All (Holds os pid) query in
      (sort_branches-IsSorted query, (λ h. a.1 (s.1 (b.0 h)), λ h. b.1 (s.0 (a.0 h))))
