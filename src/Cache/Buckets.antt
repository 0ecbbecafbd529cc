-- ===== src/Cache/Buckets.antt =====
-- The array of chains: where a key belongs, what a search of its chain finds, and the effect of
-- replacing one chain.
use libsigar.Base.{
  ℕ, zero, suc, ◌+◌, ◌%◌, ◌≤◌, ◌<◌, [], ◌∷◌, List, Option, none, ◌≡◌, refl, arith, ◌==◌,
  if◌then◌else◌, length, get_or, set, replicate, length-set, get_or-set, get_or-replicate, ==_comm,
  ==_iff, Bool-cases, inl, inr, ◌≢◌,
}
use libsigar.Cache.{
  Entry, Chain, find_entry, sweep_chain, sweep_entries, destroy_chain, destroy_entries,
}
use libsigar.Cache.Chains.{
  occurs, weigh, weigh-append, occurs-sweep, find-sweep, length-sweep, weigh-sweep, keep_live,
}

module _ {ℓ} {V : Type ℓ} where
  -- The chain in which the code looks for a key.
  abbrev pub home : List (Chain V) → ℕ → Chain V
  home bs q = get_or bs (q % length bs) []

  unfoldable pub reads : List (Chain V) → ℕ → Option (Entry V)
  reads bs q = find_entry q (home bs q)

  -- A key stands at most once, and only in its own chain.
  abbrev pub IsPlaced : List (Chain V) → Type 0
  IsPlaced bs = (q i : ℕ) → occurs q (get_or bs i []) ≤ (if q % length bs == i then 1 else 0)

  unfoldable pub population : List (Chain V) → ℕ
  population [] = 0
  population (c ∷ cs) = length c + population cs

  pub population-set :
      (bs : List (Chain V)) (i : ℕ) (c : Chain V)
      → i < length bs
      → population (set bs i c) + length (get_or bs i []) ≡ population bs + length c
  unfolding population
  population-set [] i c h = absurd (omega arith)
  population-set (b ∷ bs) zero c h = omega arith
  population-set (b ∷ bs) (suc i) c h = omega (arith, population-set bs i c (omega arith))

  pub weigh-set :
      (w : V → ℕ) (bs : List (Chain V)) (i : ℕ) (c : Chain V)
      → i < length bs
      → weigh w (destroy_entries (set bs i c)) + weigh w (destroy_chain (get_or bs i []))
        ≡ weigh w (destroy_entries bs) + weigh w (destroy_chain c)
  unfolding destroy_entries
  weigh-set w [] i c h = absurd (omega arith)
  weigh-set w (b ∷ bs) zero c h = simp weigh-append (omega arith)
  weigh-set w (b ∷ bs) (suc i) c h =
      simp weigh-append (omega (arith, weigh-set w bs i c (omega arith)))

  module _ (bs : List (Chain V)) (i : ℕ) (c : Chain V) (h : i < length bs) where
    pub reads-set :
        (q : ℕ) → reads (set bs i c) q ≡ (if q % length bs == i then find_entry q c else reads bs q)
    unfolding reads
    reads-set q =
        rw (length-set, get_or-set bs i (q % length bs) c [] h, ==_comm i (q % length bs))
          (ground arith)

    pub reads-set_cases :
        (q : ℕ) (r : Option (Entry V))
        → (q % length bs ≡ i → find_entry q c ≡ r)
        → (q % length bs ≢ i → reads bs q ≡ r)
        → reads (set bs i c) q ≡ r
    reads-set_cases q r inside outside = elim (Bool-cases (q % length bs == i)) [
      | inl same ↦ rw (reads-set q, same) (inside ((==_iff _ i).0 same))
      | inr other ↦ rw (reads-set q, other) (outside (ground arith))
    ]

    pub set-IsPlaced :
        IsPlaced bs
        → ((q : ℕ) → occurs q c ≤ (if q % length bs == i then 1 else 0))
        → IsPlaced (set bs i c)
    set-IsPlaced placed few q j =
        rw (length-set, get_or-set bs i j c [] h) (ground (arith, placed q j, few q))

  -- A sweep of the array, chain by chain.
  module _ (now expire : ℕ) where
    pub length-sweep_entries :
        (bs : List (Chain V)) → length (sweep_entries now expire bs).kept ≡ length bs
    unfolding sweep_entries
    length-sweep_entries [] = refl
    length-sweep_entries (c ∷ cs) = omega (arith, length-sweep_entries cs)

    pub get_or-sweep_entries :
        (bs : List (Chain V)) (i : ℕ)
        → get_or (sweep_entries now expire bs).kept i []
          ≡ (sweep_chain now expire (get_or bs i [])).kept
    unfolding sweep_entries
    get_or-sweep_entries [] i = refl
    get_or-sweep_entries (c ∷ cs) zero = refl
    get_or-sweep_entries (c ∷ cs) (suc i) = get_or-sweep_entries cs i

    pub population-sweep_entries :
        (bs : List (Chain V))
        → population (sweep_entries now expire bs).kept + (sweep_entries now expire bs).removed
          ≡ population bs
    unfolding sweep_entries population
    population-sweep_entries [] = omega arith
    population-sweep_entries (c ∷ cs) =
        omega (arith, population-sweep_entries cs, length-sweep now expire c)

    pub weigh-sweep_entries :
        (w : V → ℕ) (bs : List (Chain V))
        → weigh w (sweep_entries now expire bs).freed
            + weigh w (destroy_entries (sweep_entries now expire bs).kept)
          ≡ weigh w (destroy_entries bs)
    unfolding sweep_entries destroy_entries weigh
    weigh-sweep_entries w [] = omega arith
    weigh-sweep_entries w (c ∷ cs) =
        simp weigh-append (omega (arith, weigh-sweep_entries w cs, weigh-sweep now expire w c))

    pub sweep_entries-IsPlaced :
        (bs : List (Chain V)) → IsPlaced bs → IsPlaced (sweep_entries now expire bs).kept
    sweep_entries-IsPlaced bs placed q i =
        rw (length-sweep_entries, get_or-sweep_entries)
          (omega (arith, placed q i, occurs-sweep now expire q (get_or bs i [])))

    pub reads-sweep_entries :
        (bs : List (Chain V)) (q : ℕ)
        → IsPlaced bs
        → reads (sweep_entries now expire bs).kept q ≡ keep_live now expire (reads bs q)
    unfolding reads
    reads-sweep_entries bs q placed =
        rw (length-sweep_entries, get_or-sweep_entries)
          (find-sweep now expire q (home bs q) (ground (arith, placed q (q % length bs))))

-- The empty array.
module _ {ℓ} (V : Type ℓ) where
  pub replicate-IsPlaced : (n : ℕ) → IsPlaced {V = V} (replicate n [])
  unfolding occurs
  replicate-IsPlaced n q i = rw get_or-replicate (omega arith)

  pub reads-replicate : (n q : ℕ) → reads {V = V} (replicate n []) q ≡ none
  unfolding reads find_entry
  reads-replicate n q = rw get_or-replicate

  pub population-replicate : (n : ℕ) → population {V = V} (replicate n []) ≡ 0
  unfolding population
  population-replicate zero = refl
  population-replicate (suc n) = omega (arith, population-replicate n)

  pub destroy-replicate : (n : ℕ) → destroy_entries {V = V} (replicate n []) ≡ []
  unfolding destroy_entries destroy_chain
  destroy-replicate zero = refl
  destroy-replicate (suc n) = destroy-replicate n
