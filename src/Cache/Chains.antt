-- ===== src/Cache/Chains.antt =====
-- One chain of a cache: what a search finds after each write, and what a sweep leaves.
use libsigar.Base.{
  ℕ, ◌+◌, ◌≤◌, [], ◌∷◌, ◌++◌, append_assoc, List, Option, none, some, ◌≡◌, refl, arith, ◌==◌,
  if◌then◌else◌, length,
}
use libsigar.Cache.{
  Entry, Chain, find_entry, update_entry, sweep_chain, is_expired, destroy_chain, value_list,
}

-- The first of two results.
abbrev pub or_else {ℓ} : {A : Type ℓ} → Option A → Option A → Option A
or_else none b = b
or_else (some a) b = some a

abbrev pub map_entry {ℓ} : {V : Type ℓ} → (Entry V → Entry V) → Option (Entry V) → Option (Entry V)
map_entry f none = none
map_entry f (some e) = some (f e)

-- What a search may still find of an entry after a sweep at time `now`.
abbrev pub keep_live {ℓ} : {V : Type ℓ} → ℕ → ℕ → Option (Entry V) → Option (Entry V)
keep_live now expire none = none
keep_live now expire (some e) = if is_expired now expire e then none else some e

module _ {ℓ} {V : Type ℓ} where
  pub or_else-none : (o : Option (Entry V)) → or_else o none ≡ o
  or_else-none none = refl
  or_else-none (some e) = refl

  -- The sum of a weight over values. Two lists of equal weight under every weight hold the same
  -- values, each as often.
  unfoldable pub weigh : (V → ℕ) → List V → ℕ
  weigh w [] = 0
  weigh w (v ∷ vs) = w v + weigh w vs

  pub weigh-append : (w : V → ℕ) (a b : List V) → weigh w (a ++ b) ≡ weigh w a + weigh w b
  unfolding weigh
  weigh-append w [] b = omega arith
  weigh-append w (v ∷ a) b = omega (arith, weigh-append w a b)

  -- How many entries of a chain have the key.
  unfoldable pub occurs : ℕ → Chain V → ℕ
  occurs q [] = 0
  occurs q (e ∷ es) = (if e.id == q then 1 else 0) + occurs q es

  pub find-eq-none : (q : ℕ) (c : Chain V) → occurs q c ≡ 0 → find_entry q c ≡ none
  unfolding occurs find_entry
  find-eq-none q [] h = refl
  find-eq-none q (e ∷ es) h = ground (arith, find-eq-none q es)

  pub occurs-eq-zero : (q : ℕ) (c : Chain V) → find_entry q c ≡ none → occurs q c ≡ 0
  unfolding occurs find_entry
  occurs-eq-zero q [] h = refl
  occurs-eq-zero q (e ∷ es) h = ground (arith, occurs-eq-zero q es)

  pub find-append :
      (q : ℕ) (a b : Chain V) → find_entry q (a ++ b) ≡ or_else (find_entry q a) (find_entry q b)
  unfolding find_entry
  find-append q [] b = refl
  find-append q (e ∷ a) b = rw (find-append q a b) (ground arith)

  pub occurs-append : (q : ℕ) (a b : Chain V) → occurs q (a ++ b) ≡ occurs q a + occurs q b
  unfolding occurs
  occurs-append q [] b = omega arith
  occurs-append q (e ∷ a) b = omega (arith, occurs-append q a b)

  -- The entry found has the key.
  pub find-id : (q : ℕ) (c : Chain V) (e : Entry V) → find_entry q c ≡ some e → e.id ≡ q
  unfolding find_entry
  find-id q [] e h = absurd (ground arith)
  find-id q (d ∷ c) e h = ground (arith, find-id q c e)

  module _ (k q : ℕ) (f : Entry V → Entry V) (same : (e : Entry V) → (f e).id ≡ e.id) where
    pub find-update :
        (c : Chain V)
        → find_entry q (update_entry k f c)
          ≡ (if q == k then map_entry f (find_entry q c) else find_entry q c)
    unfolding find_entry update_entry
    find-update [] = ground arith
    find-update (e ∷ es) = ground (arith, find-update es, same e)

    pub occurs-update : (c : Chain V) → occurs q (update_entry k f c) ≡ occurs q c
    unfolding occurs update_entry
    occurs-update [] = refl
    occurs-update (e ∷ es) = ground (arith, occurs-update es, same e)

  pub length-update :
      (k : ℕ) (f : Entry V → Entry V) (c : Chain V) → length (update_entry k f c) ≡ length c
  unfolding update_entry
  length-update k f [] = refl
  length-update k f (e ∷ es) = ground (arith, length-update k f es)

  module _ (now expire : ℕ) where
    pub occurs-sweep : (q : ℕ) (c : Chain V) → occurs q (sweep_chain now expire c).kept ≤ occurs q c
    unfolding occurs sweep_chain
    occurs-sweep q [] = omega arith
    occurs-sweep q (e ∷ es) = ground (arith, occurs-sweep q es)

    pub find-sweep :
        (q : ℕ) (c : Chain V)
        → occurs q c ≤ 1
        → find_entry q (sweep_chain now expire c).kept ≡ keep_live now expire (find_entry q c)
    unfolding occurs sweep_chain find_entry
    find-sweep q [] h = refl
    find-sweep q (e ∷ es) h = ground (
      arith,
      find-sweep q es,
      find-eq-none q es,
      find-eq-none q (sweep_chain now expire es).kept,
      occurs-sweep q es,
    )

    pub length-sweep :
        (c : Chain V)
        → length (sweep_chain now expire c).kept + (sweep_chain now expire c).removed ≡ length c
    unfolding sweep_chain
    length-sweep [] = omega arith
    length-sweep (e ∷ es) = ground (arith, length-sweep es)

    -- A sweep frees a value or keeps it, and never both.
    pub weigh-sweep :
        (w : V → ℕ) (c : Chain V)
        → weigh w (sweep_chain now expire c).freed
            + weigh w (destroy_chain (sweep_chain now expire c).kept)
          ≡ weigh w (destroy_chain c)
    unfolding sweep_chain destroy_chain weigh
    weigh-sweep w [] = omega arith
    weigh-sweep w (e ∷ es) =
        let s = sweep_chain now expire es in
        simp weigh-append (
          ground (
            arith,
            weigh-sweep w es,
            weigh-append w (value_list e.value) s.freed,
            weigh-append w (value_list e.value) (destroy_chain s.kept),
          ))

  -- A write that leaves the value alone leaves what a destruction frees.
  pub destroy-update :
      (k : ℕ) (f : Entry V → Entry V)
      → ((e : Entry V) → (f e).value ≡ e.value)
      → (c : Chain V) → destroy_chain (update_entry k f c) ≡ destroy_chain c
  unfolding update_entry destroy_chain
  destroy-update k f same [] = refl
  destroy-update k f same (e ∷ es) = ground (arith, destroy-update k f same es, same e)

  pub destroy-append : (a b : Chain V) → destroy_chain (a ++ b) ≡ destroy_chain a ++ destroy_chain b
  unfolding destroy_chain
  destroy-append [] b = refl
  destroy-append (e ∷ a) b = simp (destroy-append a b, append_assoc)
