-- ===== src/Cache/Valid.antt =====
-- The well-formed tables, and the operations that restructure them: rehash and cleanup.
use libsigar.Base.{
  ℕ, ◌+◌, ◌*◌, ◌^◌, ◌≤◌, ◌<◌, [], Option, none, ◌≡◌, refl, sym, arith, ◌∙◌, ltb, if◌then◌else◌,
  length, Bool-cases, inl, inr, sub32_exact, length-replicate, ap, ◌/◌, sub32,
}
use libsigar.Cache.{
  Entry, Cache, expired_cache_new, cache_rehash, rehash_size, shrink_if_sparse, sweep,
  sweep_entries, cleanup_skipped, perform_cleanup_if_necessary, lookup_entry, cache_destroy,
}
use libsigar.Cache.Chains.{weigh, keep_live}
use libsigar.Cache.Buckets.{
  reads, IsPlaced, population, length-sweep_entries, population-sweep_entries, weigh-sweep_entries,
  sweep_entries-IsPlaced, reads-sweep_entries, replicate-IsPlaced, reads-replicate,
  population-replicate,
}
use libsigar.Cache.Rehash.{rehash_entries-Rehashed}

-- Past this number of entries `count * 2 + 1` wraps around.
abbrev pub count_limit : ℕ
count_limit = 2 ^ 31

module _ {ℓ} {V : Type ℓ} where
  pub record IsValid (t : Cache V) : Type 0 where
    pub width : length t.entries ≡ t.size
    pub nonempty : 0 < t.size
    pub counted : population t.entries ≡ t.count
    pub fits : t.count ≤ t.size
    pub bounded : t.count < count_limit
    pub placed : IsPlaced t.entries

  pub lookup-reads :
      (t : Cache V) (q : ℕ) → length t.entries ≡ t.size → lookup_entry t q ≡ reads t.entries q
  unfolding lookup_entry reads
  lookup-reads t q h = rw h

  -- What an operation that only restructures the table keeps.
  pub record Restructured (view : ℕ → Option (Entry V)) (t' : Cache V) : Type ℓ where
    pub valid : IsValid t'
    pub view_lem : (q : ℕ) → lookup_entry t' q ≡ view q

  -- A new table with at least one chain is well-formed, and no search finds anything.
  pub expired_cache_new-IsValid :
      (size period expire now : ℕ)
      → 0 < size
      → Restructured (λ _. none) (expired_cache_new size period expire now)
  unfolding expired_cache_new
  expired_cache_new-IsValid size period expire now h = record {
    valid = record {
      width = length-replicate size [];
      nonempty = h;
      counted = population-replicate V size;
      fits = omega arith;
      bounded = omega arith;
      placed = replicate-IsPlaced V size;
    };
    view_lem = λ q.
        lookup-reads (expired_cache_new size period expire now) q (length-replicate size [])
        ∙ reads-replicate V size q;
  }

  -- `t'` is `t` with its entries in `2 * count + 1` chains.
  pub record Resized (t t' : Cache V) : Type ℓ where
    pub grown : t'.size ≡ t.count * 2 + 1
    pub same_count : t'.count ≡ t.count
    pub width : length t'.entries ≡ t'.size
    pub placed : IsPlaced t'.entries
    pub population_lem : population t'.entries ≡ population t.entries
    pub view_lem : (q : ℕ) → lookup_entry t' q ≡ lookup_entry t q
    pub weigh_lem : (w : V → ℕ) → weigh w (cache_destroy t') ≡ weigh w (cache_destroy t)

  -- A rehash of a table with at least one chain, fewer than 2 ^ 31 entries, and each in its
  -- place, moves every entry into its place among 2 * count + 1 chains: a search finds the same,
  -- and a destruction frees the same.
  pub cache_rehash-Resized :
      (t : Cache V)
      → length t.entries ≡ t.size
      → 0 < t.size
      → t.count < count_limit
      → IsPlaced t.entries
      → Resized t (cache_rehash t)
  unfolding cache_rehash cache_destroy
  cache_rehash-Resized t width nonempty bounded placed =
      let r =
        rehash_entries-Rehashed (rehash_size t.count) t.entries (omega arith) (omega arith)
          placed in
      record {
        grown = omega arith;
        same_count = refl;
        width = r.width;
        placed = r.placed;
        population_lem = r.population_lem;
        view_lem = λ q.
            lookup-reads (cache_rehash t) q r.width ∙ r.reads_lem q ∙ sym (lookup-reads t q width);
        weigh_lem = r.weigh_lem;
      }

  -- The sweep of a due cleanup leaves a well-formed table in which a search finds an entry exactly if
  -- it found it before and it has not expired.
  pub sweep-Restructured :
      (now : ℕ) (t : Cache V)
      → IsValid t
      → Restructured (λ q. keep_live now t.entry_expire_period (lookup_entry t q)) (sweep now t).0
  unfolding sweep
  sweep-Restructured now t v =
      let expire = t.entry_expire_period in
      let s = sweep_entries now expire t.entries in
      let width = length-sweep_entries now expire t.entries ∙ v.width in
      let many = population-sweep_entries now expire t.entries in
      let counted = sub32_exact t.count s.removed (omega arith) (omega arith) in
      record {
        valid = record {
          width = width;
          nonempty = v.nonempty;
          counted = omega arith;
          fits = omega arith;
          bounded = omega arith;
          placed = sweep_entries-IsPlaced now expire t.entries v.placed;
        };
        view_lem = λ q.
            lookup-reads (sweep now t).0 q width
            ∙ reads-sweep_entries now expire t.entries q v.placed
            ∙ ap (keep_live now expire) (sym (lookup-reads t q v.width));
      }

  shrink-Restructured :
      (t : Cache V)
      → IsValid t
      → Restructured (lookup_entry t) (shrink_if_sparse t)
        × ((w : V → ℕ) → weigh w (cache_destroy (shrink_if_sparse t)) ≡ weigh w (cache_destroy t))
  unfolding shrink_if_sparse
  shrink-Restructured t v = elim (Bool-cases (ltb t.count (t.size / 4))) [
    | inr kept ↦ rw kept (record { valid = v; view_lem = λ q. refl }, λ w. refl)
    | inl sparse ↦
        let r = cache_rehash-Resized t v.width v.nonempty v.bounded v.placed in
        let valid : IsValid (cache_rehash t) = record {
          width = r.width;
          nonempty = omega arith;
          counted = omega arith;
          fits = omega arith;
          bounded = omega arith;
          placed = r.placed;
        } in
        rw sparse (record { valid = valid; view_lem = r.view_lem }, r.weigh_lem)
  ]

  -- The table that a search sees after the optional cleanup of an operation at time `now`.
  abbrev pub view_at : ℕ → Cache V → ℕ → Option (Entry V)
  view_at now t q =
      if cleanup_skipped now t
      then lookup_entry t q
      else keep_live now t.entry_expire_period (lookup_entry t q)

  -- A cleanup keeps a well-formed table well-formed. Where it is not due it changes nothing that
  -- a search finds; where it is due a search finds an entry exactly if it found it before and it
  -- has not expired.
  pub perform_cleanup-Restructured :
      (now : ℕ) (t : Cache V)
      → IsValid t
      → Restructured (view_at now t) (perform_cleanup_if_necessary now t).0
  unfolding perform_cleanup_if_necessary
  perform_cleanup-Restructured now t v = elim (Bool-cases (cleanup_skipped now t)) [
    | inl skipped ↦ rw skipped (record { valid = v; view_lem = λ q. rw skipped })
    | inr due ↦
        let a = sweep-Restructured now t v in
        let b = (shrink-Restructured (sweep now t).0 a.valid).0 in
        rw due (record { valid = b.valid; view_lem = λ q. rw due (b.view_lem q ∙ a.view_lem q) })
  ]

  -- A cleanup of a well-formed table neither loses a value nor frees one that it keeps: what it
  -- frees and what a destruction would free after it weigh what a destruction would have freed
  -- before it.
  pub weigh-perform_cleanup :
      (w : V → ℕ) (now : ℕ) (t : Cache V)
      → IsValid t
      → weigh w (perform_cleanup_if_necessary now t).1
          + weigh w (cache_destroy (perform_cleanup_if_necessary now t).0)
        ≡ weigh w (cache_destroy t)
  unfolding perform_cleanup_if_necessary weigh
  weigh-perform_cleanup w now t v = elim (Bool-cases (cleanup_skipped now t)) [
    | inl skipped ↦ rw skipped (omega arith)
    | inr due ↦
        let a = sweep-Restructured now t v in
        let b = (shrink-Restructured (sweep now t).0 a.valid).1 w in
        rw (due, b)
          (unfold sweep cache_destroy in weigh-sweep_entries now t.entry_expire_period w t.entries)
  ]

  -- A cleanup keeps the table's settings, never adds an entry, and remembers when it ran.
  pub perform_cleanup_settings :
      (now : ℕ) (t : Cache V)
      → IsValid t
      → let t' = (perform_cleanup_if_necessary now t).0 in
        (t'.entry_expire_period ≡ t.entry_expire_period)
        × (t'.cleanup_period_millis ≡ t.cleanup_period_millis)
        × (t'.last_cleanup_time ≡ (if cleanup_skipped now t then t.last_cleanup_time else now))
        × (t'.count ≤ t.count)
  unfolding perform_cleanup_if_necessary sweep shrink_if_sparse cache_rehash
  perform_cleanup_settings now t v =
      let s = sweep_entries now t.entry_expire_period t.entries in
      let many = population-sweep_entries now t.entry_expire_period t.entries in
      let counted = sub32_exact t.count s.removed (omega arith) (omega arith) in
      elim (Bool-cases (cleanup_skipped now t)) [
        | inl skipped ↦ rw skipped (refl, refl, refl, omega arith)
        | inr due ↦ elim (Bool-cases (ltb (sub32 t.count s.removed) (t.size / 4))) [
          | inl sparse ↦ rw (due, sparse) (refl, refl, refl, omega arith)
          | inr full ↦ rw (due, full) (refl, refl, refl, omega arith)
        ]
      ]
