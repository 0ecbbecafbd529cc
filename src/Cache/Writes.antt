-- ===== src/Cache/Writes.antt =====
-- The writes of the table: through a pointer to an entry, and of a new entry. Each keeps the table
-- well-formed, and says what every later search finds.
use libsigar.Base.{
  ℕ, ◌+◌, ◌%◌, ◌≤◌, ◌<◌, [], ◌∷◌, ◌++◌, none, some, ◌≡◌, refl, sym, arith, ◌==◌, ◌∙◌, ltb,
  if◌then◌else◌, length, get_or, Bool-cases, inl, inr, ap, length-set, ==_comm, ==_iff, ==_self,
  tests, append-nil, ◌≢◌, ne→==, length-append, add32,
}
use libsigar.Cache.{
  Entry, Cache, cache_rehash, lookup_entry, cache_destroy, destroy_chain, find_entry, update_entry,
  modify, grow_for_one, append_entry,
}
use libsigar.Cache.Chains.{
  weigh, map_entry, or_else-none, occurs, find-update, occurs-update, length-update, find-append,
  occurs-append, occurs-eq-zero, destroy-update, destroy-append,
}
use libsigar.Cache.Buckets.{
  reads, IsPlaced, population, population-set, weigh-set, reads-set_cases, set-IsPlaced,
}
use libsigar.Cache.Valid.{count_limit, IsValid, Restructured, lookup-reads, cache_rehash-Resized}

module _ {ℓ} {V : Type ℓ} where
  modify_inside :
      (key : ℕ) (f : Entry V → Entry V) (t : Cache V)
      → ((e : Entry V) → (f e).id ≡ e.id)
      → IsValid t
      → (q : ℕ) → q % length t.entries ≡ key % t.size
      → find_entry q (update_entry key f (get_or t.entries (key % t.size) []))
        ≡ (if q == key then map_entry f (lookup_entry t q) else lookup_entry t q)
  unfolding lookup_entry
  modify_inside key f t same v q here = rw (find-update key q f same, ← here, v.width)

  modify_outside :
      (key : ℕ) (f : Entry V → Entry V) (t : Cache V)
      → IsValid t
      → (q : ℕ) → q % length t.entries ≢ key % t.size
      → reads t.entries q ≡ (if q == key then map_entry f (lookup_entry t q) else lookup_entry t q)
  modify_outside key f t v q away =
      rw (ne→== q key (λ e. away (rw (v.width, e)))) (sym (lookup-reads t q v.width))

  -- A write through the pointer to the entry of `key`.
  pub modify-Restructured :
      (key : ℕ) (f : Entry V → Entry V) (t : Cache V)
      → ((e : Entry V) → (f e).id ≡ e.id)
      → IsValid t
      → Restructured
          (λ q. if q == key then map_entry f (lookup_entry t q) else lookup_entry t q)
          (modify key f t)
  unfolding modify
  modify-Restructured key f t same v =
      let ix = key % t.size in
      let c = get_or t.entries ix [] in
      let c' = update_entry key f c in
      let h : ix < length t.entries = omega arith in
      let width = length-set t.entries ix c' ∙ v.width in
      record {
        valid = record {
          width = width;
          nonempty = v.nonempty;
          counted = omega (arith, population-set t.entries ix c' h, length-update key f c);
          fits = v.fits;
          bounded = v.bounded;
          placed =
              set-IsPlaced t.entries ix c' h v.placed
                (λ q. rw (occurs-update key q f same) (v.placed q ix));
        };
        view_lem = λ q.
            lookup-reads (modify key f t) q width
            ∙ reads-set_cases t.entries ix c' h q _ (λ here. modify_inside key f t same v q here)
                (λ away. modify_outside key f t v q away);
      }

  -- `g` is `t` with room for one more entry, already counted.
  record Grown (t g : Cache V) : Type ℓ where
    more : g.count ≡ t.count + 1
    fits : g.count ≤ g.size
    width : length g.entries ≡ g.size
    placed : IsPlaced g.entries
    population_lem : population g.entries ≡ t.count
    view_lem : (q : ℕ) → lookup_entry g q ≡ lookup_entry t q
    weigh_lem : (w : V → ℕ) → weigh w (cache_destroy g) ≡ weigh w (cache_destroy t)

  grow_for_one-Grown :
      (t : Cache V) → IsValid t → t.count + 1 < count_limit → Grown t (grow_for_one t)
  unfolding grow_for_one lookup_entry cache_destroy
  grow_for_one-Grown t v room =
      let t' = record t { count = add32 t.count 1 } in
      elim (Bool-cases (ltb t.size (add32 t.count 1))) [
        | inl full ↦
            let r = cache_rehash-Resized t' v.width v.nonempty (omega arith) v.placed in
            rw full (record {
              more = r.same_count ∙ omega arith;
              fits = omega arith;
              width = r.width;
              placed = r.placed;
              population_lem = r.population_lem ∙ v.counted;
              view_lem = r.view_lem;
              weigh_lem = r.weigh_lem;
            })
        | inr roomy ↦ rw roomy (record {
          more = omega arith;
          fits = omega (tests, roomy);
          width = v.width;
          placed = v.placed;
          population_lem = v.counted;
          view_lem = λ q. refl;
          weigh_lem = λ w. refl;
        })
      ]

  append_inside :
      (e : Entry V) (t : Cache V) (q : ℕ)
      → length t.entries ≡ t.size
      → lookup_entry t e.id ≡ none
      → q % length t.entries ≡ e.id % t.size
      → find_entry q (get_or t.entries (e.id % t.size) [] ++ e ∷ [])
        ≡ (if q == e.id then some e else lookup_entry t q)
  unfolding lookup_entry find_entry
  append_inside e t q width absent here =
      rw (find-append, ==_comm q e.id)
        (elim (Bool-cases (e.id == q)) [
          | inl same ↦ rw (same, ← (==_iff e.id q).0 same, absent)
          | inr other ↦ rw (other, ← here, width) (or_else-none _)
        ])

  append_outside :
      (e : Entry V) (t : Cache V) (q : ℕ)
      → length t.entries ≡ t.size
      → q % length t.entries ≢ e.id % t.size
      → reads t.entries q ≡ (if q == e.id then some e else lookup_entry t q)
  append_outside e t q width away =
      rw (ne→== q e.id (λ same. away (rw (width, same)))) (sym (lookup-reads t q width))

  append_occurs :
      (e : Entry V) (t : Cache V) (q : ℕ)
      → length t.entries ≡ t.size
      → IsPlaced t.entries
      → lookup_entry t e.id ≡ none
      → occurs q (get_or t.entries (e.id % t.size) [] ++ e ∷ [])
        ≤ (if q % length t.entries == e.id % t.size then 1 else 0)
  unfolding lookup_entry occurs
  append_occurs e t q width placed absent =
      let c = get_or t.entries (e.id % t.size) [] in
      rw occurs-append (elim (Bool-cases (e.id == q)) [
        | inl same ↦
            let e' = (==_iff e.id q).0 same in
            rw (same, ← e', width, ==_self, occurs-eq-zero e.id c absent) (omega arith)
        | inr other ↦ rw other (omega (arith, placed q (e.id % t.size)))
      ])

  -- A new entry, its key not yet there: it goes in and no other key is disturbed.
  pub insert-Restructured :
      (e : Entry V) (t : Cache V)
      → IsValid t
      → t.count + 1 < count_limit
      → lookup_entry t e.id ≡ none
      → Restructured
          (λ q. if q == e.id then some e else lookup_entry t q)
          (append_entry e (grow_for_one t))
  unfolding append_entry
  insert-Restructured e t v room absent =
      let g = grow_for_one t in
      let r = grow_for_one-Grown t v room in
      let ix = e.id % g.size in
      let c = get_or g.entries ix [] ++ e ∷ [] in
      let nonempty : 0 < g.size = omega arith in
      let h : ix < length g.entries = omega arith in
      let width = length-set g.entries ix c ∙ r.width in
      let gone = r.view_lem e.id ∙ absent in
      record {
        valid = record {
          width = width;
          nonempty = nonempty;
          counted = omega (
            arith,
            population-set g.entries ix c h,
            length-append (get_or g.entries ix []) (e ∷ []),
          );
          fits = r.fits;
          bounded = omega arith;
          placed =
              set-IsPlaced g.entries ix c h r.placed
                (λ q. append_occurs e g q r.width r.placed gone);
        };
        view_lem = λ q.
            lookup-reads (append_entry e g) q width
            ∙ reads-set_cases g.entries ix c h q _ (λ here. append_inside e g q r.width gone here)
                (λ away. append_outside e g q r.width away)
            ∙ rw (r.view_lem q);
      }

  pub count-insert :
      (e : Entry V) (t : Cache V)
      → IsValid t
      → t.count + 1 < count_limit
      → (append_entry e (grow_for_one t)).count ≡ t.count + 1
  unfolding append_entry
  count-insert e t v room = (grow_for_one-Grown t v room).more

  pub weigh-insert :
      (w : V → ℕ) (e : Entry V) (t : Cache V)
      → IsValid t
      → t.count + 1 < count_limit
      → e.value ≡ none
      → weigh w (cache_destroy (append_entry e (grow_for_one t))) ≡ weigh w (cache_destroy t)
  unfolding append_entry cache_destroy destroy_chain
  weigh-insert w e t v room empty =
      let g = grow_for_one t in
      let r = grow_for_one-Grown t v room in
      let ix = e.id % g.size in
      let h : ix < length g.entries = omega arith in
      let c = get_or g.entries ix [] in
      let same : destroy_chain (c ++ e ∷ []) ≡ destroy_chain c =
        rw (destroy-append, empty, append-nil) in
      omega (arith, weigh-set w g.entries ix (c ++ e ∷ []) h, ap (weigh w) same, r.weigh_lem w)

  pub weigh-modify :
      (w : V → ℕ) (key : ℕ) (f : Entry V → Entry V) (t : Cache V)
      → ((e : Entry V) → (f e).value ≡ e.value)
      → IsValid t
      → weigh w (cache_destroy (modify key f t)) ≡ weigh w (cache_destroy t)
  unfolding modify cache_destroy
  weigh-modify w key f t same v =
      let ix = key % t.size in
      let c = get_or t.entries ix [] in
      let h : ix < length t.entries = omega arith in
      omega (
        arith,
        weigh-set w t.entries ix (update_entry key f c) h,
        ap (weigh w) (destroy-update key f same c),
      )

  pub modify_settings :
      (key : ℕ) (f : Entry V → Entry V) (t : Cache V)
      → let t' = modify key f t in
        (t'.entry_expire_period ≡ t.entry_expire_period)
        × (t'.cleanup_period_millis ≡ t.cleanup_period_millis)
        × (t'.last_cleanup_time ≡ t.last_cleanup_time)
        × (t'.count ≡ t.count)
  unfolding modify
  modify_settings key f t = (refl, refl, refl, refl)

  pub insert_settings :
      (e : Entry V) (t : Cache V)
      → let t' = append_entry e (grow_for_one t) in
        (t'.entry_expire_period ≡ t.entry_expire_period)
        × (t'.cleanup_period_millis ≡ t.cleanup_period_millis)
        × (t'.last_cleanup_time ≡ t.last_cleanup_time)
  unfolding append_entry grow_for_one cache_rehash
  insert_settings e t = elim (Bool-cases (ltb t.size (add32 t.count 1))) [
    | inl full ↦ rw full (refl, refl, refl)
    | inr roomy ↦ rw roomy (refl, refl, refl)
  ]
