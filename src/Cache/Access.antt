-- ===== src/Cache/Access.antt =====
-- `sigar_cache_find`, `sigar_cache_get` and a caller's write of a value: the result, the invariant,
-- what every later search finds, and the values.
use libsigar.Base.{
  ℕ, ◌+◌, ◌<◌, ◌≤◌, Option, none, some, ◌≡◌, refl, sym, arith, ◌==◌, ◌∙◌, if◌then◌else◌,
  Option-cases, if_eq_intro, if_eq_congr, inl, inr,
}
use libsigar.Cache.{
  Entry, Cache, perform_cleanup_if_necessary, lookup_entry, cache_destroy, touch, cache_find,
  cache_get, cleanup_skipped,
}
use libsigar.Cache.Chains.{weigh, map_entry}
use libsigar.Cache.Valid.{
  count_limit, IsValid, view_at, perform_cleanup-Restructured, weigh-perform_cleanup,
  perform_cleanup_settings,
}
use libsigar.Cache.Writes.{
  modify-Restructured, insert-Restructured, count-insert, weigh-insert, weigh-modify,
  modify_settings, insert_settings,
}

-- The entry that `sigar_cache_get` returns: the one that is there, touched, or a fresh one.
abbrev pub get_or_new {ℓ} : {V : Type ℓ} → ℕ → ℕ → Option (Entry V) → Entry V
get_or_new access key none = record { id = key; value = none; last_access_time = access }
get_or_new access key (some e) = touch access e

-- The clock part of a table, which a search never looks at.
abbrev pub Settings {ℓ} : {V : Type ℓ} → ℕ → Cache V → Cache V → Type 0
Settings clock t t' =
    (t'.entry_expire_period ≡ t.entry_expire_period)
    × (t'.cleanup_period_millis ≡ t.cleanup_period_millis)
    × (t'.last_cleanup_time ≡ (if cleanup_skipped clock t then t.last_cleanup_time else clock))

module _ {ℓ} {V : Type ℓ} where
  -- The effect of an access to `key`.
  pub record Accessed (clock key : ℕ) (found : Option (Entry V)) (t t' : Cache V) : Type ℓ where
    pub valid : IsValid t'
    pub view_lem : (q : ℕ) → lookup_entry t' q ≡ (if q == key then found else view_at clock t q)
    pub settings : Settings clock t t'
    pub count_lem : t'.count ≤ t.count + 1

  -- Finding a key of a well-formed table returns the entry that the cleanup before it left,
  -- touched, or nothing. Afterwards the table is well-formed, the key has what was returned, and
  -- the others what the cleanup left.
  pub cache_find-Accessed :
      (clock access key : ℕ) (t : Cache V)
      → IsValid t
      → let r = cache_find clock access key t in
        (r.0 ≡ map_entry (touch access) (view_at clock t key)) × Accessed clock key r.0 t r.1
  unfolding cache_find
  cache_find-Accessed clock access key t v =
      let p = perform_cleanup-Restructured clock t v in
      let s = perform_cleanup_settings clock t v in
      let t' = (perform_cleanup_if_necessary clock t).0 in
      elim (Option-cases (lookup_entry t' key)) [
        | inl absent ↦
            rw (absent, cache_find)
              (
                rw (← p.view_lem key, absent),
                record {
                  valid = p.valid;
                  view_lem = λ q.
                      p.view_lem q
                      ∙ if_eq_intro q key _ _ _ (λ h. rw h (sym (p.view_lem key) ∙ absent))
                          (λ _. refl);
                  settings = (s.0, s.1, s.2);
                  count_lem = omega arith;
                },
              )
        | inr (e, present) ↦
            let m = modify-Restructured key (touch access) t' (λ e. refl) p.valid in
            let u = modify_settings key (touch access) t' in
            rw (present, cache_find)
              (
                rw (← p.view_lem key, present),
                record {
                  valid = m.valid;
                  view_lem = λ q.
                      m.view_lem q
                      ∙ if_eq_congr q key _ _ _ _ (λ h. rw (h, present)) (p.view_lem q);
                  settings = (u.0 ∙ s.0, u.1 ∙ s.1, u.2 ∙ s.2);
                  count_lem = omega arith;
                },
              )
      ]

  -- Getting a key of a well-formed table with room for one more entry returns its entry, touched,
  -- or a fresh one with no value. Afterwards the table is well-formed, the key has that entry,
  -- and the others what the cleanup left.
  pub cache_get-Accessed :
      (clock access key : ℕ) (t : Cache V)
      → IsValid t
      → t.count + 1 < count_limit
      → let r = cache_get clock access key t in
        (r.0 ≡ get_or_new access key (view_at clock t key)) × Accessed clock key (some r.0) t r.1
  unfolding cache_get
  cache_get-Accessed clock access key t v room =
      let p = perform_cleanup-Restructured clock t v in
      let s = perform_cleanup_settings clock t v in
      let t' = (perform_cleanup_if_necessary clock t).0 in
      elim (Option-cases (lookup_entry t' key)) [
        | inl absent ↦
            let e : Entry V = record { id = key; value = none; last_access_time = access } in
            let m = insert-Restructured e t' p.valid (omega arith) absent in
            let u = insert_settings e t' in
            rw (absent, cache_get)
              (
                rw (← p.view_lem key, absent),
                record {
                  valid = m.valid;
                  view_lem =
                      λ q. m.view_lem q ∙ if_eq_congr q key _ _ _ _ (λ _. refl) (p.view_lem q);
                  settings = (u.0 ∙ s.0, u.1 ∙ s.1, u.2 ∙ s.2);
                  count_lem = omega (arith, count-insert e t' p.valid (omega arith));
                },
              )
        | inr (e, present) ↦
            let m = modify-Restructured key (touch access) t' (λ _. refl) p.valid in
            let u = modify_settings key (touch access) t' in
            rw (present, cache_get)
              (
                rw (← p.view_lem key, present),
                record {
                  valid = m.valid;
                  view_lem = λ q.
                      m.view_lem q
                      ∙ if_eq_congr q key _ _ _ _ (λ h. rw (h, present)) (p.view_lem q);
                  settings = (u.0 ∙ s.0, u.1 ∙ s.1, u.2 ∙ s.2);
                  count_lem = omega arith;
                },
              )
      ]

  -- Finding and getting neither lose a value nor free one that stays.
  pub weigh-cache_find :
      (w : V → ℕ) (clock access key : ℕ) (t : Cache V)
      → IsValid t
      → let r = cache_find clock access key t in
        weigh w r.2 + weigh w (cache_destroy r.1) ≡ weigh w (cache_destroy t)
  unfolding cache_find
  weigh-cache_find w clock access key t v =
      let p = perform_cleanup-Restructured clock t v in
      let t' = (perform_cleanup_if_necessary clock t).0 in
      elim (Option-cases (lookup_entry t' key)) [
        | inl absent ↦ rw (absent, cache_find) (weigh-perform_cleanup w clock t v)
        | inr (e, present) ↦
            rw (present, cache_find, weigh-modify w key (touch access) t' (λ _. refl) p.valid)
              (weigh-perform_cleanup w clock t v)
      ]

  pub weigh-cache_get :
      (w : V → ℕ) (clock access key : ℕ) (t : Cache V)
      → IsValid t
      → t.count + 1 < count_limit
      → let r = cache_get clock access key t in
        weigh w r.2 + weigh w (cache_destroy r.1) ≡ weigh w (cache_destroy t)
  unfolding cache_get
  weigh-cache_get w clock access key t v room =
      let p = perform_cleanup-Restructured clock t v in
      let s = perform_cleanup_settings clock t v in
      let t' = (perform_cleanup_if_necessary clock t).0 in
      elim (Option-cases (lookup_entry t' key)) [
        | inl absent ↦
            let e : Entry V = record { id = key; value = none; last_access_time = access } in
            rw (absent, cache_get, weigh-insert w e t' p.valid (omega arith) refl)
              (weigh-perform_cleanup w clock t v)
        | inr (e, present) ↦
            rw (present, cache_get, weigh-modify w key (touch access) t' (λ _. refl) p.valid)
              (weigh-perform_cleanup w clock t v)
      ]
