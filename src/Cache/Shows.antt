-- ===== src/Cache/Shows.antt =====
-- A table that never cleans up against an abstract map from its keys to the values.
use libsigar.Base.{
  ℕ, ◌+◌, ◌<◌, ◌≤◌, Bool, true, false, Option, none, some, ◌≡◌, refl, ◌∙◌, ap, arith, ◌==◌,
  if◌then◌else◌, field_notimpl, Bool-cases, inl, inr, ==_iff,
}
use libsigar.Cache.{
  Entry, Cache, cache_new, expired_cache_new, cache_get, cache_find, lookup_entry, set_value, touch,
  cleanup_skipped,
}
use libsigar.Cache.Chains.{map_entry}
use libsigar.Cache.Valid.{count_limit, IsValid, view_at, expired_cache_new-IsValid}
use libsigar.Cache.Writes.{modify-Restructured, modify_settings}
use libsigar.Cache.Access.{get_or_new, cache_get-Accessed, cache_find-Accessed}

-- What a search sees of an entry: whether it is there, and its value.
abbrev pub seen : {V : Type 0} → Option (Entry V) → Option (Option V)
seen none = none
seen (some e) = some e.value

abbrev pub present : {V : Type 0} → Option V → Option (Option V)
present none = none
present (some v) = some (some v)

-- The table never cleans up, and shows the abstract one: every entry has its value.
pub record Shows {V : Type 0} (view : ℕ → Option V) (c : Cache V) : Type 0 where
  pub valid : IsValid c
  pub lasting : c.cleanup_period_millis ≡ field_notimpl
  pub seen_lem : (q : ℕ) → seen (lookup_entry c q) ≡ present (view q)

abbrev pub holds : {V : Type 0} → ℕ → V → (ℕ → Option V) → ℕ → Option V
holds key value view q = if q == key then some value else view q

if_at_port : {A : Type 0} (q port : ℕ) (f : ℕ → A) → (if q == port then f port else f q) ≡ f q
if_at_port q port f = elim (Bool-cases (q == port)) [
  | inl same ↦ rw (same, (==_iff q port).0 same)
  | inr other ↦ rw other
]

module _ {V : Type 0} where
  seen-if :
      (b : Bool) (x y : Option (Entry V)) (u v : Option (Option V))
      → seen x ≡ u
      → seen y ≡ v
      → seen (if b then x else y) ≡ (if b then u else v)
  seen-if true x y u v h k = h
  seen-if false x y u v h k = k

  -- What the table is between `sigar_cache_get` and the write of the value.
  pub record Opened (port : ℕ) (view : ℕ → Option V) (c : Cache V) : Type 0 where
    pub valid : IsValid c
    pub lasting : c.cleanup_period_millis ≡ field_notimpl
    pub seen_lem :
        (q : ℕ)
        → seen (lookup_entry c q) ≡ (if q == port then some (view port) else present (view q))

  seen-write :
      (v : Option V) (e : Option (Entry V)) (w : Option V)
      → seen e ≡ some w
      → seen (map_entry (λ x. record x { value = v }) e) ≡ some v
  seen-write v none w h = ground arith
  seen-write v (some e) w h = refl

  pub set_value-Shows :
      (port : ℕ) (address : V) (view : ℕ → Option V) (c : Cache V)
      → Opened port view c
      → Shows (holds port address view) (set_value port (some address) c)
        × ((set_value port (some address) c).count ≡ c.count)
  unfolding set_value
  set_value-Shows port address view c h =
      let f = λ (x : Entry V). record x { value = some address } in
      let m = modify-Restructured port f c (λ _. refl) h.valid in
      let u = modify_settings port f c in
      (
        record {
          valid = m.valid;
          lasting = u.1 ∙ h.lasting;
          seen_lem = λ q. ap seen (m.view_lem q) ∙ (elim (Bool-cases (q == port)) [
            | inl same ↦ rw same (
                seen-write (some address) (lookup_entry c q) (view port)
                  (rw same at (h.seen_lem q)))
            | inr other ↦ rw other (rw other at (h.seen_lem q))
          ]);
        },
        u.3,
      )

  pub kept-Shows :
      (port : ℕ) (old : V) (view : ℕ → Option V) (c : Cache V)
      → Opened port view c
      → view port ≡ some old
      → Shows (holds port old view) c
  kept-Shows port old view c h at_port = record {
    valid = h.valid;
    lasting = h.lasting;
    seen_lem = λ q. h.seen_lem q ∙ (elim (Bool-cases (q == port)) [
      | inl same ↦ rw (same, at_port) refl
      | inr other ↦ rw other refl
    ]);
  }

-- A new table shows the empty map.
pub cache_new-Shows :
    {V : Type 0} (size clock : ℕ) → 1 ≤ size → Shows {V = V} (λ _. none) (cache_new size clock)
unfolding cache_new expired_cache_new
cache_new-Shows {V} size clock h =
    let r = expired_cache_new-IsValid {V = V} size _ _ clock h in
    record { valid = r.valid; lasting = refl; seen_lem = λ q. rw (r.view_lem q) refl }

module _ {V : Type 0} (now : ℕ) where
  lasting-view_at :
      (c : Cache V) (q : ℕ)
      → c.cleanup_period_millis ≡ field_notimpl
      → view_at now c q ≡ lookup_entry c q
  lasting-view_at c q h = let skipped : cleanup_skipped now c ≡ true = rw h in rw skipped refl

  seen-touch : (e : Option (Entry V)) → seen (map_entry (touch now) e) ≡ seen e
  seen-touch none = refl
  seen-touch (some e) = refl

  value-get_or_new :
      (port : ℕ) (e : Option (Entry V)) (v : Option V)
      → seen e ≡ present v
      → (get_or_new now port e).value ≡ v
  value-get_or_new port none none h = refl
  value-get_or_new port none (some v) h = ground arith
  value-get_or_new port (some e) none h = ground arith
  value-get_or_new port (some e) (some v) h = ground arith

  pub cache_find-Shows :
      (port : ℕ) (view : ℕ → Option V) (c : Cache V)
      → Shows view c
      → let (e, c', freed) = cache_find now now port c in
        (seen e ≡ present (view port)) × Shows view c' × (c'.count ≤ c.count + 1)
  cache_find-Shows port view c h =
      let (e, a) = cache_find-Accessed now now port c h.valid in
      let r = cache_find now now port c in
      let found : seen r.0 ≡ present (view port) =
        rw (e, lasting-view_at c port h.lasting, seen-touch (lookup_entry c port))
          (h.seen_lem port) in
      (
        found,
        record {
          valid = a.valid;
          lasting = a.settings.1 ∙ h.lasting;
          seen_lem = λ q.
              ap seen (a.view_lem q)
              ∙ seen-if (q == port) r.0 (view_at now c q) _ _ found
                  (ap seen (lasting-view_at c q h.lasting) ∙ h.seen_lem q)
              ∙ if_at_port q port (λ q. present (view q));
        },
        a.count_lem,
      )

  pub cache_get-Opened :
      (port : ℕ) (view : ℕ → Option V) (c : Cache V)
      → Shows view c
      → c.count + 1 < count_limit
      → let (e, c', freed) = cache_get now now port c in
        (e.value ≡ view port) × Opened port view c' × (c'.count ≤ c.count + 1)
  cache_get-Opened port view c h few =
      let (e, a) = cache_get-Accessed now now port c h.valid few in
      let r = cache_get now now port c in
      let value : r.0.value ≡ view port =
        rw (e, lasting-view_at c port h.lasting)
          (value-get_or_new port (lookup_entry c port) (view port) (h.seen_lem port)) in
      (
        value,
        record {
          valid = a.valid;
          lasting = a.settings.1 ∙ h.lasting;
          seen_lem = λ q.
              ap seen (a.view_lem q)
              ∙ seen-if (q == port) (some r.0) (view_at now c q) _ _ (ap some value)
                  (ap seen (lasting-view_at c q h.lasting) ∙ h.seen_lem q);
        },
        a.count_lem,
      )
