-- ===== src/Cache/Refine.antt =====
-- The contract of the cache: a map from keys to entries with a clock, which forgets chains, sizes and
-- rehashes. The table gives the same answers in every history of operations.
use libsigar.Base.{
  ℕ, ◌+◌, ◌<◌, ◌≤◌, Bool, ◌||◌, [], ◌∷◌, List, Option, none, some, ◌≡◌, refl, arith, ◌==◌, ltb, ◌∙◌,
  if◌then◌else◌, sub64, field_notimpl, length, if_eq_congr, ap, ap₂,
}
use libsigar.Cache.{
  Entry, Cache, expired_cache_new, lookup_entry, touch, cache_find, cache_get, set_value,
}
use libsigar.Cache.Chains.{map_entry, keep_live}
use libsigar.Cache.Valid.{count_limit, IsValid, expired_cache_new-IsValid, view_at}
use libsigar.Cache.Writes.{modify-Restructured, modify_settings}
use libsigar.Cache.Access.{Accessed, get_or_new, cache_find-Accessed, cache_get-Accessed}

-- The abstract cache.
pub record Spec {ℓ} (V : Type ℓ) : Type ℓ where
  pub found : ℕ → Option (Entry V)
  pub expire_period : ℕ
  pub cleanup_period : ℕ
  pub last_cleanup : ℕ

-- What the callers do: find a key, get it, write the value of an entry that they hold.
pub data Op {ℓ} (V : Type ℓ) : Type ℓ where
  find : ℕ → ℕ → ℕ → Op V
  get : ℕ → ℕ → ℕ → Op V
  store : ℕ → Option V → Op V

module _ {ℓ} {V : Type ℓ} where
  spec_skipped : ℕ → Spec V → Bool
  spec_skipped clock s =
      s.cleanup_period == field_notimpl || ltb (sub64 clock s.last_cleanup) s.cleanup_period

  -- The entries that a due cleanup leaves.
  spec_view : ℕ → Spec V → ℕ → Option (Entry V)
  spec_view clock s q =
      if spec_skipped clock s then s.found q else keep_live clock s.expire_period (s.found q)

  -- After an operation at time `clock`, with a new entry at one key.
  spec_access : ℕ → ℕ → Option (Entry V) → Spec V → Spec V
  spec_access clock key e s = record s {
    found = λ q. if q == key then e else spec_view clock s q;
    last_cleanup = if spec_skipped clock s then s.last_cleanup else clock;
  }

  unfoldable pub spec_new : ℕ → ℕ → ℕ → Spec V
  spec_new cleanup expire now = record {
    found = λ _. none;
    expire_period = expire;
    cleanup_period = cleanup;
    last_cleanup = now;
  }

  spec_store : ℕ → Option V → Spec V → Spec V
  spec_store key v s = record s {
    found =
        λ q. if q == key then map_entry (λ e. record e { value = v }) (s.found q) else s.found q;
  }

  unfoldable pub spec_step : Op V → Spec V → Option (Entry V) × Spec V
  unfolding spec_access spec_view spec_skipped spec_store
  spec_step (find clock access key) s =
      let e = map_entry (touch access) (spec_view clock s key) in (e, spec_access clock key e s)
  spec_step (get clock access key) s =
      let e = some (get_or_new access key (spec_view clock s key)) in (e, spec_access clock key e s)
  spec_step (store key v) s = (none, spec_store key v s)

  unfoldable pub spec_answers : List (Op V) → Spec V → List (Option (Entry V))
  unfolding spec_step
  spec_answers [] s = []
  spec_answers (op ∷ ops) s = (spec_step op s).0 ∷ spec_answers ops (spec_step op s).1

  -- The same history on the table.
  unfoldable pub step : Op V → Cache V → Option (Entry V) × Cache V
  step (find clock access key) t = let r = cache_find clock access key t in (r.0, r.1)
  step (get clock access key) t = let r = cache_get clock access key t in (some r.0, r.1)
  step (store key v) t = (none, set_value key v t)

  unfoldable pub answers : List (Op V) → Cache V → List (Option (Entry V))
  unfolding step
  answers [] t = []
  answers (op ∷ ops) t = (step op t).0 ∷ answers ops (step op t).1

  record Refines (t : Cache V) (s : Spec V) : Type ℓ where
    valid : IsValid t
    found_lem : (q : ℕ) → lookup_entry t q ≡ s.found q
    expire_lem : t.entry_expire_period ≡ s.expire_period
    cleanup_lem : t.cleanup_period_millis ≡ s.cleanup_period
    last_lem : t.last_cleanup_time ≡ s.last_cleanup

  view_at-spec :
      {t : Cache V} {s : Spec V} (clock q : ℕ)
      → Refines t s
      → view_at clock t q ≡ spec_view clock s q
  unfolding spec_view spec_skipped
  view_at-spec clock q r = cc (r.found_lem q, r.expire_lem, r.cleanup_lem, r.last_lem)

  Accessed-Refines :
      {t t' : Cache V} {s : Spec V} {clock key : ℕ} {e : Option (Entry V)}
      → Refines t s
      → Accessed clock key e t t'
      → Refines t' (spec_access clock key e s)
  unfolding spec_access spec_skipped
  Accessed-Refines {t} {t'} {s} {clock} {key} {e} r a = record {
    valid = a.valid;
    found_lem = λ q. a.view_lem q ∙ if_eq_congr q key _ _ _ _ (λ _. refl) (view_at-spec clock q r);
    expire_lem = a.settings.0 ∙ r.expire_lem;
    cleanup_lem = a.settings.1 ∙ r.cleanup_lem;
    last_lem = a.settings.2 ∙ cc (r.cleanup_lem, r.last_lem);
  }

  store-Refines :
      {t : Cache V} {s : Spec V} (key : ℕ) (v : Option V)
      → Refines t s
      → Refines (set_value key v t) (spec_store key v s)
  unfolding set_value spec_store
  store-Refines {t} {s} key v r =
      let m = modify-Restructured key (λ e. record e { value = v }) t (λ _. refl) r.valid in
      let u = modify_settings key (λ e. record e { value = v }) t in
      record {
        valid = m.valid;
        found_lem = λ q.
            m.view_lem q
            ∙ if_eq_congr q key _ _ _ _
                (λ _. ap (map_entry (λ e. record e { value = v })) (r.found_lem q)) (r.found_lem q);
        expire_lem = u.0 ∙ r.expire_lem;
        cleanup_lem = u.1 ∙ r.cleanup_lem;
        last_lem = u.2 ∙ r.last_lem;
      }

  -- One operation: the same answer, and the refinement goes on.
  step-Refines :
      (op : Op V) {t : Cache V} {s : Spec V}
      → Refines t s
      → t.count + 1 < count_limit
      → ((step op t).0 ≡ (spec_step op s).0)
        × Refines (step op t).1 (spec_step op s).1
        × ((step op t).1.count ≤ t.count + 1)
  unfolding step spec_step
  step-Refines (find clock access key) {t} {s} r room =
      let (same, a) = cache_find-Accessed clock access key t r.valid in
      let e = same ∙ ap (map_entry (touch access)) (view_at-spec clock key r) in
      (e, rw e at (Accessed-Refines r a), a.count_lem)
  step-Refines (get clock access key) {t} {s} r room =
      let (same, a) = cache_get-Accessed clock access key t r.valid room in
      let e = same ∙ ap (get_or_new access key) (view_at-spec clock key r) in
      (ap some e, rw e at (Accessed-Refines r a), a.count_lem)
  step-Refines (store key v) {t} {s} r room = (
    refl,
    store-Refines key v r,
    unfold set_value in rw (modify_settings key (λ e. record e { value = v }) t).3 (omega arith),
  )

  answers-Refines :
      (ops : List (Op V)) {t : Cache V} {s : Spec V}
      → Refines t s
      → t.count + length ops < count_limit
      → answers ops t ≡ spec_answers ops s
  unfolding answers spec_answers
  answers-Refines [] r room = refl
  answers-Refines (op ∷ ops) r room =
      let (same, r', count) = step-Refines op r (omega arith) in
      ap₂ ◌∷◌ same (answers-Refines ops r' (omega arith))

  new-Refines :
      (size cleanup expire now : ℕ)
      → 0 < size
      → Refines (expired_cache_new size cleanup expire now) (spec_new cleanup expire now)
  unfolding spec_new expired_cache_new
  new-Refines size cleanup expire now pos =
      let n = expired_cache_new-IsValid {V = V} size cleanup expire now pos in
      record {
        valid = n.valid;
        found_lem = n.view_lem;
        expire_lem = refl;
        cleanup_lem = refl;
        last_lem = refl;
      }

  -- A table with at least one chain answers every history of fewer than 2 ^ 31 operations as the
  -- abstract map does: which chain an entry is in and when the table is rehashed cannot be seen.
  pub answers-expired_cache_new :
      (size cleanup expire now : ℕ) (ops : List (Op V))
      → 0 < size
      → length ops < count_limit
      → answers ops (expired_cache_new size cleanup expire now)
        ≡ spec_answers ops (spec_new cleanup expire now)
  answers-expired_cache_new size cleanup expire now ops pos few =
      answers-Refines ops (new-Refines size cleanup expire now pos)
        (unfold expired_cache_new in omega arith)
