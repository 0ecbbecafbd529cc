-- ===== src/Sigar/Cached.antt =====
-- What `sigar_proc_cpu_get` and `sigar_proc_disk_io_get` share: the cache of the processes is made on
-- the first call, and the caller updates the value of a process in place.
use libsigar.Base.{
  ℕ, ◌+◌, ◌*◌, ◌<◌, Option, none, some, List, ◌≡◌, refl, ◌∙◌, ap, arith, ◌==◌, if◌then◌else◌,
  Bool-cases, inl, inr,
}
use libsigar.Cache.{Entry, Cache, expired_cache_new, cache_get, lookup_entry, set_value}
use libsigar.Cache.Chains.{map_entry}
use libsigar.Cache.Valid.{count_limit, IsValid, view_at, expired_cache_new-IsValid}
use libsigar.Cache.Writes.{modify-Restructured}
use libsigar.Cache.Access.{get_or_new, cache_get-Accessed}

-- `PID_CACHE_CLEANUP_PERIOD` and `PID_CACHE_ENTRY_EXPIRE_PERIOD`, in milliseconds.
abbrev pub pid_cache_cleanup_period : ℕ
pid_cache_cleanup_period = 1000 * 60 * 10

abbrev pub pid_cache_entry_expire_period : ℕ
pid_cache_entry_expire_period = 1000 * 60 * 20

-- The calls of `sigar_time_now_millis`: by the function, for a new cache, and by `sigar_cache_get`.
pub record Times : Type 0 where
  pub now : ℕ
  pub created : ℕ
  pub clock : ℕ
  pub access : ℕ

module _ {ℓ} {V : Type ℓ} where
  unfoldable pub open_pid_cache : ℕ → Option (Cache V) → Cache V
  open_pid_cache created none =
      expired_cache_new 128 pid_cache_cleanup_period pid_cache_entry_expire_period created
  open_pid_cache created (some c) = c

  -- A new entry gets the zeroed value.
  abbrev pub value_or : V → Option V → V
  value_or zeroed none = zeroed
  value_or zeroed (some v) = v

  -- The value of a process, updated by `step`.
  unfoldable pub with_entry :
      {R : Type ℓ} → V → (V → R × V) → Times → ℕ → Option (Cache V) → R × Cache V × List V
  unfolding open_pid_cache
  with_entry zeroed step times pid cache =
      let (e, c, freed) =
        cache_get times.clock times.access pid (open_pid_cache times.created cache) in
      let (r, prev) = step (value_or zeroed e.value) in (r, set_value pid (some prev) c, freed)

  -- A cache that is there is well-formed, with room for one more process.
  abbrev pub HasRoom : Option (Cache V) → Type 0
  HasRoom none = Unit
  HasRoom (some c) = IsValid c × (c.count + 1 < count_limit)

  open_pid_cache-HasRoom :
      (created : ℕ) (cache : Option (Cache V))
      → HasRoom cache
      → IsValid (open_pid_cache created cache)
        × ((open_pid_cache created cache).count + 1 < count_limit)
  unfolding open_pid_cache
  open_pid_cache-HasRoom created none h = (
    (expired_cache_new-IsValid {V = V} 128 pid_cache_cleanup_period pid_cache_entry_expire_period
        created (omega arith)).valid,
    unfold expired_cache_new in omega arith,
  )
  open_pid_cache-HasRoom created (some c) h = h

  -- The value that a call finds: that of the cache after its cleanup, or the zeroed one.
  abbrev pub value_before : V → Times → ℕ → Cache V → V
  value_before zeroed times pid c =
      value_or zeroed (get_or_new times.access pid (view_at times.clock c pid)).value

  -- The effect of a call on the cache.
  pub record Updated (after : V) (times : Times) (pid : ℕ) (c c' : Cache V) : Type ℓ where
    pub valid : IsValid c'
    pub view_lem :
        (q : ℕ)
        → lookup_entry c' q ≡ (
            if q == pid
            then some (record (get_or_new times.access pid (view_at times.clock c pid)) {
              value = some after;
            })
            else view_at times.clock c q)

  overwrite :
      (pid q : ℕ) (found : Option (Entry V)) (after : V) (e : Entry V) (others : Option (Entry V))
      → found ≡ (if q == pid then some e else others)
      → (if q == pid then map_entry (λ x. record x { value = some after }) found else found)
        ≡ (if q == pid then some (record e { value = some after }) else others)
  overwrite pid q found after e others h = elim (Bool-cases (q == pid)) [
    | inl same ↦ rw same (ap (map_entry (λ x. record x { value = some after })) (rw same at h))
    | inr other ↦ rw other (rw other at h)
  ]

  pub with_entry-Updated :
      {R : Type ℓ} (zeroed : V) (step : V → R × V) (times : Times) (pid : ℕ)
      (cache : Option (Cache V))
      → HasRoom cache
      → let c = open_pid_cache times.created cache in
        let (r, c', freed) = with_entry zeroed step times pid cache in
        let s = step (value_before zeroed times pid c) in (r ≡ s.0) × Updated s.1 times pid c c'
  unfolding with_entry set_value
  with_entry-Updated zeroed step times pid cache room =
      let c = open_pid_cache times.created cache in
      let (v, few) = open_pid_cache-HasRoom times.created cache room in
      let (e, a) = cache_get-Accessed times.clock times.access pid c v few in
      let s = step (value_before zeroed times pid c) in
      let got = (cache_get times.clock times.access pid c).1 in
      let m =
        modify-Restructured pid (λ x. record x { value = some s.1 }) got (λ _. refl) a.valid in
      let view =
        λ (q : ℕ). m.view_lem q ∙ overwrite pid q (lookup_entry got q) s.1 _ _ (a.view_lem q) in
      rw e (refl, record { valid = m.valid; view_lem = λ q. rw e at (view q) })
