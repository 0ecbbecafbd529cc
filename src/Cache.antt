-- ===== src/Cache.antt =====
-- The expiring hash table of src/sigar_cache.c (types in include/sigar_util.h). A chain of entries
-- is a list, an array of chains a list of lists, a NULL value `none`. The clock is an argument: one
-- reading for the cleanup and one for the access. `free_value` is a caller's function: an operation
-- returns the values that it hands to it.
pub mod Chains
pub mod Buckets
pub mod Rehash
pub mod Valid
pub mod Writes
pub mod Access
pub mod Refine
pub mod Shows
mod Tests
use libsigar.Base.{
  ℕ, ◌+◌, ◌*◌, ◌/◌, ◌%◌, Bool, List, [], ◌∷◌, ◌++◌, Option, none, some, ltb, ◌==◌, if◌then◌else◌,
  ◌||◌, get_or, set, replicate, add32, sub32, sub64, u32_mod, field_notimpl,
}

-- `sigar_cache_entry_t`, without its link.
pub record Entry {ℓ} (V : Type ℓ) : Type ℓ where
  pub id : ℕ
  pub value : Option V
  pub last_access_time : ℕ

abbrev pub Chain {ℓ} : Type ℓ → Type ℓ
Chain V = List (Entry V)

-- `sigar_cache_t`; `count` and `size` are `unsigned int`, the times `sigar_uint64_t`.
pub record Cache {ℓ} (V : Type ℓ) : Type ℓ where
  pub entries : List (Chain V)
  pub count : ℕ
  pub size : ℕ
  pub entry_expire_period : ℕ
  pub cleanup_period_millis : ℕ
  pub last_cleanup_time : ℕ

-- What the loops of a cleanup leave behind: the entries that stay, how often `count` went down, and
-- the values handed to `free_value`.
pub record Swept {ℓ} (A V : Type ℓ) : Type ℓ where
  pub kept : A
  pub removed : ℕ
  pub freed : List V

abbrev pub value_list {ℓ} : {V : Type ℓ} → Option V → List V
value_list none = []
value_list (some v) = v ∷ []

-- `table->count * 2 + 1`, in an `unsigned int`.
abbrev pub rehash_size : ℕ → ℕ
rehash_size count = (count * 2 + 1) % u32_mod

module _ {ℓ} {V : Type ℓ} where
  -- The table is allocated with `size` empty chains.
  unfoldable pub expired_cache_new : ℕ → ℕ → ℕ → ℕ → Cache V
  expired_cache_new size cleanup_period expire_period now = record {
    entries = replicate size [];
    count = 0;
    size = size;
    entry_expire_period = expire_period;
    cleanup_period_millis = cleanup_period;
    last_cleanup_time = now;
  }

  unfoldable pub cache_new : ℕ → ℕ → Cache V
  unfolding expired_cache_new
  cache_new size now = expired_cache_new size field_notimpl field_notimpl now

  -- `entry->next = new_entries[hash]; new_entries[hash] = entry`.
  unfoldable pub push_entry : ℕ → Entry V → List (Chain V) → List (Chain V)
  push_entry new_size e bs = let hash = e.id % new_size in set bs hash (e ∷ get_or bs hash [])

  unfoldable pub rehash_chain : ℕ → Chain V → List (Chain V) → List (Chain V)
  rehash_chain new_size [] bs = bs
  rehash_chain new_size (e ∷ es) bs = rehash_chain new_size es (push_entry new_size e bs)

  -- The chains in order. The source counts them in an `int`, which is not modelled: here a table of
  -- 2 ^ 31 chains or more is moved all the same.
  unfoldable pub rehash_entries : ℕ → List (Chain V) → List (Chain V) → List (Chain V)
  rehash_entries new_size [] bs = bs
  rehash_entries new_size (c ∷ cs) bs = rehash_entries new_size cs (rehash_chain new_size c bs)

  unfoldable pub cache_rehash : Cache V → Cache V
  unfolding push_entry rehash_chain rehash_entries
  cache_rehash t =
      let n = rehash_size t.count in
      record t { entries = rehash_entries n t.entries (replicate n []); size = n }

  -- `table->entry_expire_period < current_time - entry->last_access_time`.
  abbrev pub is_expired : ℕ → ℕ → Entry V → Bool
  is_expired now expire e = ltb expire (sub64 now e.last_access_time)

  unfoldable pub sweep_chain : ℕ → ℕ → Chain V → Swept (Chain V) V
  sweep_chain now expire [] = record { kept = []; removed = 0; freed = [] }
  sweep_chain now expire (e ∷ es) =
      let rest = sweep_chain now expire es in
      if is_expired now expire e
      then record rest { removed = rest.removed + 1; freed = value_list e.value ++ rest.freed }
      else record rest { kept = e ∷ rest.kept }

  unfoldable pub sweep_entries : ℕ → ℕ → List (Chain V) → Swept (List (Chain V)) V
  unfolding sweep_chain
  sweep_entries now expire [] = record { kept = []; removed = 0; freed = [] }
  sweep_entries now expire (c ∷ cs) =
      let s = sweep_chain now expire c in
      let rest = sweep_entries now expire cs in
      record {
        kept = s.kept ∷ rest.kept;
        removed = s.removed + rest.removed;
        freed = s.freed ++ rest.freed;
      }

  -- The two early returns of the cleanup.
  abbrev pub cleanup_skipped : ℕ → Cache V → Bool
  cleanup_skipped now t =
      t.cleanup_period_millis == field_notimpl
      || ltb (sub64 now t.last_cleanup_time) t.cleanup_period_millis

  unfoldable pub shrink_if_sparse : Cache V → Cache V
  unfolding cache_rehash
  shrink_if_sparse t = if ltb t.count (t.size / 4) then cache_rehash t else t

  unfoldable pub sweep : ℕ → Cache V → Cache V × List V
  unfolding sweep_entries
  sweep now t =
      let s = sweep_entries now t.entry_expire_period t.entries in
      (
        record t { entries = s.kept; count = sub32 t.count s.removed; last_cleanup_time = now },
        s.freed,
      )

  unfoldable pub perform_cleanup_if_necessary : ℕ → Cache V → Cache V × List V
  unfolding sweep shrink_if_sparse
  perform_cleanup_if_necessary now t =
      if cleanup_skipped now t
      then (t, [])
      else (let (t', freed) = sweep now t in (shrink_if_sparse t', freed))

  -- `SIGAR_CACHE_IX`.
  abbrev pub cache_ix : Cache V → ℕ → ℕ
  cache_ix t key = key % t.size

  unfoldable pub find_entry : ℕ → Chain V → Option (Entry V)
  find_entry key [] = none
  find_entry key (e ∷ es) = if e.id == key then some e else find_entry key es

  -- A write to the first entry of the key, where the code holds a pointer to it.
  unfoldable pub update_entry : ℕ → (Entry V → Entry V) → Chain V → Chain V
  update_entry key f [] = []
  update_entry key f (e ∷ es) = if e.id == key then f e ∷ es else e ∷ update_entry key f es

  abbrev pub touch : ℕ → Entry V → Entry V
  touch now e = record e { last_access_time = now }

  unfoldable pub modify : ℕ → (Entry V → Entry V) → Cache V → Cache V
  unfolding update_entry
  modify key f t =
      let ix = cache_ix t key in
      record t { entries = set t.entries ix (update_entry key f (get_or t.entries ix [])) }

  unfoldable pub lookup_entry : Cache V → ℕ → Option (Entry V)
  unfolding find_entry
  lookup_entry t key = find_entry key (get_or t.entries (cache_ix t key) [])

  unfoldable pub cache_find : ℕ → ℕ → ℕ → Cache V → Option (Entry V) × Cache V × List V
  cache_find clock access key t =
      let (t', freed) = perform_cleanup_if_necessary clock t in
      elim (lookup_entry t' key) [
        | none ↦ (none, t', freed)
        | some e ↦ (some (touch access e), modify key (touch access) t', freed)
      ]

  unfoldable pub grow_for_one : Cache V → Cache V
  unfolding cache_rehash
  grow_for_one t =
      let t' = record t { count = add32 t.count 1 } in
      if ltb t'.size t'.count then cache_rehash t' else t'

  -- The new entry goes to the end of its chain.
  unfoldable pub append_entry : Entry V → Cache V → Cache V
  append_entry e t =
      let ix = cache_ix t e.id in
      record t { entries = set t.entries ix (get_or t.entries ix [] ++ e ∷ []) }

  unfoldable pub cache_get : ℕ → ℕ → ℕ → Cache V → Entry V × Cache V × List V
  cache_get clock access key t =
      let (t', freed) = perform_cleanup_if_necessary clock t in
      elim (lookup_entry t' key) [
        | none ↦
            let e : Entry V = record { id = key; value = none; last_access_time = access } in
            (e, append_entry e (grow_for_one t'), freed)
        | some e ↦ (touch access e, modify key (touch access) t', freed)
      ]

  -- `entry->value = v`, by a caller that holds the entry of the key.
  unfoldable pub set_value : ℕ → Option V → Cache V → Cache V
  set_value key v t = modify key (λ e. record e { value = v }) t

  unfoldable pub destroy_chain : Chain V → List V
  destroy_chain [] = []
  destroy_chain (e ∷ es) = value_list e.value ++ destroy_chain es

  unfoldable pub destroy_entries : List (Chain V) → List V
  unfolding destroy_chain
  destroy_entries [] = []
  destroy_entries (c ∷ cs) = destroy_chain c ++ destroy_entries cs

  -- The values that a destroyed table frees.
  unfoldable pub cache_destroy : Cache V → List V
  unfolding destroy_entries
  cache_destroy t = destroy_entries t.entries
