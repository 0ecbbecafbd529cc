-- ===== src/Sigar/Lookup.antt =====
-- The search of `sigar_net_listen_address_get` in the cache of listening addresses.
use libsigar.Base.{
  ℕ, ◌+◌, ◌<◌, Option, none, some, ◌≡◌, refl, ◌∙◌, arith, ◌==◌, Bool-cases, Option-cases, inl, inr,
  ==_iff,
}
use libsigar.Outcome.{enoent_status, Answer, answer, failed}
use libsigar.Cache.{Entry, Cache, cache_find}
use libsigar.Cache.Valid.{count_limit}
use libsigar.Format.Net.{NetAddress}
use libsigar.Sigar.NetStat.{listen_address_found}
use libsigar.Cache.Shows.{seen, Shows, Opened, cache_find-Shows, cache_get-Opened}

-- The address of a port, or ENOENT.
abbrev pub address_of : Option NetAddress → Answer (Option NetAddress)
address_of none = failed enoent_status
address_of (some a) = answer (some a)

module _ (now : ℕ) where
  Opened-Shows :
      (port : ℕ) (old : NetAddress) (view : ℕ → Option NetAddress) (c : Cache NetAddress)
      → Opened port view c
      → view port ≡ some old
      → Shows view c
  Opened-Shows port old view c h at_port = record {
    valid = h.valid;
    lasting = h.lasting;
    seen_lem = λ q. h.seen_lem q ∙ (elim (Bool-cases (q == port)) [
      | inl same ↦ rw (same, (==_iff q port).0 same, at_port) refl
      | inr other ↦ rw other refl
    ]);
  }

  seen-none : (e : Option (Entry NetAddress)) → seen e ≡ none → e ≡ none
  seen-none none h = refl
  seen-none (some e) h = ground arith

  seen-some :
      (e : Option (Entry NetAddress)) (v : Option NetAddress)
      → seen e ≡ some v
      → (x : Entry NetAddress) × (e ≡ some x)
  seen-some none v h = ground arith
  seen-some (some e) v h = (e, refl)

  -- In a table with room for two more entries that shows an abstract one, the search gives the address
  -- of the port there, or ENOENT if it has none, and the table still shows the abstract one.
  pub listen_address_found-Shows :
      (port : ℕ) (view : ℕ → Option NetAddress) (c : Cache NetAddress)
      → Shows view c
      → c.count + 2 < count_limit
      → let (r, c') = listen_address_found now port c in
        (r ≡ address_of (view port)) × Shows view c'
  unfolding listen_address_found
  listen_address_found-Shows port view c h few =
      let (met, kept, grown) = cache_find-Shows now port view c h in
      let c' = (cache_find now now port c).1 in
      elim (Option-cases (view port)) [
        | inl absent ↦
            let gone = seen-none (cache_find now now port c).0 (rw absent at met) in
            rw (listen_address_found, gone, absent) (refl, kept)
        | inr (old, there) ↦
            let (x, found) = seen-some (cache_find now now port c).0 (some old) (rw there at met) in
            let (value, opened, grown') = cache_get-Opened now port view c' kept (omega arith) in
            rw (listen_address_found, found, value, there)
              (refl, Opened-Shows port old view _ opened there)
      ]
