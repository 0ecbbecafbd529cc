-- ===== src/Sigar/Listening.antt =====
-- The statistics of connections against an abstract table from ports to addresses.
use libsigar.Base.{
  ℕ, ◌+◌, ◌<◌, ◌≤◌, Option, none, some, List, [], ◌∷◌, ◌≡◌, arith, ◌==◌, if◌then◌else◌, Bool-cases,
  inl, inr, Option-cases,
}
use libsigar.Outcome.{Outcome, done, fault, ◌>>=◌}
use libsigar.Cache.{Cache, cache_get}
use libsigar.Cache.Shows.{Shows, holds, cache_get-Opened, set_value-Shows, kept-Shows}
use libsigar.Cache.Valid.{count_limit}
use libsigar.Format.Net.{NetAddress}
use libsigar.Sigar.NetStat.{
  NetConnection, NetStat, is_tcp, is_inet6, tcp_listen, count_state, count_direction, copy_totals,
  listen_address_add,
}

-- Version 4 is preferred.
abbrev pub preferred : NetAddress → Option NetAddress → NetAddress
preferred address none = address
preferred address (some old) = if is_inet6 address then old else address

-- What the table becomes when a socket listens.
abbrev pub listen_view : NetConnection → (ℕ → Option NetAddress) → ℕ → Option NetAddress
listen_view conn view =
    holds conn.local_port (preferred conn.local_address (view conn.local_port)) view

abbrev pub view_tcp :
    NetConnection → NetStat × (ℕ → Option NetAddress) → Outcome (NetStat × (ℕ → Option NetAddress))
view_tcp conn (stat, view) = do
  stat' ← count_state conn.state stat
  done (
      if conn.state == tcp_listen
      then (stat', listen_view conn view)
      else (count_direction (view conn.local_port) stat', view))

abbrev pub view_walker :
    NetConnection → NetStat × (ℕ → Option NetAddress) → Outcome (NetStat × (ℕ → Option NetAddress))
view_walker conn s = do
  s' ← (if is_tcp conn.type then view_tcp conn s else done s)
  done (copy_totals s'.0, s'.1)

-- The walk over the abstract table.
unfoldable pub view_walk :
    List NetConnection
    → NetStat × (ℕ → Option NetAddress)
    → Outcome (NetStat × (ℕ → Option NetAddress))
view_walk [] s = done s
view_walk (conn ∷ conns) s = do s' ← view_walker conn s; view_walk conns s'

-- The same statistics, and a table that shows the abstract one.
pub record Same (room : ℕ) (s : NetStat × Cache NetAddress) (a : NetStat × (ℕ → Option NetAddress))
    : Type 0 where
  pub stat_lem : s.0 ≡ a.0
  pub shows : Shows a.1 s.1
  pub few : s.1.count + room < count_limit

-- Both are faults, or both give related results.
abbrev pub Agree :
    (NetStat × Cache NetAddress → NetStat × (ℕ → Option NetAddress) → Type 0)
    → Outcome (NetStat × Cache NetAddress)
    → Outcome (NetStat × (ℕ → Option NetAddress))
    → Type 0
Agree R (done s) (done a) = R s a
Agree R fault fault = Unit
Agree R _ _ = ⊥

module _ (now : ℕ) where
  pub listen_address_add-Shows :
      (conn : NetConnection) (view : ℕ → Option NetAddress) (c : Cache NetAddress)
      → Shows view c
      → c.count + 1 < count_limit
      → Shows (listen_view conn view) (listen_address_add now conn c)
        × ((listen_address_add now conn c).count ≤ c.count + 1)
  unfolding listen_address_add
  listen_address_add-Shows conn view c h few =
      let port = conn.local_port in
      let (value, opened, grown) = cache_get-Opened now port view c h few in
      let c' = (cache_get now now port c).1 in
      let (written, count) = set_value-Shows port conn.local_address view c' opened in
      elim (Option-cases (view port)) [
        | inl absent ↦ rw (listen_address_add, value, absent) (written, omega arith)
        | inr (old, there) ↦ (elim (Bool-cases (is_inet6 conn.local_address)) [
          | inl six ↦
              rw (listen_address_add, value, there, six)
                (kept-Shows port old view c' opened there, grown)
          | inr four ↦ rw (listen_address_add, value, there, four) (written, omega arith)
        ])
      ]
