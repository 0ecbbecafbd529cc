-- ===== src/Sigar/Walk.antt =====
-- The walk of `sigar_net_stat_get` over all connections: it does on the cache what it does on an
-- abstract table from ports to addresses, and what it counts.
use libsigar.Base.{
  ℕ, suc, ◌+◌, ◌<◌, Option, none, some, List, [], ◌∷◌, ◌≡◌, refl, ap, arith, ◌==◌, length,
  Bool-cases, inl, inr,
}
use libsigar.Outcome.{Outcome, done, fault, ◌>>=◌}
use libsigar.Cache.{Entry, Cache}
use libsigar.Cache.Valid.{count_limit}
use libsigar.Format.Net.{NetAddress}
use libsigar.Sigar.NetStat.{
  NetConnection, NetStat, is_tcp, tcp_listen, count_state, count_direction, copy_totals,
  net_stat_tcp, net_stat_walker, net_stat_walk,
}
use libsigar.Cache.Shows.{seen, present, Shows, cache_find-Shows}
use libsigar.Sigar.Listening.{
  view_tcp, view_walker, view_walk, Same, Agree, listen_address_add-Shows,
}

abbrev Concrete : Type 0
Concrete = NetStat × Cache NetAddress

abbrev Abstract : Type 0
Abstract = NetStat × (ℕ → Option NetAddress)

Agree-bind :
    (R S : Concrete → Abstract → Type 0) (x : Outcome Concrete) (y : Outcome Abstract)
    (f : Concrete → Outcome Concrete) (g : Abstract → Outcome Abstract)
    → Agree R x y
    → ((s : Concrete) (a : Abstract) → R s a → Agree S (f s) (g a))
    → Agree S (x >>= f) (y >>= g)
Agree-bind R S (done s) (done a) f g h k = k s a h
Agree-bind R S fault fault f g h k = tt
Agree-bind R S fault (done a) f g h k = elim h [ ]
Agree-bind R S (done s) fault f g h k = elim h [ ]

direction_lem :
    (stat : NetStat) (e : Option (Entry NetAddress)) (v : Option NetAddress)
    → seen e ≡ present v
    → count_direction e stat ≡ count_direction v stat
direction_lem stat none none h = refl
direction_lem stat none (some v) h = ground arith
direction_lem stat (some e) none h = ground arith
direction_lem stat (some e) (some v) h = refl

outcome_elim : {A B : Type 0} (x : Outcome A) → ((a : A) → x ≡ done a → B) → (x ≡ fault → B) → B
outcome_elim (done a) f g = f a refl
outcome_elim fault f g = g refl

module _ (now : ℕ) where
  counted-Agree :
      (k : ℕ) (conn : NetConnection) (stat : NetStat) (c : Cache NetAddress)
      (view : ℕ → Option NetAddress)
      → Shows view c
      → c.count + suc k < count_limit
      → Agree (Same k) (net_stat_tcp now conn (stat, c)) (view_tcp conn (stat, view))
  unfolding net_stat_tcp
  counted-Agree k conn stat c view h few =
      let (met, kept, grown) = cache_find-Shows now conn.local_port view c h in
      let (added, grown') = listen_address_add-Shows now conn view c h (omega arith) in
      outcome_elim (count_state conn.state stat)
        (λ (stat' : NetStat) e. elim (Bool-cases (conn.state == tcp_listen)) [
          | inl listening ↦
              rw (e, listening) record { stat_lem = refl; shows = added; few = omega arith }
          | inr talking ↦
              rw (e, talking)
                record {
                  stat_lem = direction_lem stat' _ (view conn.local_port) met;
                  shows = kept;
                  few = omega arith;
                }
        ])
        (λ e. rw e tt)

  Same-copy_totals :
      (k : ℕ) (s : Concrete) (a : Abstract)
      → Same k s a
      → Same k (copy_totals s.0, s.1) (copy_totals a.0, a.1)
  Same-copy_totals k s a r = record {
    stat_lem = ap copy_totals r.stat_lem;
    shows = r.shows;
    few = r.few;
  }

  walker-Agree :
      (k : ℕ) (conn : NetConnection) (stat : NetStat) (c : Cache NetAddress)
      (view : ℕ → Option NetAddress)
      → Shows view c
      → c.count + suc k < count_limit
      → Agree (Same k) (net_stat_walker now conn (stat, c)) (view_walker conn (stat, view))
  unfolding net_stat_walker
  walker-Agree k conn stat c view h few = elim (Bool-cases (is_tcp conn.type)) [
    | inl tcp ↦ rw tcp (
        Agree-bind (Same k) (Same k) _ _ _ _ (counted-Agree k conn stat c view h few)
          (Same-copy_totals k))
    | inr other ↦ rw other record { stat_lem = refl; shows = h; few = omega arith }
  ]

  walk-Agree :
      (k : ℕ) (conns : List NetConnection) (stat : NetStat) (c : Cache NetAddress)
      (view : ℕ → Option NetAddress)
      → Shows view c
      → c.count + (length conns + k) < count_limit
      → Agree (Same k) (net_stat_walk now conns (stat, c)) (view_walk conns (stat, view))
  unfolding net_stat_walk view_walk
  walk-Agree k [] stat c view h few = record { stat_lem = refl; shows = h; few = omega arith }
  walk-Agree k (conn ∷ conns) stat c view h few =
      Agree-bind (Same (length conns + k)) (Same k) _ _ _ _
        (walker-Agree (length conns + k) conn stat c view h (omega arith))
        (λ s a r. rw (← r.stat_lem) (walk-Agree k conns s.0 s.1 a.1 r.shows r.few))

  -- From a table with room for every connection, the walk over the connections and the walk over an
  -- abstract table from ports to addresses, which prefers version 4 and has no chains, rehashes or
  -- clock, either are both faults or give the same statistics, and the table then shows the abstract one.
  pub net_stat_walk-Agree :
      (conns : List NetConnection) (stat : NetStat) (c : Cache NetAddress)
      (view : ℕ → Option NetAddress)
      → Shows view c
      → c.count + length conns < count_limit
      → Agree (Same 0) (net_stat_walk now conns (stat, c)) (view_walk conns (stat, view))
  net_stat_walk-Agree conns stat c view h few = walk-Agree 0 conns stat c view h (omega arith)
