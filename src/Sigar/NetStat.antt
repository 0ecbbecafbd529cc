-- ===== src/Sigar/NetStat.antt =====
-- The statistics of connections: `sigar_net_stat_get`, `sigar_net_stat_port_get`,
-- `sigar_tcp_curr_estab` and `sigar_net_listen_address_get`. The platform walks through its
-- connections: what it hands to the callback is a list, and its status comes with it. A count of a
-- state past the table of states is a fault.
use libsigar.Base.{
  ℕ, ◌+◌, Bool, true, false, ◌||◌, Option, none, some, List, [], ◌∷◌, ltb, ◌==◌, if◌then◌else◌,
  get_or, set, replicate, add32,
}
use libsigar.Outcome.{enoent_status, Answer, answer, failed, Outcome, done, fault, ◌>>=◌}
use libsigar.Cache.{Cache, cache_new, cache_get, cache_find, set_value}
use libsigar.Format.Net.{NetAddress, inet6, Compared, same, net_address_equals}

-- `SIGAR_NETCONN_*`.
pub data ConnectionType : Type 0 where
  netconn_tcp netconn_udp netconn_raw netconn_unix : ConnectionType

-- The `SIGAR_TCP_*` states that the code names.
abbrev pub tcp_established : ℕ
tcp_established = 1

abbrev pub tcp_close_wait : ℕ
tcp_close_wait = 8

abbrev pub tcp_listen : ℕ
tcp_listen = 10

abbrev pub tcp_unknown : ℕ
tcp_unknown = 14

-- `sigar_net_connection_t`, but for the process id, which no walk sets.
pub record NetConnection : Type 0 where
  pub local_port : ℕ
  pub local_address : NetAddress
  pub remote_port : ℕ
  pub remote_address : NetAddress
  pub type : ConnectionType
  pub state : ℕ
  pub uid : ℕ
  pub inode : ℕ
  pub send_queue : ℕ
  pub receive_queue : ℕ

-- `sigar_net_stat_t`.
pub record NetStat : Type 0 where
  pub tcp_states : List ℕ
  pub tcp_inbound_total : ℕ
  pub tcp_outbound_total : ℕ
  pub all_inbound_total : ℕ
  pub all_outbound_total : ℕ

abbrev pub net_stat_zero : NetStat
net_stat_zero = record {
  tcp_states = replicate tcp_unknown 0;
  tcp_inbound_total = 0;
  tcp_outbound_total = 0;
  all_inbound_total = 0;
  all_outbound_total = 0;
}

abbrev pub is_tcp : ConnectionType → Bool
is_tcp netconn_tcp = true
is_tcp _ = false

abbrev pub is_inet6 : NetAddress → Bool
is_inet6 (inet6 bs) = true
is_inet6 _ = false

-- `netstat->tcp_states[state]++`, in an `int`.
unfoldable pub count_state : ℕ → NetStat → Outcome NetStat
count_state state stat =
    if ltb state tcp_unknown
    then done (record stat {
      tcp_states = set stat.tcp_states state (add32 (get_or stat.tcp_states state 0) 1);
    })
    else fault

-- A connection that does not listen is inbound if something listens on its port.
abbrev pub count_direction : {A : Type 0} → Option A → NetStat → NetStat
count_direction none stat = record stat { tcp_outbound_total = add32 stat.tcp_outbound_total 1 }
count_direction (some e) stat = record stat { tcp_inbound_total = add32 stat.tcp_inbound_total 1 }

abbrev pub copy_totals : NetStat → NetStat
copy_totals stat = record stat {
  all_inbound_total = stat.tcp_inbound_total;
  all_outbound_total = stat.tcp_outbound_total;
}

-- The table of listening addresses never expires, so one reading of the clock does for all.
module _ (now : ℕ) where
  -- Version 4 is preferred: an address of version 6 replaces nothing.
  unfoldable pub listen_address_add : NetConnection → Cache NetAddress → Cache NetAddress
  listen_address_add conn listen =
      let (e, listen', freed) = cache_get now now conn.local_port listen in
      elim e.value [
        | none ↦ set_value conn.local_port (some conn.local_address) listen'
        | some old ↦
            if is_inet6 conn.local_address
            then listen'
            else set_value conn.local_port (some conn.local_address) listen'
      ]

  unfoldable pub net_stat_tcp :
      NetConnection → NetStat × Cache NetAddress → Outcome (NetStat × Cache NetAddress)
  unfolding listen_address_add count_state
  net_stat_tcp conn (stat, listen) = do
    stat' ← count_state conn.state stat
    let (e, listen', freed) = cache_find now now conn.local_port listen
    done (
        if conn.state == tcp_listen
        then (stat', listen_address_add conn listen)
        else (count_direction e stat', listen'))

  unfoldable pub net_stat_walker :
      NetConnection → NetStat × Cache NetAddress → Outcome (NetStat × Cache NetAddress)
  unfolding net_stat_tcp
  net_stat_walker conn s = do
    s' ← (if is_tcp conn.type then net_stat_tcp conn s else done s)
    done (copy_totals s'.0, s'.1)

  unfoldable pub net_stat_walk :
      List NetConnection → NetStat × Cache NetAddress → Outcome (NetStat × Cache NetAddress)
  unfolding net_stat_walker
  net_stat_walk [] s = done s
  net_stat_walk (conn ∷ conns) s = do s' ← net_stat_walker conn s; net_stat_walk conns s'

  abbrev pub open_net_listen : Option (Cache NetAddress) → Cache NetAddress
  open_net_listen none = cache_new 32 now
  open_net_listen (some c) = c

  -- The statistics with the status of the walk.
  unfoldable pub net_stat_get :
      List NetConnection → ℕ → Option (Cache NetAddress) → Outcome (ℕ × NetStat × Cache NetAddress)
  unfolding net_stat_walk
  net_stat_get walk status net_listen = do
    (stat, listen) ← net_stat_walk walk (net_stat_zero, open_net_listen net_listen)
    done (status, stat, listen)

  -- The two searches behind a fresh look at the connections, if there was one.
  unfoldable pub listen_address_found :
      ℕ → Cache NetAddress → Answer (Option NetAddress) × Cache NetAddress
  listen_address_found port listen =
      let (e, listen', freed) = cache_find now now port listen in
      elim e [
        | none ↦ (failed enoent_status, listen')
        | some _ ↦
            let (e', listen'', freed') = cache_get now now port listen' in
            (answer e'.value, listen'')
      ]

  abbrev pub found_in : ℕ → Option (Cache NetAddress) → Bool × Option (Cache NetAddress)
  found_in port none = (false, none)
  found_in port (some c) =
      let (e, c', freed) = cache_find now now port c in
      (elim e [ none ↦ false | some _ ↦ true ], some c')

  unfoldable pub net_listen_address_get :
      List NetConnection
      → ℕ
      → ℕ
      → Option (Cache NetAddress)
      → Outcome (Answer (Option NetAddress) × Option (Cache NetAddress))
  unfolding net_stat_get listen_address_found
  net_listen_address_get walk status port net_listen =
      let (found, net_listen') = found_in port net_listen in
      if found
      then (elim net_listen' [
        | none ↦ fault
        | some c ↦ (let (r, c') = listen_address_found port c in done (r, some c'))
      ])
      else (do
        (st, stat, listen) ← net_stat_get walk status net_listen'
        done (
            if st == 0
            then (let (r, c') = listen_address_found port listen in (r, some c'))
            else (failed st, some listen)))

-- `net_stat_port_walker`.
abbrev pub is_same : Compared → ℕ
is_same same = 1
is_same _ = 0

unfoldable pub net_stat_port_walker : NetAddress → ℕ → NetConnection → NetStat → Outcome NetStat
unfolding count_state
net_stat_port_walker address port conn stat =
    let inbound = record stat {
      all_inbound_total = add32 stat.all_inbound_total 1;
      tcp_inbound_total =
          add32 stat.tcp_inbound_total (is_same (net_address_equals address conn.local_address));
    } in
    let outbound = record stat {
      all_outbound_total = add32 stat.all_outbound_total 1;
      tcp_outbound_total =
          add32 stat.tcp_outbound_total (is_same (net_address_equals address conn.remote_address));
    } in
    if is_tcp conn.type
    then (if conn.local_port == port
        then count_state conn.state inbound
        else if conn.remote_port == port
        then count_state conn.state outbound
        else done stat)
    else done stat

unfoldable pub net_stat_port_walk : NetAddress → ℕ → List NetConnection → NetStat → Outcome NetStat
unfolding net_stat_port_walker
net_stat_port_walk address port [] stat = done stat
net_stat_port_walk address port (conn ∷ conns) stat = do
  stat' ← net_stat_port_walker address port conn stat
  net_stat_port_walk address port conns stat'

unfoldable pub net_stat_port_get : List NetConnection → ℕ → NetAddress → ℕ → Outcome (ℕ × NetStat)
unfolding net_stat_port_walk
net_stat_port_get walk status address port = do
  stat ← net_stat_port_walk address port walk net_stat_zero
  done (status, stat)

unfoldable pub tcp_curr_estab_count : List NetConnection → ℕ → ℕ
tcp_curr_estab_count [] curr_estab = curr_estab
tcp_curr_estab_count (conn ∷ conns) curr_estab = tcp_curr_estab_count conns (
    if conn.state == tcp_established || conn.state == tcp_close_wait
    then curr_estab + 1
    else curr_estab)

-- The status of the walk, and the count.
unfoldable pub tcp_curr_estab : List NetConnection → ℕ → ℕ × ℕ
unfolding tcp_curr_estab_count
tcp_curr_estab walk status = (status, tcp_curr_estab_count walk 0)
