-- ===== src/Linux/Connections.antt =====
-- `proc_net_read` and `sigar_net_connection_walk`: the connections of /proc/net, handed to a callback.
-- `strtoul` with the base 16 is a parameter.
use libsigar.Base.{
  false, ℕ, ◌+◌, ◌-◌, ◌%◌, ◌^◌, Bool, true, ◌&&◌, ◌||◌, not, List, [], ◌∷◌, ◌++◌, leb, ◌==◌,
  if◌then◌else◌, length, drop, Option, none, some,
}
use libsigar.Outcome.{enoent_status, Answer, answer, failed, Outcome, done, fault, ◌>>=◌}
use libsigar.Text.{Bytes}
use libsigar.Util.Words.{word_until, skip_stop}
use libsigar.Cache.{Cache}
use libsigar.Format.Net.{NetAddress}
use libsigar.Sigar.NetStat.{
  ConnectionType, netconn_tcp, netconn_udp, netconn_raw, NetConnection, NetStat, net_stat_walker,
}
use libsigar.Linux.Read.{strtoul}
use libsigar.Linux.Hex.{hex2int, convert_hex_address, hex_ent_len}

-- The `SIGAR_NETCONN_*` flags of a walk.
pub record Flags : Type 0 where
  pub client : Bool
  pub server : Bool
  pub tcp : Bool
  pub udp : Bool
  pub raw : Bool

-- `SKIP_PAST`.
abbrev pub skip_past : ℕ → Bytes → Bytes
skip_past c p = skip_stop c (word_until c p).1

-- `ptr += n`, in the text.
unfoldable pub advance : ℕ → Bytes → Outcome Bytes
advance n p = if leb n (length p) then done (drop n p) else fault

-- The numbers behind the addresses.
pub record Socket : Type 0 where
  pub state : ℕ
  pub send_queue : ℕ
  pub receive_queue : ℕ
  pub uid : ℕ
  pub inode : ℕ

module _ (strtoul16 : Bytes → ℕ × Bytes) where
  -- What a line begins with: an address with its text, its port, and the rest.
  abbrev pub read_end : Bytes → (Bytes × ℕ) × ℕ × Bytes
  read_end ptr =
      let (addr, p) = word_until b':' ptr in
      let (port, q) = strtoul16 (skip_stop b':' p) in
      ((ptr, length addr), port % 65536, skip_stop b' ' q)

  unfoldable pub read_socket : Bytes → Outcome Socket
  read_socket ptr = do
    state ← hex2int ptr 2
    p ← advance 2 ptr
    send_queue ← hex2int (skip_stop b' ' p) hex_ent_len
    q ← advance (hex_ent_len + 1) (skip_stop b' ' p)
    receive_queue ← hex2int q hex_ent_len
    r ← advance hex_ent_len q
    let (uid, t) = strtoul (skip_past b' ' (skip_past b' ' (skip_stop b' ' r)))
    let (inode, u) = strtoul (skip_past b' ' (skip_stop b' ' t))
    done record {
      state = state;
      send_queue = send_queue;
      receive_queue = receive_queue;
      uid = uid % 2 ^ 32;
      inode = inode;
    }

  -- A line; `none` if the flags leave the connection out.
  unfoldable pub read_connection : ConnectionType → Flags → Bytes → Outcome (Option NetConnection)
  unfolding read_socket
  read_connection type flags line =
      let ((laddr, laddr_len), local_port, p) = read_end (skip_past b' ' (skip_stop b' ' line)) in
      let ((raddr, raddr_len), remote_port, q) = read_end p in
      let found = (do
        local_address ← convert_hex_address laddr laddr_len
        remote_address ← convert_hex_address raddr raddr_len
        n ← read_socket q
        done (
            some record {
              local_port = local_port;
              local_address = local_address;
              remote_port = remote_port;
              remote_address = remote_address;
              type = type;
              state = n.state;
              uid = n.uid;
              inode = n.inode;
              send_queue = n.send_queue;
              receive_queue = n.receive_queue;
            })) in
      if (not (remote_port == 0) && flags.client) || (remote_port == 0 && flags.server)
      then found
      else done none

  module _ {S : Type 0} (add_connection : NetConnection → S → Outcome (Bool × S)) where
    -- What the callback says of a connection: `true` is SIGAR_OK, and another status ends the file.
    abbrev pub offer : Option NetConnection → S → Outcome (Bool × S)
    offer none s = done (true, s)
    offer (some conn) s = add_connection conn s

    unfoldable pub read_lines : ConnectionType → Flags → List Bytes → S → Outcome S
    unfolding read_connection
    read_lines type flags [] s = done s
    read_lines type flags (line ∷ lines) s = do
      found ← read_connection type flags line
      next ← offer found s
      (let rest = read_lines type flags lines next.1 in if next.0 then rest else done next.1)

    -- -1 for a file with no first line.
    unfoldable pub proc_net_read :
        ConnectionType → Flags → Answer (List Bytes) → S → Outcome (ℕ × S)
    unfolding read_lines
    proc_net_read type flags (failed st) s = done (st, s)
    proc_net_read type flags (answer []) s = done (2 ^ 32 - 1, s)
    proc_net_read type flags (answer (first ∷ lines)) s = do
      s' ← read_lines type flags lines s
      done (0, s')

    -- What follows if the status is SIGAR_OK.
    abbrev pub if_ok : Outcome (ℕ × S) → (S → Outcome (ℕ × S)) → Outcome (ℕ × S)
    if_ok x f = do r ← x; (let next = f r.1 in if r.0 == 0 then next else done r)

    abbrev pub may_miss : Outcome (ℕ × S) → Outcome (ℕ × S)
    may_miss x = do r ← x; done (if r.0 == enoent_status then (0, r.1) else r)

    -- The two files of a protocol; that of version 6 may be missing.
    unfoldable pub read_protocol :
        Bool
        → ConnectionType
        → Flags
        → Answer (List Bytes) × Answer (List Bytes)
        → S
        → Outcome (ℕ × S)
    unfolding proc_net_read
    read_protocol wanted type flags (file, file6) s =
        let both =
          if_ok (proc_net_read type flags file s)
            (λ s'. may_miss (proc_net_read type flags file6 s')) in
        if wanted then both else done (0, s)

    -- The protocols one after the other, until a status is not SIGAR_OK.
    unfoldable pub net_connection_walk :
        Flags → (ConnectionType → Answer (List Bytes) × Answer (List Bytes)) → S → Outcome (ℕ × S)
    unfolding read_protocol
    net_connection_walk flags files s =
        if_ok (read_protocol flags.tcp netconn_tcp flags (files netconn_tcp) s) (λ t.
          if_ok (read_protocol flags.udp netconn_udp flags (files netconn_udp) t)
            (λ u. read_protocol flags.raw netconn_raw flags (files netconn_raw) u))

abbrev pub taken : {S : Type 0} → Outcome S → Outcome (Bool × S)
taken z = do s ← z; done (true, s)

-- The callback of `sigar_net_stat_get`, which never ends the walk.
abbrev pub stat_callback :
    ℕ → NetConnection → NetStat × Cache NetAddress → Outcome (Bool × (NetStat × Cache NetAddress))
stat_callback now conn s = taken (net_stat_walker now conn s)

-- `proc_net_walker` with a list, and with a port: the first socket that listens on it ends the file.
unfoldable pub list_callback :
    NetConnection → List NetConnection → Outcome (Bool × List NetConnection)
list_callback conn conns = done (true, conns ++ conn ∷ [])

unfoldable pub port_callback :
    ℕ → NetConnection → Option NetConnection → Outcome (Bool × Option NetConnection)
port_callback port conn found =
    if port == conn.local_port && conn.remote_port == 0
    then done (false, some conn)
    else done (true, found)

-- `sigar_net_connection_list_get`: a walk that fails gives no list.
unfoldable pub net_connection_list_get :
    (Bytes → ℕ × Bytes)
    → Flags
    → (ConnectionType → Answer (List Bytes) × Answer (List Bytes))
    → Outcome (ℕ × List NetConnection)
unfolding net_connection_walk list_callback
net_connection_list_get strtoul16 flags files = do
  r ← net_connection_walk strtoul16 list_callback flags files []
  done (if r.0 == 0 then r else (r.0, []))
