-- ===== src/Linux/Net.antt =====
-- What Linux tells of the network in the lines of a file: the counters of an interface and of TCP,
-- and the names of the interfaces. A file is its lines, or a status.
use libsigar.Base.{
  ℕ, zero, suc, Bool, false, ◌||◌, Option, none, some, List, [], ◌∷◌, ◌++◌, if◌then◌else◌, length,
  take,
}
use libsigar.Text.{Bytes, codes, str_eq, split_at}
use libsigar.Outcome.{Answer, answer, failed, enoent_status}
use libsigar.Util.Words.{skip_spaces, skip_multiple_token}
use libsigar.Linux.Read.{strtoul}

-- -1, and `ENXIO`.
abbrev pub failed_status : ℕ
failed_status = 0xffffffff

abbrev pub enxio_status : ℕ
enxio_status = 6

-- `sigar_skip_file_lines`: what is left behind `count` lines, if there are as many.
unfoldable pub skip_file_lines : ℕ → List Bytes → Option (List Bytes)
skip_file_lines zero lines = some lines
skip_file_lines (suc count) [] = none
skip_file_lines (suc count) (line ∷ lines) = skip_file_lines count lines

-- The name of an interface in a line, and the rest behind the colon.
abbrev pub dev_of : Bytes → Option (Bytes × Bytes)
dev_of buffer = split_at b':' (skip_spaces buffer)

-- `sigar_net_interface_stat_t`.
pub record IfStat : Type 0 where
  pub rx_bytes : ℕ
  pub rx_packets : ℕ
  pub rx_errors : ℕ
  pub rx_dropped : ℕ
  pub rx_overruns : ℕ
  pub rx_frame : ℕ
  pub tx_bytes : ℕ
  pub tx_packets : ℕ
  pub tx_errors : ℕ
  pub tx_dropped : ℕ
  pub tx_overruns : ℕ
  pub tx_collisions : ℕ
  pub tx_carrier : ℕ
  pub speed : ℕ

-- The fields of an interface, with two words left out between those received and those sent.
unfoldable pub read_interface : Bytes → ℕ → IfStat
read_interface ptr speed =
    let (rx_bytes, p1) = strtoul ptr in
    let (rx_packets, p2) = strtoul p1 in
    let (rx_errors, p3) = strtoul p2 in
    let (rx_dropped, p4) = strtoul p3 in
    let (rx_overruns, p5) = strtoul p4 in
    let (rx_frame, p6) = strtoul p5 in
    let (tx_bytes, p7) = strtoul (skip_multiple_token p6 2) in
    let (tx_packets, p8) = strtoul p7 in
    let (tx_errors, p9) = strtoul p8 in
    let (tx_dropped, p10) = strtoul p9 in
    let (tx_overruns, p11) = strtoul p10 in
    let (tx_collisions, p12) = strtoul p11 in
    let (tx_carrier, p13) = strtoul p12 in
    record {
      rx_bytes = rx_bytes;
      rx_packets = rx_packets;
      rx_errors = rx_errors;
      rx_dropped = rx_dropped;
      rx_overruns = rx_overruns;
      rx_frame = rx_frame;
      tx_bytes = tx_bytes;
      tx_packets = tx_packets;
      tx_errors = tx_errors;
      tx_dropped = tx_dropped;
      tx_overruns = tx_overruns;
      tx_collisions = tx_collisions;
      tx_carrier = tx_carrier;
      speed = speed;
    }

-- The rest of a line that names the interface, or what comes after.
abbrev pub match_dev : Bytes → Option (Bytes × Bytes) → Option Bytes → Option Bytes
match_dev name none after = after
match_dev name (some (dev, ptr)) after = if str_eq dev name then some ptr else after

-- The first line of the interface.
unfoldable pub find_interface : Bytes → List Bytes → Option Bytes
find_interface name [] = none
find_interface name (buffer ∷ lines) = match_dev name (dev_of buffer) (find_interface name lines)

-- The status and the counters; `speed` is what `nic_speed_get` finds.
unfoldable pub net_interface_stat_get : Answer (List Bytes) → ℕ → Bytes → IfStat → ℕ × IfStat
net_interface_stat_get (failed errno) speed name ifstat = (errno, ifstat)
net_interface_stat_get (answer file) speed name ifstat = elim (skip_file_lines 2 file) [
  | none ↦ (failed_status, ifstat)
  | some lines ↦ (elim (find_interface name lines) [
    | none ↦ (enxio_status, ifstat)
    | some ptr ↦ (0, read_interface ptr speed)
  ])
]

-- `has_interface`.
unfoldable pub has_interface : List Bytes → Bytes → Bool
has_interface [] name = false
has_interface (dev ∷ devs) name = str_eq name dev || has_interface devs name

-- A name that is not there yet is appended.
abbrev pub add_dev : Option (Bytes × Bytes) → List Bytes → List Bytes
add_dev none devs = devs
add_dev (some (dev, ptr)) devs = if has_interface devs dev then devs else devs ++ dev ∷ []

-- The loop of `proc_net_interface_list_get`.
unfoldable pub add_interfaces : List Bytes → List Bytes → List Bytes
add_interfaces devs [] = devs
add_interfaces devs (buffer ∷ lines) = add_interfaces (add_dev (dev_of buffer) devs) lines

unfoldable pub proc_net_interface_list_get : Answer (List Bytes) → List Bytes → ℕ × List Bytes
proc_net_interface_list_get (failed errno) devs = (errno, devs)
proc_net_interface_list_get (answer file) devs = elim (skip_file_lines 2 file) [
  | none ↦ (failed_status, devs)
  | some lines ↦ (0, add_interfaces devs lines)
]

-- The first line that begins with a text, and the one behind it.
unfoldable pub line_starting : Bytes → List Bytes → Option (Bytes × List Bytes)
line_starting tok [] = none
line_starting tok (buffer ∷ lines) =
    let rest = line_starting tok lines in
    if str_eq (take (length tok) buffer) tok then some (buffer, lines) else rest

-- `SIGAR_ENOENT` if the line of the values is not there; a first line with no second one ends the loop.
abbrev pub tcp_line : List Bytes → Option Bytes
tcp_line file = elim (line_starting (codes "Tcp: ") file) [
  | none ↦ none
  | some (header, []) ↦ none
  | some (header, values ∷ lines) ↦ some values
]

-- `sigar_tcp_t`.
pub record Tcp : Type 0 where
  pub active_opens : ℕ
  pub passive_opens : ℕ
  pub attempt_fails : ℕ
  pub estab_resets : ℕ
  pub curr_estab : ℕ
  pub in_segs : ℕ
  pub out_segs : ℕ
  pub retrans_segs : ℕ
  pub in_errs : ℕ
  pub out_rsts : ℕ

-- The fields behind five words.
unfoldable pub read_tcp : Bytes → Tcp
read_tcp ptr =
    let (active_opens, p1) = strtoul (skip_multiple_token ptr 5) in
    let (passive_opens, p2) = strtoul p1 in
    let (attempt_fails, p3) = strtoul p2 in
    let (estab_resets, p4) = strtoul p3 in
    let (curr_estab, p5) = strtoul p4 in
    let (in_segs, p6) = strtoul p5 in
    let (out_segs, p7) = strtoul p6 in
    let (retrans_segs, p8) = strtoul p7 in
    let (in_errs, p9) = strtoul p8 in
    let (out_rsts, end) = strtoul p9 in
    record {
      active_opens = active_opens;
      passive_opens = passive_opens;
      attempt_fails = attempt_fails;
      estab_resets = estab_resets;
      curr_estab = curr_estab;
      in_segs = in_segs;
      out_segs = out_segs;
      retrans_segs = retrans_segs;
      in_errs = in_errs;
      out_rsts = out_rsts;
    }

unfoldable pub tcp_get : Answer (List Bytes) → Tcp → ℕ × Tcp
unfolding read_tcp
tcp_get (failed errno) tcp = (errno, tcp)
tcp_get (answer file) tcp = elim (tcp_line file) [
  | none ↦ (enoent_status, tcp)
  | some ptr ↦ (0, read_tcp ptr)
]
