-- ===== src/Linux/NetTests.antt =====
-- The theorems on the lines of the network at concrete values.
use libsigar.Base.{◌≤◌, ◌||◌, List, [], ◌∷◌, ◌≡◌, refl, arith, none}
use libsigar.Text.{Bytes, codes, read_digits, split_at, str_eq}
use libsigar.Outcome.{answer, failed}
use libsigar.Util.Words.{skip_spaces}
use libsigar.Linux.Read.{Numeral}
use libsigar.Linux.Net.{
  IfStat, find_interface, net_interface_stat_get, has_interface, add_interfaces, Tcp, tcp_get,
}
use libsigar.Linux.NetLines.{
  DevLine, stat_of, interface_line, net_interface_stat_get-interface_line,
}
use libsigar.Linux.Devices.{occurs, named, add_interfaces-named}

forty_two : Numeral
unfolding read_digits
forty_two = record { value = 42; text = codes "42"; more = 1; reads = refl; fits = omega arith }

seven : Numeral
unfolding read_digits
seven = record { value = 7; text = codes "7"; more = 0; reads = refl; fits = omega arith }

abbrev nothing_read : IfStat
nothing_read = record {
  rx_bytes = 0;
  rx_packets = 0;
  rx_errors = 0;
  rx_dropped = 0;
  rx_overruns = 0;
  rx_frame = 0;
  tx_bytes = 0;
  tx_packets = 0;
  tx_errors = 0;
  tx_dropped = 0;
  tx_overruns = 0;
  tx_collisions = 0;
  tx_carrier = 0;
  speed = 0;
}

-- A line with columns of several widths, and numbers of its own in the first and the last of them.
abbrev eth_line : DevLine
eth_line = record {
  margin = 2;
  name = codes "eth0";
  rx_bytes = (0, seven);
  rx_packets = (3, forty_two);
  rx_errors = (1, forty_two);
  rx_dropped = (4, forty_two);
  rx_overruns = (2, forty_two);
  rx_frame = (0, forty_two);
  compressed = (10, codes "0");
  multicast = (9, codes "0");
  tx_bytes = (0, forty_two);
  tx_packets = (3, forty_two);
  tx_errors = (1, forty_two);
  tx_dropped = (4, forty_two);
  tx_overruns = (2, forty_two);
  tx_collisions = (0, forty_two);
  tx_carrier = (3, seven);
  rest = (0, codes "0\n") ∷ [];
}

lo_is_other : find_interface (codes "eth0") (codes "    lo: 1 2" ∷ []) ≡ none
unfolding find_interface split_at skip_spaces str_eq
lo_is_other = refl

net_interface_stat_get-interface_line_example :
    net_interface_stat_get
      (answer (codes "Inter" ∷ codes "face" ∷ codes "    lo: 1 2" ∷ interface_line eth_line ∷ []))
      100
      (codes "eth0")
      nothing_read
    ≡ (0, stat_of eth_line 100)
net_interface_stat_get-interface_line_example =
    net_interface_stat_get-interface_line (codes "Inter") (codes "face") (codes "    lo: 1 2" ∷ [])
      [] eth_line 100 nothing_read (ground arith) (ground arith) (ground arith) (ground arith)
      lo_is_other

abbrev dev_lines : List Bytes
dev_lines = codes "  lo: 1" ∷ codes "eth0:2" ∷ codes "none" ∷ codes "eth0:3" ∷ []

add_interfaces-named_example :
    (has_interface (add_interfaces (codes "lo" ∷ []) dev_lines) (codes "eth0")
      ≡ (has_interface (codes "lo" ∷ []) (codes "eth0") || named dev_lines (codes "eth0")))
    × (occurs (codes "lo" ∷ []) (codes "eth0") ≤ 1
        → occurs (add_interfaces (codes "lo" ∷ []) dev_lines) (codes "eth0") ≤ 1)
add_interfaces-named_example = add_interfaces-named (codes "lo" ∷ []) dev_lines (codes "eth0")

eth_is_added : add_interfaces (codes "lo" ∷ []) dev_lines ≡ codes "lo" ∷ codes "eth0" ∷ []
unfolding add_interfaces has_interface split_at skip_spaces str_eq
eth_is_added = refl

abbrev no_tcp : Tcp
no_tcp = record {
  active_opens = 0;
  passive_opens = 0;
  attempt_fails = 0;
  estab_resets = 0;
  curr_estab = 0;
  in_segs = 0;
  out_segs = 0;
  retrans_segs = 0;
  in_errs = 0;
  out_rsts = 0;
}

no_snmp : tcp_get (failed 13) no_tcp ≡ (13, no_tcp)
unfolding tcp_get
no_snmp = refl
