-- ===== src/Sigar/ListTests.antt =====
-- The theorems on growing lists and on the choice of an interface at concrete values.
use libsigar.Base.{[], ◌∷◌, ◌≡◌, arith, if◌then◌else◌, ◌==◌, refl}
use libsigar.Text.{Bytes, codes, str_eq}
use libsigar.Sigar.Primary.{
  IfConfig, no_config, primary_from, first_connected, first_flagged, chosen, save, is_alias,
  primary_from-chosen,
}
use libsigar.Outcome.{Answer, answer, failed, done}
use libsigar.Sigar.NetStat.{NetConnection, netconn_tcp}
use libsigar.Format.Net.{inet}
use libsigar.Sigar.Growing.{Growing}
use libsigar.Sigar.Filled.{IsFilled}
use libsigar.Sigar.Listed.{walk_list_get, walk_list_get-IsFilled}

abbrev a_connection : NetConnection
a_connection = record {
  local_port = 80;
  local_address = inet 1;
  remote_port = 4000;
  remote_address = inet 2;
  type = netconn_tcp;
  state = 1;
  uid = 0;
  inode = 7;
  send_queue = 0;
  receive_queue = 0;
}

walk_list_get-IsFilled_example :
    (connlist : Growing NetConnection) × (walk_list_get (a_connection ∷ []) 0 ≡ done (0, connlist))
    × IsFilled (if 0 == 0 then a_connection ∷ [] else []) connlist
walk_list_get-IsFilled_example = walk_list_get-IsFilled (a_connection ∷ []) 0 (omega arith)

-- The machine itself, an interface without an address, and an alias.
abbrev three_configs : Bytes → Answer IfConfig
three_configs name =
    if str_eq name (codes "lo")
    then answer (record { flags = 0x9; hwaddr = 0; address = 1 })
    else if str_eq name (codes "eth0")
    then answer (record { flags = 0x1; hwaddr = 5; address = 0 })
    else if str_eq name (codes "eth1:1")
    then answer (record { flags = 0x1; hwaddr = 6; address = 7 })
    else failed 19

primary_from-chosen_example :
    primary_from three_configs (codes "lo" ∷ codes "eth0" ∷ codes "eth1:1" ∷ []) no_config
    ≡ chosen (first_connected three_configs (codes "lo" ∷ codes "eth0" ∷ codes "eth1:1" ∷ [])) (
        save no_config
          (first_flagged three_configs (codes "lo" ∷ codes "eth0" ∷ codes "eth1:1" ∷ [])))
primary_from-chosen_example =
    primary_from-chosen three_configs (codes "lo" ∷ codes "eth0" ∷ codes "eth1:1" ∷ []) no_config

eth0_is_saved :
    primary_from three_configs (codes "lo" ∷ codes "eth0" ∷ codes "eth1:1" ∷ []) no_config
    ≡ answer (record { flags = 0x1; hwaddr = 5; address = 0 })
unfolding primary_from is_alias str_eq
eth0_is_saved = refl
