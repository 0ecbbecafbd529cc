-- ===== src/Format/Tests.antt =====
-- The theorems on formats at concrete values.
use libsigar.Base.{
  ℕ, ◌++◌, List, none, replicate, ◌≤◌, [], ◌∷◌, some, ◌≡◌, ◌↔◌, refl, arith, length,
}
use libsigar.Text.{Bytes, codes, str_eq, skip_space, strtol, read_sign, read_digits}
use libsigar.Outcome.{answer, failed, done, fault}
use libsigar.Cache.{Cache}
use libsigar.Cache.Shows.{Shows}
use libsigar.Format.Services.{
  Services, no_lines, other_line, a_line, service_line, scan_service, scan_word, service_name,
  first_name, service_name-first_name,
}
use libsigar.Format.Names.{
  append_flags, net_interface_flags_to_string, ether_ntoa, net_address_to_string,
  net_connection_state_get,
}
use libsigar.Util.Words.{digits_from}
use libsigar.Format.{
  decimal, padded, size_tenths, size_whole, size_from, format_size, uptime_parts, uptime_string,
  byte_text, inet_ntoa,
}
use libsigar.Format.Net.{
  inet6, link, same, net_address_equals, net_address_hash, net_address_equals-same,
}
use libsigar.Format.Size.{format_size-length}

megabytes : format_size 1572864 ≡ some (codes "1.5M")
unfolding format_size size_from size_tenths size_whole decimal padded digits_from
megabytes = refl

up : uptime_string 93784 ≡ codes "1 day,  2:03"
unfolding uptime_string uptime_parts decimal padded digits_from
up = refl

dotted : inet_ntoa 192 168 0 1 ≡ codes "192.168.0.1"
unfolding inet_ntoa byte_text
dotted = refl

format_size-length_example : (s : Bytes) × (format_size 1572864 ≡ some s) × (length s ≤ 4)
format_size-length_example = format_size-length 1572864 (omega arith)

net_address_equals-same_example :
    ((net_address_equals (inet6 (1 ∷ 2 ∷ [])) (inet6 (1 ∷ 2 ∷ [])) ≡ same)
      ↔ (inet6 (1 ∷ 2 ∷ []) ≡ inet6 (1 ∷ 2 ∷ [])))
    × (net_address_equals (inet6 (1 ∷ 2 ∷ [])) (inet6 (1 ∷ 2 ∷ [])) ≡ same
        → net_address_hash (inet6 (1 ∷ 2 ∷ [])) ≡ net_address_hash (inet6 (1 ∷ 2 ∷ [])))
net_address_equals-same_example =
    net_address_equals-same (inet6 (1 ∷ 2 ∷ [])) (inet6 (1 ∷ 2 ∷ [])) tt

-- A file with a comment, a service of another protocol, and two names for a port.
abbrev a_file : List Bytes
a_file = codes "# services" ∷ codes "http 80/tcp" ∷ codes "domain 53/udp" ∷ codes "www  80/tcp" ∷ []

abbrev both_names : List (ℕ × Bytes)
both_names = (80, codes "http") ∷ (80, codes "www") ∷ []

a_file-Services : Services (codes "tcp") a_file both_names
unfolding service_line scan_service scan_word skip_space strtol read_sign read_digits str_eq
a_file-Services = other_line refl (a_line refl (other_line refl (a_line refl no_lines)))

not_there : {A : Type 0} (P : Type 0) (c : A) → none ≡ some c → P
not_there P c h = ground arith

service_name-first_name_example :
    (c : Cache Bytes) × (service_name 5 (answer a_file) (codes "tcp") none 80
      ≡ done (first_name both_names 80, c))
    × Shows (first_name both_names) c
service_name-first_name_example =
    service_name-first_name 5 (codes "tcp") a_file both_names none 80 a_file-Services (omega arith)
      (λ c h. not_there _ c h)

first_of_two : first_name both_names 80 ≡ some (codes "http")
unfolding first_name
first_of_two = refl

-- A name of 256 bytes overflows its buffer.
long_name : service_line (codes "tcp") (replicate 256 b'a' ++ codes " 80/tcp") ≡ fault
unfolding service_line scan_service scan_word skip_space
long_name = refl

two_flags : net_interface_flags_to_string 0x41 ≡ codes "UP RUNNING "
unfolding net_interface_flags_to_string append_flags
two_flags = refl

a_link :
    net_address_to_string (λ bs. failed 28) (link (0 ∷ 22 ∷ 62 ∷ 171 ∷ 5 ∷ 255 ∷ 0 ∷ 0 ∷ []))
    ≡ (0, codes "00:16:3E:AB:05:FF")
unfolding net_address_to_string ether_ntoa
a_link = refl

last_state : net_connection_state_get 13 ≡ codes "BOUND"
unfolding net_connection_state_get
last_state = refl
