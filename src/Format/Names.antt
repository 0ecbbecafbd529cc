-- ===== src/Format/Names.antt =====
-- Names in src/sigar_format.c: of errors, users and groups, addresses, scopes, types and states of
-- connections, and flags of interfaces. What the C library and the system answer is a parameter.
use Prim.Native.Nat.{bit_and}
use libsigar.Base.{
  ℕ, ◌+◌, ◌-◌, ◌*◌, ◌/◌, ◌%◌, Option, none, some, List, [], ◌∷◌, ◌++◌, ltb, ◌==◌, if◌then◌else◌,
  take, get_elem?, leb,
}
use libsigar.Text.{Bytes, codes}
use libsigar.Outcome.{Answer, answer, failed, enoent_status}
use libsigar.Format.{inet_ntoa}
use libsigar.Format.Net.{NetAddress, unspec, inet, inet6, link}

-- `SIGAR_STRNCPY`: what fits before the terminating zero.
abbrev pub strncpy_text : Bytes → ℕ → Bytes
strncpy_text src len = take (len - 1) src

-- `sigar_user_name_get` with `getpwuid_r`: a status, or an entry if there is one. The status and the
-- buffer are returned.
unfoldable pub user_name_get : Answer (Option Bytes) → ℕ → Bytes → ℕ × Bytes
user_name_get (failed errno) buflen buf = (errno, buf)
user_name_get (answer none) buflen buf = (enoent_status, buf)
user_name_get (answer (some pw_name)) buflen buf = (0, strncpy_text pw_name buflen)

-- `sigar_group_name_get` with `getgrgid_r`: a group with no entry has its number, which `print` prints.
unfoldable pub group_name_get : (ℕ → Bytes) → Answer (Option Bytes) → ℕ → ℕ → Bytes → ℕ × Bytes
group_name_get print (failed errno) gid buflen buf = (errno, buf)
group_name_get print (answer none) gid buflen buf = (0, strncpy_text (print gid) buflen)
group_name_get print (answer (some gr_name)) gid buflen buf = (0, strncpy_text gr_name buflen)

abbrev pub start_error : ℕ
start_error = 20000

abbrev pub enotimpl_status : ℕ
enotimpl_status = start_error + 1

abbrev pub os_start_error : ℕ
os_start_error = start_error * 2

unfoldable pub error_string : ℕ → Bytes
error_string err =
    if err == enotimpl_status
    then codes "This function has not been implemented on this platform"
    else codes "Error string not specified yet"

-- `sizeof(sigar->errbuf)`.
abbrev pub errbuf_size : ℕ
errbuf_size = 256

-- `sigar_strerror_get`: a text of the C library goes into the buffer.
unfoldable pub strerror_get : (ℕ → Option Bytes) → ℕ → Bytes → ℕ → Bytes
strerror_get strerror err errbuf buflen = elim (strerror err) [
  | none ↦ errbuf
  | some buf ↦ strncpy_text buf buflen
]

-- The text of an error and the buffer of the handle. `err` is negative from 2 ^ 31 on, as an `int`.
unfoldable pub strerror_text : (ℕ → Option Bytes) → (ℕ → Option Bytes) → ℕ → Bytes → Bytes × Bytes
unfolding error_string strerror_get
strerror_text strerror os_error_string err errbuf =
    let buf = strerror_get strerror err errbuf errbuf_size in
    if leb 0x80000000 err
    then (errbuf, errbuf)
    else if ltb os_start_error err
    then (elim (os_error_string err) [
      | some text ↦ (text, errbuf)
      | none ↦ (codes "Unknown OS Error", errbuf)
    ])
    else if ltb start_error err
    then (error_string err, errbuf)
    else (buf, buf)

unfoldable pub strerror_set : Bytes → Bytes
strerror_set msg = strncpy_text msg errbuf_size

-- `%02X`.
abbrev pub hex_digit : ℕ → ℕ
hex_digit d = if ltb d 10 then b'0' + d else b'A' + (d - 10)

abbrev pub hex_byte : ℕ → Bytes
hex_byte b = hex_digit (b / 16 % 16) ∷ hex_digit (b % 16) ∷ []

-- The bytes with colons between them.
unfoldable pub ether_ntoa : Bytes → Bytes
ether_ntoa [] = []
ether_ntoa (b ∷ []) = hex_byte b
ether_ntoa (b ∷ c ∷ bs) = hex_byte b ++ b':' ∷ ether_ntoa (c ∷ bs)

-- The bytes of a word, the lowest first, as on a little-endian machine.
abbrev pub word_text : ℕ → Bytes
word_text a = inet_ntoa (a % 256) (a / 256 % 256) (a / 65536 % 256) (a / 16777216 % 256)

-- The status and the text; `inet_ntop` is a parameter. An address of the link has at least 6 bytes.
unfoldable pub net_address_to_string : (Bytes → Answer Bytes) → NetAddress → ℕ × Bytes
unfolding ether_ntoa inet_ntoa
net_address_to_string inet_ntop (inet6 bs) = elim (inet_ntop bs) [
  | answer text ↦ (0, text)
  | failed errno ↦ (errno, [])
]
net_address_to_string inet_ntop (inet a) = (0, word_text a)
net_address_to_string inet_ntop (unspec a) = (0, word_text 0)
net_address_to_string inet_ntop (link bs) = (0, ether_ntoa (take 6 bs))

unfoldable pub net_scope_to_string : ℕ → Bytes
net_scope_to_string type =
    if type == 0
    then codes "Global"
    else if type == 0x10
    then codes "Host"
    else if type == 0x20
    then codes "Link"
    else if type == 0x40
    then codes "Site"
    else if type == 0x80
    then codes "Compat"
    else codes "Unknown"

unfoldable pub net_connection_type_get : ℕ → Bytes
net_connection_type_get type =
    if type == 0x10
    then codes "tcp"
    else if type == 0x20
    then codes "udp"
    else if type == 0x40
    then codes "raw"
    else if type == 0x80
    then codes "unix"
    else codes "unknown"

-- The states from `SIGAR_TCP_ESTABLISHED`, 1, on.
abbrev pub state_names : List Bytes
state_names =
    codes "ESTABLISHED"
    ∷ codes "SYN_SENT"
    ∷ codes "SYN_RECV"
    ∷ codes "FIN_WAIT1"
    ∷ codes "FIN_WAIT2"
    ∷ codes "TIME_WAIT"
    ∷ codes "CLOSE"
    ∷ codes "CLOSE_WAIT"
    ∷ codes "LAST_ACK"
    ∷ codes "LISTEN"
    ∷ codes "CLOSING"
    ∷ codes "IDLE"
    ∷ codes "BOUND"
    ∷ []

unfoldable pub net_connection_state_get : ℕ → Bytes
net_connection_state_get state =
    let known : Bytes = elim (get_elem? state_names (state - 1)) [
      | some name ↦ name
      | none ↦ codes "UNKNOWN"
    ] in
    if state == 0 then codes "UNKNOWN" else known

-- `SIGAR_IFF_*` and the text of each.
abbrev pub interface_flags : List (ℕ × Bytes)
interface_flags =
    (0x1, codes "UP ")
    ∷ (0x2, codes "BROADCAST ")
    ∷ (0x4, codes "DEBUG ")
    ∷ (0x8, codes "LOOPBACK ")
    ∷ (0x10, codes "POINTOPOINT ")
    ∷ (0x20, codes "NOTRAILERS ")
    ∷ (0x40, codes "RUNNING ")
    ∷ (0x80, codes "NOARP ")
    ∷ (0x100, codes "PROMISC ")
    ∷ (0x200, codes "ALLMULTI ")
    ∷ (0x800, codes "MULTICAST ")
    ∷ (0x1000, codes "SLAVE ")
    ∷ (0x2000, codes "MASTER ")
    ∷ (0x4000, codes "DYNAMIC ")
    ∷ []

-- The conditions in their order, each of which appends its text.
unfoldable pub append_flags : ℕ → List (ℕ × Bytes) → Bytes → Bytes
append_flags flags [] buf = buf
append_flags flags ((mask, text) ∷ table) buf =
    append_flags flags table (if bit_and flags mask == 0 then buf else buf ++ text)

unfoldable pub net_interface_flags_to_string : ℕ → Bytes
unfolding append_flags
net_interface_flags_to_string flags =
    append_flags flags interface_flags (if flags == 0 then codes "[NO FLAGS] " else [])
