-- ===== src/Linux/NetLines.antt =====
-- What is read back from the lines of /proc/net/dev.
use libsigar.Base.{
  ℕ, Option, none, some, List, [], ◌∷◌, ◌++◌, ◌≡◌, refl, ◌∙◌, ap, arith, Bool-cases, inl, inr,
}
use libsigar.Text.{Bytes, str_eq, str_eq_self, split_at, split_at-append, Lacks}
use libsigar.Outcome.{answer}
use libsigar.Util.Words.{skip_spaces, skip_multiple_token}
use libsigar.Linux.Read.{Numeral, IsWord}
use libsigar.Linux.Columns.{
  indent, columns, skip_spaces-indent, skip_token-columns, strtoul-columns,
}
use libsigar.Linux.Net.{
  IfStat, skip_file_lines, dev_of, match_dev, read_interface, find_interface,
  net_interface_stat_get,
}

-- A line of an interface: the blanks in front of its name, and each field with the blanks that it has
-- in front of it beside the first; the two fields that are skipped are words, and `rest` follows.
pub record DevLine : Type 0 where
  pub margin : ℕ
  pub name : Bytes
  pub rx_bytes : ℕ × Numeral
  pub rx_packets : ℕ × Numeral
  pub rx_errors : ℕ × Numeral
  pub rx_dropped : ℕ × Numeral
  pub rx_overruns : ℕ × Numeral
  pub rx_frame : ℕ × Numeral
  pub compressed : ℕ × Bytes
  pub multicast : ℕ × Bytes
  pub tx_bytes : ℕ × Numeral
  pub tx_packets : ℕ × Numeral
  pub tx_errors : ℕ × Numeral
  pub tx_dropped : ℕ × Numeral
  pub tx_overruns : ℕ × Numeral
  pub tx_collisions : ℕ × Numeral
  pub tx_carrier : ℕ × Numeral
  pub rest : List (ℕ × Bytes)

abbrev pub column : ℕ × Numeral → ℕ × Bytes
column (k, n) = (k, n.text)

abbrev pub dev_columns : DevLine → List (ℕ × Bytes)
dev_columns l =
    column l.rx_bytes
    ∷ column l.rx_packets
    ∷ column l.rx_errors
    ∷ column l.rx_dropped
    ∷ column l.rx_overruns
    ∷ column l.rx_frame
    ∷ l.compressed
    ∷ l.multicast
    ∷ column l.tx_bytes
    ∷ column l.tx_packets
    ∷ column l.tx_errors
    ∷ column l.tx_dropped
    ∷ column l.tx_overruns
    ∷ column l.tx_collisions
    ∷ column l.tx_carrier
    ∷ l.rest

-- The line as the kernel writes it, with a colon behind the name.
unfoldable pub interface_line : DevLine → Bytes
interface_line l = indent l.margin (l.name ++ b':' ∷ columns (dev_columns l))

-- Each number in the field of its name.
abbrev pub stat_of : DevLine → ℕ → IfStat
stat_of l speed = record {
  rx_bytes = l.rx_bytes.1.value;
  rx_packets = l.rx_packets.1.value;
  rx_errors = l.rx_errors.1.value;
  rx_dropped = l.rx_dropped.1.value;
  rx_overruns = l.rx_overruns.1.value;
  rx_frame = l.rx_frame.1.value;
  tx_bytes = l.tx_bytes.1.value;
  tx_packets = l.tx_packets.1.value;
  tx_errors = l.tx_errors.1.value;
  tx_dropped = l.tx_dropped.1.value;
  tx_overruns = l.tx_overruns.1.value;
  tx_collisions = l.tx_collisions.1.value;
  tx_carrier = l.tx_carrier.1.value;
  speed = speed;
}

dev_of-indent :
    (k : ℕ) (name fields : Bytes)
    → IsWord name
    → Lacks b':' name
    → dev_of (indent k (name ++ b':' ∷ fields)) ≡ some (name, fields)
unfolding skip_spaces
dev_of-indent k [] fields w h = absurd w
dev_of-indent k (c ∷ name) fields (wc, w) h =
    ap (split_at b':') (skip_spaces-indent k ((c ∷ name) ++ b':' ∷ fields))
    ∙ rw wc (split_at-append b':' (c ∷ name) fields h)

-- A line that does not end the search passes on what comes after.
match_dev-none :
    (name : Bytes) (o : Option (Bytes × Bytes)) (after after' : Option Bytes)
    → match_dev name o after ≡ none
    → (match_dev name o after' ≡ after') × (after ≡ none)
match_dev-none name none after after' h = (refl, h)
match_dev-none name (some (dev, ptr)) after after' h = elim (Bool-cases (str_eq dev name)) [
  | inl same ↦ let impossible : some ptr ≡ none = rw same at h in ground arith
  | inr other ↦ rw other (refl, rw other at h)
]

find_interface-append :
    (name : Bytes) (others lines : List Bytes) (line ptr : Bytes)
    → dev_of line ≡ some (name, ptr)
    → find_interface name others ≡ none
    → find_interface name (others ++ line ∷ lines) ≡ some ptr
unfolding find_interface
find_interface-append name [] lines line ptr h e =
    ap (λ o. match_dev name o (find_interface name lines)) h ∙ rw (str_eq_self name) refl
find_interface-append name (other ∷ others) lines line ptr h e =
    let (passed, rest) =
      match_dev-none name (dev_of other) (find_interface name others)
        (find_interface name (others ++ line ∷ lines)) e in
    passed ∙ find_interface-append name others lines line ptr h rest

read_interface-columns :
    (l : DevLine) (speed : ℕ)
    → IsWord l.compressed.1
    → IsWord l.multicast.1
    → read_interface (columns (dev_columns l)) speed ≡ stat_of l speed
unfolding read_interface skip_multiple_token
read_interface-columns l speed wc wm =
    let number = λ (f : ℕ × Numeral) (cs : List (ℕ × Bytes)). strtoul-columns f.0 f.1 cs in
    rw
      (
        number l.rx_bytes _,
        number l.rx_packets _,
        number l.rx_errors _,
        number l.rx_dropped _,
        number l.rx_overruns _,
        number l.rx_frame _,
        skip_token-columns l.compressed.0 l.compressed.1 _ wc,
        skip_token-columns l.multicast.0 l.multicast.1 _ wm,
        number l.tx_bytes _,
        number l.tx_packets _,
        number l.tx_errors _,
        number l.tx_dropped _,
        number l.tx_overruns _,
        number l.tx_collisions _,
        number l.tx_carrier _,
      )
      refl

-- The counters of an interface are, field by field, the numbers of its line, the first for its name
-- behind the two lines of the header: six numbers, two words that are left out, and seven numbers,
-- whatever follows them. Any number of blanks may stand in front of the name, and any number from one
-- on in front of each field. The name is a word without a colon, and each number is digits, below 2 ^
-- 64.
pub net_interface_stat_get-interface_line :
    (header header' : Bytes) (others lines : List Bytes) (l : DevLine) (speed : ℕ) (ifstat : IfStat)
    → IsWord l.name
    → Lacks b':' l.name
    → IsWord l.compressed.1
    → IsWord l.multicast.1
    → find_interface l.name others ≡ none
    → net_interface_stat_get
        (answer (header ∷ header' ∷ others ++ interface_line l ∷ lines))
        speed
        l.name
        ifstat
      ≡ (0, stat_of l speed)
unfolding net_interface_stat_get skip_file_lines interface_line
net_interface_stat_get-interface_line header header' others lines l speed ifstat w h wc wm e =
    let fields = columns (dev_columns l) in
    rw
      (
        net_interface_stat_get,
        find_interface-append l.name others lines (interface_line l) fields
            (dev_of-indent l.margin l.name fields w h) e,
      )
      (ap (λ s. (0, s)) (read_interface-columns l speed wc wm))
