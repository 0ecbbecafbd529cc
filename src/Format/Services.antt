-- ===== src/Format/Services.antt =====
-- `sigar_net_services_name_get`: the name of a service from its port, from the lines of a file that are
-- kept in a table. `fgets` gives the lines, and is a parameter, as is the file that is opened; `sscanf`
-- writes its words into buffers of fixed size, and a longer word is a fault.
use libsigar.Base.{
  ℕ, ◌+◌, ◌-◌, ◌<◌, ◌≤◌, ◌%◌, ◌^◌, Bool, true, ◌||◌, not, Option, none, some, List, [], ◌∷◌, ◌≡◌,
  refl, ◌∙◌, ap, arith, leb, ◌==◌, if◌then◌else◌, length, u32_mod, u64_mod, Bool-cases,
  Option-cases, inl, inr, ==_iff,
}
use libsigar.Text.{Bytes, codes, str_eq, is_space, is_nil, skip_space, strtol}
use libsigar.Outcome.{Answer, answer, failed, Outcome, done, fault, ◌>>=◌}
use libsigar.Cache.{Entry, Cache, cache_new, expired_cache_new, cache_get, cache_find, set_value}
use libsigar.Cache.Valid.{count_limit}
use libsigar.Cache.Shows.{
  seen, present, Shows, holds, cache_new-Shows, cache_find-Shows, cache_get-Opened, set_value-Shows,
  kept-Shows,
}

-- The word that `%s` reads, and the rest.
unfoldable pub scan_word : Bytes → Bytes × Bytes
scan_word [] = ([], [])
scan_word (c ∷ s) = let (w, r) = scan_word s in if is_space c then ([], c ∷ s) else (c ∷ w, r)

-- The `int` that `%d` reads, as the key of a table.
abbrev pub int_key : ℕ → ℕ
int_key v = let n = v % u32_mod in if leb (2 ^ 31) n then u64_mod - u32_mod + n else n

-- The end of `sscanf` from the `/` on.
abbrev pub scan_proto : Bytes → ℕ → Bytes → Outcome (Option (Bytes × ℕ × Bytes))
scan_proto name port [] = done none
scan_proto name port (c ∷ s) =
    let (proto, r) = scan_word (skip_space s) in
    if not (c == b'/') || is_nil proto
    then done none
    else if leb 56 (length proto)
    then fault
    else done (some (name, port, proto))

-- `sscanf(ptr, "%s%d/%s", name, &port, proto)` with its three results, or nothing for fewer.
unfoldable pub scan_service : Bytes → Outcome (Option (Bytes × ℕ × Bytes))
unfolding scan_word skip_space strtol
scan_service ptr =
    let (name, r) = scan_word (skip_space ptr) in
    let number = strtol r in
    if is_nil name
    then done none
    else if leb 256 (length name)
    then fault
    else if not number.converted
    then done none
    else scan_proto name (int_key number.value) number.rest

abbrev pub is_comment : Bytes → Bool
is_comment [] = true
is_comment (c ∷ s) = c == b'#'

abbrev pub of_proto : Bytes → Option (Bytes × ℕ × Bytes) → Option (ℕ × Bytes)
of_proto type none = none
of_proto type (some (name, port, proto)) = if str_eq type proto then some (port, name) else none

-- The port and the name of a line for the protocol `type`.
unfoldable pub service_line : Bytes → Bytes → Outcome (Option (ℕ × Bytes))
unfolding scan_service skip_space
service_line type line =
    let ptr = skip_space line in
    if is_comment ptr then done none else (scan_service ptr >>= λ r. done (of_proto type r))

abbrev pub value_of : Option (Entry Bytes) → Option Bytes
value_of none = none
value_of (some e) = e.value

-- The tables never clean up, so one reading of the clock does for all.
module _ (now : ℕ) where
  -- The first name of a port is kept.
  unfoldable pub add_service : Option (ℕ × Bytes) → Cache Bytes → Cache Bytes
  add_service none names = names
  add_service (some (port, name)) names =
      let (e, names', freed) = cache_get now now port names in
      elim e.value [ none ↦ set_value port (some name) names' | some old ↦ names' ]

  unfoldable pub read_services : Bytes → List Bytes → Cache Bytes → Outcome (Cache Bytes)
  unfolding service_line add_service
  read_services type [] names = done names
  read_services type (line ∷ lines) names =
      service_line type line >>= λ r. read_services type lines (add_service r names)

  -- A file that cannot be opened leaves the table as it is; the status is ignored by the caller.
  unfoldable pub net_services_parse :
      Answer (List Bytes) → Bytes → Cache Bytes → Outcome (Cache Bytes)
  unfolding read_services
  net_services_parse (answer lines) type names = read_services type lines names
  net_services_parse (failed errno) type names = done names

  abbrev pub open_services :
      Answer (List Bytes) → Bytes → Option (Cache Bytes) → Outcome (Cache Bytes)
  open_services file type none = net_services_parse file type (cache_new 1024 now)
  open_services file type (some names) = done names

  -- The name, and the table of the protocol.
  unfoldable pub service_name :
      Answer (List Bytes) → Bytes → Option (Cache Bytes) → ℕ → Outcome (Option Bytes × Cache Bytes)
  unfolding net_services_parse
  service_name file type names port = open_services file type names >>= λ names'.
      let (e, names'', freed) = cache_find now now port names' in done (value_of e, names'')

  -- The tables of both protocols; another protocol has no names.
  unfoldable pub net_services_name_get :
      Answer (List Bytes)
      → ℕ
      → ℕ
      → Option (Cache Bytes) × Option (Cache Bytes)
      → Outcome (Option Bytes × Option (Cache Bytes) × Option (Cache Bytes))
  unfolding service_name
  net_services_name_get file protocol port (tcp, udp) =
      if protocol == 0x10
      then (service_name file (codes "tcp") tcp port >>= λ r. done (r.0, some r.1, udp))
      else if protocol == 0x20
      then (service_name file (codes "udp") udp port >>= λ r. done (r.0, tcp, some r.1))
      else done (none, tcp, udp)

-- The ports and the names of the lines for a protocol, where no line overflows a buffer.
pub data Services (type : Bytes) : List Bytes → List (ℕ × Bytes) → Type 0 where
  no_lines : Services type [] []
  other_line :
      {line : Bytes} {lines : List Bytes} {es : List (ℕ × Bytes)}
      → service_line type line ≡ done none
      → Services type lines es
      → Services type (line ∷ lines) es
  a_line :
      {line : Bytes} {lines : List Bytes} {es : List (ℕ × Bytes)} {port : ℕ} {name : Bytes}
      → service_line type line ≡ done (some (port, name))
      → Services type lines es
      → Services type (line ∷ lines) ((port, name) ∷ es)

-- The first name of a port.
unfoldable pub first_name : List (ℕ × Bytes) → ℕ → Option Bytes
first_name [] q = none
first_name ((port, name) ∷ es) q =
    let rest = first_name es q in if q == port then some name else rest

abbrev or_name : Option Bytes → Option Bytes → Option Bytes
or_name none w = w
or_name (some v) w = some v

view_congr :
    (v w : ℕ → Option Bytes) (c : Cache Bytes) → ((q : ℕ) → v q ≡ w q) → Shows v c → Shows w c
view_congr v w c e h = record {
  valid = h.valid;
  lasting = h.lasting;
  seen_lem = λ q. h.seen_lem q ∙ ap present (e q);
}

-- A service that is added to a map.
abbrev added : ℕ → Bytes → (ℕ → Option Bytes) → ℕ → Option Bytes
added port name view q = or_name (view q) (if q == port then some name else none)

or_name-none : (v : Option Bytes) → v ≡ or_name v none
or_name-none none = refl
or_name-none (some v) = refl

holds-added :
    (port : ℕ) (name v : Bytes) (view : ℕ → Option Bytes)
    → some v ≡ or_name (view port) (some name)
    → (q : ℕ) → holds port v view q ≡ added port name view q
holds-added port name v view e q = elim (Bool-cases (q == port)) [
  | inl here ↦ rw (here, (==_iff q port).0 here) e
  | inr other ↦ rw other (or_name-none (view q))
]

first-added :
    (port : ℕ) (name : Bytes) (es : List (ℕ × Bytes)) (view : ℕ → Option Bytes) (q : ℕ)
    → or_name (added port name view q) (first_name es q)
      ≡ or_name (view q) (first_name ((port, name) ∷ es) q)
unfolding first_name
first-added port name es view q = elim (Option-cases (view q)) [
  | inl nothing ↦
      rw nothing
        (elim (Bool-cases (q == port)) [ inl here ↦ rw here refl | inr other ↦ rw other refl ])
  | inr (v, something) ↦ rw something refl
]

value_of-seen : (e : Option (Entry Bytes)) (v : Option Bytes) → seen e ≡ present v → value_of e ≡ v
value_of-seen none none h = refl
value_of-seen none (some v) h = ground arith
value_of-seen (some e) none h = ground arith
value_of-seen (some e) (some v) h = ground arith

module _ (now : ℕ) where
  add_service-Shows :
      (port : ℕ) (name : Bytes) (view : ℕ → Option Bytes) (c : Cache Bytes)
      → Shows view c
      → c.count + 1 < count_limit
      → Shows (added port name view) (add_service now (some (port, name)) c)
        × ((add_service now (some (port, name)) c).count ≤ c.count + 1)
  unfolding add_service
  add_service-Shows port name view c h few =
      let (value, opened, grown) = cache_get-Opened now port view c h few in
      let c' = (cache_get now now port c).1 in
      let (written, count) = set_value-Shows port name view c' opened in
      elim (Option-cases (view port)) [
        | inl absent ↦
            let same = holds-added port name name view (rw absent refl) in
            rw (add_service, value, absent) (view_congr _ _ _ same written, omega arith)
        | inr (old, there) ↦
            let same = holds-added port name old view (rw there refl) in
            rw (add_service, value, there)
              (view_congr _ _ _ same (kept-Shows port old view c' opened there), grown)
      ]

  -- The table after the lines shows the map before them, and the first name of each port behind it.
  read_services-Shows :
      (type : Bytes) (lines : List Bytes) (es : List (ℕ × Bytes)) (view : ℕ → Option Bytes)
      (c : Cache Bytes)
      → Services type lines es
      → Shows view c
      → c.count + length lines < count_limit
      → (c' : Cache Bytes) × (read_services now type lines c ≡ done c')
        × Shows (λ q. or_name (view q) (first_name es q)) c'
  unfolding read_services first_name
  read_services-Shows type _ _ view c no_lines h few =
      (c, refl, view_congr _ _ c (λ q. or_name-none (view q)) h)
  read_services-Shows type _ _ view c (other_line {lines} {es} e rest) h few =
      let (c', r, shows) = read_services-Shows type lines es view c rest h (omega arith) in
      (c', rw (e, add_service) r, shows)
  read_services-Shows type _ _ view c (a_line {lines} {es} {port} {name} e rest) h few =
      let (h', grown) = add_service-Shows port name view c h (omega arith) in
      let (c', r, shows) =
        read_services-Shows type lines es (added port name view)
          (add_service now (some (port, name)) c) rest h' (omega arith) in
      (c', rw e r, view_congr _ _ c' (λ q. first-added port name es view q) shows)

  opened-Shows :
      (type : Bytes) (lines : List Bytes) (es : List (ℕ × Bytes)) (names : Option (Cache Bytes))
      → Services type lines es
      → length lines + 1 < count_limit
      → ((c : Cache Bytes) → names ≡ some c → Shows (first_name es) c)
      → (c : Cache Bytes) × (open_services now (answer lines) type names ≡ done c)
        × Shows (first_name es) c
  unfolding net_services_parse cache_new expired_cache_new
  opened-Shows type lines es none services few ready =
      read_services-Shows type lines es (λ _. none) (cache_new 1024 now) services
        (cache_new-Shows 1024 now (omega arith)) (omega (arith, few))
  opened-Shows type lines es (some c) services few ready = (c, refl, ready c refl)

  -- The name of a port is the first that the file has for it and the protocol, and the table that is
  -- left gives the same again: it is read from the file when the table is new, or shows the names of
  -- the file, where no line overflows a buffer and there are fewer than 2 ^ 31 - 1 lines.
  pub service_name-first_name :
      (type : Bytes) (lines : List Bytes) (es : List (ℕ × Bytes)) (names : Option (Cache Bytes))
      (port : ℕ)
      → Services type lines es
      → length lines + 1 < count_limit
      → ((c : Cache Bytes) → names ≡ some c → Shows (first_name es) c)
      → (c : Cache Bytes) × (service_name now (answer lines) type names port
          ≡ done (first_name es port, c))
        × Shows (first_name es) c
  unfolding service_name
  service_name-first_name type lines es names port services few ready =
      let (c, opened, shows) = opened-Shows type lines es names services few ready in
      let (found, kept, grown) = cache_find-Shows now port (first_name es) c shows in
      let value = value_of-seen (cache_find now now port c).0 (first_name es port) found in
      ((cache_find now now port c).1, rw (opened, value) refl, kept)
