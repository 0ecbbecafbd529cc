-- ===== src/Format/Size.antt =====
-- A size is printed in at most four bytes, and an up-time is taken apart without loss.
use libsigar.Base.{
  ℕ, zero, suc, ◌+◌, ◌*◌, ◌/◌, ◌%◌, ◌^◌, ◌<◌, ◌≤◌, true, ◌&&◌, ◌||◌, [], ◌∷◌, ◌++◌, some, ltb, leb,
  ◌==◌, ◌≡◌, refl, arith, if◌then◌else◌, length, length-append, length-replicate, field_notimpl,
  Bool-cases, inl, inr,
}
use libsigar.Text.{Bytes, codes}
use libsigar.Util.Words.{digits_from}
use libsigar.Util.Print.{limit}
use libsigar.Format.{decimal, padded, size_tenths, size_whole, size_from, format_size, uptime_parts}

digits_from-length :
    (d room n : ℕ) (start : Bytes)
    → n < limit (suc d)
    → d < room
    → (s : Bytes) × (digits_from room n start ≡ some s)
      × (length start < length s)
      × (length s ≤ length start + suc d)
unfolding digits_from limit
digits_from-length d zero n start h r = absurd (omega arith)
digits_from-length zero (suc room) n start h r =
    let e : n / 10 ≡ 0 = omega arith in
    ((b'0' + n % 10) ∷ start, rw e refl, omega arith, omega arith)
digits_from-length (suc d) (suc room) n start h r = elim (Bool-cases (n / 10 == 0)) [
  | inl last ↦ ((b'0' + n % 10) ∷ start, rw last refl, omega arith, omega arith)
  | inr more ↦
      let (s, e, lo, hi) =
        digits_from-length d room (n / 10) ((b'0' + n % 10) ∷ start) (omega arith) (omega arith) in
      (s, rw more e, omega arith, omega arith)
]

decimal-length :
    (d n : ℕ) → n < limit (suc d) → d < 20 → (0 < length (decimal n)) × (length (decimal n) ≤ suc d)
unfolding decimal
decimal-length d n h r =
    let (s, e, lo, hi) = digits_from-length d 20 n [] h r in
    rw (decimal, e) (omega arith, omega arith)

decimal-digit : (n : ℕ) → n < 10 → length (decimal n) ≡ 1
unfolding limit
decimal-digit n h = let (lo, hi) = decimal-length 0 n (omega arith) (omega arith) in omega arith

padded-length : (fill : ℕ) (s : Bytes) → length s ≤ 3 → length (padded 3 fill s) ≡ 3
unfolding padded
padded-length fill s h = rw (length-append, length-replicate) (omega arith)

number-length : (n fill unit : ℕ) → n < 1000 → length (padded 3 fill (decimal n) ++ unit ∷ []) ≡ 4
unfolding limit
number-length n fill unit h =
    let (lo, hi) = decimal-length 2 n (omega arith) (omega arith) in
    rw (length-append, padded-length fill (decimal n) hi) (omega arith)

tenths-length :
    (x y unit : ℕ) → x < 10 → y < 10 → length (decimal x ++ b'.' ∷ (decimal y ++ unit ∷ [])) ≡ 4
tenths-length x y unit hx hy =
    let lx = decimal-digit x hx in
    let ly = decimal-digit y hy in
    rw
      (
        length-append (decimal x) (b'.' ∷ (decimal y ++ unit ∷ [])),
        lx,
        length-append (decimal y) (unit ∷ []),
        ly,
      )
      (omega arith)

size_tenths-length :
    (size remain unit : ℕ)
    → remain < 1024
    → (ltb size 9 || (size == 9 && ltb remain 973)) ≡ true
    → length (size_tenths size remain unit) ≡ 4
unfolding size_tenths
size_tenths-length size remain unit h small =
    elim (Bool-cases (leb 10 ((remain * 5 + 256) / 512))) [
      | inl up ↦ rw up (tenths-length (size + 1) 0 unit (ground arith) (omega arith))
      | inr down ↦
          rw down (tenths-length size ((remain * 5 + 256) / 512) unit (ground arith) (ground arith))
    ]

size_whole-length : (size remain unit : ℕ) → size < 973 → length (size_whole size remain unit) ≡ 4
unfolding size_whole
size_whole-length size remain unit h =
    number-length (if leb 512 remain then size + 1 else size) b' ' unit (ground arith)

-- What the units left can scale down.
capacity : Bytes → ℕ
capacity [] = 973
capacity (unit ∷ units) = capacity units * 1024

size_from-length :
    (units : Bytes) (size : ℕ)
    → 973 ≤ size
    → size < capacity units
    → (s : Bytes) × (size_from units size ≡ some s) × (length s ≡ 4)
unfolding size_from capacity
size_from-length [] size h c = absurd (omega arith)
size_from-length (unit ∷ units) size h c = elim (Bool-cases (leb 973 (size / 1024))) [
  | inl large ↦ rw large (size_from-length units (size / 1024) (ground arith) (omega arith))
  | inr fits ↦
      elim (Bool-cases (ltb (size / 1024) 9 || (size / 1024 == 9 && ltb (size % 1024) 973))) [
        | inl few ↦
            rw (fits, few)
              (_, refl, size_tenths-length (size / 1024) (size % 1024) unit (omega arith) few)
        | inr many ↦
            rw (fits, many)
              (_, refl, size_whole-length (size / 1024) (size % 1024) unit (ground arith))
      ]
]

-- For every size of 64 bits the loop ends within the six units, and the text has at most four bytes.
pub format_size-length :
    (size : ℕ) → size < 2 ^ 64 → (s : Bytes) × (format_size size ≡ some s) × (length s ≤ 4)
unfolding format_size capacity
format_size-length size h = elim (Bool-cases (size == field_notimpl)) [
  | inl missing ↦ rw missing (_, refl, omega arith)
  | inr present ↦ elim (Bool-cases (ltb size 973)) [
    | inl small ↦
        let e = number-length size b' ' b' ' (ground arith) in
        rw (present, small) (_, refl, omega (arith, e))
    | inr big ↦
        let (s, e, l) = size_from-length (codes "KMGTPE") size (ground arith) (omega arith) in
        rw (present, big) (s, e, omega arith)
  ]
]

-- The parts of an up-time make it up to the minute, with the hours of a day and the minutes of an hour.
pub uptime_parts-exact :
    (time : ℕ)
    → let (days, hours, minutes) = uptime_parts time in
      (time / 60 ≡ days * 1440 + hours * 60 + minutes) × (hours < 24) × (minutes < 60)
unfolding uptime_parts
uptime_parts-exact time = (omega arith, omega arith, omega arith)
