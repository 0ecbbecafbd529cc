-- ===== src/Format.antt =====
-- The texts of src/sigar_format.c: sizes, up-times and addresses. A number that is printed is below
-- 10 ^ 20.
use libsigar.Base.{
  ℕ, zero, suc, ◌+◌, ◌-◌, ◌*◌, ◌/◌, ◌%◌, ◌^◌, ◌<◌, Bool, true, false, ◌&&◌, ◌||◌, [], ◌∷◌, ◌++◌,
  List, Option, none, some, ltb, leb, ◌==◌, if◌then◌else◌, length, replicate, field_notimpl,
  u32_mod,
}
use libsigar.Text.{Bytes, codes}
use libsigar.Util.Words.{digits_from}
pub mod Size
pub mod Address
pub mod Net
pub mod Services
pub mod Names
pub mod Percent
mod Tests

-- `%d`, and `%3d` and `%02d` with the byte that fills.
unfoldable pub decimal : ℕ → Bytes
unfolding digits_from
decimal n = elim (digits_from 20 n []) [ none ↦ [] | some s ↦ s ]

unfoldable pub padded : ℕ → ℕ → Bytes → Bytes
padded width fill s = replicate (width - length s) fill ++ s

-- `%d.%d%c`, with the tenths rounded.
unfoldable pub size_tenths : ℕ → ℕ → ℕ → Bytes
unfolding decimal
size_tenths size remain unit =
    let tenths = (remain * 5 + 256) / 512 in
    if leb 10 tenths
    then decimal (size + 1) ++ b'.' ∷ (decimal 0 ++ unit ∷ [])
    else decimal size ++ b'.' ∷ (decimal tenths ++ unit ∷ [])

-- `%3d%c`, rounded.
unfoldable pub size_whole : ℕ → ℕ → ℕ → Bytes
unfolding decimal padded
size_whole size remain unit =
    padded 3 b' ' (decimal (if leb 512 remain then size + 1 else size)) ++ unit ∷ []

-- The loop over the units; `none` if it went past the last.
unfoldable pub size_from : Bytes → ℕ → Option Bytes
size_from [] size = none
size_from (unit ∷ units) size =
    let remain = size % 1024 in
    let size' = size / 1024 in
    let rest = size_from units size' in
    if leb 973 size'
    then rest
    else if ltb size' 9 || (size' == 9 && ltb remain 973)
    then some (size_tenths size' remain unit)
    else some (size_whole size' remain unit)

unfoldable pub format_size : ℕ → Option Bytes
unfolding size_from
format_size size =
    if size == field_notimpl
    then some (b'-' ∷ [])
    else if ltb size 973
    then some (padded 3 b' ' (decimal size) ++ b' ' ∷ [])
    else size_from (codes "KMGTPE") size

-- The days, hours and minutes of an up-time in seconds.
unfoldable pub uptime_parts : ℕ → ℕ × ℕ × ℕ
uptime_parts time = (time / (60 * 60 * 24), time / 60 / 60 % 24, time / 60 % 60)

-- `sigar_uptime_string`, for an up-time that is not negative.
unfoldable pub uptime_string : ℕ → Bytes
unfolding uptime_parts decimal padded
uptime_string time =
    let (days, hours, minutes) = uptime_parts time in
    (if days == 0
      then []
      else decimal days ++ (codes " day" ++ ((if ltb 1 days then codes "s" else []) ++ codes ", ")))
    ++ (if hours == 0
        then decimal minutes ++ codes " min"
        else padded 2 b' ' (decimal hours) ++ b':' ∷ padded 2 b'0' (decimal minutes))

-- One byte of an address in decimal, as the loop of `sigar_inet_ntoa` writes it.
unfoldable pub byte_text : ℕ → Bytes
byte_text u =
    if ltb 99 u
    then (b'0' + u / 100) ∷ (b'0' + u % 100 / 10) ∷ (b'0' + u % 100 % 10) ∷ []
    else if ltb 9 u
    then (b'0' + u / 10) ∷ (b'0' + u % 10) ∷ []
    else (b'0' + u) ∷ []

-- The bytes of the address in their order in memory; the last dot is overwritten.
unfoldable pub inet_ntoa : ℕ → ℕ → ℕ → ℕ → Bytes
unfolding byte_text
inet_ntoa a b c d =
    byte_text a ++ b'.' ∷ (byte_text b ++ b'.' ∷ (byte_text c ++ b'.' ∷ byte_text d))
