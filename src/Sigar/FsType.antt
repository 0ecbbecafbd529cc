-- ===== src/Sigar/FsType.antt =====
-- `sigar_fs_type_get` and `sigar_common_fs_type_get`: the type of a file system from its name. The type
-- that the platform finds is a parameter.
use libsigar.Base.{
  ℕ, zero, suc, ◌<◌, ◌≤◌, Bool, true, false, ◌||◌, not, List, [], ◌∷◌, Option, some, ◌≡◌, refl, sym,
  subst, arith, leb, ◌==◌, if◌then◌else◌, length, take, get_elem?, Bool-cases, inl, inr, ==_iff,
}
use libsigar.Text.{Bytes, codes, str_eq}

-- `sigar_file_system_type_e`.
abbrev pub fstype_none : ℕ
fstype_none = 1

abbrev pub fstype_local_disk : ℕ
fstype_local_disk = 2

abbrev pub fstype_network : ℕ
fstype_network = 3

abbrev pub fstype_cdrom : ℕ
fstype_cdrom = 5

abbrev pub fstype_swap : ℕ
fstype_swap = 6

abbrev pub fstype_max : ℕ
fstype_max = 7

abbrev pub fstype_names : List Bytes
fstype_names =
    codes "unknown"
    ∷ codes "none"
    ∷ codes "local"
    ∷ codes "remote"
    ∷ codes "ram"
    ∷ codes "cdrom"
    ∷ codes "swap"
    ∷ []

-- `*type`.
abbrev pub first_byte : Bytes → ℕ
first_byte [] = 0
first_byte (c ∷ s) = c

-- The switch over the first byte; `old` is the type before.
unfoldable pub common_fs_type : Bytes → ℕ → ℕ
common_fs_type type old =
    let c = first_byte type in
    if c == b'n'
    then (if str_eq (take 3 type) (codes "nfs") then fstype_network else old)
    else if c == b's'
    then (if str_eq type (codes "smbfs")
        then fstype_network
        else if str_eq type (codes "swap")
        then fstype_swap
        else old)
    else if c == b'a'
    then (if str_eq type (codes "afs") then fstype_network else old)
    else if c == b'i'
    then (if str_eq type (codes "iso9660") then fstype_cdrom else old)
    else if c == b'c'
    then (if str_eq type (codes "cvfs")
        then fstype_local_disk
        else if str_eq type (codes "cifs")
        then fstype_network
        else old)
    else if c == b'm'
    then (if str_eq type (codes "msdos") || str_eq type (codes "minix")
        then fstype_local_disk
        else old)
    else if c == b'h'
    then (if str_eq type (codes "hpfs") then fstype_local_disk else old)
    else if c == b'v'
    then (if str_eq type (codes "vxfs")
        then fstype_local_disk
        else if str_eq type (codes "vfat")
        then fstype_local_disk
        else old)
    else if c == b'z'
    then (if str_eq type (codes "zfs") then fstype_local_disk else old)
    else old

-- The type and its name, from the type that is already set. A name past the table is `none`.
abbrev pub with_name : ℕ → ℕ × Option Bytes
with_name type =
    let t = if leb fstype_max type then fstype_none else type in (t, get_elem? fstype_names t)

unfoldable pub fs_type_get : (Bytes → ℕ → ℕ) → Bytes → ℕ → ℕ × Option Bytes
unfolding common_fs_type
fs_type_get os_fs_type name type =
    let by_os = os_fs_type name type in
    let common = common_fs_type name by_os in
    if not (type == 0)
    then with_name type
    else if not (by_os == 0)
    then with_name by_os
    else if not (common == 0)
    then with_name common
    else with_name fstype_none

-- The same as one table of names, `true` for those that only the first bytes must be equal to.
pub record Rule : Type 0 where
  pub text : Bytes
  pub is_prefix : Bool
  pub type : ℕ

abbrev pub rule_matches : Rule → Bytes → Bool
rule_matches r name =
    if r.is_prefix then str_eq (take (length r.text) name) r.text else str_eq name r.text

unfoldable pub find_rule : List Rule → Bytes → ℕ → ℕ
find_rule [] name old = old
find_rule (r ∷ rs) name old =
    let rest = find_rule rs name old in if rule_matches r name then r.type else rest

abbrev pub exactly : Bytes → ℕ → Rule
exactly text type = record { text = text; is_prefix = false; type = type }

abbrev pub starting : Bytes → ℕ → Rule
starting text type = record { text = text; is_prefix = true; type = type }

abbrev pub common_rules : List Rule
common_rules =
    starting (codes "nfs") fstype_network
    ∷ exactly (codes "smbfs") fstype_network
    ∷ exactly (codes "swap") fstype_swap
    ∷ exactly (codes "afs") fstype_network
    ∷ exactly (codes "iso9660") fstype_cdrom
    ∷ exactly (codes "cvfs") fstype_local_disk
    ∷ exactly (codes "cifs") fstype_network
    ∷ exactly (codes "msdos") fstype_local_disk
    ∷ exactly (codes "minix") fstype_local_disk
    ∷ exactly (codes "hpfs") fstype_local_disk
    ∷ exactly (codes "vxfs") fstype_local_disk
    ∷ exactly (codes "vfat") fstype_local_disk
    ∷ exactly (codes "zfs") fstype_local_disk
    ∷ []

abbrev Equal : Bytes → ℕ → ℕ → Type 0
Equal s old c = common_fs_type (c ∷ s) old ≡ find_rule common_rules (c ∷ s) old

-- A first byte that the switch has a case for, or another.
at_byte :
    (c k : ℕ) (s : Bytes) (old : ℕ)
    → Equal s old k
    → ((c == k) ≡ false → Equal s old c)
    → Equal s old c
at_byte c k s old here there = elim (Bool-cases (c == k)) [
  | inl same ↦ subst (Equal s old) (sym ((==_iff c k).0 same)) here
  | inr other ↦ there other
]

pub if-or :
    {A : Type 0} (a b : Bool) (x y : A)
    → (if a || b then x else y) ≡ (if a then x else if b then x else y)
if-or true b x y = refl
if-or false b x y = refl

-- The switch over the first byte finds the type of the first rule of the table whose text fits, and
-- keeps the type if there is none.
pub common_fs_type-find_rule :
    (name : Bytes) (old : ℕ) → common_fs_type name old ≡ find_rule common_rules name old
unfolding common_fs_type find_rule str_eq
common_fs_type-find_rule [] old = refl
common_fs_type-find_rule (c ∷ s) old = at_byte c b'n' s old refl (λ n.
    at_byte c b's' s old refl (λ s'. at_byte c b'a' s old refl (λ a. at_byte c b'i' s old refl (λ i.
      at_byte c b'c' s old refl (λ c'.
        at_byte c b'm' s old
          (if-or (str_eq s (codes "sdos")) (str_eq s (codes "inix")) fstype_local_disk old)
          (λ m. at_byte c b'h' s old refl (λ h.
            at_byte c b'v' s old refl
              (λ v. at_byte c b'z' s old refl (λ z. rw (n, s', a, i, c', m, h, v, z) refl)))))))))

in_table : {A : Type 0} (xs : List A) (i : ℕ) → i < length xs → (x : A) × (get_elem? xs i ≡ some x)
in_table [] i h = absurd (omega arith)
in_table (x ∷ xs) zero h = (x, refl)
in_table (x ∷ xs) (suc i) h = in_table xs i (omega arith)

named :
    (t : ℕ)
    → 1 ≤ t
    → let (u, type_name) = with_name t in
      (1 ≤ u) × (u < fstype_max) × (s : Bytes) × (type_name ≡ some s)
named t h = elim (Bool-cases (leb fstype_max t)) [
  | inl big ↦ rw big (omega arith, omega arith, codes "none", refl)
  | inr small ↦
      let low : t < 7 = ground arith in
      let (x, e) = in_table fstype_names t low in rw small (h, low, x, e)
]

-- Whatever the platform finds, the type is none or a kind of file system, never unknown, and the table
-- of names holds its name.
pub fs_type_get-names :
    (os_fs_type : Bytes → ℕ → ℕ) (name : Bytes) (type : ℕ)
    → let (t, type_name) = fs_type_get os_fs_type name type in
      (1 ≤ t) × (t < fstype_max) × (s : Bytes) × (type_name ≡ some s)
unfolding fs_type_get
fs_type_get-names os_fs_type name type = elim (Bool-cases (type == 0)) [
  | inl unset ↦ elim (Bool-cases (os_fs_type name type == 0)) [
    | inl unknown ↦ elim (Bool-cases (common_fs_type name (os_fs_type name type) == 0)) [
      | inl none_of_them ↦ rw (unset, unknown, none_of_them) (named 1 (omega arith))
      | inr common ↦
          rw (unset, unknown, common)
            (named (common_fs_type name (os_fs_type name type)) (ground arith))
    ]
    | inr by_os ↦ rw (unset, by_os) (named (os_fs_type name type) (ground arith))
  ]
  | inr set_before ↦ rw set_before (named type (ground arith))
]
