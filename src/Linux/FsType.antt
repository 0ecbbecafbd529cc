-- ===== src/Linux/FsType.antt =====
-- `sigar_os_fs_type_get` of Linux, and what `sigar_fs_type_get` finds with it.
use libsigar.Base.{
  ℕ, Bool, true, false, ◌&&◌, ◌||◌, not, List, [], ◌∷◌, ◌++◌, ◌≡◌, refl, sym, ◌∙◌, ap, subst, arith,
  ◌==◌, if◌then◌else◌, take, Bool-cases, inl, inr, ==_iff,
}
use libsigar.Text.{Bytes, codes, str_eq}
use libsigar.Util.Search.{and-true}
use libsigar.Sigar.FsType.{
  fstype_none, fstype_local_disk, first_byte, with_name, fs_type_get, Rule, exactly, starting,
  find_rule, common_rules, rule_matches, common_fs_type-find_rule, if-or,
}

-- The switch over the first byte; `old` is the type before.
unfoldable pub os_fs_type : Bytes → ℕ → ℕ
os_fs_type type old =
    let c = first_byte type in
    if c == b'e'
    then (if str_eq (take 3 type) (codes "ext") then fstype_local_disk else old)
    else if c == b'g'
    then (if str_eq type (codes "gfs") then fstype_local_disk else old)
    else if c == b'h'
    then (if str_eq type (codes "hpfs") then fstype_local_disk else old)
    else if c == b'j'
    then (if str_eq (take 3 type) (codes "jfs") then fstype_local_disk else old)
    else if c == b'o'
    then (if str_eq (take 4 type) (codes "ocfs") then fstype_local_disk else old)
    else if c == b'p'
    then (if str_eq (take 4 type) (codes "psfs") then fstype_local_disk else old)
    else if c == b'r'
    then (if str_eq type (codes "reiserfs") then fstype_local_disk else old)
    else if c == b'v'
    then (if str_eq type (codes "vzfs") then fstype_local_disk else old)
    else if c == b'x'
    then (if str_eq type (codes "xfs") || str_eq type (codes "xiafs")
        then fstype_local_disk
        else old)
    else old

abbrev pub os_rules : List Rule
os_rules =
    starting (codes "ext") fstype_local_disk
    ∷ exactly (codes "gfs") fstype_local_disk
    ∷ exactly (codes "hpfs") fstype_local_disk
    ∷ starting (codes "jfs") fstype_local_disk
    ∷ starting (codes "ocfs") fstype_local_disk
    ∷ starting (codes "psfs") fstype_local_disk
    ∷ exactly (codes "reiserfs") fstype_local_disk
    ∷ exactly (codes "vzfs") fstype_local_disk
    ∷ exactly (codes "xfs") fstype_local_disk
    ∷ exactly (codes "xiafs") fstype_local_disk
    ∷ []

abbrev Equal : Bytes → ℕ → ℕ → Type 0
Equal s old c = os_fs_type (c ∷ s) old ≡ find_rule os_rules (c ∷ s) old

at_byte :
    (c k : ℕ) (s : Bytes) (old : ℕ)
    → Equal s old k
    → ((c == k) ≡ false → Equal s old c)
    → Equal s old c
at_byte c k s old here there = elim (Bool-cases (c == k)) [
  | inl same ↦ subst (Equal s old) (sym ((==_iff c k).0 same)) here
  | inr other ↦ there other
]

os_fs_type-find_rule : (name : Bytes) (old : ℕ) → os_fs_type name old ≡ find_rule os_rules name old
unfolding os_fs_type find_rule str_eq
os_fs_type-find_rule [] old = refl
os_fs_type-find_rule (c ∷ s) old = at_byte c b'e' s old refl (λ e. at_byte c b'g' s old refl (λ g.
    at_byte c b'h' s old refl (λ h. at_byte c b'j' s old refl (λ j. at_byte c b'o' s old refl (λ o.
      at_byte c b'p' s old refl (λ p. at_byte c b'r' s old refl (λ r.
        at_byte c b'v' s old refl (λ v.
          at_byte c b'x' s old
            (if-or (str_eq s (codes "fs")) (str_eq s (codes "iafs")) fstype_local_disk old)
            (λ x. rw (e, g, h, j, o, p, r, v, x) refl)))))))))

find_rule-append :
    (rs ss : List Rule) (name : Bytes) (old : ℕ)
    → find_rule (rs ++ ss) name old ≡ find_rule rs name (find_rule ss name old)
unfolding find_rule
find_rule-append [] ss name old = refl
find_rule-append (r ∷ rs) ss name old = rw (find_rule-append rs ss name old) refl

abbrev are_typed : List Rule → Bool
are_typed [] = true
are_typed (r ∷ rs) = not (r.type == 0) && are_typed rs

-- With no rule of type 0, the result 0 says that no rule fits.
found_or_not :
    (rs : List Rule) (name : Bytes) (old : ℕ)
    → are_typed rs ≡ true
    → find_rule rs name old ≡ (if find_rule rs name 0 == 0 then old else find_rule rs name 0)
unfolding find_rule
found_or_not [] name old h = refl
found_or_not (r ∷ rs) name old h = elim (Bool-cases (rule_matches r name)) [
  | inl fits ↦
      let e : (r.type == 0) ≡ false =
        ground (arith, and-true (not (r.type == 0)) (are_typed rs) h) in
      rw (fits, e) refl
  | inr other ↦
      rw other (found_or_not rs name old (and-true (not (r.type == 0)) (are_typed rs) h).1)
]

-- On Linux a file system whose type is not set gets that of the first rule of one table of names whose
-- text fits, the rules of Linux before the common ones, and none if no rule fits.
pub fs_type_get-find_rule :
    (name : Bytes)
    → fs_type_get os_fs_type name 0
      ≡ with_name (find_rule (os_rules ++ common_rules) name fstype_none)
unfolding fs_type_get
fs_type_get-find_rule name =
    let a = find_rule os_rules name 0 in
    let c = find_rule common_rules name 0 in
    let by_rules : find_rule (os_rules ++ common_rules) name 1
        ≡ (if a == 0 then (if c == 0 then 1 else c) else a) =
      find_rule-append os_rules common_rules name 1
      ∙ found_or_not os_rules name (find_rule common_rules name 1) refl
      ∙ ap (λ x. if a == 0 then x else a) (found_or_not common_rules name 1 refl) in
    rw (by_rules, os_fs_type-find_rule name 0, common_fs_type-find_rule name a)
      (elim (Bool-cases (a == 0)) [
        | inl unknown ↦
            let e : a ≡ 0 = (==_iff a 0).0 unknown in
            elim (Bool-cases (c == 0)) [
              | inl none_fits ↦ rw (unknown, e, none_fits) refl
              | inr fits ↦ rw (unknown, e, fits) refl
            ]
        | inr by_os ↦ rw by_os refl
      ])
