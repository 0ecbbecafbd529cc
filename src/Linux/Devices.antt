-- ===== src/Linux/Devices.antt =====
-- The names of interfaces that /proc/net/dev adds to a list.
use libsigar.Base.{
  ℕ, ◌+◌, ◌≤◌, Bool, true, false, ◌||◌, Option, none, some, List, [], ◌∷◌, ◌++◌, ◌≡◌, refl, sym,
  ◌∙◌, ap, arith, if◌then◌else◌, Bool-cases, inl, inr,
}
use libsigar.Text.{Bytes, str_eq, str_eq→≡}
use libsigar.Linux.Net.{dev_of, has_interface, add_dev, add_interfaces}

-- How often a name is in a list.
unfoldable pub occurs : List Bytes → Bytes → ℕ
occurs [] d = 0
occurs (dev ∷ devs) d = (if str_eq d dev then 1 else 0) + occurs devs d

abbrev pub is_named : Option (Bytes × Bytes) → Bytes → Bool
is_named none d = false
is_named (some (dev, ptr)) d = str_eq d dev

-- Whether a line has a name.
unfoldable pub named : List Bytes → Bytes → Bool
named [] d = false
named (buffer ∷ lines) d = is_named (dev_of buffer) d || named lines d

or_false : (b : Bool) → b ≡ (b || false)
or_false true = refl
or_false false = refl

or_assoc : (a b c : Bool) → ((a || b) || c) ≡ (a || (b || c))
or_assoc true b c = refl
or_assoc false b c = refl

has_interface-append :
    (devs : List Bytes) (dev d : Bytes)
    → has_interface (devs ++ dev ∷ []) d ≡ (has_interface devs d || str_eq d dev)
unfolding has_interface
has_interface-append [] dev d = sym (or_false (str_eq d dev))
has_interface-append (e ∷ devs) dev d =
    ap (λ b. str_eq d e || b) (has_interface-append devs dev d)
    ∙ sym (or_assoc (str_eq d e) (has_interface devs d) (str_eq d dev))

occurs-append :
    (devs : List Bytes) (dev d : Bytes)
    → occurs (devs ++ dev ∷ []) d ≡ occurs devs d + (if str_eq d dev then 1 else 0)
unfolding occurs
occurs-append [] dev d = omega arith
occurs-append (e ∷ devs) dev d = omega (arith, occurs-append devs dev d)

absent_occurs : (devs : List Bytes) (d : Bytes) → has_interface devs d ≡ false → occurs devs d ≡ 0
unfolding has_interface occurs
absent_occurs [] d h = refl
absent_occurs (e ∷ devs) d h = elim (Bool-cases (str_eq d e)) [
  | inl here ↦ let impossible : true ≡ false = rw here at h in ground arith
  | inr other ↦ rw other (omega (arith, absent_occurs devs d (rw other at h)))
]

has_interface-add_dev :
    (o : Option (Bytes × Bytes)) (devs : List Bytes) (d : Bytes)
    → has_interface (add_dev o devs) d ≡ (has_interface devs d || is_named o d)
has_interface-add_dev none devs d = or_false (has_interface devs d)
has_interface-add_dev (some (dev, ptr)) devs d = elim (Bool-cases (has_interface devs dev)) [
  | inl there ↦ rw there (elim (Bool-cases (str_eq d dev)) [
    | inl same ↦ rw (same, str_eq→≡ d dev same, there) refl
    | inr other ↦ rw other (or_false (has_interface devs d))
  ])
  | inr absent ↦ rw absent (has_interface-append devs dev d)
]

occurs-add_dev :
    (o : Option (Bytes × Bytes)) (devs : List Bytes) (d : Bytes)
    → occurs devs d ≤ 1
    → occurs (add_dev o devs) d ≤ 1
occurs-add_dev none devs d h = h
occurs-add_dev (some (dev, ptr)) devs d h = elim (Bool-cases (has_interface devs dev)) [
  | inl there ↦ rw there h
  | inr absent ↦
      rw (absent, occurs-append devs dev d)
        (elim (Bool-cases (str_eq d dev)) [
          | inl same ↦ rw (same, str_eq→≡ d dev same, absent_occurs devs dev absent) (omega arith)
          | inr other ↦ rw other (omega (arith, h))
        ])
]

-- A name is in the list afterwards exactly if it was there or a line has it, and one that was there at
-- most once is there at most once.
pub add_interfaces-named :
    (devs lines : List Bytes) (d : Bytes)
    → (has_interface (add_interfaces devs lines) d ≡ (has_interface devs d || named lines d))
      × (occurs devs d ≤ 1 → occurs (add_interfaces devs lines) d ≤ 1)
unfolding add_interfaces named
add_interfaces-named devs [] d = (or_false (has_interface devs d), λ h. h)
add_interfaces-named devs (buffer ∷ lines) d =
    let o = dev_of buffer in
    let (there, once) = add_interfaces-named (add_dev o devs) lines d in
    (
      there
          ∙ ap (λ b. b || named lines d) (has_interface-add_dev o devs d)
          ∙ or_assoc (has_interface devs d) (is_named o d) (named lines d),
      λ h. once (occurs-add_dev o devs d h),
    )
