-- ===== src/FileInfo/Permissions.antt =====
-- What the permissions of a file look like: the nine bits of its mode as characters, and as three
-- octal digits.
use native.Mathlib.Nat.{div-div-eq-div-mul}
use libsigar.Base.{
  ℕ, zero, suc, ◌+◌, ◌*◌, ◌/◌, ◌%◌, Bool, true, false, ◌&&◌, List, [], ◌∷◌, ◌++◌, ◌≡◌, refl, ◌∙◌,
  ap, arith, bit_or, ◌^◌, sym, ◌==◌, if◌then◌else◌, length, ==_iff,
}
use libsigar.Text.{Bytes, codes, str_eq, str_eq→≡}
use libsigar.Util.Search.{and-true}
use libsigar.FileInfo.Attrs.{
  has, perm_modes, stat_masks, permissions_string_get, mode_get, or_perms, unix_mode2perms,
}

-- The bits of the masks.
abbrev pub bits : ℕ → List ℕ → List Bool
bits mode [] = []
bits mode (mask ∷ masks) = has mode mask ∷ bits mode masks

-- A character for a bit that is set, a dash for one that is not.
abbrev pub shown : List Bool → Bytes → Bytes
shown [] chars = []
shown (b ∷ bs) [] = []
shown (b ∷ bs) (c ∷ chars) = (if b then c else b'-') ∷ shown bs chars

-- The number whose binary digits the bits are, the highest first.
abbrev pub binary : ℕ → List Bool → ℕ
binary n [] = n
binary n (b ∷ bs) = binary (n * 2 + (if b then 1 else 0)) bs

-- The number whose octal digits are the last three decimal digits of another.
abbrev pub as_octal : ℕ → ℕ
as_octal n = n / 100 % 10 * 64 + n / 10 % 10 * 8 + n % 10

-- A test that holds of every list of `n` bits holds of each.
for_all : ℕ → (List Bool → Bool) → Bool
for_all zero p = p []
for_all (suc n) p = for_all n (λ bs. p (true ∷ bs)) && for_all n (λ bs. p (false ∷ bs))

for_all-each :
    (n : ℕ) (p : List Bool → Bool) (bs : List Bool)
    → length bs ≡ n
    → for_all n p ≡ true
    → p bs ≡ true
unfolding for_all
for_all-each zero p [] e h = h
for_all-each zero p (b ∷ bs) e h = absurd (omega arith)
for_all-each (suc n) p [] e h = absurd (omega arith)
for_all-each (suc n) p (true ∷ bs) e h =
    for_all-each n (λ cs. p (true ∷ cs)) bs (omega arith)
      (and-true (for_all n (λ cs. p (true ∷ cs))) (for_all n (λ cs. p (false ∷ cs))) h).0
for_all-each (suc n) p (false ∷ bs) e h =
    for_all-each n (λ cs. p (false ∷ cs)) bs (omega arith)
      (and-true (for_all n (λ cs. p (true ∷ cs))) (for_all n (λ cs. p (false ∷ cs))) h).1

-- The conversion of a mode depends on its nine bits alone.
or_bits : List Bool → List ℕ → ℕ → ℕ
or_bits [] news perms = perms
or_bits (b ∷ bs) [] perms = perms
or_bits (b ∷ bs) (new ∷ news) perms = or_bits bs news (if b then bit_or perms new else perms)

or_perms-bits :
    (mode : ℕ) (masks news : List ℕ) (perms : ℕ)
    → or_perms mode masks news perms ≡ or_bits (bits mode masks) news perms
unfolding or_perms or_bits
or_perms-bits mode [] news perms = refl
or_perms-bits mode (mask ∷ masks) [] perms = refl
or_perms-bits mode (mask ∷ masks) (new ∷ news) perms = or_perms-bits mode masks news _

abbrev is_shown : List Bool → Bool
is_shown bs =
    str_eq (permissions_string_get (or_bits bs perm_modes 0)) (shown bs (codes "rwxrwxrwx"))

abbrev is_octal : List Bool → Bool
is_octal bs = as_octal (mode_get (or_bits bs perm_modes 0)) == binary 0 bs

each_is_shown : for_all 9 is_shown ≡ true
unfolding for_all or_bits permissions_string_get str_eq
each_is_shown = refl

each_is_octal : for_all 9 is_octal ≡ true
unfolding for_all or_bits mode_get
each_is_octal = refl

-- The permissions of a file are shown as its mode has them: nine characters, each a letter exactly if
-- the bit of the mode is set.
pub permissions_string_get-mode2perms :
    (mode : ℕ)
    → permissions_string_get (unix_mode2perms mode)
      ≡ shown (bits mode stat_masks) (codes "rwxrwxrwx")
unfolding unix_mode2perms
permissions_string_get-mode2perms mode =
    rw (or_perms-bits mode stat_masks perm_modes 0)
      (str_eq→≡ _ _ (for_all-each 9 is_shown (bits mode stat_masks) refl each_is_shown))

-- The bits of the masks `2 ^ n` to 1 make up the last binary digits.
abbrev powers : ℕ → List ℕ
powers zero = []
powers (suc n) = 2 ^ n ∷ powers n

has_power-suc : (n a : ℕ) → has a (2 ^ suc n) ≡ has (a / 2) (2 ^ n)
has_power-suc n a =
    let e : 2 ^ suc n ≡ 2 * 2 ^ n = omega arith in
    ap (λ d. a / d % 2 == 1) e ∙ ap (λ q. q % 2 == 1) (sym (div-div-eq-div-mul a 2 (2 ^ n)))

bits-powers : (n a : ℕ) → bits a (powers (suc n)) ≡ bits (a / 2) (powers n) ++ (has a 1 ∷ [])
bits-powers zero a = refl
bits-powers (suc n) a =
    rw (has_power-suc n a) (ap (λ bs. has (a / 2) (2 ^ n) ∷ bs) (bits-powers n a))

binary-append :
    (bs : List Bool) (c : ℕ) (b : Bool)
    → binary c (bs ++ (b ∷ [])) ≡ binary c bs * 2 + (if b then 1 else 0)
binary-append [] c b = refl
binary-append (d ∷ bs) c b = binary-append bs _ b

-- The last `n` binary digits, by halving.
abbrev low : ℕ → ℕ → ℕ
low zero a = 0
low (suc n) a = low n (a / 2) * 2 + a % 2

binary-bits : (n a : ℕ) → binary 0 (bits a (powers n)) ≡ low n a
binary-bits zero a = refl
binary-bits (suc n) a =
    let e : (if has a 1 then 1 else 0) ≡ a % 2 = ground arith in
    ap (binary 0) (bits-powers n a)
    ∙ binary-append (bits (a / 2) (powers n)) 0 (has a 1)
    ∙ rw (binary-bits n (a / 2), e) refl

low_nine : (a : ℕ) → low 9 a ≡ a % 512
low_nine a = omega arith

-- The mode of the permissions, read as three octal digits, is the last nine bits of the mode that the
-- system gave.
pub as_octal-mode_get : (mode : ℕ) → as_octal (mode_get (unix_mode2perms mode)) ≡ mode % 512
unfolding unix_mode2perms
as_octal-mode_get mode = rw (or_perms-bits mode stat_masks perm_modes 0) (
    (==_iff _ _).0 (for_all-each 9 is_octal (bits mode stat_masks) refl each_is_octal)
    ∙ binary-bits 9 mode
    ∙ low_nine mode)
