-- ===== src/Util/Search.antt =====
-- `sigar_strcasestr` of src/sigar_util.c: the first place where a text holds another, whatever the
-- case of the letters. `strstr` is the same search with the letters as they are.
use mathlib.Core.List.{map}
use libsigar.Base.{
  ℕ, ◌≤◌, Bool, true, false, ◌&&◌, [], ◌∷◌, ◌++◌, Option, none, some, ◌≡◌, refl, arith, ◌==◌,
  if◌then◌else◌, Bool-cases, inl, inr, ap, ap₂, ◌∙◌, length, ==_iff,
}
use libsigar.Text.{Bytes, to_lower}

module _ (fold : ℕ → ℕ) where
  -- The loop over `p1` and `p2`: the rest of the second text stands at the front of the first.
  unfoldable pub rest_matches : Bytes → Bytes → Bool
  rest_matches p1 [] = true
  rest_matches [] (b ∷ p2) = false
  rest_matches (a ∷ p1) (b ∷ p2) = fold a == fold b && rest_matches p1 p2

  -- The outer loop; the second text is `b ∷ s2`.
  unfoldable pub search_from : ℕ → Bytes → Bytes → Option Bytes
  search_from b s2 [] = none
  search_from b s2 (a ∷ s1) =
      let next = search_from b s2 s1 in
      if fold a == fold b && rest_matches s1 s2 then some (a ∷ s1) else next

  unfoldable pub str_str : Bytes → Bytes → Option Bytes
  unfolding rest_matches search_from
  str_str s1 [] = some s1
  str_str s1 (b ∷ s2) = search_from b s2 s1

unfoldable pub strcasestr : Bytes → Bytes → Option Bytes
unfolding str_str
strcasestr = str_str to_lower

unfoldable pub strstr : Bytes → Bytes → Option Bytes
unfolding str_str
strstr = str_str (λ c. c)

pub and-true : (x y : Bool) → (x && y) ≡ true → (x ≡ true) × (y ≡ true)
and-true x y h = ground arith

module _ (fold : ℕ → ℕ) where
  -- The text `h` begins with `n`, up to folding.
  abbrev pub Begins : Bytes → Bytes → Type 0
  Begins n h = (rest : Bytes) × (map fold h ≡ map fold n ++ rest)

  pub rest_matches-Begins : (h n : Bytes) → rest_matches fold h n ≡ true → Begins n h
  unfolding rest_matches
  rest_matches-Begins h [] e = (map fold h, refl)
  rest_matches-Begins [] (b ∷ n) e = absurd (cc)
  rest_matches-Begins (a ∷ h) (b ∷ n) e =
      let (same, more) = and-true (fold a == fold b) (rest_matches fold h n) e in
      let (rest, q) = rest_matches-Begins h n more in
      (rest, ap₂ ◌∷◌ ((==_iff (fold a) (fold b)).0 same) q)

  pub Begins-rest_matches :
      (h n rest : Bytes) → map fold h ≡ map fold n ++ rest → rest_matches fold h n ≡ true
  unfolding rest_matches
  Begins-rest_matches h [] rest e = refl
  Begins-rest_matches [] (b ∷ n) rest e = absurd (cc)
  Begins-rest_matches (a ∷ h) (b ∷ n) rest e = ground (arith, Begins-rest_matches h n rest)

  -- Nothing is found exactly if the text is nowhere; what is found is the first place.
  abbrev pub IsFirst : Bytes → Bytes → Option Bytes → Type 0
  IsFirst n h none = (pre r : Bytes) → h ≡ pre ++ r → ¬ Begins n r
  IsFirst n h (some r) =
      (pre : Bytes) × (h ≡ pre ++ r)
      × Begins n r
      × ((pre' r' : Bytes) → h ≡ pre' ++ r' → Begins n r' → length pre ≤ length pre')

  IsFirst-here : (b : ℕ) (n h : Bytes) → Begins (b ∷ n) h → IsFirst (b ∷ n) h (some h)
  IsFirst-here b n h m = ([], refl, m, λ pre' r' e m'. omega arith)

  later :
      (b : ℕ) (n : Bytes) (a : ℕ) (h pre r : Bytes)
      → rest_matches fold (a ∷ h) (b ∷ n) ≡ false
      → a ∷ h ≡ pre ++ r
      → Begins (b ∷ n) r
      → (pre' : Bytes) × (pre ≡ a ∷ pre') × (h ≡ pre' ++ r)
  later b n a h [] r miss e (rest, m) =
      absurd (cc (miss, Begins-rest_matches (a ∷ h) (b ∷ n) rest (ap (map fold) e ∙ m)))
  later b n a h (c ∷ pre) r miss e m = (pre, cc e, cc e)

  IsFirst-cons :
      (b : ℕ) (n : Bytes) (a : ℕ) (h : Bytes) (o : Option Bytes)
      → rest_matches fold (a ∷ h) (b ∷ n) ≡ false
      → IsFirst (b ∷ n) h o
      → IsFirst (b ∷ n) (a ∷ h) o
  IsFirst-cons b n a h none miss first =
      λ pre r e m. let (pre', _, e') = later b n a h pre r miss e m in first pre' r e' m
  IsFirst-cons b n a h (some r) miss (pre, e, m, least) = (
    a ∷ pre,
    ap (λ t. a ∷ t) e,
    m,
    λ pre' r' e' m'.
        let (pre'', p, q) = later b n a h pre' r' miss e' m' in
        rw p (omega (arith, least pre'' r' q m')),
  )

  search_from-IsFirst : (b : ℕ) (n h : Bytes) → IsFirst (b ∷ n) h (search_from fold b n h)
  unfolding search_from
  search_from-IsFirst b n [] = λ pre r e m. nowhere pre r e m
    where
      nowhere : (pre r : Bytes) → [] ≡ pre ++ r → Begins (b ∷ n) r → ⊥
      nowhere [] r e (rest, m) = cc (ap (map fold) e ∙ m)
      nowhere (c ∷ pre) r e m = cc
  search_from-IsFirst b n (a ∷ h) = elim (Bool-cases (fold a == fold b && rest_matches fold h n)) [
    | inl here ↦ rw here (
        IsFirst-here b n (a ∷ h)
          (rest_matches-Begins (a ∷ h) (b ∷ n) (unfold rest_matches in here)))
    | inr miss ↦ rw miss (
        IsFirst-cons b n a h (search_from fold b n h) (unfold rest_matches in miss)
          (search_from-IsFirst b n h))
  ]

  pub str_str-IsFirst : (h n : Bytes) → IsFirst n h (str_str fold h n)
  unfolding str_str
  str_str-IsFirst h [] = ([], refl, (map fold h, refl), λ pre' r' e m. omega arith)
  str_str-IsFirst h (b ∷ n) = search_from-IsFirst b n h

-- The search ends, and finds the first place where the first text holds the second up to the case
-- of the letters; it finds nothing exactly if there is no such place.
pub strcasestr-IsFirst : (s1 s2 : Bytes) → IsFirst to_lower s2 s1 (strcasestr s1 s2)
unfolding strcasestr
strcasestr-IsFirst s1 s2 = str_str-IsFirst to_lower s1 s2
