-- ===== src/Base/Tests.antt =====
-- Boolean tests on the native numbers, the conditional, and case splits that keep the equation.
use Prim.Native.Nat.{ℕ, ◌≤◌, ◌<◌, compare, Ordering}
use mathlib.Core.Path.{◌≡◌, refl}
use mathlib.Core.Logic.{◌≢◌, ◌↔◌, ◌⊎◌, inl, inr}
use mathlib.Core.Bool.{Bool, true, false}
use mathlib.Core.Option.{Option, none, some}
use native.Mathlib.Decide.{ℕ_discrete}
use native.Mathlib.Omega.{arith}

abbrev pub ltb : ℕ → ℕ → Bool
ltb a b = elim (compare a b) [ Ordering.lt ↦ true | _ ↦ false ]

abbrev pub leb : ℕ → ℕ → Bool
leb a b = elim (compare a b) [ Ordering.gt ↦ false | _ ↦ true ]

infix 50 ◌==◌
abbrev pub ◌==◌ : ℕ → ℕ → Bool
a == b = elim (compare a b) [ Ordering.eq ↦ true | _ ↦ false ]

infix 1 if◌then◌else◌
abbrev pub if◌then◌else◌ {ℓ} : {A : Type ℓ} → Bool → A → A → A
if true then x else y = x
if false then x else y = y

pub ltb→lt : (a b : ℕ) → ltb a b ≡ true → a < b
ltb→lt a b h = ground arith

pub lt→ltb : (a b : ℕ) → a < b → ltb a b ≡ true
lt→ltb a b h = ground arith

pub le→ltb : (a b : ℕ) → b ≤ a → ltb a b ≡ false
le→ltb a b h = ground arith

pub ltb→le : (a b : ℕ) → ltb a b ≡ false → b ≤ a
ltb→le a b h = ground arith

pub ==_iff : (a b : ℕ) → ((a == b) ≡ true) ↔ (a ≡ b)
==_iff a b = ground arith

pub ==_self : (a : ℕ) → (a == a) ≡ true
==_self a = ground arith

pub ==_comm : (a b : ℕ) → (a == b) ≡ (b == a)
==_comm a b = ground arith

pub ne→== : (a b : ℕ) → a ≢ b → (a == b) ≡ false
ne→== a b h = ground arith

Dec-cases : (a b : ℕ) → (a ≡ b) ⊎ (a ≢ b)
Dec-cases a b = elim (ℕ_discrete a b) [ yes h ↦ inl h | no h ↦ inr h ]

pub ruleset tests = (arith, ltb→lt, lt→ltb, le→ltb, ltb→le)

-- A conditional on the equality of two numbers, by cases.
pub if_eq_intro {ℓ} :
    {A : Type ℓ} (p q : ℕ) (x a b : A)
    → (p ≡ q → x ≡ a)
    → (p ≢ q → x ≡ b)
    → x ≡ (if p == q then a else b)
if_eq_intro p q x a b same other = elim (Dec-cases p q) [
  | inl h ↦ rw (h, ==_self) (same h)
  | inr h ↦ rw (ne→== p q h) (other h)
]

pub if_eq_congr {ℓ} :
    {A : Type ℓ} (p q : ℕ) (x y a b : A)
    → (p ≡ q → x ≡ a)
    → y ≡ b
    → (if p == q then x else y) ≡ (if p == q then a else b)
if_eq_congr p q x y a b same other = elim (Dec-cases p q) [
  | inl h ↦ rw (h, ==_self) (same h)
  | inr h ↦ rw (ne→== p q h) other
]

pub Bool-cases : (b : Bool) → (b ≡ true) ⊎ (b ≡ false)
Bool-cases true = inl refl
Bool-cases false = inr refl

pub Option-cases {ℓ} : {A : Type ℓ} (o : Option A) → (o ≡ none) ⊎ ((a : A) × (o ≡ some a))
Option-cases none = inl refl
Option-cases (some a) = inr (a, refl)
