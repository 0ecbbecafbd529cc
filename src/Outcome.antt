-- ===== src/Outcome.antt =====
-- What a call that leaves the modelled code gives back, and what becomes of code that has no defined
-- behaviour.
use libsigar.Base.{ℕ, ◌≡◌, refl, ◌⊎◌, inl, inr}

-- An answer, or a status that is no `SIGAR_OK`.
pub data Answer (A : Type 0) : Type 0 where
  answer : A → Answer A
  failed : ℕ → Answer A

pub Answer-cases :
    {A : Type 0} (a : Answer A) → ((x : A) × (a ≡ answer x)) ⊎ ((e : ℕ) × (a ≡ failed e))
Answer-cases (answer x) = inl (x, refl)
Answer-cases (failed e) = inr (e, refl)

-- `ENOENT` and `EINVAL`.
abbrev pub enoent_status : ℕ
enoent_status = 2

abbrev pub einval_status : ℕ
einval_status = 22

pub data Outcome (A : Type 0) : Type 0 where
  done : A → Outcome A
  fault : Outcome A

infixl 5 ◌>>=◌
abbrev pub ◌>>=◌ : {A B : Type 0} → Outcome A → (A → Outcome B) → Outcome B
done a >>= f = f a
fault >>= f = fault
