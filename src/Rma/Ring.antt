-- ===== src/Rma/Ring.antt =====
-- Positions in the ring, and what the slots hold after a history of samples.
use libsigar.Base.{
  ℕ, zero, suc, ◌+◌, ◌-◌, ◌<◌, false, [], ◌∷◌, List, Option, none, some, ◌≡◌, ◌≢◌, refl, sym, arith,
  ltb, ◌==◌, if◌then◌else◌, set, get_or, length, length-replicate, get_or-replicate, length-set,
  get_or-set, ==_self, ne→==, ◌∙◌,
}
use libsigar.Rma.{
  Arithmetic, Sample, RmaStat, rma_size, next_pos, prev_pos, no_sample, rma_open, store_sample,
}

-- The slot of the `k`-th newest sample.
abbrev pub back : ℕ → ℕ → ℕ → ℕ
back n p k = if ltb k p then p - 1 - k else p + n - 1 - k

pub back-zero : (n p : ℕ) → 0 < n → prev_pos n p ≡ back n p 0
unfolding prev_pos
back-zero n zero h = ground arith
back-zero n (suc p) h = ground arith

prev_pos-sub : (n p : ℕ) → prev_pos n p ≡ (if p == 0 then n - 1 else p - 1)
unfolding prev_pos
prev_pos-sub n zero = refl
prev_pos-sub n (suc p) = ground arith

pub prev_pos-back : (n p k : ℕ) → k + 1 < n → p < n → prev_pos n (back n p k) ≡ back n p (k + 1)
prev_pos-back n p k h hp = ground (arith, prev_pos-sub n (back n p k))

pub back-last : (n p : ℕ) → p < n → back n p (n - 1) ≡ p
back-last n p h = ground arith

pub back-ne : (n p k : ℕ) → k + 1 < n → p < n → back n p k ≢ p
back-ne n p k h hp e = ground arith

pub back-next_pos : (n p k : ℕ) → k + 1 < n → p < n → back n (next_pos n p) (suc k) ≡ back n p k
unfolding next_pos
back-next_pos n p k h hp = ground arith

pub back-next_pos-zero : (n p : ℕ) → p < n → back n (next_pos n p) 0 ≡ p
unfolding next_pos
back-next_pos-zero n p hp = ground arith

module _ {Flt : Type 0} (flt : Arithmetic Flt) where
  -- The ring has a slot for each of its positions, and the `k`-th slot back from the current one has
  -- the `k`-th newest sample, or nothing yet.
  pub record Holds (history : List (Sample Flt)) (rma : RmaStat Flt) : Type 0 where
    pub width : length rma.samples ≡ rma.element_count
    pub bounded : rma.current_pos < rma.element_count
    pub slot :
        (k : ℕ)
        → k < rma.element_count
        → get_or rma.samples (back rma.element_count rma.current_pos k) (no_sample flt)
          ≡ get_or history k (no_sample flt)

  rma_size-pos : (opts : Option ℕ) → 0 < rma_size opts
  unfolding rma_size
  rma_size-pos none = omega arith
  rma_size-pos (some zero) = omega arith
  rma_size-pos (some (suc n)) = omega arith

  pub rma_open-Holds : (opts : Option ℕ) → Holds [] (rma_open flt opts)
  unfolding rma_open
  rma_open-Holds opts = record {
    width = length-replicate (rma_size opts) (no_sample flt);
    bounded = rma_size-pos opts;
    slot = λ k h. get_or-replicate (rma_size opts) (back (rma_size opts) 0 k) (no_sample flt);
  }

  next_pos-bounded : (n p : ℕ) → p < n → next_pos n p < n
  unfolding next_pos
  next_pos-bounded n p h = ground arith

  store-slot :
      (s : Sample Flt) (history samples : List (Sample Flt)) (n p k : ℕ)
      → length samples ≡ n
      → p < n
      → ((j : ℕ)
          → j < n
          → get_or samples (back n p j) (no_sample flt) ≡ get_or history j (no_sample flt))
      → k < n
      → get_or (set samples p s) (back n (next_pos n p) k) (no_sample flt)
        ≡ get_or (s ∷ history) k (no_sample flt)
  store-slot s history samples n p zero width bounded slot h =
      rw
        (
          back-next_pos-zero n p bounded,
          get_or-set samples p p s (no_sample flt) (omega arith),
          ==_self p,
        )
        refl
  store-slot s history samples n p (suc k) width bounded slot h =
      let far : (p == back n p k) ≡ false =
        ne→== p (back n p k) (λ e. back-ne n p k (omega arith) bounded (sym e)) in
      let inside : back n p k < length samples = ground arith in
      rw
        (
          back-next_pos n p k (omega arith) bounded,
          get_or-set samples p (back n p k) s (no_sample flt) (omega (arith, inside)),
          far,
        )
        (slot k (omega arith))

  pub store_sample-Holds :
      (s : Sample Flt) (history : List (Sample Flt)) (rma : RmaStat Flt)
      → Holds history rma
      → Holds (s ∷ history) (store_sample flt s rma)
  unfolding store_sample
  store_sample-Holds s history rma holds = record {
    width = length-set rma.samples rma.current_pos s ∙ holds.width;
    bounded = next_pos-bounded rma.element_count rma.current_pos holds.bounded;
    slot = λ k h.
        store-slot s history rma.samples rma.element_count rma.current_pos k holds.width
          holds.bounded holds.slot h;
  }
