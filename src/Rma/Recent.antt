-- ===== src/Rma/Recent.antt =====
-- The average is that of the newest samples.
use libsigar.Base.{
  ℕ, zero, suc, ◌+◌, ◌-◌, ◌<◌, [], ◌∷◌, List, Option, some, ◌≡◌, refl, ◌∙◌, ap, arith,
  if◌then◌else◌, get_or, take, length, Bool-cases, inl, inr, ==_self, ne→==,
}
use libsigar.Rma.{
  Arithmetic, Sample, RmaStat, no_sample, rma_open, sample_of, add_sample, is_old, average_from,
  average_of, get_average,
}
use libsigar.Rma.Ring.{
  back, back-zero, prev_pos-back, back-last, back-ne, Holds, rma_open-Holds, store_sample-Holds,
}

module _ {Flt : Type 0} (flt : Arithmetic Flt) where
  open flt use {flt_zero, plus, div_count}

  -- The samples before the first that is old.
  unfoldable pub recent : ℕ → ℕ → List (Sample Flt) → List (Sample Flt)
  recent rate cur [] = []
  recent rate cur (s ∷ ss) = if is_old flt rate cur s then [] else s ∷ recent rate cur ss

  unfoldable pub sum_from : Flt → List (Sample Flt) → Flt
  sum_from avg [] = avg
  sum_from avg (s ∷ ss) = sum_from (plus avg s.value) ss

  unfoldable pub mean : List (Sample Flt) → Option Flt
  unfolding sum_from
  mean ss = average_of flt (sum_from flt_zero ss, length ss)

  -- A sample with its value, the time that the caller gave, and the clock.
  abbrev pub Call : Type 0
  Call = Flt × ℕ × ℕ

  -- The ring after calls, the newest first, and their samples.
  unfoldable pub after_calls : Option ℕ → List Call → RmaStat Flt
  after_calls opts [] = rma_open flt opts
  after_calls opts ((value, cur, now) ∷ calls) =
      add_sample flt value cur now (after_calls opts calls)

  unfoldable pub samples_of : List Call → List (Sample Flt)
  samples_of [] = []
  samples_of ((value, cur, now) ∷ calls) = sample_of flt value cur now ∷ samples_of calls

  after_calls-Holds :
      (opts : Option ℕ) (calls : List Call) → Holds flt (samples_of calls) (after_calls opts calls)
  unfolding after_calls samples_of add_sample
  after_calls-Holds opts [] = rma_open-Holds flt opts
  after_calls-Holds opts ((value, cur, now) ∷ calls) =
      store_sample-Holds flt (sample_of flt value cur now) (samples_of calls)
        (after_calls opts calls) (after_calls-Holds opts calls)

  -- The loop from the `k`-th newest sample on, with `m` slots to the current one; `ss` are the samples
  -- from there on.
  average_from-recent :
      (rma : RmaStat Flt) (rate cur fuel k m : ℕ) (avg : Flt) (count : ℕ) (ss : List (Sample Flt))
      → rma.current_pos < rma.element_count
      → k + m + 1 ≡ rma.element_count
      → m < fuel
      → ((j i : ℕ)
          → i ≡ k + j
          → i < rma.element_count
          → get_or rma.samples (back rma.element_count rma.current_pos i) (no_sample flt)
            ≡ get_or ss j (no_sample flt))
      → average_from flt rma rate cur fuel (back rma.element_count rma.current_pos k) avg count
        ≡ some (
          sum_from avg (recent rate cur (take m ss)),
          count + length (recent rate cur (take m ss)),
        )
  unfolding average_from recent sum_from
  average_from-recent rma rate cur zero k m avg count ss bounded fits enough slot =
      absurd (omega arith)
  average_from-recent rma rate cur (suc fuel) k zero avg count ss bounded fits enough slot =
      let e : k ≡ rma.element_count - 1 = omega arith in
      let c : count + 0 ≡ count = omega arith in
      rw (e, back-last rma.element_count rma.current_pos bounded, ==_self rma.current_pos, c) refl
  average_from-recent rma rate cur (suc fuel) k (suc m) avg count [] bounded fits enough slot =
      let far = ne→== _ _ (back-ne rma.element_count rma.current_pos k (omega arith) bounded) in
      let c : count + 0 ≡ count = omega arith in
      rw (far, slot 0 k (omega arith) (omega arith), c) refl
  average_from-recent rma rate cur (suc fuel) k (suc m) avg count (s ∷ ss) bounded fits enough
        slot =
      let far = ne→== _ _ (back-ne rma.element_count rma.current_pos k (omega arith) bounded) in
      let next : ℕ → Option (Flt × ℕ) =
        λ pos. average_from flt rma rate cur fuel pos (plus avg s.value) (count + 1) in
      elim (Bool-cases (is_old flt rate cur s)) [
        | inl old ↦
            let c : count ≡ count + 0 = omega arith in
            rw (far, slot 0 k (omega arith) (omega arith), old) (ap (λ n. some (avg, n)) c)
        | inr young ↦
            let c : count + 1 + length (recent rate cur (take m ss))
                ≡ count + suc (length (recent rate cur (take m ss))) =
              omega arith in
            rw (far, slot 0 k (omega arith) (omega arith), young)
              (ap next (prev_pos-back rma.element_count rma.current_pos k (omega arith) bounded)
                ∙ average_from-recent rma rate cur fuel (k + 1) m (plus avg s.value) (count + 1) ss
                    bounded (omega arith) (omega arith) (λ j i e h. slot (suc j) i (omega arith) h)
                ∙ ap (λ n. some (sum_from (plus avg s.value) (recent rate cur (take m ss)), n)) c)
      ]

  -- After any calls, and for any size of the ring, the loop ends and the average is that of the newest
  -- samples up to the first that is old, of which it takes at most one less than the ring has slots.
  pub get_average-mean :
      (opts : Option ℕ) (calls : List Call) (rate cur : ℕ)
      → let rma = after_calls opts calls in
        get_average flt rma rate cur
        ≡ some (mean (recent rate cur (take (rma.element_count - 1) (samples_of calls))))
  unfolding get_average mean
  get_average-mean opts calls rate cur =
      let rma = after_calls opts calls in
      let n = rma.element_count in
      let holds = after_calls-Holds opts calls in
      let bounded = holds.bounded in
      let start =
        ap (λ pos. average_from flt rma rate cur n pos flt_zero 0)
          (back-zero n rma.current_pos (omega arith)) in
      let loop =
        average_from-recent rma rate cur n 0 (n - 1) flt_zero 0 (samples_of calls) bounded
          (omega arith) (omega arith)
          (λ j i e h. let q : i ≡ j = omega arith in rw q (holds.slot j (omega arith))) in
      let l = recent rate cur (take (n - 1) (samples_of calls)) in
      let c : 0 + length l ≡ length l = omega arith in rw (get_average, start ∙ loop, c) refl
