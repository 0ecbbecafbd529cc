-- ===== src/Rma/Tests.antt =====
-- The running average at concrete samples; natural numbers stand for `float`.
use libsigar.Base.{ℕ, ◌+◌, ◌/◌, ◌-◌, [], ◌∷◌, List, some, ◌≡◌, refl, take}
use libsigar.Rma.{
  Arithmetic, rma_open, add_sample, store_sample, get_average, average_from, rma_size, next_pos,
  prev_pos,
}
use libsigar.Rma.Recent.{Call, after_calls, samples_of, recent, mean, get_average-mean}

abbrev flt : Arithmetic ℕ
flt = record { flt_zero = 0; plus = λ a b. a + b; div_count = λ a n. a / n }

-- Five samples into a ring of four, the newest at 104.
abbrev calls : List (Call flt)
calls = (50, 104, 0) ∷ (40, 103, 0) ∷ (30, 102, 0) ∷ (20, 101, 0) ∷ (10, 100, 0) ∷ []

-- The rate takes in three of them.
last_three : get_average flt (after_calls flt (some 4) calls) 2 104 ≡ some (some 40)
unfolding after_calls add_sample store_sample get_average average_from rma_open rma_size next_pos
    prev_pos
last_three = refl

get_average-mean_example :
    let rma = after_calls flt (some 4) calls in
    get_average flt rma 2 104
    ≡ some (mean flt (recent flt 2 104 (take (rma.element_count - 1) (samples_of flt calls))))
get_average-mean_example = get_average-mean flt (some 4) calls 2 104
