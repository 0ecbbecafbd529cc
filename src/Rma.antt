-- ===== src/Rma.antt =====
-- The running average of src/sigar_rma.c: a ring of samples, of which the newest are averaged. The
-- type `float` and its operations are parameters. A rate and a time are not negative.
use libsigar.Base.{
  ℕ, zero, suc, ◌+◌, ◌-◌, ◌*◌, ◌/◌, Bool, true, false, ◌||◌, [], ◌∷◌, List, Option, none, some, ltb,
  leb, ◌==◌, if◌then◌else◌, set, get_or, replicate,
}
pub mod Ring
pub mod Recent
mod Tests

pub record Arithmetic (Flt : Type 0) : Type 0 where
  pub flt_zero : Flt
  pub plus : Flt → Flt → Flt
  pub div_count : Flt → ℕ → Flt

-- `sigar_rma_sample_t`.
pub record Sample (Flt : Type 0) : Type 0 where
  pub value : Flt
  pub stime : ℕ

-- `sigar_rma_stat_t`.
pub record RmaStat (Flt : Type 0) : Type 0 where
  pub samples : List (Sample Flt)
  pub element_count : ℕ
  pub current_pos : ℕ

abbrev pub rate_1_min : ℕ
rate_1_min = 1 * 60

abbrev pub rate_5_min : ℕ
rate_5_min = 5 * 60

abbrev pub rate_15_min : ℕ
rate_15_min = 15 * 60

-- The size of the ring: `max_average_time`, if there are options and it is not zero.
unfoldable pub rma_size : Option ℕ → ℕ
rma_size none = rate_15_min
rma_size (some zero) = rate_15_min
rma_size (some (suc n)) = suc n

unfoldable pub next_pos : ℕ → ℕ → ℕ
next_pos element_count pos = if leb element_count (pos + 1) then 0 else pos + 1

unfoldable pub prev_pos : ℕ → ℕ → ℕ
prev_pos element_count zero = element_count - 1
prev_pos element_count (suc pos) = pos

module _ {Flt : Type 0} (flt : Arithmetic Flt) where
  open flt use {flt_zero, plus, div_count}

  -- What `calloc` leaves in a slot.
  abbrev pub no_sample : Sample Flt
  no_sample = record { value = flt_zero; stime = 0 }

  unfoldable pub rma_open : Option ℕ → RmaStat Flt
  unfolding rma_size
  rma_open opts = record {
    samples = replicate (rma_size opts) no_sample;
    element_count = rma_size opts;
    current_pos = 0;
  }

  -- The sample that is stored: a time of 0 stands for the clock, in milliseconds.
  abbrev pub sample_of : Flt → ℕ → ℕ → Sample Flt
  sample_of value cur_time_sec now = record {
    value = value;
    stime = if cur_time_sec == 0 then now / 1000 else cur_time_sec;
  }

  unfoldable pub store_sample : Sample Flt → RmaStat Flt → RmaStat Flt
  unfolding next_pos
  store_sample s rma = record rma {
    samples = set rma.samples rma.current_pos s;
    current_pos = next_pos rma.element_count rma.current_pos;
  }

  unfoldable pub add_sample : Flt → ℕ → ℕ → RmaStat Flt → RmaStat Flt
  add_sample value cur_time_sec now rma = store_sample (sample_of value cur_time_sec now) rma

  -- The loop ends at an empty slot, and at one that is older than the rate.
  abbrev pub is_old : ℕ → ℕ → Sample Flt → Bool
  is_old rate cur_time_sec s = s.stime == 0 || ltb (s.stime + rate) cur_time_sec

  -- The loop back through the ring, with its sum and its count; `none` if the fuel does not do.
  unfoldable pub average_from : RmaStat Flt → ℕ → ℕ → ℕ → ℕ → Flt → ℕ → Option (Flt × ℕ)
  average_from rma rate cur_time_sec zero pos avg count = none
  average_from rma rate cur_time_sec (suc fuel) pos avg count =
      let s = get_or rma.samples pos no_sample in
      let rest =
        average_from rma rate cur_time_sec fuel (prev_pos rma.element_count pos) (plus avg s.value)
          (count + 1) in
      if pos == rma.current_pos
      then some (avg, count)
      else if is_old rate cur_time_sec s
      then some (avg, count)
      else rest

  -- The average; `none` is the result -1, with 0.0.
  abbrev pub average_of : Flt × ℕ → Option Flt
  average_of (avg, zero) = none
  average_of (avg, suc n) = some (div_count avg (suc n))

  -- A round goes through each slot at most once.
  unfoldable pub get_average : RmaStat Flt → ℕ → ℕ → Option (Option Flt)
  unfolding average_from prev_pos
  get_average rma rate cur_time_sec =
      elim (average_from rma rate cur_time_sec rma.element_count
        (prev_pos rma.element_count rma.current_pos) flt_zero 0) [
          | none ↦ none
          | some a ↦ some (average_of a)
        ]

  -- The averages of several rates behind a new sample, as of `sigar_rma_add_fetch_std_sample`.
  unfoldable pub add_fetch_std_sample :
      Flt → ℕ → ℕ → RmaStat Flt → List (Option (Option Flt)) × RmaStat Flt
  unfolding add_sample get_average
  add_fetch_std_sample value cur_time_sec now rma =
      let rma' = add_sample value cur_time_sec now rma in
      (
        get_average rma' rate_1_min cur_time_sec
            ∷ get_average rma' rate_5_min cur_time_sec
            ∷ get_average rma' rate_15_min cur_time_sec
            ∷ [],
        rma',
      )
