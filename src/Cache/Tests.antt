-- ===== src/Cache/Tests.antt =====
-- The cache on concrete inputs: runs, and the theorems at tables with entries.
use libsigar.Base.{ℕ, ◌+◌, [], ◌∷◌, List, none, some, ◌≡◌, refl, arith}
use libsigar.Cache.{
  Cache, expired_cache_new, cache_rehash, perform_cleanup_if_necessary, lookup_entry, cache_find,
  cache_get, set_value, cache_destroy, modify, touch, append_entry, grow_for_one,
}
use libsigar.Cache.Chains.{weigh, map_entry}
use libsigar.Cache.Valid.{
  IsValid, Restructured, Resized, cache_rehash-Resized, view_at, perform_cleanup-Restructured,
  weigh-perform_cleanup, expired_cache_new-IsValid,
}
use libsigar.Cache.Writes.{modify-Restructured}
use libsigar.Cache.Access.{Accessed, get_or_new, cache_find-Accessed, cache_get-Accessed}
use libsigar.Cache.Refine.{
  Op, find, get, store, answers, spec_answers, spec_new, answers-expired_cache_new,
}

program : Unit {0}
unfolding expired_cache_new cache_rehash perform_cleanup_if_necessary lookup_entry cache_find
    cache_get set_value cache_destroy modify append_entry grow_for_one
program = tt

-- One chain; a cleanup is due after 10 ms, an entry expires after 20 ms without an access.
abbrev empty : Cache ℕ
empty = expired_cache_new 1 10 20 100

-- Keys 7 and 9 collide, the second `get` rehashes to 5 chains.
abbrev history : List (Op ℕ)
history =
    get 100 100 7
    ∷ store 7 (some 70)
    ∷ get 101 101 9
    ∷ store 9 (some 90)
    ∷ find 102 119 7
    ∷ find 125 125 9
    ∷ find 125 125 7
    ∷ []

answers-history :
    answers history empty
    ≡ some (record { id = 7; value = none; last_access_time = 100 })
      ∷ none
      ∷ some (record { id = 9; value = none; last_access_time = 101 })
      ∷ none
      ∷ some (record { id = 7; value = some 70; last_access_time = 119 })
      ∷ none
      ∷ some (record { id = 7; value = some 70; last_access_time = 125 })
      ∷ []
unfolding program answers
answers-history = refl

answers_example : answers history empty ≡ spec_answers history (spec_new 10 20 100)
answers_example = answers-expired_cache_new 1 10 20 100 history (omega arith) (omega arith)

-- A table with the key 7 and its value.
abbrev one_entry : Cache ℕ
one_entry = set_value 7 (some 70) (cache_get 100 100 7 empty).1

one_entry-IsValid : IsValid one_entry
unfolding set_value
one_entry-IsValid =
    let a = (expired_cache_new-IsValid {V = ℕ} 1 10 20 100 (omega arith)).valid in
    let b = (cache_get-Accessed 100 100 7 empty a (unfold expired_cache_new in omega arith)).1 in
    (modify-Restructured 7 (λ e. record e { value = some 70 }) (cache_get 100 100 7 empty).1
      (λ _. refl) b.valid).valid

-- At 125 the cleanup is due and the entry of 7, last used at 100, has expired.
freed : (perform_cleanup_if_necessary 125 one_entry).1 ≡ 70 ∷ []
unfolding program
freed = refl

perform_cleanup_example :
    Restructured (view_at 125 one_entry) (perform_cleanup_if_necessary 125 one_entry).0
perform_cleanup_example = perform_cleanup-Restructured 125 one_entry one_entry-IsValid

weigh-perform_cleanup_example :
    weigh (λ v. v) (perform_cleanup_if_necessary 125 one_entry).1
      + weigh (λ v. v) (cache_destroy (perform_cleanup_if_necessary 125 one_entry).0)
    ≡ weigh (λ v. v) (cache_destroy one_entry)
weigh-perform_cleanup_example = weigh-perform_cleanup (λ v. v) 125 one_entry one_entry-IsValid

cache_find_example :
    let r = cache_find 105 106 7 one_entry in
    (r.0 ≡ map_entry (touch 106) (view_at 105 one_entry 7)) × Accessed 105 7 r.0 one_entry r.1
cache_find_example = cache_find-Accessed 105 106 7 one_entry one_entry-IsValid

cache_get_example :
    let r = cache_get 105 106 9 one_entry in
    (r.0 ≡ get_or_new 106 9 (view_at 105 one_entry 9)) × Accessed 105 9 (some r.0) one_entry r.1
cache_get_example =
    cache_get-Accessed 105 106 9 one_entry one_entry-IsValid (unfold program in omega arith)

cache_rehash_example : Resized one_entry (cache_rehash one_entry)
cache_rehash_example =
    let v = one_entry-IsValid in
    cache_rehash-Resized one_entry v.width v.nonempty v.bounded v.placed
