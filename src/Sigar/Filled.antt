-- ===== src/Sigar/Filled.antt =====
-- A growing list holds what was put into it, in order, and is never written or freed out of bounds.
use libsigar.Base.{
  ℕ, suc, ◌+◌, ◌<◌, ◌≤◌, Option, none, some, List, [], ◌∷◌, ◌++◌, ◌≡◌, refl, sym, ap, ◌∙◌,
  append_assoc, append-nil, subst, true, ◌==◌, ◌%◌, arith, ltb, leb, length, set, replicate,
  length-append, length-replicate, Bool-cases, inl, inr, u64_mod,
}
use libsigar.Outcome.{done}
use libsigar.Sigar.Growing.{
  Growing, create, grow, grow_if_full, store, append, append_all, free_items, destroy_items,
  no_slots, destroy,
}

module _ {A : Type 0} where
  abbrev pub full : List A → List (Option A)
  full [] = []
  full (x ∷ xs) = some x ∷ full xs

  -- The slots in use hold the elements; `number` and `size` are true.
  pub record IsFilled (xs : List A) (l : Growing A) : Type 0 where
    pub unused : List (Option A)
    pub slots_lem : l.data_slots ≡ full xs ++ unused
    pub number_lem : l.number ≡ length xs
    pub size_lem : l.size ≡ length l.data_slots

  length-full : (xs : List A) → length (full xs) ≡ length xs
  length-full [] = refl
  length-full (x ∷ xs) = ap suc (length-full xs)

  set-full :
      (xs : List A) (x : A) (o : Option A) (rest : List (Option A))
      → set (full xs ++ o ∷ rest) (length xs) (some x) ≡ full (xs ++ x ∷ []) ++ rest
  set-full [] x o rest = refl
  set-full (y ∷ xs) x o rest = ap (λ l. some y ∷ l) (set-full xs x o rest)

  pub create-IsFilled : (step : ℕ) → IsFilled [] (create step)
  create-IsFilled step = record {
    unused = replicate step none;
    slots_lem = refl;
    number_lem = refl;
    size_lem = sym (length-replicate step none);
  }

  grow-IsFilled :
      (step : ℕ) (xs : List A) (l : Growing A)
      → l.size + step < u64_mod
      → IsFilled xs l
      → IsFilled xs (grow step l)
  grow-IsFilled step xs l fits f =
      let nothing : Option A = none in
      record {
        unused = f.unused ++ replicate step none;
        slots_lem =
            ap (λ s. s ++ replicate step none) f.slots_lem
            ∙ append_assoc (full xs) f.unused (replicate step none);
        number_lem = f.number_lem;
        size_lem = omega (
          arith,
          f.size_lem,
          fits,
          length-append l.data_slots (replicate step nothing),
          length-replicate step nothing,
        );
      }

  -- A list that is full has its `step` added, and has room then.
  room :
      (step : ℕ) (xs : List A) (l : Growing A)
      → 1 ≤ step
      → length xs + step < u64_mod
      → IsFilled xs l
      → IsFilled xs (grow_if_full step l) × (length xs < (grow_if_full step l).size)
  room step xs l h fits f =
      let e : length l.data_slots ≡ length xs + length f.unused =
        ap length f.slots_lem
        ∙ length-append (full xs) f.unused
        ∙ ap (λ n. n + length f.unused) (length-full xs) in
      elim (Bool-cases (leb l.size l.number)) [
        | inl is_full ↦
            let fit : l.size + step < u64_mod = ground (arith, f.number_lem) in
            rw is_full (grow-IsFilled step xs l fit f, ground (arith, f.number_lem, f.size_lem, e))
        | inr has_room ↦ rw has_room (f, ground (arith, f.number_lem))
      ]

  length-set_full :
      (xs : List A) (x : A) (o : Option A) (rest : List (Option A))
      → length (full (xs ++ x ∷ []) ++ rest) ≡ length (full xs ++ o ∷ rest)
  length-set_full [] x o rest = refl
  length-set_full (y ∷ xs) x o rest = ap suc (length-set_full xs x o rest)

  store-IsFilled :
      (xs : List A) (x : A) (l : Growing A) (unused : List (Option A))
      → l.data_slots ≡ full xs ++ unused
      → l.number ≡ length xs
      → l.size ≡ length l.data_slots
      → length xs < l.size
      → length xs + 1 < u64_mod
      → (l' : Growing A) × (store l x ≡ done l') × IsFilled (xs ++ x ∷ []) l'
  store-IsFilled xs x l [] slots number size has_room fits =
      absurd
        (omega (arith, has_room, size, ap length slots, length-append (full xs) [], length-full xs))
  store-IsFilled xs x l (o ∷ rest) slots number size has_room fits =
      let below : ltb l.number (length l.data_slots) ≡ true =
        ground (arith, has_room, size, number) in
      let after : set l.data_slots l.number (some x) ≡ full (xs ++ x ∷ []) ++ rest =
        rw (slots, number) (set-full xs x o rest) in
      let l' : Growing A = record l {
        number = (l.number + 1) % u64_mod;
        data_slots = set l.data_slots l.number (some x);
      } in
      (
        l',
        rw below refl,
        record {
          unused = rest;
          slots_lem = after;
          number_lem = omega (arith, number, fits, length-append xs (x ∷ []));
          size_lem =
              size ∙ ap length slots ∙ sym (length-set_full xs x o rest) ∙ ap length (sym after);
        },
      )

  pub append-IsFilled :
      (step : ℕ) (xs : List A) (x : A) (l : Growing A)
      → 1 ≤ step
      → length xs + step < u64_mod
      → IsFilled xs l
      → (l' : Growing A) × (append step l x ≡ done l') × IsFilled (xs ++ x ∷ []) l'
  unfolding append
  append-IsFilled step xs x l h fits f =
      let (g, has_room) = room step xs l h fits f in
      store-IsFilled xs x (grow_if_full step l) g.unused g.slots_lem g.number_lem g.size_lem
        has_room (omega arith)

  -- Elements that are appended to a list, whatever it holds, stand behind its own, in their order, and
  -- no slot out of bounds is written, where their number and the step fit in 64 bits.
  pub append_all-IsFilled :
      (step : ℕ) (xs ys : List A) (l : Growing A)
      → 1 ≤ step
      → length xs + length ys + step < u64_mod
      → IsFilled xs l
      → (l' : Growing A) × (append_all step l ys ≡ done l') × IsFilled (xs ++ ys) l'
  unfolding append_all
  append_all-IsFilled step xs [] l h fits f =
      (l, refl, subst (λ zs. IsFilled zs l) (sym (append-nil xs)) f)
  append_all-IsFilled step xs (y ∷ ys) l h fits f =
      let (l', e, f') = append-IsFilled step xs y l h (omega arith) f in
      let (l'', e', f'') =
        append_all-IsFilled step (xs ++ y ∷ []) ys l' h
          (omega (arith, fits, length-append xs (y ∷ []))) f' in
      (l'', rw e e', subst (λ zs. IsFilled zs l'') (append_assoc xs (y ∷ []) ys) f'')

  free_items-full :
      (xs : List A) (rest : List (Option A)) → free_items (length xs) (full xs ++ rest) ≡ done xs
  unfolding free_items
  free_items-full [] rest = refl
  free_items-full (x ∷ xs) rest = rw (free_items-full xs rest) refl

  no_slots-IsFilled : IsFilled [] no_slots
  no_slots-IsFilled = record { unused = []; slots_lem = refl; number_lem = refl; size_lem = refl }

  -- A list without slots holds nothing.
  nothing_held : (xs : List A) (l : Growing A) → IsFilled xs l → l.size ≡ 0 → xs ≡ []
  nothing_held [] l f h = refl
  nothing_held (x ∷ xs) l f h = absurd (omega (arith, h, f.size_lem, ap length f.slots_lem))

  pub destroy-IsFilled : (xs : List A) (l : Growing A) → IsFilled xs l → IsFilled [] (destroy l)
  destroy-IsFilled xs l f = elim (Bool-cases (l.size == 0)) [
    | inl none_left ↦
        rw none_left (subst (λ ys. IsFilled ys l) (nothing_held xs l f (ground arith)) f)
    | inr some_left ↦ rw some_left no_slots-IsFilled
  ]

  -- A destructor frees each element of its list once, in their order, and leaves an empty list.
  pub destroy_items-IsFilled :
      (xs : List A) (l : Growing A)
      → IsFilled xs l
      → (l' : Growing A) × (destroy_items l ≡ done (xs, l')) × IsFilled [] l'
  unfolding destroy_items
  destroy_items-IsFilled xs l f = elim (Bool-cases (l.size == 0)) [
    | inl none_left ↦
        let e = nothing_held xs l f (ground arith) in
        rw (none_left, e) (l, refl, subst (λ ys. IsFilled ys l) e f)
    | inr some_left ↦ (
      no_slots,
      rw (some_left, f.number_lem, f.slots_lem, free_items-full xs f.unused) refl,
      no_slots-IsFilled,
    )
  ]
