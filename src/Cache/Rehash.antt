-- ===== src/Cache/Rehash.antt =====
-- A rehash moves every entry to the chain of its key in an array of another size.
use native.Mathlib.Nat.{add-zero, zero-add}
use libsigar.Base.{
  ℕ, suc, ◌+◌, ◌%◌, ◌≤◌, ◌<◌, [], ◌∷◌, List, Option, none, ◌≡◌, refl, arith, ◌==◌, ◌∙◌, ltb,
  append-nil, Bool-cases, inl, inr, ==_iff, ==_self, ◌⊎◌, ◌≢◌, le→ltb, lt→ltb, subst, if◌then◌else◌,
  length, get_or, replicate, length-set, length-replicate,
}
use libsigar.Cache.{
  Entry, Chain, find_entry, push_entry, rehash_chain, rehash_entries, destroy_chain,
  destroy_entries, value_list,
}
use libsigar.Cache.Chains.{
  occurs, weigh, weigh-append, or_else, or_else-none, find-eq-none, occurs-eq-zero,
}
use libsigar.Cache.Buckets.{
  reads, IsPlaced, population, population-set, weigh-set, reads-set, set-IsPlaced,
  replicate-IsPlaced, reads-replicate, population-replicate, destroy-replicate,
}

ltb-suc : (x j : ℕ) → (x ≡ j) ⊎ ((ltb x (suc j) ≡ ltb x j) × (x ≢ j))
ltb-suc x j = elim (Bool-cases (x == j)) [
  | inl same ↦ inl ((==_iff x j).0 same)
  | inr other ↦ inr (ground arith, ground arith)
]

module _ {ℓ} {V : Type ℓ} where
  -- `es` has been added to `bs`, all in place.
  pub record Added (bs : List (Chain V)) (es : Chain V) (result : List (Chain V)) : Type ℓ where
    pub width : length result ≡ length bs
    pub placed : IsPlaced result
    pub reads_lem : (q : ℕ) → reads result q ≡ or_else (find_entry q es) (reads bs q)
    pub population_lem : population result ≡ population bs + length es
    pub weigh_lem :
        (w : V → ℕ)
        → weigh w (destroy_entries result)
          ≡ weigh w (destroy_entries bs) + weigh w (destroy_chain es)

  push_reads :
      (e : Entry V) (bs : List (Chain V)) (q : ℕ)
      → (if q % length bs == e.id % length bs
          then find_entry q (e ∷ get_or bs (e.id % length bs) [])
          else reads bs q)
        ≡ or_else (find_entry q (e ∷ [])) (reads bs q)
  unfolding find_entry reads
  push_reads e bs q = elim (Bool-cases (e.id == q)) [
    | inl same ↦ rw (same, (==_iff e.id q).0 same, ==_self)
    | inr other ↦ elim (Bool-cases (q % length bs == e.id % length bs)) [
      | inl at ↦ rw (at, other, ← (==_iff (q % length bs) (e.id % length bs)).0 at)
      | inr away ↦ rw (away, other)
    ]
  ]

  pub push-Added :
      (e : Entry V) (bs : List (Chain V))
      → 0 < length bs
      → IsPlaced bs
      → reads bs e.id ≡ none
      → Added bs (e ∷ []) (push_entry (length bs) e bs)
  unfolding push_entry occurs destroy_chain reads
  push-Added e bs pos placed absent =
      let ix = e.id % length bs in
      let h : ix < length bs = omega arith in
      let c = e ∷ get_or bs ix [] in
      record {
        width = length-set bs ix c;
        placed =
            set-IsPlaced bs ix c h placed
              (λ q. ground (arith, placed q ix, occurs-eq-zero e.id (get_or bs ix []) absent));
        reads_lem = λ q. rw (reads-set bs ix c h q) (push_reads e bs q);
        population_lem = omega (arith, population-set bs ix c h);
        weigh_lem = λ w. simp append-nil (
            omega (
              arith,
              weigh-set w bs ix c h,
              weigh-append w (value_list e.value) (destroy_chain (get_or bs ix [])),
            ));
      }

  -- The loop over one chain.
  pub rehash_chain-Added :
      (n : ℕ) (es : Chain V) (bs : List (Chain V))
      → length bs ≡ n
      → 0 < n
      → IsPlaced bs
      → ((q : ℕ) → occurs q es ≤ 1)
      → ((q : ℕ) → 0 < occurs q es → reads bs q ≡ none)
      → Added bs es (rehash_chain n es bs)
  unfolding rehash_chain occurs destroy_chain find_entry weigh
  rehash_chain-Added n [] bs width pos placed once apart = record {
    width = refl;
    placed = placed;
    reads_lem = λ q. refl;
    population_lem = omega arith;
    weigh_lem = λ w. omega arith;
  }
  rehash_chain-Added n (e ∷ es) bs width pos placed once apart =
      let step =
        rw width at
          (push-Added e bs (omega arith) placed (apart e.id (rw ==_self (omega arith)))) in
      let rest =
        rehash_chain-Added n es (push_entry n e bs) (step.width ∙ width) pos step.placed
          (λ q. omega (arith, once q)) (λ q h. ground (arith, step.reads_lem q, once q, apart q)) in
      record {
        width = rest.width ∙ step.width;
        placed = rest.placed;
        reads_lem = λ q.
            ground (arith, rest.reads_lem q, step.reads_lem q, apart q, once q, find-eq-none q es);
        population_lem = omega (arith, rest.population_lem, step.population_lem);
        weigh_lem = λ w. omega (
          arith,
          rest.weigh_lem w,
          step.weigh_lem w,
          weigh-append w (value_list e.value) [],
          weigh-append w (value_list e.value) (destroy_chain es),
        );
      }

  -- The loop over the chains of an array of `m` chains, of which `j` are done: the new array reads as
  -- the old one on the keys of the chains that are done.
  pub record Moved (n m : ℕ) (old : ℕ → Option (Entry V)) (j : ℕ) (bs : List (Chain V))
      : Type ℓ where
    pub width : length bs ≡ n
    pub placed : IsPlaced bs
    pub reads_lem : (q : ℕ) → reads bs q ≡ (if ltb (q % m) j then old q else none)

  -- What is left of the old array.
  pub record Rest (m : ℕ) (old : ℕ → Option (Entry V)) (j : ℕ) (cs : List (Chain V)) : Type ℓ where
    pub placed : (q i : ℕ) → occurs q (get_or cs i []) ≤ (if q % m == j + i then 1 else 0)
    pub reads_lem : (q i : ℕ) → q % m ≡ j + i → find_entry q (get_or cs i []) ≡ old q

  Rest-tail :
      {m j : ℕ} {old : ℕ → Option (Entry V)} (c : Chain V) (cs : List (Chain V))
      → Rest m old j (c ∷ cs)
      → Rest m old (suc j) cs
  Rest-tail {m} {j} c cs r = record {
    placed = λ q i. ground (arith, r.placed q (suc i));
    reads_lem = λ q i h. r.reads_lem q (suc i) (omega arith);
  }

  Moved-chain :
      {n m j : ℕ} {old : ℕ → Option (Entry V)} (c : Chain V) (cs : List (Chain V))
      {bs : List (Chain V)}
      → 0 < n
      → Rest m old j (c ∷ cs)
      → Moved n m old j bs
      → Added bs c (rehash_chain n c bs) × Moved n m old (suc j) (rehash_chain n c bs)
  Moved-chain {n} {m} {j} {old} c cs {bs} pos r v =
      let once : (q : ℕ) → occurs q c ≤ 1 = λ q. ground (arith, r.placed q 0) in
      let apart : (q : ℕ) → 0 < occurs q c → reads bs q ≡ none =
        λ q h. ground (arith, r.placed q 0, v.reads_lem q) in
      let a = rehash_chain-Added n c bs v.width pos v.placed once apart in
      (
        a,
        record {
          width = a.width ∙ v.width;
          placed = a.placed;
          reads_lem = λ q. elim (ltb-suc (q % m) j) [
            | inl here ↦ rw (
              a.reads_lem q,
              v.reads_lem q,
              here,
              r.reads_lem q 0 (omega arith),
              le→ltb j j (omega arith),
              lt→ltb j (suc j) (omega arith),
              or_else-none,
            )
            | inr (same, other) ↦
                rw (a.reads_lem q, same, find-eq-none q c (ground (arith, r.placed q 0)))
                  (v.reads_lem q)
          ];
        },
      )

  rehash_entries-Moved :
      (n m : ℕ) (old : ℕ → Option (Entry V)) (j : ℕ) (cs bs : List (Chain V))
      → 0 < n
      → Rest m old j cs
      → Moved n m old j bs
      → Moved n m old (j + length cs) (rehash_entries n cs bs)
        × (population (rehash_entries n cs bs) ≡ population bs + population cs)
        × ((w : V → ℕ)
            → weigh w (destroy_entries (rehash_entries n cs bs))
              ≡ weigh w (destroy_entries bs) + weigh w (destroy_entries cs))
  unfolding rehash_entries population destroy_entries weigh
  rehash_entries-Moved n m old j [] bs pos r v = (rw add-zero v, omega arith, λ w. omega arith)
  rehash_entries-Moved n m old j (c ∷ cs) bs pos r v =
      let (a, v') = Moved-chain c cs pos r v in
      let (done, many, heavy) =
        rehash_entries-Moved n m old (suc j) cs (rehash_chain n c bs) pos (Rest-tail c cs r) v' in
      (
        subst (λ k. Moved n m old k (rehash_entries n cs (rehash_chain n c bs))) (omega arith) done,
        omega (arith, a.population_lem),
        λ w.
            omega (
              arith,
              heavy w,
              a.weigh_lem w,
              weigh-append w (destroy_chain c) (destroy_entries cs),
            ),
      )

  -- A rehash keeps what every search finds, how many entries there are, and their values.
  pub record Rehashed (n : ℕ) (bs result : List (Chain V)) : Type ℓ where
    pub width : length result ≡ n
    pub placed : IsPlaced result
    pub reads_lem : (q : ℕ) → reads result q ≡ reads bs q
    pub population_lem : population result ≡ population bs
    pub weigh_lem : (w : V → ℕ) → weigh w (destroy_entries result) ≡ weigh w (destroy_entries bs)

  pub rehash_entries-Rehashed :
      (n : ℕ) (bs : List (Chain V))
      → 0 < n
      → 0 < length bs
      → IsPlaced bs
      → Rehashed n bs (rehash_entries n bs (replicate n []))
  unfolding reads weigh
  rehash_entries-Rehashed n bs pos filled placed =
      let start : Moved n (length bs) (reads bs) 0 (replicate n []) = record {
        width = length-replicate n [];
        placed = replicate-IsPlaced V n;
        reads_lem = λ q. rw (reads-replicate V n q) (ground arith);
      } in
      let rest : Rest (length bs) (reads bs) 0 bs = record {
        placed = λ q i. ground (arith, placed q i);
        reads_lem = λ q i h. rw h (rw zero-add);
      } in
      let (done, many, heavy) =
        rehash_entries-Moved n (length bs) (reads bs) 0 bs (replicate n []) pos rest start in
      record {
        width = done.width;
        placed = done.placed;
        reads_lem = λ q. ground (arith, done.reads_lem q);
        population_lem = omega (arith, population-replicate V n);
        weigh_lem = λ w. rw (heavy w, destroy-replicate V n) (omega arith);
      }
