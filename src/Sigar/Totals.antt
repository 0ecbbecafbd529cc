-- ===== src/Sigar/Totals.antt =====
-- What `sigar_net_stat_get` counts.
use libsigar.Base.{
  ℕ, suc, ◌+◌, ◌^◌, ◌<◌, ◌≤◌, Bool, true, Option, none, some, List, [], ◌∷◌, ◌≡◌, refl, ◌∙◌, ap,
  arith, ltb, ◌==◌, if◌then◌else◌, length, get_or, set, length-set, get_or-set, Bool-cases, inl,
  inr, All, add32, ◌&&◌, not,
}
use libsigar.Outcome.{Outcome, done, fault, ◌>>=◌}
use libsigar.Cache.{Cache, cache_find}
use libsigar.Format.Net.{NetAddress}
use libsigar.Sigar.NetStat.{
  NetConnection, NetStat, is_tcp, tcp_listen, tcp_unknown, count_state, count_direction,
  copy_totals, net_stat_tcp, net_stat_walker, net_stat_walk,
}

-- The connections that the walk puts on one side or the other: those of TCP that do not listen.
abbrev pub is_talking : NetConnection → Bool
is_talking conn = is_tcp conn.type && not (conn.state == tcp_listen)

unfoldable pub talking : List NetConnection → ℕ
talking [] = 0
talking (conn ∷ conns) = if is_talking conn then suc (talking conns) else talking conns

-- The states that the table of states has a slot for.
abbrev pub IsCounted : NetConnection → Type 0
IsCounted conn = is_tcp conn.type ≡ true → conn.state < tcp_unknown

abbrev pub sides : NetStat → ℕ
sides stat = stat.tcp_inbound_total + stat.tcp_outbound_total

-- The connections of TCP in a state.
unfoldable pub in_state : ℕ → List NetConnection → ℕ
in_state q [] = 0
in_state q (conn ∷ conns) =
    if is_tcp conn.type && conn.state == q then suc (in_state q conns) else in_state q conns

-- No counter overflows while `n` more connections come.
pub record HasSlots (n : ℕ) (stat : NetStat) : Type 0 where
  pub slots : length stat.tcp_states ≡ tcp_unknown
  pub states_fit : (q : ℕ) → get_or stat.tcp_states q 0 + n < 2 ^ 31
  pub sides_fit : sides stat + n < 2 ^ 31

-- What the connections add to the statistics.
pub record Counts (conns : List NetConnection) (stat stat' : NetStat) : Type 0 where
  pub states_lem :
      (q : ℕ) → get_or stat'.tcp_states q 0 ≡ get_or stat.tcp_states q 0 + in_state q conns
  pub sides_lem : sides stat' ≡ sides stat + talking conns

-- A result, and no fault, with a property.
abbrev pub Gives : {A : Type 0} → (A → Type 0) → Outcome A → Type 0
Gives P (done s) = P s
Gives P fault = ⊥

Gives-bind :
    {A B : Type 0} (P : A → Type 0) (Q : B → Type 0) (x : Outcome A) (f : A → Outcome B)
    → Gives P x
    → ((s : A) → P s → Gives Q (f s))
    → Gives Q (x >>= f)
Gives-bind P Q (done s) f h k = k s h
Gives-bind P Q fault f h k = elim h [ ]

Gives-imp :
    {A : Type 0} (P Q : A → Type 0) (x : Outcome A) → ((s : A) → P s → Q s) → Gives P x → Gives Q x
Gives-imp P Q (done s) k h = k s h
Gives-imp P Q fault k h = h

HasSlots-fewer : (m n : ℕ) (stat : NetStat) → n ≤ m → HasSlots m stat → HasSlots n stat
HasSlots-fewer m n stat le h = record {
  slots = h.slots;
  states_fit = λ q. omega (arith, h.states_fit q);
  sides_fit = omega (arith, h.sides_fit);
}

HasSlots-copy_totals : (n : ℕ) (stat : NetStat) → HasSlots n stat → HasSlots n (copy_totals stat)
HasSlots-copy_totals n stat h = record {
  slots = h.slots;
  states_fit = h.states_fit;
  sides_fit = h.sides_fit;
}

Counts-trans :
    (conn : NetConnection) (conns : List NetConnection) (a b c : NetStat)
    → Counts (conn ∷ []) a b
    → Counts conns b c
    → Counts (conn ∷ conns) a c
unfolding talking in_state
Counts-trans conn conns a b c h k = record {
  states_lem = λ q. ground (arith, h.states_lem q, k.states_lem q);
  sides_lem = ground (arith, h.sides_lem, k.sides_lem);
}

states-add :
    (states : List ℕ) (state q : ℕ)
    → state < length states
    → get_or states state 0 + 1 < 2 ^ 31
    → get_or (set states state (add32 (get_or states state 0) 1)) q 0
      ≡ get_or states q 0 + (if state == q then 1 else 0)
states-add states state q h fit =
    ground (arith, get_or-set states state q (add32 (get_or states state 0) 1) 0 h)

sides-count_direction :
    {E : Type 0} (e : Option E) (stat : NetStat)
    → sides stat + 1 < 2 ^ 31
    → (sides (count_direction e stat) ≡ sides stat + 1)
      × ((count_direction e stat).tcp_states ≡ stat.tcp_states)
sides-count_direction none stat h = (omega arith, refl)
sides-count_direction (some e) stat h = (omega arith, refl)

-- A counted state, and `t` more on the sides.
counted_lem :
    (n t : ℕ) (conn : NetConnection) (stat stat' : NetStat)
    → HasSlots (suc n) stat
    → is_tcp conn.type ≡ true
    → conn.state < tcp_unknown
    → stat'.tcp_states
      ≡ set stat.tcp_states conn.state (add32 (get_or stat.tcp_states conn.state 0) 1)
    → t ≡ talking (conn ∷ [])
    → sides stat' ≡ sides stat + t
    → t ≤ 1
    → HasSlots n stat' × Counts (conn ∷ []) stat stat'
unfolding in_state
counted_lem n t conn stat stat' h tcp low states side total small =
    let at = λ (q : ℕ).
      ap (λ l. get_or l q 0) states
      ∙ states-add stat.tcp_states conn.state q (omega (arith, h.slots))
          (omega (arith, h.states_fit conn.state)) in
    (
      record {
        slots = ap length states ∙ length-set stat.tcp_states _ _ ∙ h.slots;
        states_fit = λ q. ground (arith, at q, h.states_fit q);
        sides_fit = omega (arith, h.sides_fit);
      },
      record { states_lem = λ q. ground (arith, at q); sides_lem = omega arith },
    )

module _ (now : ℕ) where
  abbrev Stepped : ℕ → List NetConnection → NetStat → NetStat × Cache NetAddress → Type 0
  Stepped n conns stat s = HasSlots n s.0 × Counts conns stat s.0

  tcp-Stepped :
      (n : ℕ) (conn : NetConnection) (stat : NetStat) (c : Cache NetAddress)
      → is_tcp conn.type ≡ true
      → conn.state < tcp_unknown
      → HasSlots (suc n) stat
      → Gives (Stepped n (conn ∷ []) stat) (net_stat_tcp now conn (stat, c))
  unfolding net_stat_tcp count_state talking
  tcp-Stepped n conn stat c tcp low h =
      let known : ltb conn.state tcp_unknown ≡ true = ground arith in
      let counted = record stat {
        tcp_states = set stat.tcp_states conn.state (add32 (get_or stat.tcp_states conn.state 0) 1);
      } in
      let e = (cache_find now now conn.local_port c).0 in
      elim (Bool-cases (conn.state == tcp_listen)) [
        | inl listening ↦
            rw (known, listening)
              (counted_lem n 0 conn stat counted h tcp low refl (rw (tcp, listening) refl)
                (omega arith) (omega arith))
        | inr other ↦
            let (side, states) = sides-count_direction e counted (omega (arith, h.sides_fit)) in
            rw (known, other)
              (counted_lem n 1 conn stat (count_direction e counted) h tcp low states
                (rw (tcp, other) refl) (omega (arith, side)) (omega arith))
      ]

  walker-Stepped :
      (n : ℕ) (conn : NetConnection) (stat : NetStat) (c : Cache NetAddress)
      → IsCounted conn
      → HasSlots (suc n) stat
      → Gives (Stepped n (conn ∷ []) stat) (net_stat_walker now conn (stat, c))
  unfolding net_stat_walker talking in_state
  walker-Stepped n conn stat c counted h = elim (Bool-cases (is_tcp conn.type)) [
    | inl tcp ↦ rw tcp (
        Gives-bind (Stepped n (conn ∷ []) stat) (Stepped n (conn ∷ []) stat) _ _
          (tcp-Stepped n conn stat c tcp (counted tcp) h)
          (λ s r. (
            HasSlots-copy_totals n s.0 r.0,
            record { states_lem = r.1.states_lem; sides_lem = r.1.sides_lem },
          )))
    | inr other ↦ rw other (
      HasSlots-copy_totals n stat (HasSlots-fewer (suc n) n stat (omega arith) h),
      record { states_lem = λ q. rw other (omega arith); sides_lem = rw other (omega arith) },
    )
  ]

  walk-Stepped :
      (n : ℕ) (conns : List NetConnection) (stat : NetStat) (c : Cache NetAddress)
      → All IsCounted conns
      → HasSlots (length conns + n) stat
      → Gives (Stepped n conns stat) (net_stat_walk now conns (stat, c))
  unfolding net_stat_walk talking in_state
  walk-Stepped n [] stat c counted h = (
    HasSlots-fewer (length {A = NetConnection} [] + n) n stat (omega arith) h,
    record { states_lem = λ q. omega arith; sides_lem = omega arith },
  )
  walk-Stepped n (conn ∷ conns) stat c (first, rest) h =
      Gives-bind (Stepped (length conns + n) (conn ∷ []) stat) (Stepped n (conn ∷ conns) stat) _ _
        (walker-Stepped (length conns + n) conn stat c first
          (HasSlots-fewer (suc (length conns) + n) _ stat (omega arith) h))
        (λ s r.
          Gives-imp (Stepped n conns s.0) (Stepped n (conn ∷ conns) stat) _
            (λ t u. (u.0, Counts-trans conn conns stat s.0 t.0 r.1 u.1))
            (walk-Stepped n conns s.0 s.1 rest r.0))

  -- When every connection of TCP has a state below SIGAR_TCP_UNKNOWN and no counter can overflow, the
  -- walk is no fault: it adds to the count of each state the connections of TCP in it, and to the
  -- inbound and outbound connections together those of TCP that do not listen.
  pub net_stat_walk-Counts :
      (conns : List NetConnection) (stat : NetStat) (c : Cache NetAddress)
      → All IsCounted conns
      → HasSlots (length conns) stat
      → Gives (λ s. Counts conns stat s.0) (net_stat_walk now conns (stat, c))
  net_stat_walk-Counts conns stat c counted h =
      Gives-imp (Stepped 0 conns stat) (λ s. Counts conns stat s.0) _ (λ s r. r.1)
        (walk-Stepped 0 conns stat c counted (HasSlots-fewer (length conns) _ stat (omega arith) h))
