-- ===== src/Linux/Follow.antt =====
-- What a walk over the connections does depends on its callback only: if one callback follows another, so
-- do their walks. With it `sigar_net_stat_get` counts what `sigar_net_connection_list_get` lists.
use libsigar.Base.{
  ℕ, Bool, true, false, List, [], ◌∷◌, ◌++◌, ◌≡◌, refl, sym, ◌∙◌, ap, ◌==◌, if◌then◌else◌,
  Bool-cases, inl, inr, Option, none, some,
}
use libsigar.Outcome.{enoent_status, Answer, answer, failed, Outcome, done, fault, ◌>>=◌}
use libsigar.Text.{Bytes}
use libsigar.Cache.{Cache}
use libsigar.Format.Net.{NetAddress}
use libsigar.Sigar.NetStat.{
  ConnectionType, netconn_tcp, netconn_udp, netconn_raw, NetConnection, NetStat, net_stat_walker,
  net_stat_walk,
}
use libsigar.Linux.Connections.{
  Flags, read_connection, offer, read_lines, proc_net_read, if_ok, may_miss, read_protocol,
  net_connection_walk, stat_callback, list_callback,
}

bind_assoc :
    {A B C : Type 0} (x : Outcome A) (f : A → Outcome B) (g : B → Outcome C)
    → ((x >>= f) >>= g) ≡ (x >>= λ a. f a >>= g)
bind_assoc (done a) f g = refl
bind_assoc fault f g = refl

bind_done : {A : Type 0} (x : Outcome A) → (x >>= λ a. done a) ≡ x
bind_done (done a) = refl
bind_done fault = refl

abbrev no_result : {A B : Type 0} → A → Outcome B
no_result a = fault

bind_fault : {A B : Type 0} (x : Outcome A) → (x >>= no_result {A = A} {B = B}) ≡ fault
bind_fault (done a) = refl
bind_fault fault = refl

bind_congr :
    {A B : Type 0} (x : Outcome A) (f g : A → Outcome B)
    → ((a : A) → f a ≡ g a)
    → (x >>= f) ≡ (x >>= g)
bind_congr (done a) f g h = h a
bind_congr fault f g h = refl

module _ {S T : Type 0} (W : T → Outcome S) where
  -- A result of the second walk, as one of the first.
  abbrev pub moved : {R : Type 0} → R × T → Outcome (R × S)
  moved r = W r.1 >>= λ s. done (r.0, s)

  abbrev pub Follows : {R : Type 0} → (S → Outcome (R × S)) → (T → Outcome (R × T)) → Type 0
  Follows f g = (t : T) → (W t >>= f) ≡ (g t >>= moved)

  then-Follows :
      {R Q : Type 0} (f : S → Outcome (R × S)) (g : T → Outcome (R × T))
      (k : R × S → Outcome (Q × S)) (l : R × T → Outcome (Q × T))
      → Follows f g
      → ((r : R × T) → (moved r >>= k) ≡ (l r >>= moved))
      → Follows (λ s. f s >>= k) (λ t. g t >>= l)
  then-Follows f g k l h after t =
      sym (bind_assoc (W t) f k)
      ∙ ap (λ x. x >>= k) (h t)
      ∙ bind_assoc (g t) moved k
      ∙ bind_congr (g t) _ _ after
      ∙ sym (bind_assoc (g t) l moved)

  module _ (strtoul16 : Bytes → ℕ × Bytes) (add : NetConnection → S → Outcome (Bool × S))
      (list : NetConnection → T → Outcome (Bool × T))
      (follows : (conn : NetConnection) → Follows (add conn) (list conn)) where
    offer-Follows :
        (found : Option NetConnection)
        → Follows (offer strtoul16 add found) (offer strtoul16 list found)
    offer-Follows none t = refl
    offer-Follows (some conn) t = follows conn t

    -- A step of the loop, whatever the line is read as.
    line-Follows :
        (x : Outcome (Option NetConnection)) (more : S → Outcome S) (more' : T → Outcome T) (t : T)
        → ((u : T) → (W u >>= more) ≡ (more' u >>= W))
        → (W t >>= λ s. x >>= λ found.
            offer strtoul16 add found s >>= λ next. if next.0 then more next.1 else done next.1)
          ≡ ((x >>= λ found. offer strtoul16 list found t >>= λ next.
                if next.0 then more' next.1 else done next.1)
              >>= W)
    line-Follows fault more more' t ih = bind_fault (W t)
    line-Follows (done found) more more' t ih =
        sym (bind_assoc (W t) (offer strtoul16 add found) _)
        ∙ ap (λ x. x >>= λ next. if next.0 then more next.1 else done next.1)
            (offer-Follows found t)
        ∙ bind_assoc (offer strtoul16 list found t) moved _
        ∙ bind_congr (offer strtoul16 list found t) _ _ next_lem
        ∙ sym (bind_assoc (offer strtoul16 list found t) _ W)
      where
        next_lem :
            (r : Bool × T)
            → (moved r >>= λ next. if next.0 then more next.1 else done next.1)
              ≡ ((if r.0 then more' r.1 else done r.1) >>= W)
        next_lem (true, u) = bind_assoc (W u) _ _ ∙ ih u
        next_lem (false, u) = bind_assoc (W u) _ _ ∙ bind_done (W u)

    lines-Follows :
        (type : ConnectionType) (flags : Flags) (lines : List Bytes) (t : T)
        → (W t >>= read_lines strtoul16 add type flags lines)
          ≡ (read_lines strtoul16 list type flags lines t >>= W)
    unfolding read_lines
    lines-Follows type flags [] t = bind_done (W t)
    lines-Follows type flags (line ∷ lines) t =
        line-Follows (read_connection strtoul16 type flags line)
          (read_lines strtoul16 add type flags lines) (read_lines strtoul16 list type flags lines) t
          (lines-Follows type flags lines)

    read-Follows :
        (type : ConnectionType) (flags : Flags) (file : Answer (List Bytes))
        → Follows
            (proc_net_read strtoul16 add type flags file)
            (proc_net_read strtoul16 list type flags file)
    unfolding proc_net_read
    read-Follows type flags (failed st) t = refl
    read-Follows type flags (answer []) t = refl
    read-Follows type flags (answer (first ∷ lines)) t =
        sym (bind_assoc (W t) (read_lines strtoul16 add type flags lines) _)
        ∙ ap (λ x. x >>= λ s. done (0, s)) (lines-Follows type flags lines t)
        ∙ bind_assoc (read_lines strtoul16 list type flags lines t) W _
        ∙ sym (bind_assoc (read_lines strtoul16 list type flags lines t) _ moved)

    if_ok-Follows :
        (f f' : S → Outcome (ℕ × S)) (g g' : T → Outcome (ℕ × T))
        → Follows f g
        → Follows f' g'
        → Follows (λ s. if_ok strtoul16 add (f s) f') (λ t. if_ok strtoul16 list (g t) g')
    if_ok-Follows f f' g g' h h' = then-Follows f g _ _ h after
      where
        after :
            (r : ℕ × T)
            → (moved r >>= λ r'. if r'.0 == 0 then f' r'.1 else done r')
              ≡ ((if r.0 == 0 then g' r.1 else done r) >>= moved)
        after (st, u) =
            bind_assoc (W u) _ _
            ∙ (elim (Bool-cases (st == 0)) [ inl ok ↦ rw ok (h' u) | inr bad ↦ rw bad refl ])

    may_miss-Follows :
        (f : S → Outcome (ℕ × S)) (g : T → Outcome (ℕ × T))
        → Follows f g
        → Follows (λ s. may_miss strtoul16 add (f s)) (λ t. may_miss strtoul16 list (g t))
    may_miss-Follows f g h = then-Follows f g _ _ h after
      where
        after :
            (r : ℕ × T)
            → (moved r >>= λ r'. done (if r'.0 == enoent_status then (0, r'.1) else r'))
              ≡ moved (if r.0 == enoent_status then (0, r.1) else r)
        after (st, u) = bind_assoc (W u) _ _ ∙ (elim (Bool-cases (st == enoent_status)) [
          | inl missing ↦ rw missing refl
          | inr other ↦ rw other refl
        ])

    protocol-Follows :
        (wanted : Bool) (type : ConnectionType) (flags : Flags)
        (files : Answer (List Bytes) × Answer (List Bytes))
        → Follows
            (read_protocol strtoul16 add wanted type flags files)
            (read_protocol strtoul16 list wanted type flags files)
    unfolding read_protocol
    protocol-Follows false type flags files t = refl
    protocol-Follows true type flags (file, file6) t =
        if_ok-Follows (proc_net_read strtoul16 add type flags file) _
          (proc_net_read strtoul16 list type flags file) _ (read-Follows type flags file)
          (may_miss-Follows (proc_net_read strtoul16 add type flags file6)
            (proc_net_read strtoul16 list type flags file6) (read-Follows type flags file6))
          t

    pub walk-Follows :
        (flags : Flags) (files : ConnectionType → Answer (List Bytes) × Answer (List Bytes))
        → Follows
            (net_connection_walk strtoul16 add flags files)
            (net_connection_walk strtoul16 list flags files)
    unfolding net_connection_walk
    walk-Follows flags files =
        if_ok-Follows _ _ _ _ (protocol-Follows flags.tcp netconn_tcp flags (files netconn_tcp)) (
          if_ok-Follows _ _ _ _ (protocol-Follows flags.udp netconn_udp flags (files netconn_udp))
            (protocol-Follows flags.raw netconn_raw flags (files netconn_raw)))

net_stat_walk-snoc :
    (now : ℕ) (conns : List NetConnection) (conn : NetConnection) (s : NetStat × Cache NetAddress)
    → net_stat_walk now (conns ++ conn ∷ []) s
      ≡ (net_stat_walk now conns s >>= net_stat_walker now conn)
unfolding net_stat_walk
net_stat_walk-snoc now [] conn s = bind_done (net_stat_walker now conn s)
net_stat_walk-snoc now (c ∷ conns) conn s =
    bind_congr (net_stat_walker now c s) _ _ (λ s'. net_stat_walk-snoc now conns conn s')
    ∙ sym
        (bind_assoc (net_stat_walker now c s) (net_stat_walk now conns) (net_stat_walker now conn))

-- The statistics that are taken during a walk over the files of the kernel are those of the list that
-- the same walk makes, with its status, also where one of the two is a fault.
pub net_connection_walk-net_stat_walk :
    (strtoul16 : Bytes → ℕ × Bytes) (now : ℕ) (flags : Flags)
    (files : ConnectionType → Answer (List Bytes) × Answer (List Bytes))
    (s : NetStat × Cache NetAddress)
    → net_connection_walk strtoul16 (stat_callback now) flags files s ≡ (
        net_connection_walk strtoul16 list_callback flags files [] >>= λ r.
        net_stat_walk now r.1 s >>= λ s'. done (r.0, s'))
unfolding net_stat_walk list_callback
net_connection_walk-net_stat_walk strtoul16 now flags files s =
    walk-Follows (λ conns. net_stat_walk now conns s) strtoul16 (stat_callback now) list_callback
      (λ conn conns.
        sym (bind_assoc (net_stat_walk now conns s) (net_stat_walker now conn) _)
        ∙ ap (λ x. x >>= λ s'. done (true, s')) (sym (net_stat_walk-snoc now conns conn s)))
      flags files []
