-- ===== src/Sigar/Listed.antt =====
-- The operations of src/sigar.c that fill a growing list by a call of the platform. What the platform
-- hands out is a list, with the status that it ends with.
use libsigar.Base.{
  Bool-cases, inl, inr, ℕ, ◌+◌, ◌<◌, Option, none, some, List, [], ◌∷◌, ◌≡◌, refl, ap, fun_ext,
  arith, ◌==◌, length, if◌then◌else◌, u64_mod,
}
use libsigar.Text.{Bytes}
use libsigar.Outcome.{Outcome, done, ◌>>=◌}
use libsigar.Sigar.NetStat.{NetConnection}
use libsigar.Sigar.Growing.{
  Growing, append, append_all, destroy, proc_list_max, proc_list_create, proc_args_max,
  proc_args_create, proc_args_destroy, net_connection_list_max, net_connection_list_create,
  net_connection_list_destroy,
}
use libsigar.Sigar.Filled.{
  IsFilled, create-IsFilled, destroy-IsFilled, append_all-IsFilled, destroy_items-IsFilled,
}

-- `net_connection_list_walker`.
unfoldable pub net_connection_list_walker :
    NetConnection → Growing NetConnection → Outcome (Growing NetConnection)
net_connection_list_walker conn connlist = append net_connection_list_max connlist conn

-- The walk calls back for each connection.
unfoldable pub call_back :
    List NetConnection → Growing NetConnection → Outcome (Growing NetConnection)
call_back [] connlist = done connlist
call_back (conn ∷ conns) connlist = net_connection_list_walker conn connlist >>= call_back conns

-- The status and the list; its slots are freed after an error.
unfoldable pub walk_list_get : List NetConnection → ℕ → Outcome (ℕ × Growing NetConnection)
walk_list_get walk status = call_back walk net_connection_list_create >>= λ connlist.
    done (status, if status == 0 then connlist else net_connection_list_destroy connlist)

-- The same with the walk of the sockets that listen.
unfoldable pub net_connection_listeners_get :
    List NetConnection → ℕ → Outcome (ℕ × Growing NetConnection)
net_connection_listeners_get listeners status =
    call_back listeners net_connection_list_create >>= λ connlist.
    done (status, if status == 0 then connlist else net_connection_list_destroy connlist)

-- The status, what is freed, and the list.
unfoldable pub proc_args_get : List Bytes → ℕ → Outcome (ℕ × List Bytes × Growing Bytes)
proc_args_get args status = append_all proc_args_max proc_args_create args >>= λ procargs.
    if status == 0
    then done (status, [], procargs)
    else (proc_args_destroy procargs >>= λ r. done (status, r.0, r.1))

-- The list of the handle, `sigar->pids`, is created once and used again.
abbrev pub reused_list : Option (Growing ℕ) → Growing ℕ
reused_list none = proc_list_create
reused_list (some pids) = record pids { number = 0 }

unfoldable pub proc_list_reuse : Option (Growing ℕ) → List ℕ → ℕ → Outcome (ℕ × Growing ℕ)
proc_list_reuse pids listed status =
    append_all proc_list_max (reused_list pids) listed >>= λ proclist. done (status, proclist)

call_back-append_all :
    (conns : List NetConnection) (connlist : Growing NetConnection)
    → call_back conns connlist ≡ append_all net_connection_list_max connlist conns
unfolding call_back append_all net_connection_list_walker
call_back-append_all [] connlist = refl
call_back-append_all (conn ∷ conns) connlist =
    ap (λ f. append net_connection_list_max connlist conn >>= f)
      (fun_ext (λ l. call_back-append_all conns l))

-- A walk that ends well gives the list of its connections, in its order, and a walk that fails its
-- status and a list that holds nothing; no slot out of bounds is written. The connections and the step
-- fit in 64 bits.
pub walk_list_get-IsFilled :
    (walk : List NetConnection) (status : ℕ)
    → length walk + net_connection_list_max < u64_mod
    → (connlist : Growing NetConnection) × (walk_list_get walk status ≡ done (status, connlist))
      × IsFilled (if status == 0 then walk else []) connlist
unfolding walk_list_get
walk_list_get-IsFilled walk status fits =
    let (l, e, f) =
      append_all-IsFilled net_connection_list_max [] walk net_connection_list_create (omega arith)
        (omega (arith, fits)) (create-IsFilled net_connection_list_max) in
    elim (Bool-cases (status == 0)) [
      | inl ok ↦ rw (ok, call_back-append_all, e) (l, refl, f)
      | inr failure ↦
          rw (failure, call_back-append_all, e) (destroy l, refl, destroy-IsFilled walk l f)
    ]

-- The arguments of a process are those that the platform lists; after an error each that was listed is
-- freed, and nothing is held.
pub proc_args_get-IsFilled :
    (args : List Bytes) (status : ℕ)
    → length args + proc_args_max < u64_mod
    → (procargs : Growing Bytes) × (proc_args_get args status
        ≡ done (status, (if status == 0 then [] else args), procargs))
      × IsFilled (if status == 0 then args else []) procargs
unfolding proc_args_get
proc_args_get-IsFilled args status fits =
    let (l, e, f) =
      append_all-IsFilled proc_args_max [] args proc_args_create (omega arith) (omega (arith, fits))
        (create-IsFilled proc_args_max) in
    elim (Bool-cases (status == 0)) [
      | inl ok ↦ rw (ok, e) (l, refl, f)
      | inr failure ↦
          let (l', e', f') = destroy_items-IsFilled args l f in rw (failure, e, e') (l', refl, f')
    ]

-- The list of the handle holds the processes that are listed last, whatever it held before.
pub proc_list_reuse-IsFilled :
    (before listed : List ℕ) (pids : Growing ℕ) (status : ℕ)
    → IsFilled before pids
    → length listed + proc_list_max < u64_mod
    → (proclist : Growing ℕ) × (proc_list_reuse (some pids) listed status ≡ done (status, proclist))
      × IsFilled listed proclist
unfolding proc_list_reuse
proc_list_reuse-IsFilled before listed pids status f fits =
    let g : IsFilled [] (record pids { number = 0 }) = record {
      unused = pids.data_slots;
      slots_lem = refl;
      number_lem = refl;
      size_lem = f.size_lem;
    } in
    let (l, e, h) =
      append_all-IsFilled proc_list_max [] listed (record pids { number = 0 }) (omega arith)
        (omega (arith, fits)) g in
    (l, rw e refl, h)
