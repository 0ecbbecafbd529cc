-- ===== src/Sigar/Growing.antt =====
-- The lists that grow: each of the ten types of src/sigar.c is an array with the number of its elements
-- and the number of its slots, created, enlarged and destroyed by the same three functions, which
-- differ in the step. An array is the list of its slots, with no value in one that was not written; a
-- write or a read past its end is a fault.
use libsigar.Base.{
  ℕ, zero, suc, ◌+◌, ◌%◌, Option, none, some, List, [], ◌∷◌, ◌++◌, ltb, leb, ◌==◌, if◌then◌else◌,
  length, set, replicate, u64_mod,
}
use libsigar.Text.{Bytes}
use libsigar.Outcome.{Outcome, done, fault, ◌>>=◌}

pub record Growing (A : Type 0) : Type 0 where
  pub number : ℕ
  pub size : ℕ
  pub data_slots : List (Option A)

module _ {A : Type 0} where
  abbrev pub create : ℕ → Growing A
  create step = record { number = 0; size = step; data_slots = replicate step none }

  -- `realloc` keeps the slots that there are.
  abbrev pub grow : ℕ → Growing A → Growing A
  grow step l = record {
    number = l.number;
    size = (l.size + step) % u64_mod;
    data_slots = l.data_slots ++ replicate step none;
  }

  -- The `_GROW` macro.
  abbrev pub grow_if_full : ℕ → Growing A → Growing A
  grow_if_full step l = if leb l.size l.number then grow step l else l

  -- `list->data[list->number++] = x`.
  abbrev pub store : Growing A → A → Outcome (Growing A)
  store l x =
      if ltb l.number (length l.data_slots)
      then done (record l {
        number = (l.number + 1) % u64_mod;
        data_slots = set l.data_slots l.number (some x);
      })
      else fault

  unfoldable pub append : ℕ → Growing A → A → Outcome (Growing A)
  append step l x = store (grow_if_full step l) x

  unfoldable pub append_all : ℕ → Growing A → List A → Outcome (Growing A)
  append_all step l [] = done l
  append_all step l (x ∷ xs) = append step l x >>= λ l'. append_all step l' xs

  abbrev pub no_slots : Growing A
  no_slots = record { number = 0; size = 0; data_slots = [] }

  abbrev pub destroy : Growing A → Growing A
  destroy l = if l.size == 0 then l else no_slots

  -- The elements that the loop of a destructor frees; a slot that was not written is a fault.
  unfoldable pub free_items : ℕ → List (Option A) → Outcome (List A)
  free_items zero slots = done []
  free_items (suc n) [] = fault
  free_items (suc n) (none ∷ slots) = fault
  free_items (suc n) (some x ∷ slots) = free_items n slots >>= λ xs. done (x ∷ xs)

  -- What is freed, and the list afterwards.
  unfoldable pub destroy_items : Growing A → Outcome (List A × Growing A)
  destroy_items l =
      if l.size == 0
      then done ([], l)
      else (free_items l.number l.data_slots >>= λ xs. done (xs, no_slots))

abbrev pub proc_list_max : ℕ
proc_list_max = 256

abbrev pub proc_list_create : {A : Type 0} → Growing A
proc_list_create = create proc_list_max

abbrev pub proc_list_grow : {A : Type 0} → Growing A → Growing A
proc_list_grow l = grow proc_list_max l

abbrev pub proc_list_destroy : {A : Type 0} → Growing A → Growing A
proc_list_destroy l = destroy l

abbrev pub proc_args_max : ℕ
proc_args_max = 12

abbrev pub proc_args_create : {A : Type 0} → Growing A
proc_args_create = create proc_args_max

abbrev pub proc_args_grow : {A : Type 0} → Growing A → Growing A
proc_args_grow l = grow proc_args_max l

abbrev pub proc_args_destroy : Growing Bytes → Outcome (List Bytes × Growing Bytes)
proc_args_destroy l = destroy_items l

abbrev pub file_system_list_max : ℕ
file_system_list_max = 10

abbrev pub file_system_list_create : {A : Type 0} → Growing A
file_system_list_create = create file_system_list_max

abbrev pub file_system_list_grow : {A : Type 0} → Growing A → Growing A
file_system_list_grow l = grow file_system_list_max l

abbrev pub file_system_list_destroy : {A : Type 0} → Growing A → Growing A
file_system_list_destroy l = destroy l

abbrev pub cpu_info_list_max : ℕ
cpu_info_list_max = 4

abbrev pub cpu_info_list_create : {A : Type 0} → Growing A
cpu_info_list_create = create cpu_info_list_max

abbrev pub cpu_info_list_grow : {A : Type 0} → Growing A → Growing A
cpu_info_list_grow l = grow cpu_info_list_max l

abbrev pub cpu_info_list_destroy : {A : Type 0} → Growing A → Growing A
cpu_info_list_destroy l = destroy l

abbrev pub cpu_list_max : ℕ
cpu_list_max = 4

abbrev pub cpu_list_create : {A : Type 0} → Growing A
cpu_list_create = create cpu_list_max

abbrev pub cpu_list_grow : {A : Type 0} → Growing A → Growing A
cpu_list_grow l = grow cpu_list_max l

abbrev pub cpu_list_destroy : {A : Type 0} → Growing A → Growing A
cpu_list_destroy l = destroy l

abbrev pub net_route_list_max : ℕ
net_route_list_max = 6

abbrev pub net_route_list_create : {A : Type 0} → Growing A
net_route_list_create = create net_route_list_max

abbrev pub net_route_list_grow : {A : Type 0} → Growing A → Growing A
net_route_list_grow l = grow net_route_list_max l

abbrev pub net_route_list_destroy : {A : Type 0} → Growing A → Growing A
net_route_list_destroy l = destroy l

abbrev pub net_interface_list_max : ℕ
net_interface_list_max = 20

abbrev pub net_interface_list_create : {A : Type 0} → Growing A
net_interface_list_create = create net_interface_list_max

abbrev pub net_interface_list_grow : {A : Type 0} → Growing A → Growing A
net_interface_list_grow l = grow net_interface_list_max l

abbrev pub net_interface_list_destroy : Growing Bytes → Outcome (List Bytes × Growing Bytes)
net_interface_list_destroy l = destroy_items l

abbrev pub net_connection_list_max : ℕ
net_connection_list_max = 20

abbrev pub net_connection_list_create : {A : Type 0} → Growing A
net_connection_list_create = create net_connection_list_max

abbrev pub net_connection_list_grow : {A : Type 0} → Growing A → Growing A
net_connection_list_grow l = grow net_connection_list_max l

abbrev pub net_connection_list_destroy : {A : Type 0} → Growing A → Growing A
net_connection_list_destroy l = destroy l

abbrev pub arp_list_max : ℕ
arp_list_max = 12

abbrev pub arp_list_create : {A : Type 0} → Growing A
arp_list_create = create arp_list_max

abbrev pub arp_list_grow : {A : Type 0} → Growing A → Growing A
arp_list_grow l = grow arp_list_max l

abbrev pub arp_list_destroy : {A : Type 0} → Growing A → Growing A
arp_list_destroy l = destroy l

abbrev pub who_list_max : ℕ
who_list_max = 12

abbrev pub who_list_create : {A : Type 0} → Growing A
who_list_create = create who_list_max

abbrev pub who_list_grow : {A : Type 0} → Growing A → Growing A
who_list_grow l = grow who_list_max l

abbrev pub who_list_destroy : {A : Type 0} → Growing A → Growing A
who_list_destroy l = destroy l
