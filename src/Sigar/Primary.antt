-- ===== src/Sigar/Primary.antt =====
-- `sigar_net_interface_config_primary_get`: the first interface that is connected. The names of the
-- interfaces, and what `sigar_net_interface_config_get` answers for each, are parameters.
use libsigar.Base.{
  ℕ, ◌/◌, ◌%◌, Bool, true, false, ◌&&◌, not, Option, none, some, List, [], ◌∷◌, ◌≡◌, refl, ◌==◌,
  if◌then◌else◌, Bool-cases, inl, inr, ◌∙◌, ap,
}
use libsigar.Text.{Bytes}
use libsigar.Outcome.{Answer, answer, failed}

-- The fields of `sigar_net_interface_config_t` that are read: the flags, and the first words of the two
-- addresses.
pub record IfConfig : Type 0 where
  pub flags : ℕ
  pub hwaddr : ℕ
  pub address : ℕ

abbrev pub no_config : IfConfig
no_config = record { flags = 0; hwaddr = 0; address = 0 }

-- Not the interface of the machine itself, and one with a hardware address.
abbrev pub is_candidate : IfConfig → Bool
is_candidate c = not (c.flags / 0x8 % 2 == 1) && not (c.hwaddr == 0)

-- `strchr(name, ':')`.
unfoldable pub is_alias : Bytes → Bool
is_alias [] = false
is_alias (c ∷ s) = let rest = is_alias s in if c == b':' then true else rest

abbrev pub is_connected : Bytes → IfConfig → Bool
is_connected name c = not (c.address == 0) && not (is_alias name)

-- The configuration that is saved for later, `ENXIO` if there is none.
abbrev pub saved_or_none : IfConfig → Answer IfConfig
saved_or_none possible = if possible.flags == 0 then failed 6 else answer possible

abbrev pub save : IfConfig → IfConfig → IfConfig
save possible c = if possible.flags == 0 then c else possible

module _ (config_get : Bytes → Answer IfConfig) where
  -- What an interface ends the loop with, or goes on with.
  abbrev pub choose :
      Bytes → Answer IfConfig → IfConfig → (IfConfig → Answer IfConfig) → Answer IfConfig
  choose name (failed status) possible next = next possible
  choose name (answer c) possible next =
      if is_candidate c
      then (if is_connected name c then answer c else next (save possible c))
      else next possible

  unfoldable pub primary_from : List Bytes → IfConfig → Answer IfConfig
  primary_from [] possible = saved_or_none possible
  primary_from (name ∷ names) possible =
      choose name (config_get name) possible (λ p. primary_from names p)

  unfoldable pub net_interface_config_primary_get : Answer (List Bytes) → Answer IfConfig
  net_interface_config_primary_get (failed status) = failed status
  net_interface_config_primary_get (answer names) = primary_from names no_config

  -- The first interface that is connected.
  abbrev pub connected_or : Bytes → Answer IfConfig → Option IfConfig → Option IfConfig
  connected_or name (failed status) rest = rest
  connected_or name (answer c) rest = if is_candidate c && is_connected name c then some c else rest

  unfoldable pub first_connected : List Bytes → Option IfConfig
  first_connected [] = none
  first_connected (name ∷ names) = connected_or name (config_get name) (first_connected names)

  -- The first candidate with a flag.
  abbrev pub flagged_or : Answer IfConfig → IfConfig → IfConfig
  flagged_or (failed status) rest = rest
  flagged_or (answer c) rest = if is_candidate c then save c rest else rest

  unfoldable pub first_flagged : List Bytes → IfConfig
  first_flagged [] = no_config
  first_flagged (name ∷ names) = flagged_or (config_get name) (first_flagged names)

abbrev pub chosen : Option IfConfig → IfConfig → Answer IfConfig
chosen (some c) possible = answer c
chosen none possible = saved_or_none possible

save-save : (p c f : IfConfig) → save (save p c) f ≡ save p (save c f)
save-save p c f = elim (Bool-cases (p.flags == 0)) [
  | inl none_saved ↦ rw none_saved refl
  | inr saved ↦ rw (saved, saved) refl
]

saved_or_none-save : (p : IfConfig) → saved_or_none p ≡ saved_or_none (save p no_config)
saved_or_none-save p = elim (Bool-cases (p.flags == 0)) [
  | inl none_saved ↦ rw none_saved refl
  | inr saved ↦ rw (saved, saved) refl
]

module _ (config_get : Bytes → Answer IfConfig) where
  choose-chosen :
      (name : Bytes) (a : Answer IfConfig) (possible f : IfConfig) (o : Option IfConfig)
      (next : IfConfig → Answer IfConfig)
      → ((p : IfConfig) → next p ≡ chosen o (save p f))
      → choose config_get name a possible next
        ≡ chosen (connected_or config_get name a o) (save possible (flagged_or config_get a f))
  choose-chosen name (failed status) possible f o next h = h possible
  choose-chosen name (answer c) possible f o next h = elim (Bool-cases (is_candidate c)) [
    | inr no_candidate ↦ rw no_candidate (h possible)
    | inl candidate ↦ (elim (Bool-cases (is_connected name c)) [
      | inl connected ↦ rw (candidate, connected) refl
      | inr alone ↦
          rw (candidate, alone) (h (save possible c) ∙ ap (chosen o) (save-save possible c f))
    ])
  ]

  -- The loop gives the first interface that is a candidate and connected; if there is none, the one that
  -- was saved before, or the first candidate with a flag, and ENXIO if there is none either.
  pub primary_from-chosen :
      (names : List Bytes) (possible : IfConfig)
      → primary_from config_get names possible
        ≡ chosen (first_connected config_get names) (save possible (first_flagged config_get names))
  unfolding primary_from first_connected first_flagged
  primary_from-chosen [] possible = saved_or_none-save possible
  primary_from-chosen (name ∷ names) possible =
      choose-chosen name (config_get name) possible (first_flagged config_get names)
        (first_connected config_get names) (primary_from config_get names)
        (λ p. primary_from-chosen names p)
