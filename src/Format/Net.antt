-- ===== src/Format/Net.antt =====
-- Addresses of the network in src/sigar_format.c: their comparison and their hash.
use libsigar.Base.{
  ℕ, suc, ◌+◌, ◌*◌, ◌%◌, Bool, true, false, [], ◌∷◌, ◌≡◌, ◌↔◌, refl, ap, ◌==◌, if◌then◌else◌,
  u32_mod, add32, ==_iff, ==_self,
}
use libsigar.Text.{Bytes, str_eq, str_eq_self, str_eq→≡}

-- `sigar_net_address_t`: the family says which member of the union is meant. An address of version 4
-- is its word, the others are their bytes.
pub data NetAddress : Type 0 where
  unspec inet : ℕ → NetAddress
  inet6 link : Bytes → NetAddress

-- 0, another result of `memcmp`, or `EINVAL`.
pub data Compared : Type 0 where
  same different invalid : Compared

abbrev pub compared : Bool → Compared
compared b = if b then same else different

-- Another family, or one with no address, is invalid.
unfoldable pub net_address_equals : NetAddress → NetAddress → Compared
net_address_equals (inet a) (inet b) = compared (a == b)
net_address_equals (inet6 a) (inet6 b) = compared (str_eq a b)
net_address_equals (link a) (link b) = compared (str_eq a b)
net_address_equals _ _ = invalid

-- The components of `elts` bytes, added up; `left` bytes are missing to the next.
unfoldable pub hash_bytes : ℕ → ℕ → ℕ → ℕ → Bytes → ℕ
hash_bytes elts left component hash [] = add32 hash component
hash_bytes elts (suc (suc left)) component hash (b ∷ bs) =
    hash_bytes elts (suc left) ((component * 256 + b) % u32_mod) hash bs
hash_bytes elts _ component hash (b ∷ bs) =
    hash_bytes elts elts 0 (add32 hash ((component * 256 + b) % u32_mod)) bs

unfoldable pub net_address_hash : NetAddress → ℕ
unfolding hash_bytes
net_address_hash (unspec a) = a
net_address_hash (inet a) = a
net_address_hash (inet6 bs) = hash_bytes 4 4 0 0 bs
net_address_hash (link bs) = hash_bytes 2 2 0 0 bs

compared-same : (b : Bool) → compared b ≡ same → b ≡ true
compared-same true h = refl
compared-same false h = cc

equals_sound : (a b : NetAddress) → net_address_equals a b ≡ same → a ≡ b
unfolding net_address_equals
equals_sound (inet a) (inet b) h = ap inet ((==_iff a b).0 (compared-same _ h))
equals_sound (inet6 a) (inet6 b) h = ap inet6 (str_eq→≡ a b (compared-same _ h))
equals_sound (link a) (link b) h = ap link (str_eq→≡ a b (compared-same _ h))
equals_sound (unspec a) (unspec b) h = cc
equals_sound (unspec a) (inet b) h = cc
equals_sound (unspec a) (inet6 b) h = cc
equals_sound (unspec a) (link b) h = cc
equals_sound (inet a) (unspec b) h = cc
equals_sound (inet a) (inet6 b) h = cc
equals_sound (inet a) (link b) h = cc
equals_sound (inet6 a) (unspec b) h = cc
equals_sound (inet6 a) (inet b) h = cc
equals_sound (inet6 a) (link b) h = cc
equals_sound (link a) (unspec b) h = cc
equals_sound (link a) (inet b) h = cc
equals_sound (link a) (inet6 b) h = cc

-- The family has an address that is compared.
abbrev pub IsSpecified : NetAddress → Type 0
IsSpecified (unspec a) = ⊥
IsSpecified _ = Unit

equals_refl : (a : NetAddress) → IsSpecified a → net_address_equals a a ≡ same
unfolding net_address_equals
equals_refl (unspec a) h = absurd h
equals_refl (inet a) h = rw (==_self a)
equals_refl (inet6 a) h = rw (str_eq_self a)
equals_refl (link a) h = rw (str_eq_self a)

-- Two addresses compare equal exactly if they are the same one of a family that is not `UNSPEC`; they
-- then have the same hash.
pub net_address_equals-same :
    (a b : NetAddress)
    → IsSpecified a
    → ((net_address_equals a b ≡ same) ↔ (a ≡ b))
      × (net_address_equals a b ≡ same → net_address_hash a ≡ net_address_hash b)
net_address_equals-same a b h = (
  (equals_sound a b, λ e. rw (← e) (equals_refl a h)),
  λ e. ap net_address_hash (equals_sound a b e),
)
