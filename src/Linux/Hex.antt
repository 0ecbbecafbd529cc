-- ===== src/Linux/Hex.antt =====
-- `hex2int` and `convert_hex_address`: the hexadecimal numbers of /proc/net.
use libsigar.Base.{
  ℕ, zero, suc, ◌+◌, ◌-◌, ◌*◌, ◌/◌, ◌%◌, ◌^◌, ◌<◌, ◌≤◌, List, [], ◌∷◌, ◌++◌, ◌≡◌, refl, sym, ◌∙◌,
  ap, arith, ltb, leb, ◌==◌, if◌then◌else◌, length, drop, All, u32_mod, bit_or, bit_or_hex,
  append_assoc, length-append,
}
use libsigar.Outcome.{Outcome, done, fault, ◌>>=◌}
use libsigar.Text.{Bytes, is_digit, is_upper}
use libsigar.Format.Net.{NetAddress, inet, inet6}

-- The value of a byte, a signed `char`, in 32 bits: what is no digit and no capital letter is taken for
-- a small letter.
abbrev pub hex_value : ℕ → ℕ
hex_value c =
    if is_digit c
    then c - b'0'
    else if is_upper c
    then c - (b'A' - 10)
    else ((if leb 128 c then c + (u32_mod - 256) else c) + (u32_mod - (b'a' - 10))) % u32_mod

-- `j <<= 4; j |= ...`.
abbrev pub hex_step : ℕ → ℕ → ℕ
hex_step j c = bit_or (j % 2 ^ 28 * 16) (hex_value c)

-- The zero at the end of a text can be read, what is behind it can not: the source would read there what
-- an earlier line left in its buffer, and that is a fault here.
unfoldable pub hex_from : ℕ → ℕ → Bytes → Outcome ℕ
hex_from zero j s = done j
hex_from (suc n) j (c ∷ s) = hex_from n (hex_step j c) s
hex_from (suc zero) j [] = done (hex_step j 0)
hex_from (suc (suc n)) j [] = fault

unfoldable pub hex2int : Bytes → ℕ → Outcome ℕ
unfolding hex_from
hex2int x len = hex_from len 0 x

-- `HEX_ENT_LEN`.
abbrev pub hex_ent_len : ℕ
hex_ent_len = 8

-- The bytes of a word in memory, the lowest first.
abbrev pub word_bytes : ℕ → Bytes
word_bytes w = w % 256 ∷ w / 256 % 256 ∷ w / 65536 % 256 ∷ w / 16777216 ∷ []

unfoldable pub read_words : ℕ → Bytes → Outcome Bytes
unfolding hex2int
read_words zero ptr = done []
read_words (suc n) ptr = do
  w ← hex2int ptr hex_ent_len
  rest ← read_words n (drop hex_ent_len ptr)
  done (word_bytes w ++ rest)

unfoldable pub convert_hex_address : Bytes → ℕ → Outcome NetAddress
unfolding read_words
convert_hex_address ptr len =
    let six = read_words 4 ptr in
    let four = hex2int ptr hex_ent_len in
    if ltb hex_ent_len len
    then (do bs ← six; done (inet6 bs))
    else if len == hex_ent_len
    then (do w ← four; done (inet w))
    else done (inet 0)

-- A number in capital digits.
abbrev pub hex_digit : ℕ → ℕ
hex_digit d = if ltb d 10 then d + b'0' else d + (b'A' - 10)

unfoldable pub hex_text : ℕ → ℕ → Bytes
hex_text zero n = []
hex_text (suc k) n = hex_text k (n / 16) ++ hex_digit (n % 16) ∷ []

length-hex_text : (k n : ℕ) → length (hex_text k n) ≡ k
unfolding hex_text
length-hex_text zero n = refl
length-hex_text (suc k) n =
    length-append (hex_text k (n / 16)) _ ∙ omega (arith, length-hex_text k (n / 16))

-- The digits read one after the other.
unfoldable hex_all : ℕ → Bytes → ℕ
hex_all j [] = j
hex_all j (c ∷ s) = hex_all (hex_step j c) s

hex_all-append : (j : ℕ) (s t : Bytes) → hex_all j (s ++ t) ≡ hex_all (hex_all j s) t
unfolding hex_all
hex_all-append j [] t = refl
hex_all-append j (c ∷ s) t = hex_all-append (hex_step j c) s t

hex_from-append : (j : ℕ) (s rest : Bytes) → hex_from (length s) j (s ++ rest) ≡ done (hex_all j s)
unfolding hex_from hex_all
hex_from-append j [] rest = refl
hex_from-append j (c ∷ s) rest = hex_from-append (hex_step j c) s rest

hex_step-digit : (q d : ℕ) → q < 2 ^ 28 → d < 16 → hex_step q (hex_digit d) ≡ q * 16 + d
hex_step-digit q d hq hd =
    let value : hex_value (hex_digit d) ≡ d = ground arith in
    let small : q % 2 ^ 28 ≡ q = omega arith in rw (value, small) (bit_or_hex q d hd)

-- The numbers of `k` digits are below it.
abbrev hex_limit : ℕ → ℕ
hex_limit zero = 1
hex_limit (suc k) = hex_limit k * 16

hex_all-hex_text : (k n : ℕ) → hex_limit k ≤ 2 ^ 32 → n < hex_limit k → hex_all 0 (hex_text k n) ≡ n
unfolding hex_text hex_all
hex_all-hex_text zero n small h = omega arith
hex_all-hex_text (suc k) n small h =
    hex_all-append 0 (hex_text k (n / 16)) (hex_digit (n % 16) ∷ [])
    ∙ ap (λ q. hex_step q (hex_digit (n % 16)))
        (hex_all-hex_text k (n / 16) (omega arith) (omega arith))
    ∙ hex_step-digit (n / 16) (n % 16) (omega arith) (omega arith)
    ∙ omega arith

drop-append : {A : Type 0} (xs ys : List A) → drop (length xs) (xs ++ ys) ≡ ys
drop-append [] [] = refl
drop-append [] (y ∷ ys) = refl
drop-append (x ∷ xs) ys = drop-append xs ys

hex2int-hex_text : (n : ℕ) (rest : Bytes) → n < 2 ^ 32 → hex2int (hex_text 8 n ++ rest) 8 ≡ done n
unfolding hex2int
hex2int-hex_text n rest h =
    let width : length (hex_text 8 n) ≡ 8 = length-hex_text 8 n in
    ap (λ k. hex_from k 0 (hex_text 8 n ++ rest)) (sym width)
    ∙ hex_from-append 0 (hex_text 8 n) rest
    ∙ ap done (hex_all-hex_text 8 n (omega arith) h)

drop-hex_text : (n : ℕ) (rest : Bytes) → drop 8 (hex_text 8 n ++ rest) ≡ rest
drop-hex_text n rest =
    ap (λ k. drop k (hex_text 8 n ++ rest)) (sym (length-hex_text 8 n))
    ∙ drop-append (hex_text 8 n) rest

unfoldable pub hex_texts : List ℕ → Bytes
hex_texts [] = []
hex_texts (w ∷ ws) = hex_text 8 w ++ hex_texts ws

-- The bytes of words, in their order.
unfoldable pub all_bytes : List ℕ → Bytes
all_bytes [] = []
all_bytes (w ∷ ws) = word_bytes w ++ all_bytes ws

read_words-hex_texts :
    (ws : List ℕ) (rest : Bytes)
    → All (λ w. w < 2 ^ 32) ws
    → read_words (length ws) (hex_texts ws ++ rest) ≡ done (all_bytes ws)
unfolding read_words hex_texts all_bytes
read_words-hex_texts [] rest h = refl
read_words-hex_texts (w ∷ ws) rest (hw, hs) =
    rw
      (
        append_assoc (hex_text 8 w) (hex_texts ws) rest,
        hex2int-hex_text w (hex_texts ws ++ rest) hw,
        drop-hex_text w (hex_texts ws ++ rest),
        read_words-hex_texts ws rest hs,
      )
      refl

-- The text of an address is read back, whatever follows it: eight capital digits as a word of version
-- 4, and four times eight as the bytes in memory of the four words of version 6.
pub convert_hex_address-hex_texts :
    (w : ℕ) (ws : List ℕ) (rest : Bytes)
    → w < 2 ^ 32
    → All (λ x. x < 2 ^ 32) ws
    → length ws ≡ 4
    → (convert_hex_address (hex_text 8 w ++ rest) 8 ≡ done (inet w))
      × (convert_hex_address (hex_texts ws ++ rest) 32 ≡ done (inet6 (all_bytes ws)))
unfolding convert_hex_address
convert_hex_address-hex_texts w ws rest hw hs four =
    let six =
      ap (λ k. read_words k (hex_texts ws ++ rest)) (sym four) ∙ read_words-hex_texts ws rest hs in
    (rw (hex2int-hex_text w rest hw) refl, rw six refl)
