-- ===== src/Linux/Read.antt =====
-- What the readers of the texts of /proc share: numbers and skipped words, and that they read back what
-- a line of words holds.
use libsigar.Base.{
  ℕ, suc, Bool, ◌%◌, ◌+◌, ◌-◌, ◌*◌, ◌^◌, ◌<◌, true, false, List, [], ◌∷◌, ◌++◌, ◌≡◌, refl, ap,
  arith, leb, ◌==◌, All, Bool-cases, inl, inr,
}
use libsigar.Text.{Bytes, is_space, is_digit, skip_space, read_digits, read_sign, strtou}
use libsigar.Util.Words.{skip_spaces, skip_word, skip_token}

-- `sigar_strtoul` and `sigar_strtoull`: the number, and the pointer behind it.
unfoldable pub strtoul : Bytes → ℕ × Bytes
unfolding strtou
strtoul p = let n = strtou 64 p in (n.value, n.rest)

-- A word with no space.
abbrev pub IsWord : Bytes → Type 0
IsWord [] = ⊥
IsWord (c ∷ w) = (is_space c ≡ false) × All (λ b. is_space b ≡ false) w

-- A text of digits and its value, of 64 bits.
pub record Numeral : Type 0 where
  pub value : ℕ
  pub text : Bytes
  pub more : ℕ
  pub reads : read_digits 0 0 text ≡ (value, suc more, [])
  pub fits : value < 2 ^ 64

-- Words with a space in front of each.
unfoldable pub words : List Bytes → Bytes
words [] = []
words (w ∷ ws) = b' ' ∷ (w ++ words ws)

skip_word-append :
    (w : Bytes) (ws : List Bytes)
    → All (λ b. is_space b ≡ false) w
    → skip_word (w ++ words ws) ≡ words ws
unfolding skip_word words
skip_word-append [] [] h = refl
skip_word-append [] (v ∷ ws) h = refl
skip_word-append (c ∷ w) ws (hc, hw) = rw hc (skip_word-append w ws hw)

pub skip_token-words :
    (w : Bytes) (ws : List Bytes) → IsWord w → skip_token (words (w ∷ ws)) ≡ words ws
unfolding skip_token skip_spaces skip_word words
skip_token-words [] ws h = absurd h
skip_token-words (c ∷ w) ws (hc, hw) = rw (hc, hc) (skip_word-append w ws hw)

read_digits-append :
    (v k n m : ℕ) (w : Bytes) (ws : List Bytes)
    → read_digits v k w ≡ (n, m, [])
    → read_digits v k (w ++ words ws) ≡ (n, m, words ws)
unfolding read_digits words
read_digits-append v k n m [] [] h = h
read_digits-append v k n m [] (u ∷ ws) h = ap (λ (x : ℕ × ℕ × Bytes). (x.0, x.1, words (u ∷ ws))) h
read_digits-append v k n m (c ∷ w) ws h = elim (Bool-cases (is_digit c)) [
  | inl digit ↦ rw digit (read_digits-append (v * 10 + (c - b'0')) (k + 1) n m w ws (rw digit at h))
  | inr other ↦ let gone = ap (λ (x : ℕ × ℕ × Bytes). x.2) (rw other at h) in absurd (cc)
]

pub read_sign-digit :
    (c : ℕ) (s : Bytes) → is_digit c ≡ true → read_sign (skip_space (c ∷ s)) ≡ (false, c ∷ s)
unfolding read_sign skip_space
read_sign-digit c s h =
    let full : is_space c ≡ false = ground arith in
    let minus : (c == b'-') ≡ false = ground arith in
    let plus : (c == b'+') ≡ false = ground arith in rw (full, minus, plus) refl

pub first_digit :
    (c : ℕ) (w : Bytes) (n m : ℕ) → read_digits 0 0 (c ∷ w) ≡ (n, suc m, []) → is_digit c ≡ true
unfolding read_digits
first_digit c w n m h = elim (Bool-cases (is_digit c)) [
  | inl digit ↦ digit
  | inr other ↦ let gone = ap (λ (x : ℕ × ℕ × Bytes). x.2) (rw other at h) in absurd (cc)
]

strtoul-text :
    (text : Bytes) (n m : ℕ) (ws : List Bytes)
    → read_digits 0 0 text ≡ (n, suc m, [])
    → n < 2 ^ 64
    → (strtoul (words (text ∷ ws)) ≡ (n, words ws))
      × (strtoul (skip_spaces (words (text ∷ ws))) ≡ (n, words ws))
unfolding strtoul strtou words read_digits skip_spaces
strtoul-text [] n m ws h small = absurd (ground arith)
strtoul-text (c ∷ w) n m ws h small =
    let some_digits : (suc m == 0) ≡ false = ground arith in
    let fits : leb (2 ^ 64) n ≡ false = ground arith in
    let digit = first_digit c w n m h in
    let full : is_space c ≡ false = ground arith in
    let sign = read_sign-digit c (w ++ words ws) digit in
    let digits = read_digits-append 0 0 n (suc m) (c ∷ w) ws h in
    (rw (sign, digits, some_digits, fits) refl, rw (full, sign, digits, some_digits, fits) refl)

pub strtoul-words :
    (n : Numeral) (ws : List Bytes) → strtoul (words (n.text ∷ ws)) ≡ (n.value, words ws)
strtoul-words n ws = (strtoul-text n.text n.value n.more ws n.reads n.fits).0

pub strtoul-skip_spaces :
    (n : Numeral) (ws : List Bytes)
    → strtoul (skip_spaces (words (n.text ∷ ws))) ≡ (n.value, words ws)
strtoul-skip_spaces n ws = (strtoul-text n.text n.value n.more ws n.reads n.fits).1

-- A numeral, with a minus sign or without; the sign negates it in 64 bits.
pub record Signed : Type 0 where
  pub minus : Bool
  pub number : Numeral

abbrev pub with_sign : Bool → Bytes → Bytes
with_sign true text = b'-' ∷ text
with_sign false text = text

abbrev pub negated : Bool → ℕ → ℕ
negated true v = (2 ^ 64 - v) % 2 ^ 64
negated false v = v

abbrev pub signed_text : Signed → Bytes
signed_text s = with_sign s.minus s.number.text

-- The number of 64 bits that stands for it.
abbrev pub signed_value : Signed → ℕ
signed_value s = negated s.minus s.number.value

strtoul-minus :
    (text : Bytes) (n m : ℕ) (ws : List Bytes)
    → read_digits 0 0 text ≡ (n, suc m, [])
    → n < 2 ^ 64
    → strtoul (words ((b'-' ∷ text) ∷ ws)) ≡ ((2 ^ 64 - n) % 2 ^ 64, words ws)
unfolding strtoul strtou words skip_space read_sign
strtoul-minus text n m ws h small =
    let some_digits : (suc m == 0) ≡ false = ground arith in
    let fits : leb (2 ^ 64) n ≡ false = ground arith in
    rw (read_digits-append 0 0 n (suc m) text ws h, some_digits, fits) refl

pub strtoul-signed_text :
    (s : Signed) (ws : List Bytes)
    → strtoul (words (signed_text s ∷ ws)) ≡ (signed_value s, words ws)
strtoul-signed_text s ws = of_sign s.minus s.number
  where
    of_sign :
        (minus : Bool) (n : Numeral)
        → strtoul (words (with_sign minus n.text ∷ ws)) ≡ (negated minus n.value, words ws)
    of_sign true n = strtoul-minus n.text n.value n.more ws n.reads n.fits
    of_sign false n = strtoul-words n ws
