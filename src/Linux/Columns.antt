-- ===== src/Linux/Columns.antt =====
-- Columns of text: fields with blanks in front of each, as many as the kernel takes to line them up, and
-- what the readers of numbers and words make of them.
use libsigar.Base.{
  ℕ, zero, suc, ◌+◌, ◌-◌, ◌*◌, ◌^◌, ◌<◌, false, List, [], ◌∷◌, ◌++◌, ◌≡◌, refl, ◌∙◌, ap, arith, leb,
  ◌==◌, All, Bool-cases, inl, inr,
}
use libsigar.Text.{Bytes, is_space, is_digit, skip_space, read_digits, strtou}
use libsigar.Util.Words.{skip_spaces, skip_word, skip_token}
use libsigar.Linux.Read.{strtoul, IsWord, Numeral, read_sign-digit, first_digit}

unfoldable pub indent : ℕ → Bytes → Bytes
indent zero s = s
indent (suc k) s = b' ' ∷ indent k s

-- A field with a number of blanks more than the one that parts it from the last.
unfoldable pub columns : List (ℕ × Bytes) → Bytes
unfolding indent
columns [] = []
columns ((k, w) ∷ cs) = b' ' ∷ indent k (w ++ columns cs)

pub skip_spaces-indent : (k : ℕ) (s : Bytes) → skip_spaces (indent k s) ≡ skip_spaces s
unfolding skip_spaces indent
skip_spaces-indent zero s = refl
skip_spaces-indent (suc k) s = skip_spaces-indent k s

skip_space-indent : (k : ℕ) (s : Bytes) → skip_space (indent k s) ≡ skip_space s
unfolding skip_space indent
skip_space-indent zero s = refl
skip_space-indent (suc k) s = skip_space-indent k s

skip_word-columns :
    (w : Bytes) (cs : List (ℕ × Bytes))
    → All (λ b. is_space b ≡ false) w
    → skip_word (w ++ columns cs) ≡ columns cs
unfolding skip_word columns
skip_word-columns [] [] h = refl
skip_word-columns [] ((k, v) ∷ cs) h = refl
skip_word-columns (c ∷ w) cs (hc, hw) = rw hc (skip_word-columns w cs hw)

pub skip_token-columns :
    (k : ℕ) (w : Bytes) (cs : List (ℕ × Bytes))
    → IsWord w
    → skip_token (columns ((k, w) ∷ cs)) ≡ columns cs
unfolding skip_token skip_spaces skip_word columns
skip_token-columns k [] cs h = absurd h
skip_token-columns k (c ∷ w) cs (hc, hw) =
    ap skip_word (skip_spaces-indent k (c ∷ w ++ columns cs))
    ∙ rw (hc, hc) (skip_word-columns w cs hw)

read_digits-columns :
    (v k n m : ℕ) (w : Bytes) (cs : List (ℕ × Bytes))
    → read_digits v k w ≡ (n, m, [])
    → read_digits v k (w ++ columns cs) ≡ (n, m, columns cs)
unfolding read_digits columns
read_digits-columns v k n m [] [] h = h
read_digits-columns v k n m [] ((j, u) ∷ cs) h =
    ap (λ (x : ℕ × ℕ × Bytes). (x.0, x.1, columns ((j, u) ∷ cs))) h
read_digits-columns v k n m (c ∷ w) cs h = elim (Bool-cases (is_digit c)) [
  | inl digit ↦
      rw digit (read_digits-columns (v * 10 + (c - b'0')) (k + 1) n m w cs (rw digit at h))
  | inr other ↦ let gone = ap (λ (x : ℕ × ℕ × Bytes). x.2) (rw other at h) in absurd (cc)
]

strtoul-text :
    (k : ℕ) (text : Bytes) (n m : ℕ) (cs : List (ℕ × Bytes))
    → read_digits 0 0 text ≡ (n, suc m, [])
    → n < 2 ^ 64
    → strtoul (columns ((k, text) ∷ cs)) ≡ (n, columns cs)
unfolding strtoul strtou columns read_digits skip_space
strtoul-text k [] n m cs h small = absurd (ground arith)
strtoul-text k (c ∷ w) n m cs h small =
    let some_digits : (suc m == 0) ≡ false = ground arith in
    let fits : leb (2 ^ 64) n ≡ false = ground arith in
    let digit = first_digit c w n m h in
    let sign = read_sign-digit c (w ++ columns cs) digit in
    let digits = read_digits-columns 0 0 n (suc m) (c ∷ w) cs h in
    rw (skip_space-indent k (c ∷ w ++ columns cs), sign, digits, some_digits, fits) refl

pub strtoul-columns :
    (k : ℕ) (n : Numeral) (cs : List (ℕ × Bytes))
    → strtoul (columns ((k, n.text) ∷ cs)) ≡ (n.value, columns cs)
strtoul-columns k n cs = strtoul-text k n.text n.value n.more cs n.reads n.fits
