-- ===== src/Util/Print.antt =====
-- Numbers and arguments read back.
use libsigar.Base.{
  ℕ, zero, suc, ◌+◌, ◌-◌, ◌*◌, ◌/◌, ◌%◌, ◌^◌, ◌<◌, ◌≤◌, true, false, [], ◌∷◌, ◌++◌, List, some,
  ◌==◌, ◌≡◌, refl, sym, ◌∙◌, ap, ap₂, ◌≢◌, ◌⊎◌, ==_iff, ne→==, arith, replicate, Bool-cases, inl,
  inr, All,
}
use libsigar.Text.{Bytes, is_digit, read_digits, Lacks}
use libsigar.Util.Words.{digits_from, uitoa, word_until, skip_stop, getword, args_of, calc_ram}

-- The numbers with at most `room` digits are below it.
unfoldable pub limit : ℕ → ℕ
limit zero = 1
limit (suc room) = limit room * 10

read_digits-digit :
    (v k n : ℕ) (s : Bytes)
    → read_digits v k ((b'0' + n % 10) ∷ s) ≡ read_digits (v * 10 + n % 10) (k + 1) s
unfolding read_digits
read_digits-digit v k n s =
    let low : (b'0' + n % 10) - b'0' ≡ n % 10 = omega arith in
    let digit : is_digit (b'0' + n % 10) ≡ true = ground arith in rw (low, digit) refl

digits_from-read :
    (room n : ℕ) (start : Bytes)
    → n < limit (suc room)
    → (s : Bytes) × (len : ℕ) × (digits_from (suc room) n start ≡ some s)
      × (read_digits 0 0 s ≡ read_digits n len start)
unfolding digits_from limit
digits_from-read zero n start h =
    let e : n / 10 ≡ 0 = omega arith in
    let d : 0 * 10 + n % 10 ≡ n = omega arith in
    (_, 1, rw e refl, read_digits-digit 0 0 n start ∙ ap (λ x. read_digits x 1 start) d)
digits_from-read (suc room) n start h = elim (Bool-cases (n / 10 == 0)) [
  | inl last ↦
      let d : 0 * 10 + n % 10 ≡ n = ground arith in
      (_, 1, rw last refl, read_digits-digit 0 0 n start ∙ ap (λ x. read_digits x 1 start) d)
  | inr more ↦
      let (s, len, e, r) = digits_from-read room (n / 10) ((b'0' + n % 10) ∷ start) (omega arith) in
      let d : n / 10 * 10 + n % 10 ≡ n = omega arith in
      (
        s,
        len + 1,
        rw more e,
        r ∙ read_digits-digit (n / 10) len n start ∙ ap (λ x. read_digits x (len + 1) start) d,
      )
]

-- The arguments joined, each with a zero behind it.
unfoldable pub join_args : List Bytes → Bytes
join_args [] = []
join_args (w ∷ ws) = w ++ 0 ∷ join_args ws

args_of-append : (w s : Bytes) → Lacks 0 w → args_of (w ++ 0 ∷ s) ≡ w ∷ args_of s
unfolding args_of
args_of-append [] s h = refl
args_of-append (c ∷ w) s (hc, hw) = rw (args_of-append w s hw) (ground arith)

-- The arguments of a process, without zero bytes, are read back from their joined bytes.
pub args_of-join_args : (ws : List Bytes) → All (Lacks 0) ws → args_of (join_args ws) ≡ ws
unfolding join_args args_of
args_of-join_args [] h = refl
args_of-join_args (w ∷ ws) (hw, hs) =
    args_of-append w (join_args ws) hw ∙ ap (λ l. w ∷ l) (args_of-join_args ws hs)

-- An unsigned number of 32 bits fits into the buffer, and its digits are read back as the number.
pub uitoa-read_digits :
    (n : ℕ)
    → n < 2 ^ 32
    → (s : Bytes) × (len : ℕ) × (uitoa n ≡ some s) × (read_digits 0 0 s ≡ (n, len, []))
unfolding uitoa limit read_digits
uitoa-read_digits n h = digits_from-read 11 n [] (omega arith)

-- What a byte is not in front of.
abbrev pub StartsNot : ℕ → Bytes → Type 0
StartsNot stop [] = Unit
StartsNot stop (c ∷ s) = (c == stop) ≡ false

word_until-split :
    (stop : ℕ) (s : Bytes)
    → let (w, r) = word_until stop s in
      (s ≡ w ++ r) × Lacks stop w × ((r ≡ []) ⊎ ((t : Bytes) × (r ≡ stop ∷ t)))
unfolding word_until
word_until-split stop [] = (refl, tt, inl refl)
word_until-split stop (c ∷ s) = elim (Bool-cases (c == stop)) [
  | inl here ↦ rw here (refl, tt, inr (s, ap (λ x. x ∷ s) ((==_iff c stop).0 here)))
  | inr there ↦
      let (e, l, r) = word_until-split stop s in rw there (ap (λ t. c ∷ t) e, (ground arith, l), r)
]

skip_stop-split :
    (stop : ℕ) (s : Bytes)
    → (k : ℕ) × (s ≡ replicate k stop ++ skip_stop stop s) × StartsNot stop (skip_stop stop s)
unfolding skip_stop
skip_stop-split stop [] = (0, refl, tt)
skip_stop-split stop (c ∷ s) = elim (Bool-cases (c == stop)) [
  | inl here ↦
      let (k, e, n) = skip_stop-split stop s in
      rw here (suc k, ap₂ ◌∷◌ ((==_iff c stop).0 here) e, n)
  | inr there ↦ rw there (0, refl, there)
]

no_gap :
    (stop k : ℕ) (r q : Bytes)
    → (r ≡ []) ⊎ ((t : Bytes) × (r ≡ stop ∷ t))
    → r ≡ replicate k stop ++ q
    → StartsNot stop q
    → k ≡ 0
    → q ≡ []
no_gap stop (suc k) r q starts e n z = absurd (omega arith)
no_gap stop zero r [] starts e n z = refl
no_gap stop zero r (c ∷ q) (inl nil) e n z = absurd (cc)
no_gap stop zero r (c ∷ q) (inr (t, more)) e n z =
    let same : stop ∷ t ≡ c ∷ q = sym more ∙ e in absurd (ground arith)

-- A word does not have the stop byte (which is not 0), and the line that is left does not begin with
-- it: between them were stop bytes only, at least one unless nothing is left.
pub getword-split :
    (line : Bytes) (stop : ℕ)
    → stop ≢ 0
    → let (w, r) = getword line stop in
      (k : ℕ) × (line ≡ w ++ (replicate k stop ++ r))
      × Lacks stop w
      × StartsNot stop r
      × (k ≡ 0 → r ≡ [])
unfolding getword
getword-split line stop h =
    let (e, l, r) = word_until-split stop line in
    let (k, e', n) = skip_stop-split stop (word_until stop line).1 in
    rw (ne→== stop 0 h)
      (k, e ∙ ap (λ t. (word_until stop line).0 ++ t) e', l, n, no_gap stop k _ _ r e' n)

-- Below 2 ^ 51 bytes the memory in megabytes is rounded up to the next multiple of 8.
pub calc_ram-bounds :
    (total : ℕ)
    → total < 2 ^ 51
    → (calc_ram total % 8 ≡ 0)
      × (total / 2 ^ 20 ≤ calc_ram total)
      × (calc_ram total < total / 2 ^ 20 + 8)
unfolding calc_ram
calc_ram-bounds total h = ground arith
