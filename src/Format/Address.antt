-- ===== src/Format/Address.antt =====
-- The text of an address is read back as the address.
use libsigar.Base.{
  ℕ, zero, suc, ◌+◌, ◌-◌, ◌*◌, ◌/◌, ◌%◌, ◌<◌, true, [], ◌∷◌, ◌++◌, List, ltb, ◌≡◌, refl, sym, ◌∙◌,
  ap, arith, Bool-cases, inl, inr, append-nil,
}
use libsigar.Text.{Bytes, is_digit, read_digits}
use libsigar.Format.{byte_text, inet_ntoa}

-- A reader of `n` numbers with a byte between them.
unfoldable pub read_numbers : ℕ → Bytes → List ℕ
unfolding read_digits
read_numbers zero s = []
read_numbers (suc n) s =
    let (v, k, r) = read_digits 0 0 s in v ∷ elim r [ [] ↦ [] | c ∷ t ↦ read_numbers n t ]

read_digits-one :
    (v k d : ℕ) (s : Bytes)
    → d < 10
    → read_digits v k ((b'0' + d) ∷ s) ≡ read_digits (v * 10 + d) (k + 1) s
unfolding read_digits
read_digits-one v k d s h =
    let low : (b'0' + d) - b'0' ≡ d = omega arith in
    let digit : is_digit (b'0' + d) ≡ true = ground arith in rw (low, digit) refl

-- A byte's digits are read as the byte, up to what follows.
read_digits-byte_text :
    (u : ℕ) (s : Bytes)
    → u < 256
    → (k : ℕ) × (read_digits 0 0 (byte_text u ++ s) ≡ read_digits u k s)
unfolding byte_text
read_digits-byte_text u s h = elim (Bool-cases (ltb 99 u)) [
  | inl three ↦
      let d : ((0 * 10 + u / 100) * 10 + u % 100 / 10) * 10 + u % 100 % 10 ≡ u = omega arith in
      rw three (
        3,
        read_digits-one 0 0 (u / 100) _ (omega arith)
            ∙ read_digits-one _ 1 (u % 100 / 10) _ (omega arith)
            ∙ read_digits-one _ 2 (u % 100 % 10) s (omega arith)
            ∙ ap (λ x. read_digits x 3 s) d,
      )
  | inr fewer ↦ elim (Bool-cases (ltb 9 u)) [
    | inl two ↦
        let small : u < 100 = ground arith in
        let d : (0 * 10 + u / 10) * 10 + u % 10 ≡ u = omega arith in
        rw (fewer, two)
          (
            2,
            read_digits-one 0 0 (u / 10) _ (omega (arith, small))
                ∙ read_digits-one _ 1 (u % 10) s (omega arith)
                ∙ ap (λ x. read_digits x 2 s) d,
          )
    | inr one ↦
        let d : 0 * 10 + u ≡ u = omega arith in
        rw (fewer, one) (1, read_digits-one 0 0 u s (ground arith) ∙ ap (λ x. read_digits x 1 s) d)
  ]
]

read_numbers-next :
    (n u : ℕ) (s : Bytes)
    → u < 256
    → read_numbers (suc n) (byte_text u ++ b'.' ∷ s) ≡ u ∷ read_numbers n s
unfolding read_numbers read_digits
read_numbers-next n u s h = let (k, e) = read_digits-byte_text u (b'.' ∷ s) h in rw e refl

read_numbers-last : (u : ℕ) → u < 256 → read_numbers 1 (byte_text u) ≡ u ∷ []
unfolding read_numbers read_digits
read_numbers-last u h =
    let (k, e) = read_digits-byte_text u [] h in
    rw (sym (ap (read_digits 0 0) (append-nil (byte_text u))) ∙ e) refl

-- The text of an address has its four bytes in decimal, in their order, with a byte between them.
pub inet_ntoa-read_numbers :
    (a b c d : ℕ)
    → a < 256
    → b < 256
    → c < 256
    → d < 256
    → read_numbers 4 (inet_ntoa a b c d) ≡ a ∷ b ∷ c ∷ d ∷ []
unfolding inet_ntoa
inet_ntoa-read_numbers a b c d ha hb hc hd =
    read_numbers-next 3 a _ ha
    ∙ ap (λ l. a ∷ l)
        (read_numbers-next 2 b _ hb
          ∙ ap (λ l. b ∷ l) (read_numbers-next 1 c _ hc ∙ ap (λ l. c ∷ l) (read_numbers-last d hd)))
