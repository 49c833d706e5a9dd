-- ===== src/Text/Decimal.antt =====
-- `{}` of a `usize` or a `u32`: its decimal digits, and that they determine the number.
use ballista.Prelude.{
  ℕ, zero, suc, ◌+◌, ◌-◌, ◌*◌, ◌/◌, ◌%◌, ◌<◌, [], ◌∷◌, true, false, ltb, ◌≡◌, ◌≢◌, sym, ◌∙◌, ap,
  inl, inr, arith, Bool-cases, All, refl, ℤ, pos, negsuc, ◌++◌,
}
use ballista.Text.{Text, codes}

-- `out` is what stands right of the digits still to be written; each round writes one digit.
digits : ℕ → ℕ → Text → Text
digits zero n out = out
digits (suc f) n out = elim (ltb n 10) [
  | true ↦ (48 + n) ∷ out
  | false ↦ digits f (n / 10) ((48 + n % 10) ∷ out)
]

unfoldable pub decimal : ℕ → Text
unfolding digits
decimal n = digits (suc n) n []

decimal_runs : decimal 1048 ≡ codes "1048"
unfolding decimal
decimal_runs = refl

value_from : ℕ → Text → ℕ
value_from n [] = n
value_from n (c ∷ s) = value_from (n * 10 + (c - 48)) s

value-digits : (f n : ℕ) (out : Text) → n < f → value_from 0 (digits f n out) ≡ value_from n out
unfolding digits value_from
value-digits zero n out h = absurd (omega arith)
value-digits (suc f) n out h = elim (Bool-cases (ltb n 10)) [
  | inl small ↦ rw (small, digits) (ap (λ m. value_from m out) (omega arith))
  | inr big ↦
      let smaller : n / 10 < f = ground arith in
      rw (big, digits)
        (value-digits f (n / 10) ((48 + n % 10) ∷ out) smaller
          ∙ ap (λ m. value_from m out) (omega arith))
]

-- Two numbers with the same digits are equal.
pub decimal-injective : (m n : ℕ) → decimal m ≡ decimal n → m ≡ n
unfolding decimal value_from
decimal-injective m n e =
    sym (value-digits (suc m) m [] (omega arith))
    ∙ ap (value_from 0) e
    ∙ value-digits (suc n) n [] (omega arith)

digits-NoSlash : (f n : ℕ) (out : Text) → All (λ c. c ≢ 47) out → All (λ c. c ≢ 47) (digits f n out)
unfolding digits
digits-NoSlash zero n out h = h
digits-NoSlash (suc f) n out h = elim (Bool-cases (ltb n 10)) [
  | inl small ↦ rw (small, digits) (λ e. absurd (omega arith), h)
  | inr big ↦
      rw (big, digits)
        (digits-NoSlash f (n / 10) ((48 + n % 10) ∷ out) (λ e. absurd (omega arith), h))
]

-- No digit is a slash.
pub decimal-NoSlash : (n : ℕ) → All (λ c. c ≢ 47) (decimal n)
unfolding decimal
decimal-NoSlash n = digits-NoSlash (suc n) n [] tt

-- `{}` of a signed integer.
unfoldable pub signed_decimal : ℤ → Text
unfolding decimal
signed_decimal (pos n) = decimal n
signed_decimal (negsuc n) = codes "-" ++ decimal (suc n)
