-- ===== src/Review/Decimal.antt =====
-- The decimal of a number reads back as the number.
use slopsentinel.Base.{
  ℕ, zero, suc, ◌+◌, ◌-◌, ◌*◌, ◌/◌, ◌%◌, ◌≤◌, Text, [], ◌∷◌, ltb, ◌≡◌, refl, ◌∙◌, ap, arith,
  Bool-cases, inl, inr, true,
}
use slopsentinel.GitDiff.{digits, is_digit}
use slopsentinel.Review.Markers.{decimal, decimal_from}

digits_step :
    (value d : ℕ) (s : Text) → d ≤ 9 → digits value ((b'0' + d) ∷ s) ≡ digits (value * 10 + d) s
unfolding digits
digits_step value d s h =
    let there : is_digit (b'0' + d) ≡ true = ground arith in
    let e : value * 10 + ((b'0' + d) - b'0') ≡ value * 10 + d = omega arith in rw (there, e) refl

digits-decimal_from :
    (fuel n : ℕ) (acc : Text) → n ≤ fuel → digits 0 (decimal_from fuel n acc) ≡ digits n acc
unfolding decimal_from digits
digits-decimal_from zero n acc h =
    digits_step 0 (n % 10) acc (omega arith) ∙ ap (λ v. digits v acc) (omega (arith, h))
digits-decimal_from (suc fuel) n acc h = elim (Bool-cases (ltb n 10)) [
  | inl small ↦
      let le : n ≤ 9 = ground arith in
      rw small (digits_step 0 n acc le ∙ ap (λ v. digits v acc) (omega arith))
  | inr big ↦
      let le : n / 10 ≤ fuel = ground arith in
      rw big (
        digits-decimal_from fuel (n / 10) ((b'0' + n % 10) ∷ acc) le
        ∙ digits_step (n / 10) (n % 10) acc (omega arith)
        ∙ ap (λ v. digits v acc) (omega arith))
]

-- The number itself is fuel enough.
digits-decimal : (n : ℕ) → digits 0 (decimal n) ≡ (n, [])
unfolding decimal digits
digits-decimal n = digits-decimal_from n n [] (omega arith)
