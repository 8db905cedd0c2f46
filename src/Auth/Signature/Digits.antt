-- ===== src/Auth/Signature/Digits.antt =====
-- Printed numbers are read back.
use eventmesh.Base.{
  ℕ, zero, suc, ◌+◌, ◌-◌, ◌*◌, ◌/◌, ◌%◌, ◌<◌, ◌≡◌, refl, ap, ◌∙◌, Bool, true, false, some, List, [],
  ◌∷◌, All, All-map, arith, ltb, ◌==◌, is_space, strip, strip_left, strip_right, inl, inr,
  Bool-cases, if_true, if_false,
}
use eventmesh.Base.Int.{ℤ, pos, negsuc}
use eventmesh.Auth.Signature.{digits_from, decimal, decimal_ℤ}
use eventmesh.Auth.Signature.Verify.{is_digit, digits_value, positive, signed_value, int_value}

abbrev pub AllDigits : List ℕ → Type 0
AllDigits = All (λ c. is_digit c ≡ true)

digits_from-AllDigits :
    (fuel n : ℕ) (rest : List ℕ) → AllDigits rest → AllDigits (digits_from fuel n rest)
unfolding digits_from
digits_from-AllDigits zero n rest h = h
digits_from-AllDigits (suc fuel) n rest h = elim (Bool-cases (ltb n 10)) [
  | inl e ↦ rw e (ground arith, h)
  | inr e ↦ rw e (digits_from-AllDigits fuel (n / 10) ((48 + n % 10) ∷ rest) (ground arith, h))
]

pub decimal-AllDigits : (n : ℕ) → AllDigits (decimal n)
unfolding decimal
decimal-AllDigits n = digits_from-AllDigits (suc n) n [] tt

-- One digit is read.
digits_value-digit :
    (need : Bool) (acc c : ℕ) (rest : List ℕ)
    → is_digit c ≡ true
    → digits_value need acc (c ∷ rest) ≡ digits_value false (acc * 10 + (c - 48)) rest
digits_value-digit need acc c rest h = if_true _ _ h

digits_value-digits_from :
    (fuel n : ℕ) (need : Bool) (rest : List ℕ)
    → n < fuel
    → digits_value need 0 (digits_from fuel n rest) ≡ digits_value false n rest
unfolding digits_from
digits_value-digits_from zero n need rest h = elim h [ ]
digits_value-digits_from (suc fuel) n need rest h = elim (Bool-cases (ltb n 10)) [
  | inl e ↦ rw e (
      digits_value-digit need 0 (48 + n) rest (ground arith)
      ∙ ap (λ k. digits_value false k rest) (omega arith))
  | inr e ↦ rw e (
      digits_value-digits_from fuel (n / 10) need ((48 + n % 10) ∷ rest) (ground arith)
      ∙ digits_value-digit false (n / 10) (48 + n % 10) rest (ground arith)
      ∙ ap (λ k. digits_value false k rest) (omega arith))
]

digits_value-decimal : (n : ℕ) → digits_value true 0 (decimal n) ≡ some n
unfolding decimal
digits_value-decimal n = digits_value-digits_from (suc n) n true [] (omega arith)

-- A text without whitespace at its ends is stripped of nothing.
strip_left-plain : (xs : List ℕ) → All (λ c. is_space c ≡ false) xs → strip_left xs ≡ xs
strip_left-plain [] h = refl
strip_left-plain (x ∷ xs) h = rw h.0 refl

strip_right-plain : (xs : List ℕ) → All (λ c. is_space c ≡ false) xs → strip_right xs ≡ xs
strip_right-plain [] h = refl
strip_right-plain (x ∷ []) h = rw h.0 refl
strip_right-plain (x ∷ y ∷ xs) h = rw (strip_right-plain (y ∷ xs) h.1) refl

pub strip-plain : (xs : List ℕ) → All (λ c. is_space c ≡ false) xs → strip xs ≡ xs
strip-plain xs h = rw (strip_left-plain xs h) (strip_right-plain xs h)

digit_not_space : (c : ℕ) → is_digit c ≡ true → is_space c ≡ false
digit_not_space c h = ground arith

signed_value-AllDigits :
    (xs : List ℕ) → AllDigits xs → signed_value xs ≡ positive (digits_value true 0 xs)
signed_value-AllDigits [] h = refl
signed_value-AllDigits (c ∷ cs) h =
    let minus : (c == b'-') ≡ false = ground arith in
    let plus : (c == b'+') ≡ false = ground arith in if_false _ _ minus ∙ if_false _ _ plus

pub int_value-decimal : (ts : ℤ) → int_value (decimal_ℤ ts) ≡ some ts
unfolding int_value
int_value-decimal (pos n) =
    rw
      (
        strip-plain (decimal n) (All-map (decimal n) digit_not_space (decimal-AllDigits n)),
        signed_value-AllDigits (decimal n) (decimal-AllDigits n),
        digits_value-decimal n,
      )
      refl
int_value-decimal (negsuc n) =
    rw
      (
        strip-plain (b'-' ∷ decimal (suc n))
            (refl, All-map (decimal (suc n)) digit_not_space (decimal-AllDigits (suc n))),
        digits_value-decimal (suc n),
      )
      (ground arith)
