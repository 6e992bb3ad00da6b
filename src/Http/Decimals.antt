-- ===== src/Http/Decimals.antt =====
-- What is known of a decimal text that apps/backend/src/api/schemas/common.ts accepts.
use native.Mathlib.Omega.{pow_step}
use synthetic_order_executor.Base.{
  ℕ, zero, suc, ◌+◌, ◌-◌, ◌*◌, ◌^◌, ◌≤◌, ◌<◌, Bool, true, false, ◌&&◌, ◌||◌, ◌⊎◌, inl, inr, leb→le,
  Bool-cases, [], ◌∷◌, ◌++◌, Text, All, length, take, replicate, leb, ◌==◌, ◌≡◌, refl, ap, arith,
}
use synthetic_order_executor.Effects.{done}
use synthetic_order_executor.Price.{to_scaled, whole_part, after_dot, frac_part, pad_end}
use synthetic_order_executor.Price.Digits.{
  Digit, value_from, value_from-append, read_padded, whole_part_undotted, take-zeros,
}
use synthetic_order_executor.Http.Schemas.{
  is_digit, all_of, any_of, digits_only, matches_decimal, is_positive, accepts_decimal,
}

-- A decimal text that the price service reads as a positive number without cutting off a digit.
abbrev pub ExactDecimal : Text → Type 0
ExactDecimal v =
    let n = value_from 0 (whole_part v ++ frac_part v) * 10 ^ (18 - length (frac_part v)) in
    (length (frac_part v) ≤ 18) × (0 < n) × (to_scaled v ≡ done n)

pub and_true : (a b : Bool) → (a && b) ≡ true → (a ≡ true) × (b ≡ true)
and_true true true h = (refl, refl)
and_true true false h = (refl, h)
and_true false b h = (h, ground arith)

pub is_digit-Digit : (c : ℕ) → is_digit c ≡ true → Digit c
is_digit-Digit c h = (ground arith, ground arith)

pub or_true : (a b : Bool) → (a || b) ≡ true → (a ≡ true) ⊎ (b ≡ true)
or_true true b h = inl refl
or_true false b h = inr h

pub or_right : (a b : Bool) → b ≡ true → (a || b) ≡ true
or_right true b h = refl
or_right false b h = h

all_of-All : (s : Text) → all_of is_digit s ≡ true → All Digit s
all_of-All [] h = tt
all_of-All (c ∷ s) h =
    let parts = and_true (is_digit c) (all_of is_digit s) h in
    (is_digit-Digit c parts.0, all_of-All s parts.1)

digits_only-All : (s : Text) → digits_only s ≡ true → All Digit s
unfolding digits_only
digits_only-All s h = all_of-All s (and_true _ _ h).1

no_dot : (s : Text) → any_of (λ c. c == b'.') s ≡ false → after_dot s ≡ []
unfolding after_dot
no_dot [] h = refl
no_dot (c ∷ s) h = elim (Bool-cases (c == b'.')) [
  | inl dot ↦ absurd (ground arith)
  | inr other ↦ rw other (no_dot s (rw other at h))
]

after_dot-All : (v : Text) → matches_decimal v ≡ true → All Digit (after_dot v)
unfolding matches_decimal
after_dot-All v h = elim (Bool-cases (any_of (λ c. c == b'.') v)) [
  | inl dot ↦ digits_only-All _ (rw dot at (and_true (digits_only (whole_part v)) _ h).1)
  | inr none_there ↦ rw (no_dot v none_there) tt
]

frac_part-eq : (v : Text) → matches_decimal v ≡ true → frac_part v ≡ after_dot v
unfolding frac_part
frac_part-eq v h = whole_part_undotted (after_dot v) (after_dot-All v h)

-- A digit other than 0 stands before the dot or after it.
nonzero_parts :
    (v : Text)
    → is_positive v ≡ true
    → (is_positive (whole_part v) ≡ true) ⊎ (is_positive (after_dot v) ≡ true)
unfolding is_positive whole_part after_dot
nonzero_parts [] h = inl h
nonzero_parts (c ∷ s) h = elim (Bool-cases (c == b'.')) [
  | inl dot ↦ inr (rw dot (after_the_dot dot))
  | inr other ↦ rw other (elim (or_true (nonzero c) (is_positive s) h) [
    | inl here ↦ inl (rw here refl)
    | inr there ↦ elim (nonzero_parts s there) [
      | inl before ↦ inl (or_right (nonzero c) _ before)
      | inr after ↦ inr after
    ]
  ])
]
  where
    nonzero : ℕ → Bool
    nonzero d = leb b'1' d && leb d b'9'

    after_the_dot : (c == b'.') ≡ true → is_positive s ≡ true
    after_the_dot dot = ground arith

value_from-pos : (acc : ℕ) (s : Text) → 0 < acc → 0 < value_from acc s
value_from-pos acc [] h = h
value_from-pos acc (c ∷ s) h = value_from-pos (acc * 10 + (c - 48)) s (omega arith)

positive_value : (acc : ℕ) (s : Text) → is_positive s ≡ true → 0 < value_from acc s
unfolding is_positive
positive_value acc [] h = ground arith
positive_value acc (c ∷ s) h = elim (or_true (leb b'1' c && leb c b'9') (is_positive s) h) [
  | inl here ↦ value_from-pos (acc * 10 + (c - 48)) s (ground arith)
  | inr there ↦ positive_value (acc * 10 + (c - 48)) s there
]

take-pad :
    (n m : ℕ) (s : Text)
    → length s ≤ n
    → n ≤ m
    → take {A = ℕ} n (s ++ replicate m b'0') ≡ s ++ replicate (n - length s) b'0'
take-pad n m [] h k = rw (no_less n) (take-zeros n m k)
  where
    no_less : (a : ℕ) → a - 0 ≡ a
    no_less a = omega arith
take-pad zero m (c ∷ s) h k = elim h [ ]
take-pad (suc n) m (c ∷ s) h k =
    rw shorter (ap (λ (r : Text). c ∷ r) (take-pad n m s (omega arith) (omega arith)))
  where
    shorter : suc n - length (c ∷ s) ≡ n - length s
    shorter = omega arith

pow_pos : (k : ℕ) → 0 < 10 ^ k
pow_pos zero = omega arith
pow_pos (suc k) = rw (pow_step 10 k) (omega (arith, pow_pos k))

mul_pos : (a b : ℕ) → 0 < a → 0 < b → 0 < a * b
mul_pos a b h k = grind arith

pub accepts-ExactDecimal : (v : Text) → accepts_decimal v ≡ true → ExactDecimal v
unfolding accepts_decimal matches_decimal to_scaled pad_end
accepts-ExactDecimal v h = (fits, positive, read)
  where
    short : ((matches_decimal v && is_positive v) ≡ true) × (leb (length (frac_part v)) 18 ≡ true)
    short = and_true (matches_decimal v && is_positive v) _ h

    shape : (matches_decimal v ≡ true) × (is_positive v ≡ true)
    shape = and_true (matches_decimal v) (is_positive v) short.0

    fits : length (frac_part v) ≤ 18
    fits = leb→le _ _ short.1

    whole : All Digit (whole_part v)
    whole = digits_only-All _ (and_true (digits_only (whole_part v)) _ shape.0).0

    frac : All Digit (frac_part v)
    frac = rw (frac_part-eq v shape.0) (after_dot-All v shape.0)

    spelled : 0 < value_from 0 (whole_part v ++ frac_part v)
    spelled =
        rw (value_from-append 0 (whole_part v) (frac_part v)) (elim (nonzero_parts v shape.1) [
          | inl before ↦ value_from-pos _ (frac_part v) (positive_value 0 (whole_part v) before)
          | inr after ↦ rw (frac_part-eq v shape.0) (positive_value _ (after_dot v) after)
        ])

    positive : 0 < value_from 0 (whole_part v ++ frac_part v) * 10 ^ (18 - length (frac_part v))
    positive = mul_pos _ _ spelled (pow_pos (18 - length (frac_part v)))

    read :
        to_scaled v
        ≡ done (value_from 0 (whole_part v ++ frac_part v) * 10 ^ (18 - length (frac_part v)))
    read =
        rw (take-pad 18 18 (frac_part v) fits (omega arith))
          (read_padded (whole_part v) (frac_part v) whole frac)
