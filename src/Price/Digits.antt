-- ===== src/Price/Digits.antt =====
-- Texts of decimal digits, and how packages/chain/src/price/price.service.ts reads them.
use mathlib.Core.List.{append_assoc}
use native.Mathlib.Omega.{pow_step}
use synthetic_order_executor.Base.{
  ℕ, zero, suc, ◌+◌, ◌-◌, ◌*◌, ◌/◌, ◌%◌, ◌^◌, ◌≤◌, ◌<◌, inl, inr, Bool-cases, [], ◌∷◌, ◌++◌, Text,
  All, All-append, length, take, drop, replicate, digits, ltb, ◌≡◌, refl, sym, ap, ◌∙◌, arith,
}
use synthetic_order_executor.Effects.{done}
use synthetic_order_executor.Price.{big_int_from, whole_part, after_dot}

abbrev pub Digit : ℕ → Type 0
Digit c = (48 ≤ c) × (c ≤ 57)

-- The number that a text of digits spells after the number `acc`.
abbrev pub value_from : ℕ → Text → ℕ
value_from acc [] = acc
value_from acc (c ∷ s) = value_from (acc * 10 + (c - 48)) s

pub value_from-append :
    (acc : ℕ) (s t : Text) → value_from acc (s ++ t) ≡ value_from (value_from acc s) t
value_from-append acc [] t = refl
value_from-append acc (c ∷ s) t = value_from-append (acc * 10 + (c - 48)) s t

pub big_int_from-value :
    (acc : ℕ) (s : Text) → All Digit s → big_int_from acc s ≡ done (value_from acc s)
unfolding big_int_from
big_int_from-value acc [] h = refl
big_int_from-value acc (c ∷ s) h = ground (arith, big_int_from-value (acc * 10 + (c - 48)) s h.1)

pub Digit-zeros : (n : ℕ) → All Digit (replicate n b'0')
Digit-zeros zero = tt
Digit-zeros (suc n) = ((omega arith, omega arith), Digit-zeros n)

next_power : (a n : ℕ) → (a * 10 + 0) * 10 ^ n ≡ a * 10 ^ suc n
next_power a n = rw (pow_step 10 n) (shift a (10 ^ n))
  where
    shift : (b p : ℕ) → (b * 10 + 0) * p ≡ b * (10 * p)
    shift b p = grind arith

pub value_from-zeros : (acc n : ℕ) → value_from acc (replicate n b'0') ≡ acc * 10 ^ n
value_from-zeros acc zero = omega arith
value_from-zeros acc (suc n) = value_from-zeros (acc * 10 + 0) n ∙ next_power acc n

pub digits-Digit : (fuel n : ℕ) → All Digit (digits fuel n)
unfolding digits
digits-Digit zero n = tt
digits-Digit (suc fuel) n = elim (Bool-cases (ltb n 10)) [
  | inl small ↦ rw small ((omega arith, ground arith), tt)
  | inr large ↦ rw large (
      All-append Digit (digits fuel (n / 10)) _ (digits-Digit fuel (n / 10))
        ((omega arith, grind arith), tt))
]

-- The fuel of `number_text` is enough.
pub digits-value : (fuel n : ℕ) → n < fuel → value_from 0 (digits fuel n) ≡ n
unfolding digits
digits-value zero n h = elim h [ ]
digits-value (suc fuel) n h = elim (Bool-cases (ltb n 10)) [
  | inl small ↦ rw small (omega arith)
  | inr large ↦
      rw
        (
          large,
          value_from-append 0 (digits fuel (n / 10)) ((n % 10 + 48) ∷ []),
          digits-value fuel (n / 10) (grind arith),
        )
        (omega arith)
]

pub whole_part-append : (s t : Text) → All Digit s → whole_part (s ++ b'.' ∷ t) ≡ s
unfolding whole_part
whole_part-append [] t h = refl
whole_part-append (c ∷ s) t h = ground (arith, whole_part-append s t h.1)

pub whole_part_undotted : (s : Text) → All Digit s → whole_part s ≡ s
unfolding whole_part
whole_part_undotted [] h = refl
whole_part_undotted (c ∷ s) h = ground (arith, whole_part_undotted s h.1)

pub after_dot-append : (s t : Text) → All Digit s → after_dot (s ++ b'.' ∷ t) ≡ t
unfolding after_dot
after_dot-append [] t h = refl
after_dot-append (c ∷ s) t h = ground (arith, after_dot-append s t h.1)

pub after_dot_undotted : (s : Text) → All Digit s → after_dot s ≡ []
unfolding after_dot
after_dot_undotted [] h = refl
after_dot_undotted (c ∷ s) h = ground (arith, after_dot_undotted s h.1)

pub take-zeros : (n m : ℕ) → n ≤ m → take {A = ℕ} n (replicate m b'0') ≡ replicate n b'0'
take-zeros zero m h = refl
take-zeros (suc n) zero h = elim h [ ]
take-zeros (suc n) (suc m) h = ap (λ (r : Text). b'0' ∷ r) (take-zeros n m (omega arith))

pub take-drop : (n : ℕ) (s : Text) → take n s ++ drop n s ≡ s
take-drop zero s = refl
take-drop (suc n) [] = refl
take-drop (suc n) (c ∷ s) = ap (λ r. c ∷ r) (take-drop n s)

pub All-take : (n : ℕ) (s : Text) → All Digit s → All Digit (take n s)
All-take zero s h = tt
All-take (suc n) [] h = tt
All-take (suc n) (c ∷ s) h = (h.0, All-take n s h.1)

pub All-drop : (n : ℕ) (s : Text) → All Digit s → All Digit (drop n s)
All-drop zero s h = h
All-drop (suc n) [] h = tt
All-drop (suc n) (c ∷ s) h = All-drop n s h.1

pub length-drop : (n : ℕ) (s : Text) → length (drop n s) ≡ length s - n
length-drop zero s = omega arith
length-drop (suc n) [] = omega arith
length-drop (suc n) (c ∷ s) = omega (arith, length-drop n s)

-- The digits of a decimal, filled up to 18 places.
pub read_padded :
    (whole frac : Text)
    → All Digit whole
    → All Digit frac
    → big_int_from 0 (whole ++ (frac ++ replicate (18 - length frac) b'0'))
      ≡ done (value_from 0 (whole ++ frac) * 10 ^ (18 - length frac))
read_padded whole frac hw hf =
    rw (sym (append_assoc whole frac (replicate (18 - length frac) b'0'))) (
      big_int_from-value 0 ((whole ++ frac) ++ replicate (18 - length frac) b'0') (
        All-append Digit (whole ++ frac) _ (All-append Digit whole frac hw hf)
          (Digit-zeros (18 - length frac)))
      ∙ ap done (value_from-append 0 (whole ++ frac) _ ∙ value_from-zeros _ (18 - length frac)))
