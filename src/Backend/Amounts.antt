-- ===== src/Backend/Amounts.antt =====
-- The text of an amount, as apps/backend/src/services/order.service.ts prints it and
-- packages/chain/src/price/price.service.ts reads it.
use mathlib.Core.Path.{subst}
use synthetic_order_executor.Base.{
  ℕ, zero, suc, ◌+◌, ◌-◌, ◌*◌, ◌^◌, ◌≤◌, ◌⊎◌, inl, inr, Bool-cases, [], ◌∷◌, ◌++◌, Text, All,
  All-append, length, length-append, length-replicate, take, drop, replicate, number_text, ◌==◌,
  if◌then◌else◌, ◌≡◌, refl, ap, ◌∙◌, arith,
}
use synthetic_order_executor.Effects.{done}
use synthetic_order_executor.Price.{to_scaled, big_int_from, whole_part, frac_part, pad_end}
use synthetic_order_executor.Backend.{format_base_units, pad_start, drop_zeros, with_frac}
use synthetic_order_executor.Price.Digits.{
  Digit, value_from, value_from-append, value_from-zeros, read_padded, Digit-zeros, digits-Digit,
  digits-value, whole_part-append, whole_part_undotted, after_dot-append, after_dot_undotted,
  take-zeros, take-drop, All-take, All-drop, length-drop,
}

-- Dropping zeros goes through a text, or has dropped all of it.
drop_zeros-cases :
    (c : ℕ) (s : Text)
    → (drop_zeros (c ∷ s) ≡ c ∷ drop_zeros s)
      ⊎ ((c ≡ b'0') × (drop_zeros (c ∷ s) ≡ []) × (drop_zeros s ≡ []))
unfolding drop_zeros
drop_zeros-cases c s = go (drop_zeros s)
  where
    go :
        (r : Text)
        → let whole : Text = elim r [ [] ↦ if c == b'0' then [] else c ∷ [] | d ∷ t ↦ c ∷ d ∷ t ] in
          (whole ≡ c ∷ r) ⊎ ((c ≡ b'0') × (whole ≡ []) × (r ≡ []))
    go (d ∷ t) = inl refl
    go [] = elim (Bool-cases (c == b'0')) [
      | inl zeroed ↦ inr (ground arith, rw zeroed, refl)
      | inr other ↦ inl (rw other)
    ]

All-drop_zeros : (s : Text) → All Digit s → All Digit (drop_zeros s)
unfolding drop_zeros
All-drop_zeros [] h = tt
All-drop_zeros (c ∷ s) h = elim (drop_zeros-cases c s) [
  | inl kept ↦ rw kept (h.0, All-drop_zeros s h.1)
  | inr (_, gone, _) ↦ rw gone tt
]

-- Dropping zeros at the end and padding with zeros again is padding with zeros.
take-drop_zeros :
    (n m : ℕ) (s : Text)
    → length s ≤ n
    → n ≤ m
    → take {A = ℕ} n (drop_zeros s ++ replicate m b'0') ≡ s ++ replicate (n - length s) b'0'
unfolding drop_zeros
take-drop_zeros n m [] h k = rw (no_less n) (take-zeros n m k)
  where
    no_less : (a : ℕ) → a - 0 ≡ a
    no_less a = omega arith
take-drop_zeros zero m (c ∷ s) h k = elim h [ ]
take-drop_zeros (suc n) zero (c ∷ s) h k = elim k [ ]
take-drop_zeros (suc n) (suc m) (c ∷ s) h k = elim (drop_zeros-cases c s) [
  | inl kept ↦
      rw (kept, shorter)
        (ap (λ (r : Text). c ∷ r) (take-drop_zeros n (suc m) s (omega arith) (omega arith)))
  | inr (is_zero, gone, none_left) ↦
      rw (gone, shorter, is_zero)
        (let ih = take-drop_zeros n m s (omega arith) (omega arith) in
          ap (λ (r : Text). b'0' ∷ r) (rw none_left at ih))
]
  where
    shorter : suc n - length (c ∷ s) ≡ n - length s
    shorter = omega arith

-- Reading a text of digits with a dot before the last zeros were dropped.
to_scaled-with_frac :
    (whole frac : Text)
    → All Digit whole
    → All Digit frac
    → length frac ≤ 18
    → to_scaled (with_frac whole (drop_zeros frac))
      ≡ done (value_from 0 (whole ++ frac) * 10 ^ (18 - length frac))
unfolding to_scaled frac_part pad_end whole_part
to_scaled-with_frac whole frac hw hf fits = parts (drop_zeros frac) refl (All-drop_zeros frac hf)
  where
    padded : Text
    padded = frac ++ replicate (18 - length frac) b'0'

    digits_read :
        big_int_from 0 (whole ++ padded)
        ≡ done (value_from 0 (whole ++ frac) * 10 ^ (18 - length frac))
    digits_read = read_padded whole frac hw hf

    repadded : (f : Text) → drop_zeros frac ≡ f → take 18 (f ++ replicate 18 b'0') ≡ padded
    repadded f e =
        subst (λ g. take 18 (g ++ replicate 18 b'0') ≡ padded) e
          (take-drop_zeros 18 18 frac fits (omega arith))

    parts :
        (f : Text)
        → drop_zeros frac ≡ f
        → All Digit f
        → to_scaled (with_frac whole f)
          ≡ done (value_from 0 (whole ++ frac) * 10 ^ (18 - length frac))
    parts [] e h =
        rw (whole_part_undotted whole hw, after_dot_undotted whole hw, repadded _ e) digits_read
    parts (c ∷ f) e h =
        rw
          (
            whole_part-append whole (c ∷ f) hw,
            after_dot-append whole (c ∷ f) hw,
            whole_part_undotted (c ∷ f) h,
            repadded _ e,
          )
          digits_read

padded-Digit : (n v : ℕ) → All Digit (pad_start n (number_text v))
unfolding pad_start number_text
padded-Digit n v =
    All-append Digit (replicate (n - length (number_text v)) b'0') _ (Digit-zeros _)
      (digits-Digit (suc v) v)

padded-value : (n v : ℕ) → value_from 0 (pad_start n (number_text v)) ≡ v
unfolding pad_start number_text
padded-value n v =
    value_from-append 0 (replicate (n - length (number_text v)) b'0') (number_text v)
    ∙ rw
        (
          value_from-zeros 0 (n - length (number_text v)),
          none_times (10 ^ (n - length (number_text v))),
        )
        (digits-value (suc v) v (omega arith))
  where
    none_times : (a : ℕ) → 0 * a ≡ 0
    none_times a = omega arith

padded-length : (n : ℕ) (s : Text) → n ≤ length (pad_start n s)
unfolding pad_start
padded-length n s = omega (
  arith,
  length-append (replicate (n - length s) b'0') s,
  length-replicate {A = ℕ} (n - length s) b'0',
)

-- The number that the API prints for an amount of base units, with at most 18 decimals, is what the
-- price service reads, at its 18 decimals: the amount times 10 ^ (18 - decimals).
pub to_scaled-format_base_units :
    (value decimals : ℕ)
    → decimals ≤ 18
    → to_scaled (format_base_units value decimals) ≡ done (value * 10 ^ (18 - decimals))
unfolding format_base_units
to_scaled-format_base_units value decimals fits =
    rw (take-drop n s, padded-value (decimals + 1) value, frac_length) at
      (to_scaled-with_frac (take n s) (drop n s) (All-take n s all) (All-drop n s all)
        (omega (arith, frac_length)))
  where
    s : Text
    s = pad_start (decimals + 1) (number_text value)

    n : ℕ
    n = length s - decimals

    all : All Digit s
    all = padded-Digit (decimals + 1) value

    frac_length : length (drop n s) ≡ decimals
    frac_length = omega (arith, length-drop n s, padded-length (decimals + 1) (number_text value))
