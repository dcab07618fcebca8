-- ===== src/Decimal/Laws.antt =====
-- What the decimal texts give back, over the whole of `Decimal`.
use faircoin_bridge.Decimal.{
  IsDigit, Text, all, digits, drop_zero, is_digit, pad_start, prepend, repeat, split, strip_zeros,
  to_bigint, to_string, value,
}
use faircoin_bridge.Prelude.{
  ==_iff, All, Bool-cases, List, [], ap, arith, first, inl, inr, length, length-append, ltb, refl,
  suc, sym, true, zero, ℕ, ◌%◌, ◌*◌, ◌++◌, ◌+◌, ◌-◌, ◌/◌, ◌<◌, ◌==◌, ◌^◌, ◌∙◌, ◌∷◌, ◌≡◌, ◌≢◌, ◌≤◌,
}

module _ {ℓ κ} {A : Type ℓ} (P : A → Type κ) where
  pub All-append : (xs ys : List A) → All P xs → All P ys → All P (xs ++ ys)
  All-append [] ys h k = k
  All-append (x ∷ xs) ys h k = (h.0, All-append xs ys h.1 k)

value-digits : (fuel n : ℕ) (out : Text) → n < fuel → value 0 (digits fuel n out) ≡ value n out
unfolding value digits
value-digits zero n out h = absurd (omega arith)
value-digits (suc fuel) n out h = ground (arith, value-digits fuel (n / 10) ((b'0' + n % 10) ∷ out))

-- A printed number is read back.
pub to_bigint-to_string : (n : ℕ) → to_bigint (to_string n) ≡ n
unfolding to_bigint to_string value
to_bigint-to_string n = value-digits (suc n) n [] (omega arith)

All-digits : (fuel n : ℕ) (out : Text) → All IsDigit out → All IsDigit (digits fuel n out)
unfolding digits
All-digits zero n out h = h
All-digits (suc fuel) n out h = ground (arith, All-digits fuel (n / 10) ((b'0' + n % 10) ∷ out))

pub to_string-digits : (n : ℕ) → All IsDigit (to_string n)
unfolding to_string
to_string-digits n = All-digits (suc n) n [] tt

digits-ne-nil : (fuel n : ℕ) (out : Text) → 0 < fuel → digits fuel n out ≢ []
unfolding digits
digits-ne-nil zero n out h = absurd (omega arith)
digits-ne-nil (suc zero) n out h = ground arith
digits-ne-nil (suc (suc fuel)) n out h =
    ground (arith, digits-ne-nil (suc fuel) (n / 10) ((b'0' + n % 10) ∷ out))

pub to_string-ne-nil : (n : ℕ) → to_string n ≢ []
unfolding to_string
to_string-ne-nil n = digits-ne-nil (suc n) n [] (omega arith)

pow_suc : (k : ℕ) → 10 ^ suc k ≡ 10 * 10 ^ k
pow_suc k = omega arith

length-digits :
    (k fuel n : ℕ) (out : Text) → n < 10 ^ suc k → length (digits fuel n out) ≤ suc k + length out
unfolding digits
length-digits k zero n out h = omega arith
length-digits zero (suc fuel) n out h = ground arith
length-digits (suc k) (suc fuel) n out h =
    ground (arith, pow_suc (suc k), length-digits k fuel (n / 10) ((b'0' + n % 10) ∷ out))

-- A number below a power of ten has at most so many digits.
pub length-to_string : (k n : ℕ) → 0 < k → n < 10 ^ k → length (to_string n) ≤ k
unfolding to_string
length-to_string zero n positive h = absurd (omega arith)
length-to_string (suc k) n positive h = omega (arith, length-digits k (suc n) n [] h)

pub length-repeat : (n c : ℕ) → length (repeat n c) ≡ n
unfolding repeat
length-repeat zero c = refl
length-repeat (suc n) c = omega (arith, length-repeat n c)

value-repeat : (n : ℕ) (s : Text) → value 0 (repeat n b'0' ++ s) ≡ value 0 s
unfolding value repeat
value-repeat zero s = refl
value-repeat (suc n) s = value-repeat n s

pub to_bigint-repeat : (n : ℕ) → to_bigint (repeat n b'0') ≡ 0
unfolding to_bigint value repeat
to_bigint-repeat zero = refl
to_bigint-repeat (suc n) = to_bigint-repeat n

All-repeat : (n : ℕ) → All IsDigit (repeat n b'0')
unfolding repeat
All-repeat zero = tt
All-repeat (suc n) = ground (arith, All-repeat n)

-- Zeros in front of a text of digits change its length only.
pub pad_start-value : (width : ℕ) (s : Text) → to_bigint (pad_start width b'0' s) ≡ to_bigint s
unfolding to_bigint pad_start
pad_start-value width s = ground (arith, value-repeat (width - length s) s)

pub length-pad_start :
    (width : ℕ) (s : Text) → length s ≤ width → length (pad_start width b'0' s) ≡ width
unfolding pad_start
length-pad_start width s h =
    ground (
      arith,
      length-append (repeat (width - length s) b'0') s,
      length-repeat (width - length s) b'0',
    )

pub pad_start-digits : (width : ℕ) (s : Text) → All IsDigit s → All IsDigit (pad_start width b'0' s)
unfolding pad_start
pad_start-digits width s h = elim (Bool-cases (ltb (length s) width)) [
  | inl t ↦
      rw t (All-append IsDigit (repeat (width - length s) b'0') s (All-repeat (width - length s)) h)
  | inr f ↦ rw f h
]

drop_zero-digits : (c : ℕ) (s : Text) → IsDigit c → All IsDigit s → All IsDigit (drop_zero c s)
unfolding drop_zero
drop_zero-digits c [] d h = ground arith
drop_zero-digits c (x ∷ s) d h = (d, h)

pub strip_zeros-digits : (s : Text) → All IsDigit s → All IsDigit (strip_zeros s)
unfolding strip_zeros
strip_zeros-digits [] h = tt
strip_zeros-digits (c ∷ s) h = drop_zero-digits c (strip_zeros s) h.0 (strip_zeros-digits s h.1)

pub length-strip_zeros : (s : Text) → length (strip_zeros s) ≤ length s
unfolding strip_zeros
length-strip_zeros [] = omega arith
length-strip_zeros (c ∷ s) = go (strip_zeros s) (length-strip_zeros s)
  where
    go : (t : Text) → length t ≤ length s → length (drop_zero c t) ≤ suc (length s)
    go [] h = unfold drop_zero in ground arith
    go (d ∷ t) h = unfold drop_zero in omega arith

pub first-repeat : (m n : ℕ) → m ≤ n → first m (repeat n b'0') ≡ repeat m b'0'
unfolding repeat
first-repeat zero n h = refl
first-repeat (suc m) zero h = absurd (omega arith)
first-repeat (suc m) (suc n) h = ap (λ t. b'0' ∷ t) (first-repeat m n (omega arith))

-- Trailing zeros that were removed come back when the text is filled up to its length.
pub first-strip_zeros :
    (s : Text) (n : ℕ) → length s ≤ n → first (length s) (strip_zeros s ++ repeat n b'0') ≡ s
unfolding strip_zeros
first-strip_zeros [] n h = refl
first-strip_zeros (c ∷ s) n h = go (strip_zeros s) (first-strip_zeros s n (omega arith))
  where
    zeros : {t : Text} → first (length s) (repeat n b'0') ≡ t → t ≡ repeat (length s) b'0'
    zeros e = sym e ∙ first-repeat (length s) n (omega arith)

    go :
        (t : Text)
        → first (length s) (t ++ repeat n b'0') ≡ s
        → first (suc (length s)) (drop_zero c t ++ repeat n b'0') ≡ c ∷ s
    go [] e =
        unfold drop_zero in
        elim (Bool-cases (c == b'0')) [
          | inl t ↦ rw t (
              unfold repeat in cc (first-repeat (suc (length s)) n h, zeros e, (==_iff c b'0').0 t))
          | inr f ↦ rw f (ap (λ r. c ∷ r) e)
        ]
    go (d ∷ t) e = unfold drop_zero in ap (λ r. c ∷ r) e

pub split-digits : (s : Text) → All IsDigit s → split b'.' s ≡ s ∷ []
unfolding split prepend
split-digits [] h = refl
split-digits (c ∷ s) h = ground (arith, split-digits s h.1)

pub split-point :
    (s t : Text) → All IsDigit s → All IsDigit t → split b'.' (s ++ b'.' ∷ t) ≡ s ∷ t ∷ []
unfolding split prepend
split-point [] t h k = ground (arith, split-digits t k)
split-point (c ∷ s) t h k = ground (arith, split-point s t h.1 k)

pub all-digits : (s : Text) → All IsDigit s → all is_digit s ≡ true
unfolding is_digit
all-digits [] h = refl
all-digits (c ∷ s) h = ground (arith, all-digits s h.1)
