-- ===== src/Decimal.antt =====
-- What the service uses of JavaScript's bigints and strings: a bigint printed and read in decimal,
-- `split`, `padStart`, `slice` from the front and the removal of trailing zeros. A text is the list
-- of its code units.
pub mod Laws
mod Tests
use faircoin_bridge.Prelude.{
  Bool, List, [], false, if◌then◌else◌, leb, length, ltb, suc, true, zero, ℕ, ◌%◌, ◌&&◌, ◌*◌, ◌++◌,
  ◌+◌, ◌-◌, ◌/◌, ◌==◌, ◌∷◌, ◌≤◌,
}

abbrev pub Text : Type 0
Text = List ℕ

-- The rounds of `toString`, from the last digit on; more fuel than the number is enough.
digits : ℕ → ℕ → Text → Text
digits zero n out = out
digits (suc fuel) n out =
    let rest = digits fuel (n / 10) ((b'0' + n % 10) ∷ out) in
    if ltb n 10 then (b'0' + n) ∷ out else rest

-- `value.toString()`
unfoldable pub to_string : ℕ → Text
unfolding digits
to_string n = digits (suc n) n []

-- The number that digits spell behind `n`.
unfoldable pub value : ℕ → Text → ℕ
value n [] = n
value n (c ∷ s) = value (n * 10 + (c - b'0')) s

-- `BigInt(text)`, for a text of digits; the empty text is 0.
unfoldable pub to_bigint : Text → ℕ
unfolding value
to_bigint s = value 0 s

abbrev pub IsDigit : ℕ → Type 0
IsDigit c = (b'0' ≤ c) × (c ≤ b'9')

-- `\d`
unfoldable pub is_digit : ℕ → Bool
is_digit c = leb b'0' c && leb c b'9'

abbrev pub all : (ℕ → Bool) → Text → Bool
all p [] = true
all p (c ∷ s) = if p c then all p s else false

-- `"…".repeat(n)` of one character
unfoldable pub repeat : ℕ → ℕ → Text
repeat zero c = []
repeat (suc n) c = c ∷ repeat n c

-- `text.padStart(width, c)`
unfoldable pub pad_start : ℕ → ℕ → Text → Text
unfolding repeat
pad_start width c s = if ltb (length s) width then repeat (width - length s) c ++ s else s

drop_zero : ℕ → Text → Text
drop_zero c [] = if c == b'0' then [] else c ∷ []
drop_zero c (d ∷ s) = c ∷ d ∷ s

-- `text.replace(/0+$/, "")`
unfoldable pub strip_zeros : Text → Text
unfolding drop_zero
strip_zeros [] = []
strip_zeros (c ∷ s) = drop_zero c (strip_zeros s)

prepend : ℕ → List Text → List Text
prepend c [] = (c ∷ []) ∷ []
prepend c (s ∷ parts) = (c ∷ s) ∷ parts

-- `text.split(c)`
unfoldable pub split : ℕ → Text → List Text
unfolding prepend
split c [] = [] ∷ []
split c (d ∷ s) = if d == c then [] ∷ split c s else prepend d (split c s)
