-- ===== src/Scgi/Digits.antt =====
-- Decimal numbers, written and read.
use rstorrent.Base.{
  ℕ, zero, suc, ◌+◌, ◌-◌, ◌*◌, ◌/◌, ◌%◌, ◌<◌, leb, ltb, Text, all, if◌then◌else◌, Bool, true, false,
  ◌&&◌, [], ◌∷◌, ◌++◌, ◌≡◌, refl, ap, ◌∙◌, Bool-cases, inl, inr, arith,
}
use rstorrent.Scgi.{digits_from, to_string}

abbrev pub is_digit : ℕ → Bool
is_digit c = leb 48 c && leb c 57

-- A reader of decimal numbers: what the digits at the front say, and what follows them.
unfoldable pub read_number : ℕ → Text → ℕ × Text
read_number acc [] = (acc, [])
read_number acc (c ∷ s) = if is_digit c then read_number (acc * 10 + (c - 48)) s else (acc, c ∷ s)

read_number-digits_from :
    (fuel n : ℕ) (text : Text)
    → n < fuel
    → read_number 0 (digits_from fuel n text) ≡ read_number n text
unfolding digits_from read_number
read_number-digits_from zero n text h = absurd (omega arith)
read_number-digits_from (suc fuel) n text h = elim (Bool-cases (ltb n 10)) [
  | inl last ↦
      let digit : is_digit (48 + n) ≡ true = ground arith in
      let value : 48 + n - 48 ≡ n = omega arith in
      let sum : 0 * 10 + n ≡ n = omega arith in rw (last, digit, value, sum)
  | inr more ↦
      let digit : is_digit (48 + n % 10) ≡ true = ground arith in
      let value : n / 10 * 10 + (48 + n % 10 - 48) ≡ n = omega arith in
      rw more (
        read_number-digits_from fuel (n / 10) ((48 + n % 10) ∷ text) (ground arith)
        ∙ rw (digit, value))
]

digits_from-append :
    (fuel n : ℕ) (text rest : Text)
    → digits_from fuel n text ++ rest ≡ digits_from fuel n (text ++ rest)
unfolding digits_from
digits_from-append zero n text rest = refl
digits_from-append (suc fuel) n text rest = elim (Bool-cases (ltb n 10)) [
  | inl last ↦ rw last
  | inr more ↦ rw more (digits_from-append fuel (n / 10) ((48 + n % 10) ∷ text) rest)
]

-- A number that is written is read back, up to what follows it.
pub read_number-to_string :
    (n c : ℕ) (rest : Text)
    → is_digit c ≡ false
    → read_number 0 (to_string n ++ c ∷ rest) ≡ (n, c ∷ rest)
unfolding to_string read_number
read_number-to_string n c rest h =
    ap (read_number 0) (digits_from-append (suc n) n [] (c ∷ rest))
    ∙ read_number-digits_from (suc n) n (c ∷ rest) (omega arith)
    ∙ rw h

pub read_number-to_string_all : (n : ℕ) → read_number 0 (to_string n) ≡ (n, [])
unfolding to_string read_number
read_number-to_string_all n = read_number-digits_from (suc n) n [] (omega arith)

all-digits_from :
    (fuel n : ℕ) (text : Text)
    → all is_digit text ≡ true
    → all is_digit (digits_from fuel n text) ≡ true
unfolding digits_from
all-digits_from zero n text h = h
all-digits_from (suc fuel) n text h =
    ground (arith, all-digits_from fuel (n / 10) ((48 + n % 10) ∷ text))

pub all-to_string : (n : ℕ) → all is_digit (to_string n) ≡ true
unfolding to_string
all-to_string n = all-digits_from (suc n) n [] refl
