-- ===== src/XmlRpc/Numbers.antt =====
-- A number that is written as text is read back, and a text without markup escapes to itself.
use rstorrent.Base.{
  ℕ, zero, suc, ◌+◌, ◌/◌, ◌%◌, nat_beq, Text, text_beq, trim, trim_end, trim_start_by, trim_end_by,
  is_whitespace, is_empty, all, ℤ, pos, negsuc, IsI64, Bool, ◌||◌, true, false, some, [], ◌∷◌, ◌≡◌,
  refl, ◌∙◌, arith,
}
use rstorrent.Scgi.Digits.{is_digit, read_number-to_string_all, all-to_string}
use rstorrent.Scgi.{digits_from, to_string}
use rstorrent.XmlRpc.Decode.{signed, parse_digits, parse_i64}
use rstorrent.XmlRpc.{show_i64, escape_char, escape}

-- A character of a number.
abbrev pub is_plain : ℕ → Bool
is_plain c = is_digit c || nat_beq c b'-'

trim_start_plain : (s : Text) → all is_plain s ≡ true → trim_start_by is_whitespace s ≡ s
unfolding trim_start_by is_whitespace
trim_start_plain [] h = refl
trim_start_plain (c ∷ s) h = ground arith

trim_end_plain : (s : Text) → all is_plain s ≡ true → trim_end_by is_whitespace s ≡ s
unfolding trim_end_by is_whitespace
trim_end_plain [] h = refl
trim_end_plain (c ∷ s) h = ground (arith, trim_end_plain s)

pub trim_plain : (s : Text) → all is_plain s ≡ true → trim s ≡ s
unfolding trim trim_end
trim_plain s h = rw (trim_start_plain s h) (trim_end_plain s h)

pub escape_plain : (s : Text) → all is_plain s ≡ true → escape s ≡ s
unfolding escape escape_char
escape_plain [] h = refl
escape_plain (c ∷ s) h = ground (arith, escape_plain s)

all-plain : (s : Text) → all is_digit s ≡ true → all is_plain s ≡ true
all-plain [] h = refl
all-plain (c ∷ s) h = ground (arith, all-plain s)

digits_from-full : (f n : ℕ) (c : ℕ) (s : Text) → is_empty (digits_from f n (c ∷ s)) ≡ false
unfolding digits_from
digits_from-full zero n c s = refl
digits_from-full (suc f) n c s = ground (arith, digits_from-full f (n / 10) (48 + n % 10) (c ∷ s))

to_string-full : (n : ℕ) → is_empty (to_string n) ≡ false
unfolding to_string digits_from
to_string-full n = ground (arith, digits_from-full n (n / 10) (48 + n % 10) [])

parse_digits-to_string :
    (negative : Bool) (n : ℕ) → parse_digits negative (to_string n) ≡ signed negative n
unfolding parse_digits
parse_digits-to_string negative n =
    rw (to_string-full n, all-to_string n, read_number-to_string_all n)

pub all-show_i64 : (n : ℤ) → all is_plain (show_i64 n) ≡ true
unfolding show_i64
all-show_i64 (pos n) = all-plain (to_string n) (all-to_string n)
all-show_i64 (negsuc n) = all-plain (to_string (suc n)) (all-to_string (suc n))

-- A text of digits alone has no sign.
parse_i64-digits :
    (s : Text) → is_empty s ≡ false → all is_digit s ≡ true → parse_i64 s ≡ parse_digits false s
unfolding parse_i64 text_beq
parse_i64-digits [] h d = ground arith
parse_i64-digits (c ∷ s) h d = ground arith

parse_i64-show : (n : ℤ) → IsI64 n → parse_i64 (show_i64 n) ≡ some n
unfolding show_i64 signed parse_i64 text_beq
parse_i64-show (pos n) h =
    parse_i64-digits (to_string n) (to_string-full n) (all-to_string n)
    ∙ parse_digits-to_string false n
    ∙ ground arith
parse_i64-show (negsuc n) h = rw (parse_i64, parse_digits-to_string true (suc n)) (ground arith)

pub parse_i64-trim-show_i64 : (n : ℤ) → IsI64 n → parse_i64 (trim (show_i64 n)) ≡ some n
parse_i64-trim-show_i64 n h = rw (trim_plain (show_i64 n) (all-show_i64 n)) (parse_i64-show n h)
