-- ===== src/Rss/Episode.antt =====
-- crates/rtorrent/src/rss.rs: the season and the episode in a title, and the ranges of a rule. The
-- source's index into the bytes of a title is here the text from there on: none of the characters
-- that it looks for is part of a longer one.
use rstorrent.Base.{
  ℕ, ◌+◌, ◌-◌, ◌*◌, leb, ltb, nat_beq, min, Text, trim, is_empty, all, any, to_ascii_lowercase,
  if◌then◌else◌, Bool, not, ◌&&◌, ◌||◌, Option, none, some, List, [], ◌∷◌,
}
use rstorrent.Scgi.Digits.{is_digit, read_number}
use rstorrent.Tags.{split_commas}

pub record Episode : Type 0 where
  pub season : Option ℕ
  pub episode : ℕ

abbrev pub u32_max : ℕ
u32_max = 4294967295

-- The digits at the front of a text, with saturation, and what follows them.
unfoldable pub read_digits : ℕ → Text → ℕ × Text
read_digits value [] = (value, [])
read_digits value (c ∷ s) =
    if is_digit c
    then read_digits (min u32_max (min u32_max (value * 10) + (c - b'0'))) s
    else (value, c ∷ s)

unfoldable pub read_num : Text → Option (ℕ × Text)
read_num [] = none
read_num (c ∷ s) = if is_digit c then some (read_digits 0 (c ∷ s)) else none

abbrev pub is_separator : ℕ → Bool
is_separator c = nat_beq c b'.' || nat_beq c b' ' || nat_beq c b'-' || nat_beq c b'_'

unfoldable pub skip_seps : Text → Text
skip_seps [] = []
skip_seps (c ∷ s) = if is_separator c then skip_seps s else c ∷ s

-- The number after a letter.
unfoldable pub number_after : ℕ → Text → Option (ℕ × Text)
number_after letter [] = none
number_after letter (c ∷ s) = if nat_beq c letter then read_num s else none

pub record Marker : Type 0 where
  pub season : ℕ
  pub episode : ℕ
  pub rest : Text

-- `SxxExx` and `NxNN` at the front of a text.
unfoldable pub marker_se : Text → Option Marker
marker_se s = elim (number_after b's' s) [
  | none ↦ none
  | some (season, after_s) ↦ elim (number_after b'e' (skip_seps after_s)) [
    | none ↦ none
    | some (episode, after_e) ↦ some (record { season = season; episode = episode; rest = after_e })
  ]
]

unfoldable pub marker_x : Text → Option Marker
marker_x s = elim (read_num s) [
  | none ↦ none
  | some (season, after_s) ↦ elim (number_after b'x' after_s) [
    | none ↦ none
    | some (episode, after_e) ↦
        if leb season 60
        then some (record { season = season; episode = episode; rest = after_e })
        else none
  ]
]

unfoldable pub marker : Text → Option Marker
marker s = elim (marker_se s) [ some m ↦ some m | none ↦ marker_x s ]

-- The first marker of a text.
unfoldable pub find_marker : Text → Option Marker
find_marker [] = none
find_marker (c ∷ s) = elim (marker (c ∷ s)) [ some m ↦ some m | none ↦ find_marker s ]

unfoldable pub parse_episode : Text → Option Episode
parse_episode title = elim (find_marker (to_ascii_lowercase title)) [
  | none ↦ none
  | some m ↦ some (record { season = some m.season; episode = m.episode })
]

-- `parse::<u32>()`: an optional plus, then digits, of a number in range.
unfoldable pub parse_u32 : Text → Option ℕ
parse_u32 [] = none
parse_u32 (c ∷ s) =
    let digits = if nat_beq c b'+' then s else c ∷ s in
    if not (is_empty digits) && all is_digit digits && leb (read_number 0 digits).0 u32_max
    then some (read_number 0 digits).0
    else none

-- `split_once(c)`.
unfoldable pub split_once : ℕ → Text → Option (Text × Text)
split_once c [] = none
split_once c (d ∷ s) =
    let rest = split_once c s in
    if nat_beq d c
    then some ([], s)
    else elim rest [ none ↦ none | some (before, after) ↦ some (d ∷ before, after) ]

abbrev pub Span : Type 0
Span = ℕ × ℕ

unfoldable pub bounded_span : Option ℕ → Option ℕ → Option Span
bounded_span (some lo) (some hi) = if ltb hi lo then none else some (lo, hi)
bounded_span _ _ = none

unfoldable pub parse_span : Text → Option Span
parse_span part = if is_empty part then none else elim (split_once b'-' part) [
  | some (lo, hi) ↦ bounded_span (parse_u32 (trim lo)) (parse_u32 (trim hi))
  | none ↦ elim (parse_u32 part) [ none ↦ none | some value ↦ some (value, value) ]
]

unfoldable pub parse_parts : List Text → Option (List Span)
parse_parts [] = some []
parse_parts (part ∷ parts) = elim (parse_span (trim part)) [
  | none ↦ none
  | some span ↦ elim (parse_parts parts) [ none ↦ none | some spans ↦ some (span ∷ spans) ]
]

unfoldable pub parse_spans : Text → Option (List Span)
parse_spans raw = if is_empty (trim raw) then none else parse_parts (split_commas (trim raw))

unfoldable pub in_spans : List Span → ℕ → Bool
in_spans spans value = any (λ (lo, hi). leb lo value && leb value hi) spans
