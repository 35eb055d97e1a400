-- ===== src/Tags/Tests.antt =====
-- Runs of the tag functions, and the theorem at a concrete input.
use rstorrent.Base.{
  Text, codes, text_beq, trim, trim_end, trim_start_by, trim_end_by, is_whitespace,
  to_ascii_lowercase, ascii_lower, List, [], ◌∷◌, ◌≡◌, refl,
}
use rstorrent.Tags.RoundTrip.{parse-encode}
use rstorrent.Tags.{cleaned, normalise_from, normalise, encode, onto_first, split_commas, parse}

program : Unit {0}
unfolding text_beq trim trim_end trim_start_by trim_end_by is_whitespace to_ascii_lowercase
    ascii_lower cleaned normalise_from normalise encode onto_first split_commas parse
program = tt

abbrev entered : List Text
entered = codes " Linux " ∷ codes "linux" ∷ codes "a,b" ∷ codes " , " ∷ codes "iso" ∷ []

normalise-entered :
    normalise to_ascii_lowercase entered ≡ codes "Linux" ∷ codes "ab" ∷ codes "iso" ∷ []
unfolding program
normalise-entered = refl

encode-entered : encode (normalise to_ascii_lowercase entered) ≡ codes "Linux,ab,iso"
unfolding program
encode-entered = refl

parse_blank : parse to_ascii_lowercase (codes " ,, x,X") ≡ codes "x" ∷ []
unfolding program
parse_blank = refl

parse-encode_example :
    parse to_ascii_lowercase (encode (normalise to_ascii_lowercase entered))
    ≡ normalise to_ascii_lowercase entered
parse-encode_example = parse-encode to_ascii_lowercase entered
