-- ===== src/XmlRpc/Tests.antt =====
-- Runs of the codec, and the theorems at concrete inputs. The reader of entities is one that knows
-- the three that the encoder writes, floats are integers, and a byte string is its own text.
use rstorrent.Base.{
  ◌∙◌, Bool, Bool-cases, inl, inr, trim, trim_end, trim_start_by, trim_end_by, is_whitespace,
  is_empty, ℕ, zero, suc, nat_beq, Text, codes, text_beq, ℤ, pos, negsuc, true, false, some, [],
  ◌∷◌, ◌++◌, ◌≡◌, ◌≢◌, refl, ap, if◌then◌else◌, arith,
}
use rstorrent.Scgi.{digits_from, to_string}
use rstorrent.XmlRpc.Decode.{
  start, finish, empty, text, ok, failed, out_of_fuel, parse_i64, parse_response, trimmed,
  read_text, read_scalar, scalar, fault_from, respond, read_value, read_array, read_items,
  find_data, skip_to_end, close_value, tag_of,
}
use rstorrent.XmlRpc.Fuel.{parse_response_fueled}
use rstorrent.XmlRpc.RoundTrip.{in_param, in_fault, parse_response-shape}
use rstorrent.XmlRpc.Numbers.{trim_plain}
use rstorrent.XmlRpc.Tidy.{tidy}
use rstorrent.XmlRpc.Shape.{render, shape, IsPlain}
use rstorrent.XmlRpc.{
  Value, Codec, int, boolean, str, array, struct, no_items, item, no_members, member, show_i64,
  escape, escape_char, encode_value, method_call,
}

-- The number of characters of the text that still belong to an entity comes first.
unfoldable undo : ℕ → Text → Text
undo n [] = []
undo (suc n) (c ∷ s) = undo n s
undo zero (c ∷ []) = c ∷ []
undo zero (c ∷ d ∷ s) =
    if nat_beq c b'&'
    then (if nat_beq d b'a'
        then b'&' ∷ undo 4 (d ∷ s)
        else (if nat_beq d b'l' then b'<' ∷ undo 3 (d ∷ s) else b'>' ∷ undo 3 (d ∷ s)))
    else c ∷ undo 0 (d ∷ s)

undo-plain : (c : ℕ) (s : Text) → nat_beq c b'&' ≡ false → undo 0 (c ∷ s) ≡ c ∷ undo 0 s
unfolding undo
undo-plain c [] h = refl
undo-plain c (d ∷ s) h = rw (h) refl

undo-escape : (s : Text) → undo 0 (escape s) ≡ s
unfolding undo escape escape_char
undo-escape [] = refl
undo-escape (c ∷ s) = ground (arith, undo-escape s, undo-plain c (escape s))

trim_start-escape :
    (s : Text) → trim_start_by is_whitespace (escape s) ≡ escape (trim_start_by is_whitespace s)
unfolding trim_start_by is_whitespace escape escape_char
trim_start-escape [] = refl
trim_start-escape (c ∷ s) = ground (arith, trim_start-escape s)

is_empty-escape : (s : Text) → is_empty (escape s) ≡ is_empty s
unfolding escape escape_char
is_empty-escape [] = refl
is_empty-escape (c ∷ s) = ground arith

trim_end_by-escape :
    (p : ℕ → Bool) (s : Text)
    → p b'&' ≡ false
    → p b'<' ≡ false
    → p b'>' ≡ false
    → p b';' ≡ false
    → trim_end_by p (escape s) ≡ escape (trim_end_by p s)
unfolding trim_end_by escape escape_char
trim_end_by-escape p [] amp less more semi = refl
trim_end_by-escape p (c ∷ s) amp less more semi =
    let later = trim_end_by-escape p s amp less more semi in
    let same = is_empty-escape (trim_end_by p s) in
    elim (Bool-cases (is_empty (trim_end_by p s))) [
      | inl em ↦ elim (Bool-cases (nat_beq c b'&')) [
        | inl e ↦
            let kept : p c ≡ false = ground (arith, e, amp) in
            rw (escape, e, later, same, em, semi, kept, e) refl
        | inr e ↦ elim (Bool-cases (nat_beq c b'<')) [
          | inl e' ↦
              let kept : p c ≡ false = ground (arith, e', less) in
              rw (escape, e, e', later, same, em, semi, kept, e, e') refl
          | inr e' ↦ elim (Bool-cases (nat_beq c b'>')) [
            | inl e'' ↦
                let kept : p c ≡ false = ground (arith, e'', more) in
                rw (escape, e, e', e'', later, same, em, semi, kept, e, e', e'') refl
            | inr e'' ↦ ground (arith, e, e', e'', later, same, em)
          ]
        ]
      ]
      | inr em ↦ ground (arith, later, same, em)
    ]

trim_end-escape :
    (s : Text) → trim_end_by is_whitespace (escape s) ≡ escape (trim_end_by is_whitespace s)
unfolding is_whitespace
trim_end-escape s = trim_end_by-escape is_whitespace s refl refl refl refl

trim-escape : (s : Text) → trim (escape s) ≡ escape (trim s)
unfolding trim trim_end
trim-escape s =
    ap (trim_end_by is_whitespace) (trim_start-escape s)
    ∙ trim_end-escape (trim_start_by is_whitespace s)

abbrev codec : Codec ℤ
codec = record {
  unescape = λ s. some (undo 0 s);
  trim_text = trim;
  show_double = show_i64;
  parse_double = parse_i64;
  b64_encode = λ s. s;
  b64_decode = some;
}

-- `{count: [3, true], name: "a&b"}`.
abbrev stats : Value ℤ
stats = struct (
    member (codes "count") (array (item (int (pos 3)) (item (boolean true) no_items)))
      (member (codes "name") (str (codes "a&b")) no_members))

abbrev refusal : Value ℤ
refusal = struct (
    member (codes "faultCode") (int (negsuc 502))
      (member (codes "faultString") (str (codes "no <such> method")) no_members))

program : Unit {0}
unfolding trim trim_end trim_start_by trim_end_by is_whitespace trimmed shape read_text read_scalar
    scalar digits_from to_string text_beq undo escape escape_char show_i64 encode_value method_call
    parse_response respond read_value read_array read_items find_data skip_to_end close_value tag_of
program = tt

encode_value-stats :
    encode_value codec stats
    ≡ codes "<struct><member><name>count</name><value><array><data><value><i8>3</i8></value>"
      ++ codes "<value><boolean>1</boolean></value></data></array></value></member><member>"
      ++ codes "<name>name</name><value><string>a&amp;b</string></value></member></struct>"
unfolding program
encode_value-stats = refl

method_call-load :
    method_call codec (codes "d.erase") (str (codes "A<") ∷ [])
    ≡ codes "<?xml version=\"1.0\"?><methodCall><methodName>d.erase</methodName><params><param>"
      ++ codes "<value><string>A&lt;</string></value></param></params></methodCall>"
unfolding program
method_call-load = refl

-- An item that is written `<value/>` is not read.
parse_response-empty :
    parse_response codec (
      in_param (
        start (codes "array")
        ∷ start (codes "data")
        ∷ empty (codes "value")
        ∷ start (codes "value")
        ∷ text (codes "b")
        ∷ finish (codes "value")
        ∷ finish (codes "data")
        ∷ finish (codes "array")
        ∷ finish (codes "value")
        ∷ []))
    ≡ ok (array (item (str (codes "b")) no_items))
unfolding program
parse_response-empty = refl

parse_response_fueled_example :
    parse_response codec (start (codes "value") ∷ start (codes "array") ∷ []) ≢ out_of_fuel
parse_response_fueled_example =
    parse_response_fueled codec (start (codes "value") ∷ start (codes "array") ∷ [])

-- A string loses the white space around it.
parse_response-padded :
    parse_response codec
      (in_param (shape codec (str (codes " a&b ")) (finish (codes "value") ∷ [])))
    ≡ ok (str (codes "a&b"))
unfolding program
parse_response-padded = refl

parse_response-shape_example :
    (render (shape codec refusal []) ≡ encode_value codec refusal ++ [])
    × (parse_response codec (in_param (shape codec refusal (finish (codes "value") ∷ [])))
        ≡ ok (tidy codec refusal))
    × (parse_response codec (in_fault (shape codec refusal (finish (codes "value") ∷ [])))
        ≡ failed (fault_from (tidy codec refusal)))
unfolding IsPlain render
parse_response-shape_example =
    parse_response-shape codec refusal [] (λ s. ap some (undo-escape s)) trim-escape trim_plain
      ((omega arith, omega arith), (tt, tt))
