-- ===== src/XmlRpc/Decode.antt =====
-- crates/rtorrent/src/rtorrent/xmlrpc.rs: the decoder, on the events of quick_xml. Its reader is
-- third-party code: what it makes of a response is the list of events, which ends where it says
-- `Eof`. Where it or base64 refuse a text they word the message; here it is `bad entity` or
-- `bad base64`. A CDATA section that is no UTF-8 is left out.
use rstorrent.Base.{
  ℕ, zero, suc, leb, Text, codes, text_beq, trim, is_empty, all, length, ℤ, pos, negsuc, i64_max,
  if◌then◌else◌, Bool, true, false, not, ◌&&◌, ◌||◌, Option, none, some, List, [], ◌∷◌, ◌++◌,
}
use rstorrent.Scgi.Digits.{is_digit, read_number}
use rstorrent.XmlRpc.{
  Value, Items, Members, Codec, int, boolean, str, double, bytes, array, struct, no_items, item,
  no_members, member, as_i64, as_text, get,
}

-- `plain` is the text of a CDATA section, `empty` a tag such as `<nil/>`, `broken` an error of
-- the reader, and `other` a comment, a declaration and the like.
pub data Event : Type 0 where
  start finish empty : Text → Event
  text plain broken : Text → Event
  other : Event

-- An empty text is no event.
abbrev pub text_events : Text → List Event → List Event
text_events [] k = k
text_events (c ∷ s) k = text (c ∷ s) ∷ k

pub data RtorrentError : Type 0 where
  unreachable protocol parse unexpected unsupported : Text → RtorrentError
  timeout : RtorrentError
  fault : ℤ → Text → RtorrentError

pub data Outcome (A : Type 0) : Type 0 where
  ok : A → Outcome A
  failed : RtorrentError → Outcome A
  out_of_fuel : Outcome A

abbrev pub bind : {A B : Type 0} → Outcome A → (A → Outcome B) → Outcome B
bind (ok a) f = f a
bind (failed e) f = failed e
bind out_of_fuel f = out_of_fuel

abbrev pub Reader : Type 0 → Type 0
Reader A = List Event → Outcome (A × List Event)

-- `parse::<i64>()`: an optional sign, then digits, of a number in range.
unfoldable pub signed : Bool → ℕ → Option ℤ
signed true zero = some (pos zero)
signed true (suc n) = if leb n i64_max then some (negsuc n) else none
signed false n = if leb n i64_max then some (pos n) else none

unfoldable pub parse_digits : Bool → Text → Option ℤ
parse_digits negative s =
    if not (is_empty s) && all is_digit s then signed negative (read_number 0 s).0 else none

unfoldable pub parse_i64 : Text → Option ℤ
parse_i64 [] = none
parse_i64 (c ∷ s) =
    if text_beq (c ∷ []) (codes "-")
    then parse_digits true s
    else (if text_beq (c ∷ []) (codes "+")
        then parse_digits false s
        else parse_digits false (c ∷ s))

-- The rest after `</name>`.
unfoldable pub skip_to_end : Text → List Event → Outcome (List Event)
skip_to_end name [] = failed (parse (codes "eof skipping to end"))
skip_to_end name (finish n ∷ es) = if text_beq n name then ok es else skip_to_end name es
skip_to_end name (broken m ∷ es) = failed (parse m)
skip_to_end name (start n ∷ es) = skip_to_end name es
skip_to_end name (empty n ∷ es) = skip_to_end name es
skip_to_end name (text raw ∷ es) = skip_to_end name es
skip_to_end name (plain raw ∷ es) = skip_to_end name es
skip_to_end name (other ∷ es) = skip_to_end name es

-- The tags that `read_value` tells apart.
pub data Tag : Type 0 where
  int_tag boolean_tag string_tag double_tag base64_tag array_tag struct_tag unknown_tag : Tag

unfoldable pub tag_of : Text → Tag
tag_of n =
    if text_beq n (codes "i4") || text_beq n (codes "int") || text_beq n (codes "i8")
    then int_tag
    else (if text_beq n (codes "boolean")
        then boolean_tag
        else (if text_beq n (codes "string")
            then string_tag
            else (if text_beq n (codes "double")
                then double_tag
                else (if text_beq n (codes "base64")
                    then base64_tag
                    else (if text_beq n (codes "array")
                        then array_tag
                        else (if text_beq n (codes "struct") then struct_tag else unknown_tag))))))

-- The loop of `read_array` up to `<data>`: the rest after it, or the rest after `</array>`.
pub data DataStart : Type 0 where
  at_data at_end : List Event → DataStart

unfoldable pub find_data : List Event → Outcome DataStart
find_data [] = failed (parse (codes "eof in <array>"))
find_data (start n ∷ es) = if text_beq n (codes "data") then ok (at_data es) else find_data es
find_data (finish n ∷ es) = if text_beq n (codes "array") then ok (at_end es) else find_data es
find_data (broken m ∷ es) = failed (parse m)
find_data (empty n ∷ es) = find_data es
find_data (text raw ∷ es) = find_data es
find_data (plain raw ∷ es) = find_data es
find_data (other ∷ es) = find_data es

module _ {D : Type 0} (codec : Codec D) where
  abbrev pub unescaped : Text → Outcome Text
  unescaped raw = elim (codec.unescape raw) [
    | none ↦ failed (parse (codes "bad entity"))
    | some s ↦ ok s
  ]

  -- The text so far goes through the rounds.
  unfoldable pub read_text : Text → Text → Reader Text
  read_text tag out [] = failed (parse (codes "eof reading text"))
  read_text tag out (text raw ∷ es) = bind (unescaped raw) (λ s. read_text tag (out ++ s) es)
  read_text tag out (plain raw ∷ es) = read_text tag (out ++ raw) es
  read_text tag out (finish n ∷ es) = if text_beq n tag then ok (out, es) else read_text tag out es
  read_text tag out (broken m ∷ es) = failed (parse m)
  read_text tag out (start n ∷ es) = read_text tag out es
  read_text tag out (empty n ∷ es) = read_text tag out es
  read_text tag out (other ∷ es) = read_text tag out es

  abbrev pub or_bad : {A : Type 0} → Text → Option A → Outcome A
  or_bad message none = failed (parse message)
  or_bad message (some a) = ok a

  -- The value of an element that has no values inside, from its text.
  unfoldable pub scalar : Tag → Text → Outcome (Value D)
  scalar int_tag t =
      bind (or_bad (codes "bad int '" ++ t ++ codes "'") (parse_i64 (trim t))) (λ n. ok (int n))
  scalar boolean_tag t = ok (boolean (text_beq (trim t) (codes "1")))
  scalar string_tag t = ok (str t)
  scalar double_tag t =
      bind (or_bad (codes "bad double '" ++ t ++ codes "'") (codec.parse_double (trim t)))
        (λ d. ok (double d))
  scalar base64_tag t =
      bind (or_bad (codes "bad base64") (codec.b64_decode (trim t))) (λ b. ok (bytes b))
  scalar _ t = ok (str [])

  unfoldable pub read_scalar : Tag → Text → Reader (Value D)
  read_scalar tag name es =
      bind (read_text name [] es) (λ (t, rest). bind (scalar tag t) (λ v. ok (v, rest)))

  unfoldable pub skip_unknown : Text → Reader (Value D)
  skip_unknown name es = bind (skip_to_end name es) (λ rest. ok (str [], rest))

  -- `consume_value_end`.
  unfoldable pub close_value : Outcome (Value D × List Event) → Outcome (Value D × List Event)
  close_value got =
      bind got (λ (v, rest). bind (skip_to_end (codes "value") rest) (λ rest'. ok (v, rest')))

  -- Each event costs a unit of fuel. A loop's state goes through its rounds: the items that were read
  -- stand in front of those that the rest gives.
  unfoldable mutual
    pub read_value : ℕ → Reader (Value D)
    read_value zero es = out_of_fuel
    read_value (suc f) [] = failed (parse (codes "eof inside <value>"))
    read_value (suc f) (start n ∷ es) = close_value (elim (tag_of n) [
      | array_tag ↦ read_array f es
      | struct_tag ↦ bind (read_members f es) (λ (ms, rest). ok (struct ms, rest))
      | unknown_tag ↦ skip_unknown n es
      | scalar_tag ↦ read_scalar scalar_tag n es
    ])
    read_value (suc f) (text raw ∷ es) = bind (unescaped raw) (λ s. close_value (ok (str s, es)))
    read_value (suc f) (finish n ∷ es) = elim (text_beq n (codes "value")) [
      | true ↦ ok (str [], es)
      | false ↦ read_value f es
    ]
    read_value (suc f) (broken m ∷ es) = failed (parse m)
    read_value (suc f) (plain raw ∷ es) = read_value f es
    read_value (suc f) (empty n ∷ es) = read_value f es
    read_value (suc f) (other ∷ es) = read_value f es

    pub read_array : ℕ → Reader (Value D)
    read_array zero es = out_of_fuel
    read_array (suc f) es = bind (find_data es) (λ d. elim d [
      | at_end rest ↦ ok (array no_items, rest)
      | at_data rest ↦ bind (read_items f rest) (λ (items, rest').
          bind (skip_to_end (codes "array") rest') (λ rest''. ok (array items, rest'')))
    ])

    pub read_items : ℕ → Reader (Items D)
    read_items zero es = out_of_fuel
    read_items (suc f) [] = failed (parse (codes "eof in <data>"))
    read_items (suc f) (start n ∷ es) = elim (text_beq n (codes "value")) [
      | true ↦
          bind (read_value f es)
            (λ (v, rest). bind (read_items f rest) (λ (items, rest'). ok (item v items, rest')))
      | false ↦ read_items f es
    ]
    read_items (suc f) (finish n ∷ es) = elim (text_beq n (codes "data")) [
      | true ↦ ok (no_items, es)
      | false ↦ read_items f es
    ]
    read_items (suc f) (broken m ∷ es) = failed (parse m)
    read_items (suc f) (text raw ∷ es) = read_items f es
    read_items (suc f) (plain raw ∷ es) = read_items f es
    read_items (suc f) (empty n ∷ es) = read_items f es
    read_items (suc f) (other ∷ es) = read_items f es

    -- `read_struct`.
    pub read_members : ℕ → Reader (Members D)
    read_members zero es = out_of_fuel
    read_members (suc f) [] = failed (parse (codes "eof in <struct>"))
    read_members (suc f) (start n ∷ es) = elim (text_beq n (codes "member")) [
      | true ↦
          bind (read_member f [] (str []) es) (λ ((k, v), rest).
            bind (read_members f rest) (λ (ms, rest'). ok (member k v ms, rest')))
      | false ↦ read_members f es
    ]
    read_members (suc f) (finish n ∷ es) = elim (text_beq n (codes "struct")) [
      | true ↦ ok (no_members, es)
      | false ↦ read_members f es
    ]
    read_members (suc f) (broken m ∷ es) = failed (parse m)
    read_members (suc f) (text raw ∷ es) = read_members f es
    read_members (suc f) (plain raw ∷ es) = read_members f es
    read_members (suc f) (empty n ∷ es) = read_members f es
    read_members (suc f) (other ∷ es) = read_members f es

    pub read_member : ℕ → Text → Value D → Reader (Text × Value D)
    read_member zero name value es = out_of_fuel
    read_member (suc f) name value [] = failed (parse (codes "eof in <member>"))
    read_member (suc f) name value (start n ∷ es) = elim (text_beq n (codes "name")) [
      | true ↦ bind (read_text n [] es) (λ (k, rest). read_member f k value rest)
      | false ↦ elim (text_beq n (codes "value")) [
        | true ↦ bind (read_value f es) (λ (v, rest). read_member f name v rest)
        | false ↦ read_member f name value es
      ]
    ]
    read_member (suc f) name value (finish n ∷ es) = elim (text_beq n (codes "member")) [
      | true ↦ ok ((name, value), es)
      | false ↦ read_member f name value es
    ]
    read_member (suc f) name value (broken m ∷ es) = failed (parse m)
    read_member (suc f) name value (text raw ∷ es) = read_member f name value es
    read_member (suc f) name value (plain raw ∷ es) = read_member f name value es
    read_member (suc f) name value (empty n ∷ es) = read_member f name value es
    read_member (suc f) name value (other ∷ es) = read_member f name value es

module _ {D : Type 0} where
  abbrev pub or_i64 : Option (Value D) → ℤ
  or_i64 none = negsuc 0
  or_i64 (some v) = elim (as_i64 v) [ none ↦ negsuc 0 | some n ↦ n ]

  abbrev pub or_text : Option (Value D) → Text
  or_text none = codes "unknown fault"
  or_text (some v) = elim (as_text v) [ none ↦ codes "unknown fault" | some s ↦ s ]

  unfoldable pub fault_from : Value D → RtorrentError
  fault_from v = fault (or_i64 (get (codes "faultCode") v)) (or_text (get (codes "faultString") v))

module _ {D : Type 0} (codec : Codec D) where
  -- The loop of `parse_response`, with `in_fault`.
  unfoldable pub respond : Bool → List Event → Outcome (Value D)
  respond in_fault [] = failed (parse (codes "no <value> in response"))
  respond in_fault (start n ∷ es) =
      if text_beq n (codes "fault")
      then respond true es
      else (if text_beq n (codes "value")
          then bind (read_value codec (suc (length es)) es)
              (λ (v, rest). if in_fault then failed (fault_from v) else ok v)
          else respond in_fault es)
  respond in_fault (broken m ∷ es) = failed (parse m)
  respond in_fault (finish n ∷ es) = respond in_fault es
  respond in_fault (empty n ∷ es) = respond in_fault es
  respond in_fault (text raw ∷ es) = respond in_fault es
  respond in_fault (plain raw ∷ es) = respond in_fault es
  respond in_fault (other ∷ es) = respond in_fault es

  -- `trim_text(true)`: the reader reports a text without the white space around it, and none where
  -- nothing is left of it.
  unfoldable pub trimmed : List Event → List Event
  trimmed [] = []
  trimmed (text raw ∷ es) = text_events (codec.trim_text raw) (trimmed es)
  trimmed (start n ∷ es) = start n ∷ trimmed es
  trimmed (finish n ∷ es) = finish n ∷ trimmed es
  trimmed (empty n ∷ es) = empty n ∷ trimmed es
  trimmed (plain raw ∷ es) = plain raw ∷ trimmed es
  trimmed (broken m ∷ es) = broken m ∷ trimmed es
  trimmed (other ∷ es) = other ∷ trimmed es

  -- On the events of the response with its texts as they stand in it.
  unfoldable pub parse_response : List Event → Outcome (Value D)
  parse_response es = respond false (trimmed es)
