-- ===== src/XmlRpc.antt =====
-- crates/rtorrent/src/rtorrent/xmlrpc.rs: the values, their views and the encoder. `f64` and its
-- text, base64 and the entities of XML are the parameter `Codec`.
pub mod Decode
pub mod Fuel
pub mod Leaves
pub mod Numbers
pub mod RoundTrip
pub mod Shape
pub mod Tidy
pub mod Within
mod Tests
use rstorrent.Base.{
  ℕ, zero, suc, Text, codes, text_beq, nat_beq, ℤ, pos, negsuc, beq_ℤ, if◌then◌else◌, Bool, true,
  false, not, Option, none, some, List, [], ◌∷◌, ◌++◌,
}
use rstorrent.Scgi.{to_string}

-- `Vec<Value>` and `Vec<(String, Value)>` inside a value are `Items` and `Members`.
mutual
  pub data Value (D : Type 0) : Type 0 where
    int : ℤ → Value D
    boolean : Bool → Value D
    str : Text → Value D
    double : D → Value D
    bytes : Text → Value D
    array : Items D → Value D
    struct : Members D → Value D

  pub data Items (D : Type 0) : Type 0 where
    no_items : Items D
    item : Value D → Items D → Items D

  pub data Members (D : Type 0) : Type 0 where
    no_members : Members D
    member : Text → Value D → Members D → Members D

-- What quick_xml and base64 do with texts, and what the standard library does with floats. A reader
-- gives `none` where it refuses its text. `trim_text` is what quick_xml leaves of a text between tags
-- under `trim_text(true)`.
pub record Codec (D : Type 0) : Type 0 where
  pub trim_text : Text → Text
  pub unescape : Text → Option Text
  pub show_double : D → Text
  pub parse_double : Text → Option D
  pub b64_encode : Text → Text
  pub b64_decode : Text → Option Text

module _ {D : Type 0} where
  unfoldable pub as_i64 : Value D → Option ℤ
  as_i64 (int n) = some n
  as_i64 (boolean true) = some (pos 1)
  as_i64 (boolean false) = some (pos 0)
  as_i64 _ = none

  unfoldable pub as_bool : Value D → Option Bool
  as_bool (boolean b) = some b
  as_bool (int n) = some (not (beq_ℤ n (pos 0)))
  as_bool _ = none

  unfoldable pub as_text : Value D → Option Text
  as_text (str s) = some s
  as_text _ = none

  unfoldable pub as_array : Value D → Option (Items D)
  as_array (array items) = some items
  as_array _ = none

  abbrev pub find_member : Text → Members D → Option (Value D)
  find_member key no_members = none
  find_member key (member k v ms) = if text_beq k key then some v else find_member key ms

  unfoldable pub get : Text → Value D → Option (Value D)
  get key (struct ms) = find_member key ms
  get key _ = none

-- `to_string` of an `i64`.
unfoldable pub show_i64 : ℤ → Text
show_i64 (pos n) = to_string n
show_i64 (negsuc n) = b'-' ∷ to_string (suc n)

-- `escape_into`, one character, and a text.
unfoldable pub escape_char : ℕ → Text
escape_char c =
    if nat_beq c b'&'
    then codes "&amp;"
    else (if nat_beq c b'<'
        then codes "&lt;"
        else (if nat_beq c b'>' then codes "&gt;" else c ∷ []))

unfoldable pub escape : Text → Text
escape [] = []
escape (c ∷ s) = escape_char c ++ escape s

-- `<name>text</name>` around a text that is written already.
abbrev pub element : Text → Text → Text
element name text =
    codes "<" ++ (name ++ (codes ">" ++ (text ++ (codes "</" ++ (name ++ codes ">")))))

module _ {D : Type 0} (codec : Codec D) where
  unfoldable mutual
    pub encode_value : Value D → Text
    encode_value (int n) = element (codes "i8") (show_i64 n)
    encode_value (boolean b) = element (codes "boolean") (if b then codes "1" else codes "0")
    encode_value (str s) = element (codes "string") (escape s)
    encode_value (double d) = element (codes "double") (codec.show_double d)
    encode_value (bytes b) = element (codes "base64") (codec.b64_encode b)
    encode_value (array items) =
        element (codes "array") (element (codes "data") (encode_items items))
    encode_value (struct ms) = element (codes "struct") (encode_members ms)

    pub encode_items : Items D → Text
    encode_items no_items = []
    encode_items (item v items) = element (codes "value") (encode_value v) ++ encode_items items

    pub encode_members : Members D → Text
    encode_members no_members = []
    encode_members (member k v ms) =
        element (codes "member")
          (element (codes "name") (escape k) ++ element (codes "value") (encode_value v))
        ++ encode_members ms

  abbrev pub encode_params : List (Value D) → Text
  encode_params [] = []
  encode_params (v ∷ vs) =
      element (codes "param") (element (codes "value") (encode_value v)) ++ encode_params vs

  unfoldable pub method_call : Text → List (Value D) → Text
  method_call name params =
      codes "<?xml version=\"1.0\"?>"
      ++ element (codes "methodCall") (
          element (codes "methodName") (escape name)
          ++ element (codes "params") (encode_params params))
