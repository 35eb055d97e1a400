-- ===== src/XmlRpc/Shape.antt =====
-- The events of what the encoder writes, with the texts as they stand in it.
use rstorrent.Base.{
  ◌≤◌, Text, codes, trim, length, IsI64, if◌then◌else◌, some, List, [], ◌∷◌, ◌++◌, append_assoc,
  ◌≡◌, refl, arith,
}
use rstorrent.XmlRpc.Decode.{text_events, Event, start, finish, empty, text, plain, broken, other}
use rstorrent.XmlRpc.{
  Value, Items, Members, Codec, int, boolean, str, double, bytes, array, struct, no_items, item,
  no_members, member, show_i64, escape, encode_value, encode_items, encode_members,
}

-- The text that an event stands for.
unfoldable pub render : List Event → Text
render [] = []
render (start n ∷ es) = codes "<" ++ (n ++ (codes ">" ++ render es))
render (finish n ∷ es) = codes "</" ++ (n ++ (codes ">" ++ render es))
render (empty n ∷ es) = codes "<" ++ (n ++ (codes "/>" ++ render es))
render (text raw ∷ es) = raw ++ render es
render (plain raw ∷ es) = codes "<![CDATA[" ++ (raw ++ (codes "]]>" ++ render es))
render (broken m ∷ es) = render es
render (other ∷ es) = render es

abbrev pub leaf : Text → Text → List Event → List Event
leaf name raw k = start name ∷ text_events raw (finish name ∷ k)

module _ {D : Type 0} (codec : Codec D) where
  -- The events of a value's text, before those of `k`.
  unfoldable mutual
    pub shape : Value D → List Event → List Event
    shape (int n) k = leaf (codes "i8") (show_i64 n) k
    shape (boolean b) k = leaf (codes "boolean") (if b then codes "1" else codes "0") k
    shape (str s) k = leaf (codes "string") (escape s) k
    shape (double d) k = leaf (codes "double") (codec.show_double d) k
    shape (bytes b) k = leaf (codes "base64") (codec.b64_encode b) k
    shape (array items) k =
        start (codes "array")
        ∷ start (codes "data")
        ∷ shape_items items (finish (codes "data") ∷ finish (codes "array") ∷ k)
    shape (struct ms) k = start (codes "struct") ∷ shape_members ms (finish (codes "struct") ∷ k)

    pub shape_items : Items D → List Event → List Event
    shape_items no_items k = k
    shape_items (item v items) k =
        start (codes "value") ∷ shape v (finish (codes "value") ∷ shape_items items k)

    pub shape_members : Members D → List Event → List Event
    shape_members no_members k = k
    shape_members (member name v ms) k =
        start (codes "member")
        ∷ leaf (codes "name") (escape name) (
            start (codes "value")
            ∷ shape v (finish (codes "value") ∷ finish (codes "member") ∷ shape_members ms k))

  -- Integers are in range, and a float and a byte string survive their texts.
  unfoldable mutual
    pub IsPlain : Value D → Type 0
    IsPlain (int n) = IsI64 n
    IsPlain (boolean b) = Unit
    IsPlain (str s) = Unit
    IsPlain (double d) =
        (codec.parse_double (trim (codec.show_double d)) ≡ some d)
        × (escape (codec.show_double d) ≡ codec.show_double d)
        × (codec.trim_text (codec.show_double d) ≡ codec.show_double d)
    IsPlain (bytes b) =
        (codec.b64_decode (trim (codec.b64_encode b)) ≡ some b)
        × (escape (codec.b64_encode b) ≡ codec.b64_encode b)
        × (codec.trim_text (codec.b64_encode b) ≡ codec.b64_encode b)
    IsPlain (array items) = ArePlain items
    IsPlain (struct ms) = HasPlain ms

    pub ArePlain : Items D → Type 0
    ArePlain no_items = Unit
    ArePlain (item v items) = IsPlain v × ArePlain items

    pub HasPlain : Members D → Type 0
    HasPlain no_members = Unit
    HasPlain (member name v ms) = IsPlain v × HasPlain ms

  render-text_events : (raw : Text) (k : List Event) → render (text_events raw k) ≡ raw ++ render k
  unfolding render
  render-text_events [] k = refl
  render-text_events (c ∷ s) k = refl

  mutual
    unfolding render shape encode_value

    pub render-shape :
        (v : Value D) (k : List Event) → render (shape v k) ≡ encode_value codec v ++ render k
    render-shape (int n) k = simp (render-text_events, append_assoc)
    render-shape (boolean b) k = simp (render-text_events, append_assoc)
    render-shape (str s) k = simp (render-text_events, append_assoc)
    render-shape (double d) k = simp (render-text_events, append_assoc)
    render-shape (bytes b) k = simp (render-text_events, append_assoc)
    render-shape (array items) k = simp (render-shape_items items, append_assoc)
    render-shape (struct ms) k = simp (render-shape_members ms, append_assoc)

    render-shape_items :
        (items : Items D) (k : List Event)
        → render (shape_items items k) ≡ encode_items codec items ++ render k
    render-shape_items no_items k = refl
    render-shape_items (item v items) k =
        simp (render-shape v, render-shape_items items, append_assoc)

    render-shape_members :
        (ms : Members D) (k : List Event)
        → render (shape_members ms k) ≡ encode_members codec ms ++ render k
    render-shape_members no_members k = refl
    render-shape_members (member name v ms) k =
        simp (render-text_events, render-shape v, render-shape_members ms, append_assoc)

  pub length-text_events-le : (raw : Text) (k : List Event) → length k ≤ length (text_events raw k)
  length-text_events-le [] k = omega arith
  length-text_events-le (c ∷ s) k = omega arith

  mutual
    unfolding shape

    pub length-shape-le : (v : Value D) (k : List Event) → length k ≤ length (shape v k)
    length-shape-le (int n) k =
        omega (arith, length-text_events-le (show_i64 n) (finish (codes "i8") ∷ k))
    length-shape-le (boolean b) k = omega (
      arith,
      length-text_events-le (if b then codes "1" else codes "0") (finish (codes "boolean") ∷ k),
    )
    length-shape-le (str s) k =
        omega (arith, length-text_events-le (escape s) (finish (codes "string") ∷ k))
    length-shape-le (double d) k =
        omega (arith, length-text_events-le (codec.show_double d) (finish (codes "double") ∷ k))
    length-shape-le (bytes b) k =
        omega (arith, length-text_events-le (codec.b64_encode b) (finish (codes "base64") ∷ k))
    length-shape-le (array items) k =
        omega
          (arith, length-shape_items-le items (finish (codes "data") ∷ finish (codes "array") ∷ k))
    length-shape-le (struct ms) k =
        omega (arith, length-shape_members-le ms (finish (codes "struct") ∷ k))

    pub length-shape_items-le :
        (items : Items D) (k : List Event) → length k ≤ length (shape_items items k)
    length-shape_items-le no_items k = omega arith
    length-shape_items-le (item v items) k = omega (
      arith,
      length-shape-le v (finish (codes "value") ∷ shape_items items k),
      length-shape_items-le items k,
    )

    pub length-shape_members-le :
        (ms : Members D) (k : List Event) → length k ≤ length (shape_members ms k)
    length-shape_members-le no_members k = omega arith
    length-shape_members-le (member name v ms) k =
        let tail = finish (codes "value") ∷ finish (codes "member") ∷ shape_members ms k in
        omega (
          arith,
          length-shape-le v tail,
          length-shape_members-le ms k,
          length-text_events-le (escape name)
              (finish (codes "name") ∷ start (codes "value") ∷ shape v tail),
        )
