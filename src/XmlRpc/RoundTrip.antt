-- ===== src/XmlRpc/RoundTrip.antt =====
-- The decoder on what the encoder writes.
use rstorrent.Base.{
  all, ℕ, zero, suc, ◌<◌, Text, codes, text_beq, length, true, false, some, List, ◌∷◌, ◌++◌, ◌≡◌,
  refl, arith,
}
use rstorrent.XmlRpc.Decode.{
  trimmed, Event, start, finish, ok, failed, int_tag, boolean_tag, double_tag, base64_tag, tag_of,
  find_data, skip_to_end, scalar, close_value, read_value, read_array, read_items, read_members,
  fault_from, respond, parse_response,
}
use rstorrent.XmlRpc.Leaves.{read_scalar-leaf, read_string-leaf, scalar-boolean, read_member-shape}
use rstorrent.XmlRpc.Numbers.{is_plain, all-show_i64, escape_plain, parse_i64-trim-show_i64}
use rstorrent.XmlRpc.Tidy.{tidy, trimmed-shape, IsPlain-tidy}
use rstorrent.XmlRpc.Shape.{
  render, shape, shape_items, shape_members, IsPlain, ArePlain, HasPlain, render-shape,
  length-text_events-le, length-shape-le,
}
use rstorrent.XmlRpc.{
  Value, Items, Members, Codec, int, boolean, str, double, bytes, array, struct, no_items, item,
  no_members, member, show_i64, escape, encode_value,
}

-- The events of a response around a value.
abbrev pub in_param : List Event → List Event
in_param es =
    start (codes "methodResponse")
    ∷ start (codes "params")
    ∷ start (codes "param")
    ∷ start (codes "value")
    ∷ es

abbrev pub in_fault : List Event → List Event
in_fault es = start (codes "methodResponse") ∷ start (codes "fault") ∷ start (codes "value") ∷ es

module _ {D : Type 0} (codec : Codec D)
    (back : (s : Text) → codec.unescape (escape s) ≡ some s) where
  abbrev ReadsValue : Value D → Type 0
  ReadsValue v =
      IsPlain codec v
      → (k : List Event) (f : ℕ) → length (shape codec v (finish (codes "value") ∷ k)) < f
      → read_value codec f (shape codec v (finish (codes "value") ∷ k)) ≡ ok (v, k)

  abbrev ReadsItems : Items D → Type 0
  ReadsItems items =
      ArePlain codec items
      → (k : List Event) (f : ℕ) → length (shape_items codec items (finish (codes "data") ∷ k)) < f
      → read_items codec f (shape_items codec items (finish (codes "data") ∷ k)) ≡ ok (items, k)

  abbrev ReadsMembers : Members D → Type 0
  ReadsMembers ms =
      HasPlain codec ms
      → (k : List Event) (f : ℕ) → length (shape_members codec ms (finish (codes "struct") ∷ k)) < f
      → read_members codec f (shape_members codec ms (finish (codes "struct") ∷ k)) ≡ ok (ms, k)

  read_value-array :
      (items : Items D)
      → ReadsItems items
      → ArePlain codec items
      → (k : List Event) (f : ℕ)
      → length (shape codec (array items) (finish (codes "value") ∷ k)) < suc f
      → close_value codec (
          read_array codec f (
            start (codes "data")
            ∷ shape_items codec items
                (finish (codes "data") ∷ finish (codes "array") ∷ finish (codes "value") ∷ k)))
        ≡ ok (array items, k)
  unfolding read_array read_value shape close_value find_data skip_to_end text_beq
  read_value-array items ih p k zero h = absurd (omega (arith, h))
  read_value-array items ih p k (suc f) h =
      rw (ih p (finish (codes "array") ∷ finish (codes "value") ∷ k) f (omega (arith, h))) refl

  read_members-member :
      (name : Text) (v : Value D) (ms : Members D)
      → ReadsValue v
      → ReadsMembers ms
      → IsPlain codec v × HasPlain codec ms
      → (k : List Event) (f : ℕ)
      → suc (
          suc (
            suc (
              length (
                shape codec v (
                  finish (codes "value")
                  ∷ finish (codes "member")
                  ∷ shape_members codec ms (finish (codes "struct") ∷ k))))))
        < f
      → read_members codec
          (suc f)
          (shape_members codec (member name v ms) (finish (codes "struct") ∷ k))
        ≡ ok (member name v ms, k)
  unfolding read_members read_value shape text_beq
  read_members-member name v ms hv hm p k zero h = absurd (omega (arith, h))
  read_members-member name v ms hv hm p k (suc zero) h = absurd (omega (arith, h))
  read_members-member name v ms hv hm p k (suc (suc zero)) h = absurd (omega (arith, h))
  read_members-member name v ms hv hm p k (suc (suc (suc f))) h =
      let tail = shape_members codec ms (finish (codes "struct") ∷ k) in
      rw
        (
          read_member-shape codec back name v
              (shape codec v (finish (codes "value") ∷ finish (codes "member") ∷ tail)) tail f
              (hv p.0 (finish (codes "member") ∷ tail) (suc f) (omega (arith, h))),
          hm p.1 k (suc (suc (suc f))) (
              omega (
                arith,
                h,
                length-shape-le codec v (finish (codes "value") ∷ finish (codes "member") ∷ tail),
              )),
        )
        refl

  mutual
    unfolding read_value read_array shape IsPlain tag_of scalar text_beq find_data skip_to_end
        close_value

    read_value-shape : (v : Value D) → ReadsValue v
    read_value-shape v p k zero h = absurd (omega (arith, h))
    read_value-shape (int n) p k (suc f) h =
        read_scalar-leaf codec back int_tag (codes "i8") (show_i64 n) (int n) k
          (escape_plain (show_i64 n) (all-show_i64 n)) (rw (scalar, parse_i64-trim-show_i64 n p))
    read_value-shape (boolean true) p k (suc f) h =
        read_scalar-leaf codec back boolean_tag (codes "boolean") (codes "1") (boolean true) k
          (escape_plain (codes "1") refl) (scalar-boolean codec back true)
    read_value-shape (boolean false) p k (suc f) h =
        read_scalar-leaf codec back boolean_tag (codes "boolean") (codes "0") (boolean false) k
          (escape_plain (codes "0") refl) (scalar-boolean codec back false)
    read_value-shape (str s) p k (suc f) h = read_string-leaf codec back s k
    read_value-shape (double d) p k (suc f) h =
        read_scalar-leaf codec back double_tag (codes "double") (codec.show_double d) (double d) k
          p.1 (rw (scalar, p.0))
    read_value-shape (bytes b) p k (suc f) h =
        read_scalar-leaf codec back base64_tag (codes "base64") (codec.b64_encode b) (bytes b) k p.1
          (rw (scalar, p.0))
    read_value-shape (array items) p k (suc f) h =
        read_value-array items (read_items-shape items) p k f h
    read_value-shape (struct ms) p k (suc f) h =
        rw (read_members-shape ms p (finish (codes "value") ∷ k) f (omega (arith, h))) refl

    read_items-shape : (items : Items D) → ReadsItems items
    read_items-shape items p k zero h = absurd (omega (arith, h))
    read_items-shape no_items p k (suc f) h = refl
    read_items-shape (item v items) p k (suc f) h =
        rw
          (
            read_value-shape v p.0 (shape_items codec items (finish (codes "data") ∷ k)) f
                (omega (arith, h)),
            read_items-shape items p.1 k f (
                omega (
                  arith,
                  h,
                  length-shape-le codec v (
                      finish (codes "value") ∷ shape_items codec items (finish (codes "data") ∷ k)),
                )),
          )
          refl

    read_members-shape : (ms : Members D) → ReadsMembers ms
    read_members-shape ms p k zero h = absurd (omega (arith, h))
    read_members-shape no_members p k (suc f) h = refl
    read_members-shape (member name v ms) p k (suc f) h =
        read_members-member name v ms (read_value-shape v) (read_members-shape ms) p k f (
          omega (
            arith,
            h,
            length-text_events-le codec (escape name) (
                finish (codes "name")
                ∷ start (codes "value")
                ∷ shape codec v (
                    finish (codes "value")
                    ∷ finish (codes "member")
                    ∷ shape_members codec ms (finish (codes "struct") ∷ k))),
          ))

  read_value-enough :
      (v : Value D) (k : List Event)
      → IsPlain codec v
      → read_value codec
          (suc (length (shape codec v (finish (codes "value") ∷ k))))
          (shape codec v (finish (codes "value") ∷ k))
        ≡ ok (v, k)
  read_value-enough v k p =
      read_value-shape v p k (suc (length (shape codec v (finish (codes "value") ∷ k))))
        (omega arith)

-- For a reader of entities that undoes the encoder's escaping; for `trim_text`, which trims an
-- escaped text as it trims the text, and leaves digits and a sign alone; and for a value whose
-- integers are in range and whose floats and byte strings survive their texts. The events of the
-- value stand for the text that the encoder writes for it. A response that has them in its parameter
-- gives, whatever follows, the value with its strings and the names of its members trimmed. A
-- response that has them in its fault gives the fault of that trimmed value.
pub parse_response-shape :
    {D : Type 0} (codec : Codec D) (v : Value D) (k : List Event)
    → ((s : Text) → codec.unescape (escape s) ≡ some s)
    → ((s : Text) → codec.trim_text (escape s) ≡ escape (codec.trim_text s))
    → ((s : Text) → all is_plain s ≡ true → codec.trim_text s ≡ s)
    → IsPlain codec v
    → (render (shape codec v k) ≡ encode_value codec v ++ render k)
      × (parse_response codec (in_param (shape codec v (finish (codes "value") ∷ k)))
          ≡ ok (tidy codec v))
      × (parse_response codec (in_fault (shape codec v (finish (codes "value") ∷ k)))
          ≡ failed (fault_from (tidy codec v)))
unfolding parse_response respond trimmed text_beq
parse_response-shape codec v k back trims plain p =
    let enough =
      read_value-enough codec back (tidy codec v) (trimmed codec k) (IsPlain-tidy codec v p) in
    let tidied = trimmed-shape codec trims plain v (finish (codes "value") ∷ k) p in
    (
      render-shape codec v k,
      rw (parse_response, respond, tidied, enough) refl,
      rw (parse_response, respond, tidied, enough) refl,
    )
