-- ===== src/XmlRpc/Fuel.antt =====
-- The decoder's fuel, a unit for each event.
use rstorrent.Base.{
  ℕ, zero, suc, ◌<◌, ◌≢◌, Text, codes, text_beq, length, Bool, true, false, Option, none, some,
  List, [], ◌∷◌, ◌++◌, inl, inr, Option-cases, arith, trim,
}
use rstorrent.XmlRpc.Decode.{
  Event, start, finish, empty, text, plain, broken, other, Outcome, ok, out_of_fuel, bind, Tag,
  int_tag, boolean_tag, string_tag, double_tag, base64_tag, array_tag, struct_tag, unknown_tag,
  tag_of, skip_to_end, unescaped, or_bad, parse_i64, read_text, scalar, read_scalar, skip_unknown,
  close_value, read_value, read_array, read_items, read_members, read_member, respond,
  parse_response, trimmed,
}
use rstorrent.XmlRpc.{Value, Codec, int, str, double, bytes, array, no_items}
use rstorrent.XmlRpc.Within.{
  Within-fueled, Within-mono, Within-if, Within-cases, Within-bind, Within-tag, Leaves, later,
  skip_to_end-Leaves, Within-data, find_data-Leaves, Within, answered, refused,
}

module _ {D : Type 0} (codec : Codec D) where
  Within-unescaped : (raw : Text) → Within (λ (s : Text). Unit {0}) (unescaped codec raw)
  Within-unescaped raw = elim (Option-cases (codec.unescape raw)) [
    | inl e ↦ rw (unescaped, e) refused
    | inr (s, e) ↦ rw (unescaped, e) (answered tt)
  ]

  read_text-Leaves :
      (tag out : Text) (es : List Event) → Leaves (length es) (read_text codec tag out es)
  unfolding read_text
  read_text-Leaves tag out [] = refused
  read_text-Leaves tag out (text raw ∷ es) =
      Within-bind (Within-unescaped raw)
        (λ s _. later (length es) (read_text-Leaves tag (out ++ s) es))
  read_text-Leaves tag out (plain raw ∷ es) =
      later (length es) (read_text-Leaves tag (out ++ raw) es)
  read_text-Leaves tag out (finish n ∷ es) =
      Within-if (text_beq n tag) (answered (omega arith))
        (later (length es) (read_text-Leaves tag out es))
  read_text-Leaves tag out (broken m ∷ es) = refused
  read_text-Leaves tag out (start n ∷ es) = later (length es) (read_text-Leaves tag out es)
  read_text-Leaves tag out (empty n ∷ es) = later (length es) (read_text-Leaves tag out es)
  read_text-Leaves tag out (other ∷ es) = later (length es) (read_text-Leaves tag out es)

  Within-or_bad :
      {A B : Type 0} (message : Text) (o : Option A) (f : A → B)
      → Within (λ (b : B). Unit {0}) (bind (or_bad codec message o) (λ a. ok (f a)))
  Within-or_bad message none f = refused
  Within-or_bad message (some a) f = answered tt

  Within-scalar : (tag : Tag) (t : Text) → Within (λ (v : Value D). Unit {0}) (scalar codec tag t)
  unfolding scalar
  Within-scalar int_tag t = Within-or_bad _ (parse_i64 (trim t)) int
  Within-scalar boolean_tag t = answered tt
  Within-scalar string_tag t = answered tt
  Within-scalar double_tag t = Within-or_bad _ (codec.parse_double (trim t)) double
  Within-scalar base64_tag t = Within-or_bad _ (codec.b64_decode (trim t)) bytes
  Within-scalar array_tag t = answered tt
  Within-scalar struct_tag t = answered tt
  Within-scalar unknown_tag t = answered tt

  read_scalar-Leaves :
      (tag : Tag) (name : Text) (es : List Event)
      → Leaves (length es) (read_scalar codec tag name es)
  unfolding read_scalar
  read_scalar-Leaves tag name es =
      Within-bind (read_text-Leaves name [] es)
        (λ p h. Within-bind (Within-scalar tag p.0) (λ v _. answered h))

  skip_unknown-Leaves :
      (name : Text) (es : List Event) → Leaves (length es) (skip_unknown codec name es)
  unfolding skip_unknown
  skip_unknown-Leaves name es = Within-bind (skip_to_end-Leaves name es) (λ rest h. answered h)

  close_value-Leaves :
      (n : ℕ) {r : Outcome (Value D × List Event)} → Leaves n r → Leaves n (close_value codec r)
  unfolding close_value
  close_value-Leaves n h = Within-bind h (λ p k.
      Within-bind (skip_to_end-Leaves (codes "value") p.1)
        (λ rest l. answered (omega (arith, k, l))))

  -- Fuel for one more event than there are is enough.
  mutual
    unfolding read_value

    read_value-Leaves :
        (f : ℕ) (es : List Event) → length es < f → Leaves (length es) (read_value codec f es)
    read_value-Leaves zero es h = absurd (omega (arith, h))
    read_value-Leaves (suc f) [] h = refused
    read_value-Leaves (suc f) (start n ∷ es) h = close_value-Leaves (suc (length es)) (
        later (length es) (
          Within-tag (tag_of n) (λ u. read_scalar codec u n es) (λ u. read_scalar-Leaves u n es)
            (read_array-Leaves f es (omega (arith, h)))
            (Within-bind (read_members-Leaves f es (omega (arith, h))) (λ p k. answered k))
            (skip_unknown-Leaves n es)))
    read_value-Leaves (suc f) (text raw ∷ es) h =
        Within-bind (Within-unescaped raw)
          (λ s _. close_value-Leaves (suc (length es)) (answered (omega arith)))
    read_value-Leaves (suc f) (finish n ∷ es) h =
        Within-cases (text_beq n (codes "value")) (answered (omega arith))
          (later (length es) (read_value-Leaves f es (omega (arith, h))))
    read_value-Leaves (suc f) (broken m ∷ es) h = refused
    read_value-Leaves (suc f) (plain raw ∷ es) h =
        later (length es) (read_value-Leaves f es (omega (arith, h)))
    read_value-Leaves (suc f) (empty n ∷ es) h =
        later (length es) (read_value-Leaves f es (omega (arith, h)))
    read_value-Leaves (suc f) (other ∷ es) h =
        later (length es) (read_value-Leaves f es (omega (arith, h)))

    read_array-Leaves :
        (f : ℕ) (es : List Event) → length es < f → Leaves (length es) (read_array codec f es)
    read_array-Leaves zero es h = absurd (omega (arith, h))
    read_array-Leaves (suc f) es h = Within-bind (find_data-Leaves es) (λ d k.
        Within-data (length es) d
          (λ rest. bind (read_items codec f rest) (λ (items, rest').
            bind (skip_to_end (codes "array") rest') (λ rest''. ok (array items, rest''))))
          (λ rest. ok (array no_items, rest)) k
          (λ rest l. Within-bind (read_items-Leaves f rest (omega (arith, h, l))) (λ p m.
            Within-bind (skip_to_end-Leaves (codes "array") p.1)
              (λ rest' o. answered (omega (arith, l, m, o)))))
          (λ rest l. answered (omega (arith, l))))

    read_items-Leaves :
        (f : ℕ) (es : List Event) → length es < f → Leaves (length es) (read_items codec f es)
    read_items-Leaves zero es h = absurd (omega (arith, h))
    read_items-Leaves (suc f) [] h = refused
    read_items-Leaves (suc f) (start n ∷ es) h =
        Within-cases (text_beq n (codes "value"))
          (Within-bind (read_value-Leaves f es (omega (arith, h))) (λ p k.
            Within-bind (read_items-Leaves f p.1 (omega (arith, h, k)))
              (λ q l. answered (omega (arith, k, l)))))
          (later (length es) (read_items-Leaves f es (omega (arith, h))))
    read_items-Leaves (suc f) (finish n ∷ es) h =
        Within-cases (text_beq n (codes "data")) (answered (omega arith))
          (later (length es) (read_items-Leaves f es (omega (arith, h))))
    read_items-Leaves (suc f) (broken m ∷ es) h = refused
    read_items-Leaves (suc f) (text raw ∷ es) h =
        later (length es) (read_items-Leaves f es (omega (arith, h)))
    read_items-Leaves (suc f) (plain raw ∷ es) h =
        later (length es) (read_items-Leaves f es (omega (arith, h)))
    read_items-Leaves (suc f) (empty n ∷ es) h =
        later (length es) (read_items-Leaves f es (omega (arith, h)))
    read_items-Leaves (suc f) (other ∷ es) h =
        later (length es) (read_items-Leaves f es (omega (arith, h)))

    read_members-Leaves :
        (f : ℕ) (es : List Event) → length es < f → Leaves (length es) (read_members codec f es)
    read_members-Leaves zero es h = absurd (omega (arith, h))
    read_members-Leaves (suc f) [] h = refused
    read_members-Leaves (suc f) (start n ∷ es) h =
        Within-cases (text_beq n (codes "member"))
          (Within-bind (read_member-Leaves f [] (str []) es (omega (arith, h))) (λ p k.
            Within-bind (read_members-Leaves f p.1 (omega (arith, h, k)))
              (λ q l. answered (omega (arith, k, l)))))
          (later (length es) (read_members-Leaves f es (omega (arith, h))))
    read_members-Leaves (suc f) (finish n ∷ es) h =
        Within-cases (text_beq n (codes "struct")) (answered (omega arith))
          (later (length es) (read_members-Leaves f es (omega (arith, h))))
    read_members-Leaves (suc f) (broken m ∷ es) h = refused
    read_members-Leaves (suc f) (text raw ∷ es) h =
        later (length es) (read_members-Leaves f es (omega (arith, h)))
    read_members-Leaves (suc f) (plain raw ∷ es) h =
        later (length es) (read_members-Leaves f es (omega (arith, h)))
    read_members-Leaves (suc f) (empty n ∷ es) h =
        later (length es) (read_members-Leaves f es (omega (arith, h)))
    read_members-Leaves (suc f) (other ∷ es) h =
        later (length es) (read_members-Leaves f es (omega (arith, h)))

    read_member-Leaves :
        (f : ℕ) (name : Text) (value : Value D) (es : List Event)
        → length es < f
        → Leaves (length es) (read_member codec f name value es)
    read_member-Leaves zero name value es h = absurd (omega (arith, h))
    read_member-Leaves (suc f) name value [] h = refused
    read_member-Leaves (suc f) name value (start n ∷ es) h =
        Within-cases (text_beq n (codes "name"))
          (Within-bind (read_text-Leaves n [] es) (λ p k.
            Within-mono (read_member-Leaves f p.0 value p.1 (omega (arith, h, k)))
              (λ q l. omega (arith, k, l))))
          (Within-cases (text_beq n (codes "value"))
            (Within-bind (read_value-Leaves f es (omega (arith, h))) (λ p k.
              Within-mono (read_member-Leaves f name p.0 p.1 (omega (arith, h, k)))
                (λ q l. omega (arith, k, l))))
            (later (length es) (read_member-Leaves f name value es (omega (arith, h)))))
    read_member-Leaves (suc f) name value (finish n ∷ es) h =
        Within-cases (text_beq n (codes "member")) (answered (omega arith))
          (later (length es) (read_member-Leaves f name value es (omega (arith, h))))
    read_member-Leaves (suc f) name value (broken m ∷ es) h = refused
    read_member-Leaves (suc f) name value (text raw ∷ es) h =
        later (length es) (read_member-Leaves f name value es (omega (arith, h)))
    read_member-Leaves (suc f) name value (plain raw ∷ es) h =
        later (length es) (read_member-Leaves f name value es (omega (arith, h)))
    read_member-Leaves (suc f) name value (empty n ∷ es) h =
        later (length es) (read_member-Leaves f name value es (omega (arith, h)))
    read_member-Leaves (suc f) name value (other ∷ es) h =
        later (length es) (read_member-Leaves f name value es (omega (arith, h)))

  respond_fueled :
      (in_fault : Bool) (es : List Event)
      → Within (λ (v : Value D). Unit {0}) (respond codec in_fault es)
  unfolding respond
  respond_fueled in_fault [] = refused
  respond_fueled in_fault (start n ∷ es) =
      Within-if (text_beq n (codes "fault")) (respond_fueled true es) (
        Within-if (text_beq n (codes "value"))
          (Within-bind (read_value-Leaves (suc (length es)) es (omega arith))
            (λ p _. Within-if in_fault refused (answered tt)))
          (respond_fueled in_fault es))
  respond_fueled in_fault (broken m ∷ es) = refused
  respond_fueled in_fault (finish n ∷ es) = respond_fueled in_fault es
  respond_fueled in_fault (text raw ∷ es) = respond_fueled in_fault es
  respond_fueled in_fault (plain raw ∷ es) = respond_fueled in_fault es
  respond_fueled in_fault (empty n ∷ es) = respond_fueled in_fault es
  respond_fueled in_fault (other ∷ es) = respond_fueled in_fault es

-- The decoder gives a value or an error for every list of events: its fuel, one more than the events
-- after a `<value>`, never runs out.
pub parse_response_fueled :
    {D : Type 0} (codec : Codec D) (es : List Event) → parse_response codec es ≢ out_of_fuel
unfolding parse_response
parse_response_fueled codec es = Within-fueled (respond_fueled codec false (trimmed codec es))
