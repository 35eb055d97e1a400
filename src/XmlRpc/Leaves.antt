-- ===== src/XmlRpc/Leaves.antt =====
-- The decoder on the elements without values inside, as the encoder writes them.
use rstorrent.Base.{
  ℕ, suc, nat_beq, Text, codes, text_beq, text_beq_refl, trim, trim_end, trim_start_by, trim_end_by,
  is_whitespace, if◌then◌else◌, Bool, true, false, none, some, List, [], ◌∷◌, ◌++◌, ◌≡◌, refl, sym,
  ap, ◌∙◌, Bool-cases, inl, inr,
}
use rstorrent.XmlRpc.Decode.{
  text_events, Event, start, finish, ok, failed, bind, Tag, boolean_tag, string_tag, skip_to_end,
  read_text, scalar, read_scalar, close_value, read_value, read_member, parse,
}
use rstorrent.XmlRpc.Shape.{leaf}
use rstorrent.XmlRpc.{Value, Codec, boolean, str, escape_char, escape}

-- What escaping writes for a character is not empty.
escape_first : (c : ℕ) (s : Text) → (d : ℕ) × (r : Text) × (escape (c ∷ s) ≡ d ∷ r)
unfolding escape escape_char
escape_first c s = elim (Bool-cases (nat_beq c b'&')) [
  | inl e ↦ (b'&', codes "amp;" ++ escape s, rw (e))
  | inr e ↦ elim (Bool-cases (nat_beq c b'<')) [
    | inl e' ↦ (b'&', codes "lt;" ++ escape s, rw (e, e'))
    | inr e' ↦ elim (Bool-cases (nat_beq c b'>')) [
      | inl e'' ↦ (b'&', codes "gt;" ++ escape s, rw (e, e', e''))
      | inr e'' ↦ (c, escape s, rw (e, e', e''))
    ]
  ]
]

module _ {D : Type 0} (codec : Codec D)
    (back : (s : Text) → codec.unescape (escape s) ≡ some s) where
  read_text-first :
      (tag s : Text) (d : ℕ) (r : Text) (k : List Event)
      → escape s ≡ d ∷ r
      → codec.unescape (d ∷ r) ≡ some s
      → read_text codec tag [] (text_events (escape s) (finish tag ∷ k)) ≡ ok (s, k)
  unfolding read_text
  read_text-first tag s d r k e known =
      ap (λ x. read_text codec tag [] (text_events x (finish tag ∷ k))) e
      ∙ ap
          (λ o.
            bind (elim o [ none ↦ failed (parse (codes "bad entity")) | some t ↦ ok t ])
              (λ t. read_text codec tag t (finish tag ∷ k)))
          known
      ∙ rw (text_beq_refl tag) refl

  -- The text of a leaf.
  read_text-escape :
      (tag s : Text) (k : List Event)
      → read_text codec tag [] (text_events (escape s) (finish tag ∷ k)) ≡ ok (s, k)
  unfolding read_text escape
  read_text-escape tag [] k = rw (text_beq_refl tag)
  read_text-escape tag (c ∷ s) k =
      let (d, r, e) = escape_first c s in
      read_text-first tag (c ∷ s) d r k e (ap codec.unescape (sym e) ∙ back (c ∷ s))

  read_text-leaf :
      (tag raw : Text) (k : List Event)
      → escape raw ≡ raw
      → read_text codec tag [] (text_events raw (finish tag ∷ k)) ≡ ok (raw, k)
  read_text-leaf tag raw k e =
      ap (λ x. read_text codec tag [] (text_events x (finish tag ∷ k))) (sym e)
      ∙ read_text-escape tag raw k

  pub read_scalar-leaf :
      (t : Tag) (name raw : Text) (v : Value D) (k : List Event)
      → escape raw ≡ raw
      → scalar codec t raw ≡ ok v
      → close_value codec
          (read_scalar codec t name (text_events raw (finish name ∷ finish (codes "value") ∷ k)))
        ≡ ok (v, k)
  unfolding read_scalar close_value skip_to_end text_beq
  read_scalar-leaf t name raw v k e s =
      rw (read_scalar, read_text-leaf name raw (finish (codes "value") ∷ k) e, s)

  pub read_string-leaf :
      (s : Text) (k : List Event)
      → close_value codec (
          read_scalar codec string_tag
            (codes "string")
            (text_events (escape s) (finish (codes "string") ∷ finish (codes "value") ∷ k)))
        ≡ ok (str s, k)
  unfolding read_scalar close_value skip_to_end text_beq scalar
  read_string-leaf s k =
      rw (read_scalar, read_text-escape (codes "string") s (finish (codes "value") ∷ k))

  pub scalar-boolean :
      (b : Bool) → scalar codec boolean_tag (if b then codes "1" else codes "0") ≡ ok (boolean b)
  unfolding scalar trim trim_end trim_start_by trim_end_by is_whitespace text_beq
  scalar-boolean true = refl
  scalar-boolean false = refl

  pub read_member-shape :
      (name : Text) (v : Value D) (es rest : List Event) (g : ℕ)
      → read_value codec (suc g) es ≡ ok (v, finish (codes "member") ∷ rest)
      → read_member codec
          (suc (suc (suc g)))
          []
          (str [])
          (leaf (codes "name") (escape name) (start (codes "value") ∷ es))
        ≡ ok ((name, v), rest)
  unfolding read_member text_beq
  read_member-shape name v es rest g h =
      rw (read_text-escape (codes "name") name (start (codes "value") ∷ es), h) refl
