-- ===== src/XmlRpc/Tidy.antt =====
-- What `trim_text(true)` makes of a value's events: those of the value with its strings and names
-- trimmed.
use rstorrent.Base.{Text, codes, all, true, false, List, [], ◌∷◌, ◌≡◌, refl, ap, ◌∙◌}
use rstorrent.XmlRpc.Decode.{text_events, Event, start, finish, trimmed}
use rstorrent.XmlRpc.Numbers.{is_plain, all-show_i64}
use rstorrent.XmlRpc.Shape.{leaf, shape, shape_items, shape_members, IsPlain, ArePlain, HasPlain}
use rstorrent.XmlRpc.{
  Value, Items, Members, Codec, int, boolean, str, double, bytes, array, struct, no_items, item,
  no_members, member, show_i64, escape,
}

module _ {D : Type 0} (codec : Codec D) where
  -- The value with its strings and the names of its members trimmed.
  unfoldable mutual
    pub tidy : Value D → Value D
    tidy (str s) = str (codec.trim_text s)
    tidy (array items) = array (tidy_items items)
    tidy (struct ms) = struct (tidy_members ms)
    tidy (int n) = int n
    tidy (boolean b) = boolean b
    tidy (double d) = double d
    tidy (bytes b) = bytes b

    pub tidy_items : Items D → Items D
    tidy_items no_items = no_items
    tidy_items (item v items) = item (tidy v) (tidy_items items)

    pub tidy_members : Members D → Members D
    tidy_members no_members = no_members
    tidy_members (member name v ms) = member (codec.trim_text name) (tidy v) (tidy_members ms)

  mutual
    unfolding tidy IsPlain

    pub IsPlain-tidy : (v : Value D) → IsPlain codec v → IsPlain codec (tidy v)
    IsPlain-tidy (int n) p = p
    IsPlain-tidy (boolean b) p = p
    IsPlain-tidy (str s) p = p
    IsPlain-tidy (double d) p = p
    IsPlain-tidy (bytes b) p = p
    IsPlain-tidy (array items) p = ArePlain-tidy_items items p
    IsPlain-tidy (struct ms) p = HasPlain-tidy_members ms p

    ArePlain-tidy_items :
        (items : Items D) → ArePlain codec items → ArePlain codec (tidy_items items)
    ArePlain-tidy_items no_items p = p
    ArePlain-tidy_items (item v items) p = (IsPlain-tidy v p.0, ArePlain-tidy_items items p.1)

    HasPlain-tidy_members : (ms : Members D) → HasPlain codec ms → HasPlain codec (tidy_members ms)
    HasPlain-tidy_members no_members p = p
    HasPlain-tidy_members (member name v ms) p = (IsPlain-tidy v p.0, HasPlain-tidy_members ms p.1)

module _ {D : Type 0} (codec : Codec D)
    (trim_text-escape : (s : Text) → codec.trim_text (escape s) ≡ escape (codec.trim_text s))
    (trim_text_plain : (s : Text) → all is_plain s ≡ true → codec.trim_text s ≡ s) where
  trimmed-text_events :
      (raw : Text) (k : List Event)
      → trimmed codec (text_events raw k) ≡ text_events (codec.trim_text raw) (trimmed codec k)
  unfolding trimmed
  trimmed-text_events [] k = rw (trim_text_plain [] refl) refl
  trimmed-text_events (c ∷ s) k = refl

  trimmed-leaf :
      (name raw : Text) (k : List Event)
      → trimmed codec (leaf name raw k) ≡ leaf name (codec.trim_text raw) (trimmed codec k)
  unfolding trimmed
  trimmed-leaf name raw k = ap (λ es. start name ∷ es) (trimmed-text_events raw (finish name ∷ k))

  trimmed-leaf_same :
      (name raw : Text) (k : List Event)
      → codec.trim_text raw ≡ raw
      → trimmed codec (leaf name raw k) ≡ leaf name raw (trimmed codec k)
  trimmed-leaf_same name raw k e =
      trimmed-leaf name raw k ∙ ap (λ x. leaf name x (trimmed codec k)) e

  mutual
    unfolding trimmed shape tidy IsPlain

    pub trimmed-shape :
        (v : Value D) (k : List Event)
        → IsPlain codec v
        → trimmed codec (shape codec v k) ≡ shape codec (tidy codec v) (trimmed codec k)
    trimmed-shape (int n) k p =
        trimmed-leaf_same (codes "i8") (show_i64 n) k
          (trim_text_plain (show_i64 n) (all-show_i64 n))
    trimmed-shape (boolean true) k p =
        trimmed-leaf_same (codes "boolean") (codes "1") k (trim_text_plain (codes "1") refl)
    trimmed-shape (boolean false) k p =
        trimmed-leaf_same (codes "boolean") (codes "0") k (trim_text_plain (codes "0") refl)
    trimmed-shape (str s) k p =
        trimmed-leaf (codes "string") (escape s) k
        ∙ ap (λ x. leaf (codes "string") x (trimmed codec k)) (trim_text-escape s)
    trimmed-shape (double d) k p = trimmed-leaf_same (codes "double") (codec.show_double d) k p.2
    trimmed-shape (bytes b) k p = trimmed-leaf_same (codes "base64") (codec.b64_encode b) k p.2
    trimmed-shape (array items) k p =
        ap (λ es. start (codes "array") ∷ start (codes "data") ∷ es)
          (trimmed-shape_items items (finish (codes "data") ∷ finish (codes "array") ∷ k) p)
    trimmed-shape (struct ms) k p =
        ap (λ es. start (codes "struct") ∷ es)
          (trimmed-shape_members ms (finish (codes "struct") ∷ k) p)

    trimmed-shape_items :
        (items : Items D) (k : List Event)
        → ArePlain codec items
        → trimmed codec (shape_items codec items k)
          ≡ shape_items codec (tidy_items codec items) (trimmed codec k)
    trimmed-shape_items no_items k p = refl
    trimmed-shape_items (item v items) k p =
        ap (λ es. start (codes "value") ∷ es)
          (trimmed-shape v (finish (codes "value") ∷ shape_items codec items k) p.0
            ∙ ap (λ es. shape codec (tidy codec v) (finish (codes "value") ∷ es))
                (trimmed-shape_items items k p.1))

    trimmed-shape_members :
        (ms : Members D) (k : List Event)
        → HasPlain codec ms
        → trimmed codec (shape_members codec ms k)
          ≡ shape_members codec (tidy_members codec ms) (trimmed codec k)
    trimmed-shape_members no_members k p = refl
    trimmed-shape_members (member name v ms) k p =
        let rest = finish (codes "value") ∷ finish (codes "member") ∷ shape_members codec ms k in
        ap (λ es. start (codes "member") ∷ es)
          (trimmed-leaf (codes "name") (escape name) (start (codes "value") ∷ shape codec v rest)
            ∙ ap
                (λ x.
                  leaf (codes "name") x
                    (start (codes "value") ∷ trimmed codec (shape codec v rest)))
                (trim_text-escape name)
            ∙ ap
                (λ es.
                  leaf (codes "name") (escape (codec.trim_text name)) (start (codes "value") ∷ es))
                (trimmed-shape v rest p.0
                  ∙ ap
                      (λ es.
                        shape codec (tidy codec v)
                          (finish (codes "value") ∷ finish (codes "member") ∷ es))
                      (trimmed-shape_members ms k p.1)))
