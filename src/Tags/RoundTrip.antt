-- ===== src/Tags/RoundTrip.antt =====
-- Normalised tags, written and read back.
use rstorrent.Base.{
  ℕ, ◌≤◌, Text, trim, trim_end, is_whitespace, is_empty, all, filter, take, length, length-take,
  Bool, true, false, not, ◌||◌, List, [], ◌∷◌, ◌++◌, append_assoc, append-nil, ◌≡◌, refl, sym, ap,
  ◌∙◌, inl, inr, All, Bool-cases, arith,
}
use rstorrent.Tags.Trimmed.{
  starts_well-take, starts_well-trim, trim-trim_end, trim_end-trimmed, all-trim_end_by, all-trim,
  all-take, all-filter, filter-all, take_short, length-trim_end_by-le,
}
use rstorrent.Tags.{
  max_tag_len, is_comma, cleaned, known, normalise_from, normalise, encode, onto_first,
  split_commas, parse,
}

-- A tag as `normalise` leaves it.
pub record IsTag (tag : Text) : Type 0 where
  pub full : is_empty tag ≡ false
  pub trimmed : trim tag ≡ tag
  pub short : length tag ≤ max_tag_len
  pub whole : all (λ c. not (is_comma c)) tag ≡ true

length-trim_end-le : (s : Text) → length (trim_end s) ≤ length s
unfolding trim_end
length-trim_end-le s = length-trim_end_by-le is_whitespace s

all-trim_end : (q : ℕ → Bool) (s : Text) → all q s ≡ true → all q (trim_end s) ≡ true
unfolding trim_end
all-trim_end q s h = all-trim_end_by q is_whitespace s h

cleaned-IsTag : (raw : Text) → is_empty (cleaned raw) ≡ false → IsTag (cleaned raw)
unfolding cleaned
cleaned-IsTag raw h = elim (Bool-cases (is_empty (trim (filter (λ c. not (is_comma c)) raw)))) [
  | inl e ↦ ground (arith, rw e at h)
  | inr e ↦
      let kept = trim (filter (λ c. not (is_comma c)) raw) in
      let f = rw e at h in
      rw e (record {
        full = f;
        trimmed = trim-trim_end (take max_tag_len kept) (
            starts_well-take is_whitespace max_tag_len kept
              (starts_well-trim (filter (λ c. not (is_comma c)) raw)));
        short =
            omega (arith, length-trim_end-le (take max_tag_len kept), length-take max_tag_len kept);
        whole =
            all-trim_end (λ c. not (is_comma c)) (take max_tag_len kept)
              (all-take (λ c. not (is_comma c)) max_tag_len kept
                (all-trim (λ c. not (is_comma c)) (filter (λ c. not (is_comma c)) raw)
                  (all-filter (λ c. not (is_comma c)) raw)));
      })
]

-- What is clean stays as it is.
cleaned_id : (tag : Text) → IsTag tag → cleaned tag ≡ tag
unfolding cleaned
cleaned_id tag t =
    let f : trim (filter (λ c. not (is_comma c)) tag) ≡ tag =
      ap trim (filter-all (λ c. not (is_comma c)) tag t.whole) ∙ t.trimmed in
    rw (f, t.full, take_short max_tag_len tag t.short) (trim_end-trimmed tag t.trimmed)

-- Each part keeps its characters.
split_commas-part :
    (tag rest : Text)
    → all (λ c. not (is_comma c)) tag ≡ true
    → split_commas (tag ++ b',' ∷ rest) ≡ tag ∷ split_commas rest
unfolding split_commas onto_first
split_commas-part [] rest h = refl
split_commas-part (c ∷ tag) rest h =
    let no_comma : is_comma c ≡ false = ground arith in
    rw (no_comma, split_commas-part tag rest (ground arith))

split_commas-last :
    (tag : Text) → all (λ c. not (is_comma c)) tag ≡ true → split_commas tag ≡ tag ∷ []
unfolding split_commas onto_first
split_commas-last [] h = refl
split_commas-last (c ∷ tag) h =
    let no_comma : is_comma c ≡ false = ground arith in
    rw (no_comma, split_commas-last tag (ground arith))

split_commas-encode :
    (t : Text) (tags : List Text)
    → All IsTag (t ∷ tags)
    → split_commas (encode (t ∷ tags)) ≡ t ∷ tags
unfolding encode
split_commas-encode t [] h = split_commas-last t h.0.whole
split_commas-encode t (u ∷ tags) h =
    split_commas-part t (encode (u ∷ tags)) h.0.whole
    ∙ ap (λ l. t ∷ l) (split_commas-encode u tags h.1)

module _ (lower : Text → Text) where
  -- No spelling twice, against the tags before too.
  abbrev AreNew : List Text → List Text → Type 0
  AreNew out [] = Unit
  AreNew out (t ∷ tags) = (known lower out t ≡ false) × AreNew (out ++ t ∷ []) tags

  AreNew-snoc :
      (before out : List Text) (t : Text)
      → AreNew before out
      → known lower (before ++ out) t ≡ false
      → AreNew before (out ++ t ∷ [])
  AreNew-snoc before [] t h new = (rw append-nil at new, tt)
  AreNew-snoc before (u ∷ out) t h new =
      (h.0, AreNew-snoc (before ++ u ∷ []) out t h.1 (rw (append_assoc before (u ∷ []) out) new))

  All-snoc : (out : List Text) (t : Text) → All IsTag out → IsTag t → All IsTag (out ++ t ∷ [])
  All-snoc [] t h i = (i, tt)
  All-snoc (u ∷ out) t h i = (h.0, All-snoc out t h.1 i)

  normalise_from-AreNew :
      (out tags : List Text)
      → All IsTag out
      → AreNew [] out
      → All IsTag (normalise_from lower out tags) × AreNew [] (normalise_from lower out tags)
  unfolding normalise_from
  normalise_from-AreNew out [] h n = (h, n)
  normalise_from-AreNew out (raw ∷ tags) h n =
      elim (Bool-cases (is_empty (cleaned raw) || known lower out (cleaned raw))) [
        | inl skip ↦ rw skip (normalise_from-AreNew out tags h n)
        | inr keep ↦ rw keep (
            normalise_from-AreNew (out ++ cleaned raw ∷ []) tags
              (All-snoc out (cleaned raw) h (cleaned-IsTag raw (ground arith)))
              (AreNew-snoc [] out (cleaned raw) n (ground arith)))
      ]

  normalise_from_id :
      (out tags : List Text)
      → All IsTag tags
      → AreNew out tags
      → normalise_from lower out tags ≡ out ++ tags
  unfolding normalise_from
  normalise_from_id out [] h n = sym (append-nil out)
  normalise_from_id out (t ∷ tags) h n =
      rw (cleaned_id t h.0, h.0.full, n.0)
        (normalise_from_id (out ++ t ∷ []) tags h.1 n.1 ∙ append_assoc out (t ∷ []) tags)

  parse-encode_clean :
      (tags : List Text) → All IsTag tags → AreNew [] tags → parse lower (encode tags) ≡ tags
  unfolding parse normalise
  parse-encode_clean [] h n = unfold encode split_commas normalise_from cleaned trim in refl
  parse-encode_clean (t ∷ tags) h n =
      ap (normalise_from lower []) (split_commas-encode t tags h)
      ∙ normalise_from_id [] (t ∷ tags) h n

  -- Whatever the user enters, the tags that are written to the daemon are read back as they were:
  -- no name is lost, merged, cut or split on the way, whatever `to_lowercase` does.
  pub parse-encode :
      (tags : List Text) → parse lower (encode (normalise lower tags)) ≡ normalise lower tags
  unfolding normalise
  parse-encode tags =
      let (h, n) = normalise_from-AreNew [] tags tt tt in
      parse-encode_clean (normalise_from lower [] tags) h n
