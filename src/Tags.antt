-- ===== src/Tags.antt =====
-- crates/rtorrent/src/tags.rs: the set of tags of a torrent, and its one string in the daemon. The
-- Unicode `to_lowercase` is the parameter `lower`.
pub mod Trimmed
pub mod RoundTrip
mod Tests
use rstorrent.Base.{
  ℕ, nat_beq, Text, codes, text_beq, trim, trim_end, is_empty, any, filter, take, if◌then◌else◌,
  Bool, not, ◌||◌, List, [], ◌∷◌, ◌++◌,
}

abbrev pub custom_key : Text
custom_key = codes "tags"

abbrev pub max_tag_len : ℕ
max_tag_len = 64

abbrev pub is_comma : ℕ → Bool
is_comma c = nat_beq c b','

-- One tag, up to the test for another spelling; empty if nothing is left of it.
unfoldable pub cleaned : Text → Text
cleaned raw =
    let kept = trim (filter (λ c. not (is_comma c)) raw) in
    if is_empty kept then [] else trim_end (take max_tag_len kept)

module _ (lower : Text → Text) where
  abbrev pub known : List Text → Text → Bool
  known out tag = any (λ existing. text_beq (lower existing) (lower tag)) out

  -- The loop of `normalise`, with the tags so far.
  unfoldable pub normalise_from : List Text → List Text → List Text
  normalise_from out [] = out
  normalise_from out (raw ∷ tags) =
      let tag = cleaned raw in
      normalise_from (if is_empty tag || known out tag then out else out ++ tag ∷ []) tags

  unfoldable pub normalise : List Text → List Text
  normalise tags = normalise_from [] tags

-- `tags.join(",")`.
unfoldable pub encode : List Text → Text
encode [] = []
encode (t ∷ []) = t
encode (t ∷ u ∷ tags) = t ++ (b',' ∷ encode (u ∷ tags))

-- A character before the first part.
unfoldable pub onto_first : ℕ → List Text → List Text
onto_first c [] = (c ∷ []) ∷ []
onto_first c (part ∷ parts) = (c ∷ part) ∷ parts

-- `raw.split(',')`: one part more than there are commas.
unfoldable pub split_commas : Text → List Text
split_commas [] = [] ∷ []
split_commas (c ∷ s) =
    let rest = split_commas s in if is_comma c then [] ∷ rest else onto_first c rest

unfoldable pub parse : (Text → Text) → Text → List Text
parse lower raw = normalise lower (split_commas raw)
