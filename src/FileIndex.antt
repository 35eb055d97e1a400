-- ===== src/FileIndex.antt =====
-- crates/rtorrent/src/file_index.rs: the bounded index of file paths. The Unicode `to_uppercase`
-- and `to_lowercase` are the parameters `upper` and `lower`.
pub mod Bounds
mod Tests
use rstorrent.Base.{
  ℕ, suc, ◌<◌, Text, text_beq, HashSet, contains, lookup, put, retain_keys, remove_key, length,
  take, filter, any, ltb, leb, is_empty, is_some, if◌then◌else◌, Bool, true, false, not, ◌&&◌, ◌||◌,
  Option, none, some, List, [], ◌∷◌, ◌++◌, map, max,
}

abbrev pub default_capacity : ℕ
default_capacity = 5000

abbrev pub max_paths_per_torrent : ℕ
max_paths_per_torrent = 2000

abbrev pub Files : Type 0
Files = List (Text × List Text)

pub record FileIndex : Type 0 where
  pub capacity : ℕ
  pub files : Files
  pub order : List Text

unfoldable pub new : ℕ → FileIndex
new capacity = record { capacity = max capacity 1; files = []; order = [] }

-- `str::contains`: a prefix at some position.
unfoldable pub is_prefix : Text → Text → Bool
is_prefix [] s = true
is_prefix (c ∷ q) [] = false
is_prefix (c ∷ q) (d ∷ s) = text_beq (c ∷ []) (d ∷ []) && is_prefix q s

unfoldable pub has_part : Text → Text → Bool
has_part [] q = is_prefix q []
has_part (c ∷ s) q = is_prefix q (c ∷ s) || has_part s q

-- The loop of `evict`: the oldest go until the rest fits.
unfoldable pub evict : ℕ → List Text → Files → List Text × Files
evict capacity [] files = ([], files)
evict capacity (oldest ∷ order) files =
    let rest = evict capacity order (remove_key files oldest) in
    if ltb capacity (suc (length order)) then rest else (oldest ∷ order, files)

module _ (upper lower : Text → Text) where
  unfoldable pub is_indexed : FileIndex → Text → Bool
  is_indexed x hash = is_some (lookup x.files (upper hash))

  unfoldable pub contains_path : FileIndex → Text → Text → Bool
  contains_path x hash query_lower =
      if is_empty query_lower then true else elim (lookup x.files (upper hash)) [
        | none ↦ false
        | some paths ↦ any (λ path. has_part path query_lower) paths
      ]

  unfoldable pub record_files : Text → List Text → FileIndex → FileIndex
  record_files hash paths x =
      let key = upper hash in
      let lowered = map lower (take max_paths_per_torrent paths) in
      let order' = if is_some (lookup x.files key) then x.order else x.order ++ key ∷ [] in
      let (order, files) = evict x.capacity order' (put x.files key lowered) in
      record x { files = files; order = order }

  unfoldable pub retain_live : HashSet → FileIndex → FileIndex
  retain_live live x =
      let kept = retain_keys (λ h. contains live h || contains live (upper h)) x.files in
      record x { files = kept; order = filter (λ h. is_some (lookup kept h)) x.order }

  unfoldable pub needs : FileIndex → List Text → ℕ → List Text
  needs x hashes batch = take batch (filter (λ h. not (is_indexed x h)) hashes)

unfoldable pub clear : FileIndex → FileIndex
clear x = record x { files = []; order = [] }
