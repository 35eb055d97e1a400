-- ===== src/Duplicates.antt =====
-- crates/rtorrent/src/duplicates.rs: what an add would collide with. The Unicode `to_lowercase` is
-- the parameter `lower`.
pub mod Found
mod Tests
use rstorrent.Base.{
  Text, codes, trim, trim_end_slashes, is_empty, eq_ignore_ascii_case, text_beq, find, ℤ, pos,
  beq_ℤ, ltb_ℤ, if◌then◌else◌, Bool, not, ◌&&◌, Option, none, some, List, ◌++◌,
}
use rstorrent.Types.{TorrentDto}

pub record AddCandidate : Type 0 where
  pub hash : Option Text
  pub name : Option Text
  pub size : Option ℤ
  pub destination : Option Text

pub data Duplicate : Type 0 where
  exact : Text → Text → Duplicate
  same_name_and_size : Text → Text → ℤ → Duplicate
  destination_in_use : Text → Text → Text → Duplicate

-- The first row with the property, as what it is reported as.
abbrev pub report :
    {F : Type 0}
    → (TorrentDto F → Bool)
    → (TorrentDto F → Duplicate)
    → List (TorrentDto F)
    → Option Duplicate
report p of_row library = elim (find p library) [ none ↦ none | some t ↦ some (of_row t) ]

module _ {F : Type 0} where
  unfoldable pub find_exact : Option Text → List (TorrentDto F) → Option Duplicate
  find_exact none library = none
  find_exact (some hash) library =
      if is_empty (trim hash)
      then none
      else report (λ t. eq_ignore_ascii_case t.hash (trim hash)) (λ t. exact t.hash t.name) library

  unfoldable pub find_same : Option Text → Option ℤ → List (TorrentDto F) → Option Duplicate
  find_same (some name) (some size) library =
      if not (is_empty (trim name)) && ltb_ℤ (pos 0) size
      then report (λ t. beq_ℤ t.size size && eq_ignore_ascii_case t.name (trim name))
          (λ t. same_name_and_size t.hash t.name size) library
      else none
  find_same _ _ library = none

module _ (lower : Text → Text) where
  unfoldable pub normalise_path : Text → Text
  normalise_path path = lower (trim_end_slashes (trim path))

  -- `normalise_path(&format!("{}/{}", ..))`.
  unfoldable pub target : Text → Text → Text
  target destination name = normalise_path (trim_end_slashes destination ++ codes "/" ++ name)

  module _ {F : Type 0} where
    unfoldable pub find_in_use : Option Text → Option Text → List (TorrentDto F) → Option Duplicate
    find_in_use (some destination) (some name) library =
        if not (is_empty (trim destination)) && not (is_empty (trim name))
        then report (λ t. text_beq (normalise_path t.save_path) (target destination (trim name)))
            (λ t. destination_in_use t.hash t.name t.save_path) library
        else none
    find_in_use _ _ library = none

    unfoldable pub detect : AddCandidate → List (TorrentDto F) → Option Duplicate
    detect c library = elim (find_exact c.hash library) [
      | some d ↦ some d
      | none ↦ elim (find_same c.name c.size library) [
        | some d ↦ some d
        | none ↦ find_in_use c.destination c.name library
      ]
    ]
