-- ===== src/Duplicates/Tests.antt =====
-- Runs of `detect`, and the theorem at a concrete input.
use rstorrent.Base.{
  codes, trim, trim_end, trim_end_by, trim_start_by, trim_end_slashes, is_whitespace, ascii_lower,
  to_ascii_lowercase, eq_ignore_ascii_case, text_beq, ℤ, pos, none, some, List, [], ◌∷◌, ◌≡◌, refl,
}
use rstorrent.Duplicates.Found.{Reports, detect-Reports}
use rstorrent.Duplicates.{
  AddCandidate, exact, same_name_and_size, destination_in_use, normalise_path, target, find_exact,
  find_same, find_in_use, detect,
}
use rstorrent.Types.Samples.{blank_dto}
use rstorrent.Types.{TorrentDto}

program : Unit {0}
unfolding trim trim_end trim_end_by trim_start_by trim_end_slashes is_whitespace ascii_lower
    to_ascii_lowercase eq_ignore_ascii_case text_beq normalise_path target find_exact find_same
    find_in_use detect
program = tt

abbrev library : List (TorrentDto ℤ)
library =
    record blank_dto {
      hash = codes "AB";
      name = codes "Film";
      size = pos 7;
      save_path = codes "/data/Film/";
    }
    ∷ []

abbrev add : AddCandidate
add = record { hash = some (codes " ab "); name = none; size = none; destination = none }

by_hash : detect to_ascii_lowercase add library ≡ some (exact (codes "AB") (codes "Film"))
unfolding program
by_hash = refl

by_name :
    detect to_ascii_lowercase
      (record add { hash = none; name = some (codes "film"); size = some (pos 7) })
      library
    ≡ some (same_name_and_size (codes "AB") (codes "Film") (pos 7))
unfolding program
by_name = refl

by_folder :
    detect to_ascii_lowercase
      (record add { hash = none; name = some (codes "Film"); destination = some (codes "/data//") })
      library
    ≡ some (destination_in_use (codes "AB") (codes "Film") (codes "/data/Film/"))
unfolding program
by_folder = refl

-- A space at the end of the destination hides the folder.
by_padded_folder :
    detect to_ascii_lowercase
      (record add { hash = none; name = some (codes "Film"); destination = some (codes "/data ") })
      library
    ≡ none
unfolding program
by_padded_folder = refl

detect-Reports_example :
    Reports to_ascii_lowercase add library (detect to_ascii_lowercase add library)
detect-Reports_example = detect-Reports to_ascii_lowercase add library
