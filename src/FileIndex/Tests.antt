-- ===== src/FileIndex/Tests.antt =====
-- Runs of the file index, and the theorems at concrete inputs.
use rstorrent.Base.{
  Text, codes, text_beq, put, retain_keys, remove_key, true, [], ◌∷◌, ◌≡◌, refl, arith,
}
use rstorrent.FileIndex.Bounds.{IsValid, record_files-IsValid}
use rstorrent.FileIndex.{
  FileIndex, new, is_prefix, has_part, evict, is_indexed, contains_path, record_files, retain_live,
  needs, clear,
}

program : Unit {0}
unfolding text_beq put retain_keys remove_key new is_prefix has_part evict is_indexed contains_path
    record_files retain_live needs clear
program = tt

-- Stand-ins for the case mappings.
abbrev same : Text → Text
same s = s

abbrev small : FileIndex
small = record { capacity = 1; files = []; order = [] }

small-IsValid : IsValid small
small-IsValid = record {
  room = omega arith;
  fits = omega arith;
  agrees = record { once = tt; same = λ h. refl; short = λ h paths e. absurd (ground arith) };
}

-- With room for one torrent the second takes the place of the first.
record-two :
    record_files same same
      (codes "B")
      (codes "b.iso" ∷ [])
      (record_files same same (codes "A") (codes "a.iso" ∷ []) small)
    ≡ record { capacity = 1; files = (codes "B", codes "b.iso" ∷ []) ∷ []; order = codes "B" ∷ [] }
unfolding program
record-two = refl

contains_path-iso :
    contains_path same same
      (record_files same same (codes "A") (codes "a.iso" ∷ []) small)
      (codes "A")
      (codes ".is")
    ≡ true
unfolding program
contains_path-iso = refl

record_files-IsValid_example :
    IsValid (record_files same same (codes "A") (codes "a.iso" ∷ []) small)
    × (is_indexed same same
          (record_files same same (codes "A") (codes "a.iso" ∷ []) small)
          (codes "A")
        ≡ true)
record_files-IsValid_example =
    record_files-IsValid same same (codes "A") (codes "a.iso" ∷ []) small small-IsValid
