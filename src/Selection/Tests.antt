-- ===== src/Selection/Tests.antt =====
-- Runs of the selection, and the theorems at concrete inputs.
use rstorrent.Base.{
  Text, codes, text_beq, add_i64, insert, remove, retain, extend, pos, negsuc, some, List, [], ◌∷◌,
  ◌≡◌, refl,
}
use rstorrent.Selection.{
  Selection, slice, range_from, only, click, rows, max_row, focus_index, clamped, move_to, step,
  farthest, extend_by, prune,
}

program : Unit {0}
unfolding text_beq add_i64 insert remove retain extend slice range_from click rows max_row
    focus_index clamped move_to step farthest extend_by prune
program = tt

abbrev order : List Text
order = codes "a" ∷ codes "b" ∷ codes "c" ∷ codes "d" ∷ []

abbrev on_b : Selection
on_b = only (codes "b")

step-end : step on_b order (pos 9) ≡ record { selection = only (codes "d"); reveal = some 3 }
unfolding program
step-end = refl

extend_by-up : (extend_by on_b order (negsuc 0)).selection.hashes ≡ codes "b" ∷ codes "a" ∷ []
unfolding program
extend_by-up = refl
