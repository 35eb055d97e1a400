-- ===== src/Selection/Moves.antt =====
-- Keyboard moves over the shown rows.
use rstorrent.Base.{
  ℕ, suc, ◌+◌, ◌-◌, Text, length, get_elem?, ℤ, pos, pos_part, neg_part, sub_ℕ, ltb_ℤ, ◌≤ℤ◌, ◌<ℤ◌,
  if◌then◌else◌, Option, none, some, List, ◌≡◌,
}
use rstorrent.Selection.{Selection, Move, only, focus_index}

-- The row of a list that is nearest to an index, which may lie outside.
pub record IsNearest (len : ℕ) (target : ℤ) (row : ℕ) : Type 0 where
  pub before : target <ℤ pos 0 → row ≡ 0
  pub inside : pos 0 ≤ℤ target → target <ℤ pos len → target ≡ pos row
  pub beyond : pos len ≤ℤ target → suc row ≡ len

-- The move reveals the row that is nearest to the target and selects that row alone, as the new
-- anchor.
pub record Lands (order : List Text) (target : ℤ) (m : Move) : Type 0 where
  pub row : ℕ
  pub hash : Text
  pub reveals : m.reveal ≡ some row
  pub nearest : IsNearest (length order) target row
  pub shown : get_elem? order row ≡ some hash
  pub selects : m.selection ≡ only hash

-- Where a step aims: by so many rows from the row in focus; without one, at the first row on the
-- way down and at the last on the way up.
abbrev pub aim_from : Option ℕ → List Text → ℤ → ℤ
aim_from (some index) order delta = sub_ℕ (index + pos_part delta) (neg_part delta)
aim_from none order delta = if ltb_ℤ (pos 0) delta then pos 0 else pos (length order - 1)

abbrev pub aim : Selection → List Text → ℤ → ℤ
aim s order delta = aim_from (focus_index order s) order delta
