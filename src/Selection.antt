-- ===== src/Selection.antt =====
-- crates/gpui/src/table_state.rs: the selection of table rows by mouse and keyboard. Rows are
-- hashes in display order. An `isize` has 64 bits, and
-- its sums wrap as they do in a release build.
pub mod Clicks
pub mod Moves
mod Tests
use rstorrent.Base.{
  ℕ, zero, suc, ◌+◌, ◌-◌, ltb, leb, Text, text_beq, HashSet, contains, insert, remove, retain,
  extend, take, drop, length, get_elem?, position, is_empty, filter, ltb_ℤ, add_i64, ℤ, pos, negsuc,
  pos_part, if◌then◌else◌, Bool, true, false, not, ◌&&◌, ◌||◌, Option, none, some, List, [], ◌∷◌,
  unwrap_or,
}

pub record Selection : Type 0 where
  pub hashes : HashSet
  pub anchor : Option Text

pub record Modifiers : Type 0 where
  pub shift : Bool
  pub toggle : Bool

abbrev pub row_of : List Text → Text → Option ℕ
row_of order h = position (λ x. text_beq x h) order

-- `order[lo..=hi]`, collected.
unfoldable pub slice : List Text → ℕ → ℕ → List Text
slice order lo hi = take (suc hi - lo) (drop lo order)

abbrev pub only : Text → Selection
only hash = record { hashes = hash ∷ []; anchor = some hash }

unfoldable pub range_from : Text → Text → List Text → Selection
range_from anchor hash order = elim (row_of order anchor) [
  | none ↦ only hash
  | some a ↦ elim (row_of order hash) [
    | none ↦ only hash
    | some b ↦ record {
      hashes = extend [] (if ltb a b then slice order a b else slice order b a);
      anchor = some anchor;
    }
  ]
]

unfoldable pub click : Selection → List Text → Text → Modifiers → Selection
click current order hash modifiers =
    if modifiers.toggle
    then record {
      hashes =
          if contains current.hashes hash
          then remove current.hashes hash
          else insert current.hashes hash;
      anchor = some hash;
    }
    else (if modifiers.shift
        then elim current.anchor [ none ↦ only hash | some anchor ↦ range_from anchor hash order ]
        else only hash)

pub record Move : Type 0 where
  pub selection : Selection
  pub reveal : Option ℕ

-- The rows of the selected hashes that are shown, and the greatest of them.
unfoldable pub rows : List Text → HashSet → List ℕ
rows order [] = []
rows order (h ∷ hashes) = elim (row_of order h) [
  | none ↦ rows order hashes
  | some i ↦ i ∷ rows order hashes
]

unfoldable pub max_row : List ℕ → Option ℕ
max_row [] = none
max_row (i ∷ is) = elim (max_row is) [ none ↦ some i | some j ↦ some (if ltb j i then i else j) ]

unfoldable pub focus_index : List Text → Selection → Option ℕ
focus_index order selection =
    let fallback = max_row (rows order selection.hashes) in
    elim selection.anchor [
      | none ↦ fallback
      | some hash ↦ elim (row_of order hash) [ some i ↦ some i | none ↦ fallback ]
    ]

-- `index.clamp(0, len - 1)`, for a non-empty list.
unfoldable pub clamped : ℤ → ℕ → ℕ
clamped (pos i) len = if ltb i len then i else len - 1
clamped (negsuc i) len = 0

unfoldable pub move_to : List Text → ℤ → Move
move_to order index =
    let at = clamped index (length order) in
    elim (get_elem? order at) [
      | none ↦ record { selection = record { hashes = []; anchor = none }; reveal = none }
      | some hash ↦ record { selection = only hash; reveal = some at }
    ]

unfoldable pub step : Selection → List Text → ℤ → Move
step selection order delta =
    if is_empty order
    then record { selection = selection; reveal = none }
    else elim (focus_index order selection) [
      | some index ↦ move_to order (add_i64 (pos index) delta)
      | none ↦ move_to order (if ltb_ℤ (pos 0) delta then pos 0 else pos (length order - 1))
    ]

abbrev pub abs_diff : ℕ → ℕ → ℕ
abs_diff a b = if ltb a b then b - a else a - b

-- `max_by_key`: the last of those that are farthest, in the order of the set.
unfoldable pub farthest : ℕ → List ℕ → Option ℕ
farthest anchor [] = none
farthest anchor (i ∷ is) = elim (farthest anchor is) [
  | none ↦ some i
  | some j ↦ some (if ltb (abs_diff j anchor) (abs_diff i anchor) then i else j)
]

unfoldable pub extend_by : Selection → List Text → ℤ → Move
extend_by selection order delta =
    if is_empty order
    then record { selection = selection; reveal = none }
    else elim selection.anchor [
      | none ↦ step selection order delta
      | some anchor ↦ elim (row_of order anchor) [
        | none ↦ step selection order delta
        | some anchor_index ↦
            let far =
              unwrap_or (farthest anchor_index (rows order selection.hashes)) anchor_index in
            let target = clamped (add_i64 (pos far) delta) (length order) in
            record {
              selection = record {
                hashes = extend [] (
                    if ltb anchor_index target
                    then slice order anchor_index target
                    else slice order target anchor_index);
                anchor = some anchor;
              };
              reveal = some target;
            }
      ]
    ]

unfoldable pub prune : HashSet → Selection → Selection
prune existing selection = record {
  hashes = retain (contains existing) selection.hashes;
  anchor = elim selection.anchor [
    | none ↦ none
    | some anchor ↦ if contains existing anchor then some anchor else none
  ];
}
