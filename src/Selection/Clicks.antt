-- ===== src/Selection/Clicks.antt =====
-- Clicks and pruning.
use rstorrent.Base.{
  ℕ, zero, suc, ◌-◌, ◌≤◌, ◌<◌, min, max, ◌⊎◌, ltb, Text, text_beq, text_beq_iff, text_beq_refl,
  HashSet, contains, contains-insert, contains-remove, contains-retain, contains-extend, take,
  position, if◌then◌else◌, true, false, not, ◌&&◌, none, some, List, [], ◌∷◌, ◌≡◌, refl, ◌∙◌, arith,
  Bool-cases, Option-cases, inl, inr,
}
use rstorrent.Selection.{Selection, Modifiers, row_of, slice, range_from, click, prune}

abbrev pub toggling : Modifiers
toggling = record { shift = false; toggle = true }

click-toggle :
    (s : Selection) (order : List Text) (h k : Text)
    → contains (click s order h toggling).hashes k
      ≡ (if text_beq h k then not (contains s.hashes h) else contains s.hashes k)
unfolding click
click-toggle s order h k = ground (
  arith,
  contains-remove s.hashes h k,
  contains-insert s.hashes h k,
  text_beq_iff h k,
  text_beq_iff k h,
)

-- Two toggling clicks on a row leave every row as selected as it was.
pub click-click :
    (s : Selection) (order : List Text) (h k : Text)
    → contains (click (click s order h toggling) order h toggling).hashes k ≡ contains s.hashes k
click-click s order h k = ground (
  arith,
  click-toggle (click s order h toggling) order h k,
  click-toggle s order h h,
  click-toggle s order h k,
  text_beq_iff h k,
  text_beq_refl h,
)

-- A row of the list between two others stands in the slice.
contains-take :
    (order : List Text) (i n : ℕ) (h : Text)
    → row_of order h ≡ some i
    → i < n
    → contains (take n order) h ≡ true
contains-take [] i n h e lt = ground arith
contains-take (x ∷ order) i zero h e lt = absurd (omega arith)
contains-take (x ∷ order) i (suc n) h e lt = elim (Bool-cases (text_beq x h)) [
  | inl same ↦ rw same
  | inr other ↦ elim (Option-cases (position (λ y. text_beq y h) order)) [
    | inl out ↦ absurd (ground arith)
    | inr (j, found) ↦ ground (arith, contains-take order j n h)
  ]
]

row_below :
    (x : Text) (order : List Text) (h : Text) (i j lo : ℕ)
    → row_of (x ∷ order) h ≡ some i
    → row_of order h ≡ some j
    → suc lo ≤ i
    → i ≡ suc j
row_below x order h i j lo e found le = ground arith

contains-slice :
    (order : List Text) (lo hi i : ℕ) (h : Text)
    → row_of order h ≡ some i
    → lo ≤ i
    → i ≤ hi
    → contains (slice order lo hi) h ≡ true
unfolding slice
contains-slice order zero hi i h e le ge =
    let whole : suc hi - 0 ≡ suc hi = omega arith in
    rw whole (contains-take order i (suc hi) h e (omega arith))
contains-slice [] (suc lo) hi i h e le ge = ground arith
contains-slice (x ∷ order) (suc lo) zero i h e le ge = absurd (omega arith)
contains-slice (x ∷ order) (suc lo) (suc hi) i h e le ge =
    elim (Option-cases (position (λ y. text_beq y h) order)) [
      | inl out ↦ absurd (ground arith)
      | inr (j, found) ↦
          let shorter : suc (suc hi) - suc lo ≡ suc hi - lo = omega arith in
          let i_is : i ≡ suc j = row_below x order h i j lo e found le in
          rw shorter (contains-slice order lo hi j h found (omega arith) (omega arith))
    ]

-- A shift-click selects every shown row from the anchor to the clicked row, whichever comes first,
-- and keeps the anchor, where both are shown.
pub click-range :
    (s : Selection) (order : List Text) (anchor hash k : Text) (a b i : ℕ)
    → s.anchor ≡ some anchor
    → row_of order anchor ≡ some a
    → row_of order hash ≡ some b
    → row_of order k ≡ some i
    → min a b ≤ i
    → i ≤ max a b
    → (contains (click s order hash (record { shift = true; toggle = false })).hashes k ≡ true)
      × ((click s order hash (record { shift = true; toggle = false })).anchor ≡ some anchor)
unfolding click range_from
click-range s order anchor hash k a b i e p q r le ge = elim (Bool-cases (ltb a b)) [
  | inl forward ↦
      rw (e, click, p, range_from, q, forward)
        (
          contains-extend [] (slice order a b) k
              ∙ contains-slice order a b i k r (ground arith) (ground arith),
          refl,
        )
  | inr backward ↦
      rw (e, click, p, range_from, q, backward)
        (
          contains-extend [] (slice order b a) k
              ∙ contains-slice order b a i k r (ground arith) (ground arith),
          refl,
        )
]

-- After a removal the selection holds exactly the selected rows that still exist, and an anchor
-- only if it still exists.
pub contains-prune :
    (existing : HashSet) (s : Selection) (k : Text)
    → (contains (prune existing s).hashes k ≡ (contains s.hashes k && contains existing k))
      × ((prune existing s).anchor ≡ none
          ⊎ ((anchor : Text) × (s.anchor ≡ some anchor)
              × (contains existing anchor ≡ true)
              × ((prune existing s).anchor ≡ some anchor)))
unfolding prune
contains-prune existing s k = (
  contains-retain (contains existing) s.hashes k,
  elim (Option-cases s.anchor) [
    | inl e ↦ inl (rw e)
    | inr (anchor, e) ↦ elim (Bool-cases (contains existing anchor)) [
      | inl there ↦ inr (anchor, e, there, rw (e, there))
      | inr gone ↦ inl (rw (e, gone))
    ]
  ],
)
