-- ===== src/Reorder.antt =====
-- crates/rtorrent/src/queue.rs: the manual reorder of the queue and the toggle of a forced start.
-- The assignments made so far and the writes planned so far go through the loops together.
mod Tests
pub mod Writes
use rstorrent.Base.{
  ℕ, zero, suc, ◌-◌, ltb, Text, codes, text_beq, text_ltb, ℤ, pos, negsuc, ltb_ℤ, add_i64, sub_i64,
  any, find, length, position, get_elem?, HashSet, contains, extend, lookup, put, sort_by, is_empty,
  unwrap_or, if◌then◌else◌, Bool, true, false, not, ◌&&◌, Option, none, some, List, [], ◌∷◌, ◌++◌,
  map, reverse,
}
use rstorrent.Queue.{order_key, better}
use rstorrent.Torrent.{RawTorrent}

pub data MoveDir : Type 0 where
  top up down bottom : MoveDir

pub record Reorder : Type 0 where
  pub hash : Text
  pub priority : ℤ
  pub pos_value : ℤ

-- `assigned` and `out`.
pub record Emitted : Type 0 where
  pub assigned : List (Text × (ℤ × ℤ))
  pub out : List Reorder

-- The first write for the hash, changed in place.
unfoldable pub rewrite_first : Text → ℤ × ℤ → List Reorder → List Reorder
rewrite_first hash key [] = []
rewrite_first hash key (r ∷ out) =
    let rest = rewrite_first hash key out in
    if text_beq r.hash hash
    then record r { priority = key.0; pos_value = key.1 } ∷ out
    else r ∷ rest

unfoldable pub emit_reorder : Text → ℤ × ℤ → Emitted → Emitted
emit_reorder hash key e = elim (lookup e.assigned hash) [
  | some prev ↦ record { assigned = put e.assigned hash key; out = rewrite_first hash key e.out }
  | none ↦ record {
    assigned = put e.assigned hash key;
    out = e.out ++ record { hash = hash; priority = key.0; pos_value = key.1 } ∷ [];
  }
]

unfoldable pub row_with : List RawTorrent → Text → Option RawTorrent
row_with raw hash = find (λ (t : RawTorrent). text_beq t.hash hash) raw

-- The comparison answers `Less`.
unfoldable pub rank_before : List RawTorrent → Text → Text → Bool
rank_before raw a b = elim (row_with raw a) [
  | none ↦ false
  | some ta ↦ elim (row_with raw b) [
    | none ↦ false
    | some tb ↦
        if better (order_key ta) (order_key tb)
        then true
        else (if better (order_key tb) (order_key ta) then false else text_ltb a b)
  ]
]

unfoldable pub ordered_hashes : List RawTorrent → List Text
ordered_hashes raw = sort_by (rank_before raw) (map (λ (t : RawTorrent). t.hash) raw)

-- `key_of(..).unwrap_or((1, 0))`.
unfoldable pub key_of : List RawTorrent → Emitted → Text → ℤ × ℤ
key_of raw e hash = elim (lookup e.assigned hash) [
  | some key ↦ key
  | none ↦ elim (row_with raw hash) [
    | some t ↦ let k = order_key t in (k.0, k.1)
    | none ↦ (pos 1, pos 0)
  ]
]

-- The exchange of a row with the next one.
unfoldable pub swap_next : ℕ → List Text → List Text
swap_next n [] = []
swap_next n (x ∷ []) = x ∷ []
swap_next zero (x ∷ y ∷ xs) = y ∷ x ∷ xs
swap_next (suc n) (x ∷ y ∷ xs) = x ∷ swap_next n (y ∷ xs)

-- Two torrents exchange their keys.
unfoldable pub exchange : List RawTorrent → Text → Text → Emitted → Emitted
exchange raw hash other e =
    emit_reorder other (key_of raw e hash) (emit_reorder hash (key_of raw e other) e)

-- `position(..).unwrap_or(0)`.
unfoldable pub place : List Text → Text → ℕ
place ordered hash = unwrap_or (position (λ h. text_beq h hash) ordered) 0

-- One round of the loop for `Up`; the row before an existing row exists.
unfoldable pub up_step :
    List RawTorrent → HashSet → Text → List Text × Emitted → List Text × Emitted
up_step raw selected hash (ordered, e) =
    let n = place ordered hash in
    if contains selected hash && ltb 0 n
    then elim (get_elem? ordered (n - 1)) [
      | none ↦ (ordered, e)
      | some pred ↦ (swap_next (n - 1) ordered, exchange raw hash pred e)
    ]
    else (ordered, e)

-- One round of the loop for `Down`.
unfoldable pub down_step :
    List RawTorrent → HashSet → Text → List Text × Emitted → List Text × Emitted
down_step raw selected hash (ordered, e) =
    let n = place ordered hash in
    if contains selected hash && ltb (suc n) (length ordered)
    then elim (get_elem? ordered (suc n)) [
      | none ↦ (ordered, e)
      | some next ↦ (swap_next n ordered, exchange raw hash next e)
    ]
    else (ordered, e)

-- One round of the loop for `Top`, with the floor, and for `Bottom`, with the ceiling.
unfoldable pub top_step : HashSet → Text → ℤ × Emitted → ℤ × Emitted
top_step selected hash (floor, e) =
    if contains selected hash
    then (let floor' = sub_i64 floor (pos 1) in (floor', emit_reorder hash (pos 3, floor') e))
    else (floor, e)

unfoldable pub bottom_step : HashSet → Text → ℤ × Emitted → ℤ × Emitted
bottom_step selected hash (ceil, e) =
    if contains selected hash
    then (let ceil' = add_i64 ceil (pos 1) in (ceil', emit_reorder hash (pos 0, ceil') e))
    else (ceil, e)

-- `for hash in …`.
unfoldable pub each : {S : Type 0} → (Text → S → S) → List Text → S → S
each step [] s = s
each step (hash ∷ hashes) s = each step hashes (step hash s)

-- `min()` and `max()` of the positions, `unwrap_or(0)`.
unfoldable pub extreme : (ℤ → ℤ → Bool) → List ℤ → ℤ
extreme before [] = pos 0
extreme before (x ∷ xs) = each_pos x xs
  where
    each_pos : ℤ → List ℤ → ℤ
    each_pos best [] = best
    each_pos best (y ∷ ys) = each_pos (if before y best then y else best) ys

unfoldable pub positions : List RawTorrent → List ℤ
positions raw = map (λ t. (order_key t).1) raw

unfoldable pub plan_reorder : List RawTorrent → List Text → MoveDir → List Reorder
plan_reorder raw [] dir = []
plan_reorder raw (h ∷ hs) dir =
    let selected = extend [] (h ∷ hs) in
    let ordered = ordered_hashes raw in
    let nothing : Emitted = record { assigned = []; out = [] } in
    elim dir [
      | up ↦ (each (up_step raw selected) ordered (ordered, nothing)).1.out
      | down ↦ (each (down_step raw selected) (reverse ordered) (ordered, nothing)).1.out
      | top ↦ (each (top_step selected) ordered (extreme ltb_ℤ (positions raw), nothing)).1.out
      | bottom ↦
          (each (bottom_step selected) (reverse ordered)
            (extreme (λ y best. ltb_ℤ best y) (positions raw), nothing)).1.out
    ]

unfoldable pub force_toggle_value : List RawTorrent → List Text → Text
force_toggle_value rows hashes =
    if any (λ h. elim (row_with rows h) [ none ↦ true | some t ↦ not t.force_start ]) hashes
    then codes "1"
    else []
