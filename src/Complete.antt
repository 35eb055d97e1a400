-- ===== src/Complete.antt =====
-- crates/rtorrent/src/complete.rs: where the data of a completed torrent belongs, names that are
-- taken, free space, and the journal of moves. The Unicode `to_lowercase` is the parameter `lower`.
pub mod Collision
pub mod Journal
use rstorrent.Base.{
  ℕ, zero, suc, ◌+◌, ◌-◌, ◌/◌, ◌%◌, leb, ltb, nat_beq, Text, codes, text_beq, trim,
  trim_end_slashes, is_empty, eq_ignore_ascii_case, any, all, find, length, drop, take, ℤ, pos,
  leb_ℤ, if◌then◌else◌, Bool, true, false, not, ◌&&◌, ◌||◌, Option, none, some, List, [], ◌∷◌, ◌++◌,
  map, is_none,
}

pub record MoveRule : Type 0 where
  pub tag : Option Text
  pub label : Option Text
  pub destination : Text

-- `as_deref().map(str::trim).filter(|t| !t.is_empty())`.
unfoldable pub trimmed : Option Text → Option Text
trimmed none = none
trimmed (some s) = if is_empty (trim s) then none else some (trim s)

module _ (lower : Text → Text) where
  unfoldable pub tag_rule : Text → Text → MoveRule
  tag_rule tag destination = record {
    tag = some (lower (trim tag));
    label = none;
    destination = trim destination;
  }

  unfoldable pub label_rule : Text → Text → MoveRule
  label_rule label destination = record {
    tag = none;
    label = some (lower (trim label));
    destination = trim destination;
  }

  unfoldable pub tag_matches : List Text → MoveRule → Bool
  tag_matches tags rule = elim (trimmed rule.tag) [
    | none ↦ false
    | some tag ↦ any (λ t. text_beq (lower t) (lower tag)) tags && not (is_empty rule.destination)
  ]

  unfoldable pub label_matches : Text → MoveRule → Bool
  label_matches key rule = is_none rule.tag && elim rule.label [
    | none ↦ false
    | some label ↦ text_beq (lower (trim label)) key && not (is_empty rule.destination)
  ]

  unfoldable pub resolve_destination : Text → List Text → List MoveRule → Text → Text
  resolve_destination label tags rules default_dir = elim (find (tag_matches tags) rules) [
    | some rule ↦ rule.destination
    | none ↦
        let key = lower (trim label) in
        if is_empty key then default_dir else elim (find (label_matches key) rules) [
          | some rule ↦ rule.destination
          | none ↦ default_dir
        ]
  ]

  unfoldable pub label_path_rules : List (Text × Text) → List MoveRule
  label_path_rules [] = []
  label_path_rules ((label, path) ∷ paths) =
      if not (is_empty (trim label)) && not (is_empty (trim path))
      then label_rule label path ∷ label_path_rules paths
      else label_path_rules paths

  unfoldable pub completion_destination :
      Text → List Text → List MoveRule → List (Text × Text) → Text → Text
  completion_destination label tags move_rules label_paths default_dir =
      resolve_destination label tags (move_rules ++ label_path_rules label_paths) default_dir

unfoldable pub route_new_download : Text → Text → Text × Option Text
route_new_download incomplete_dir chosen_dir =
    let incomplete = trim incomplete_dir in
    let chosen = trim chosen_dir in
    if is_empty incomplete || is_empty chosen
    then (chosen, none)
    else (if eq_ignore_ascii_case incomplete (trim_end_slashes chosen)
          || eq_ignore_ascii_case (trim_end_slashes incomplete) chosen
        then (chosen, none)
        else (incomplete, some chosen))

pub record MovePlan : Type 0 where
  pub src : Text
  pub dst : Text

unfoldable pub plan_move : Text → Text → Text → Option MovePlan
plan_move current_dir destination name =
    let current = trim_end_slashes (trim current_dir) in
    let dest = trim_end_slashes (trim destination) in
    let name' = trim name in
    if is_empty dest || is_empty name' || eq_ignore_ascii_case current dest
    then none
    else (if is_empty current
        then none
        else some
            (record { src = current ++ codes "/" ++ name'; dst = dest ++ codes "/" ++ name' }))

pub data CollisionPolicy : Type 0 where
  error auto_rename : CollisionPolicy

pub data Resolved : Type 0 where
  ok : Text → Resolved
  taken : Text → Resolved

-- `n.to_string()`, for n below 1000.
unfoldable pub decimal : ℕ → Text
decimal n =
    if ltb n 10
    then (b'0' + n) ∷ []
    else (if ltb n 100
        then (b'0' + n / 10) ∷ (b'0' + n % 10) ∷ []
        else (b'0' + n / 100) ∷ (b'0' + n / 10 % 10) ∷ (b'0' + n % 10) ∷ [])

abbrev pub is_ascii_alphabetic : ℕ → Bool
is_ascii_alphabetic c = (leb b'a' c && leb c b'z') || (leb b'A' c && leb c b'Z')

-- `rfind('.')`.
unfoldable pub rfind_dot : Text → Option ℕ
rfind_dot [] = none
rfind_dot (c ∷ s) = elim (rfind_dot s) [
  | some i ↦ some (suc i)
  | none ↦ if nat_beq c b'.' then some 0 else none
]

unfoldable pub split_ext : Text → Text × Text
split_ext name = elim (rfind_dot name) [
  | none ↦ (name, [])
  | some idx ↦
      let ext = drop (suc idx) name in
      if ltb 0 idx && (leb 2 (length ext) && leb (length ext) 5 && all is_ascii_alphabetic ext)
      then (take idx name, ext)
      else (name, [])
]

unfoldable pub numbered : Text → ℕ → Text
numbered name n =
    let (stem, ext) = split_ext name in
    if is_empty ext
    then stem ++ codes " (" ++ decimal n ++ codes ")"
    else stem ++ codes " (" ++ decimal n ++ codes ")." ++ ext

module _ (lower : Text → Text) (siblings_lower : List Text) (dir name : Text) where
  abbrev pub is_free : Text → Bool
  is_free candidate = not (any (λ s. text_beq s (lower candidate)) siblings_lower)

  -- `for n in 1..1000`, with the rounds left.
  unfoldable pub first_free : ℕ → ℕ → Resolved
  first_free n zero = taken (dir ++ codes "/" ++ name)
  first_free n (suc left) =
      let rest = first_free (suc n) left in
      if is_free (numbered name n) then ok (dir ++ codes "/" ++ numbered name n) else rest

unfoldable pub resolve_collision :
    (lower : Text → Text) → Text → Text → List Text → CollisionPolicy → Resolved
resolve_collision lower dst_dir name siblings_lower policy =
    let dir = trim_end_slashes (trim dst_dir) in
    let name' = trim name in
    if is_free lower siblings_lower dir name' name'
    then ok (dir ++ codes "/" ++ name')
    else elim policy [
      | error ↦ taken (dir ++ codes "/" ++ name')
      | auto_rename ↦ first_free lower siblings_lower dir name' 1 999
    ]

pub data Preflight : Type 0 where
  ready unknown : Preflight
  blocked_no_space : (required free : ℤ) → Preflight

unfoldable pub preflight : ℤ → Option ℤ → Preflight
preflight remaining none = if leb_ℤ remaining (pos 0) then ready else unknown
preflight remaining (some free) =
    if leb_ℤ remaining (pos 0)
    then ready
    else (if leb_ℤ remaining free then ready else blocked_no_space remaining free)
