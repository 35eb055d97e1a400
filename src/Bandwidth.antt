-- ===== src/Bandwidth.antt =====
-- crates/rtorrent/src/bandwidth.rs: rate profiles by label and tag, where a limit comes from, and
-- what a tick adopts and releases. The Unicode `to_lowercase` is the parameter `lower`.
pub mod Plan
pub mod Settle
mod Tests
use rstorrent.Base.{
  ℕ, Text, codes, text_beq, trim, is_empty, any, find, filter, take, leb, nat_beq, ℤ, pos, beq_ℤ,
  HashSet, contains, insert, remove, put, if◌then◌else◌, Bool, true, false, not, ◌&&◌, ◌||◌, Option,
  none, some, is_some, List, [], ◌∷◌, ◌++◌, map,
}
use rstorrent.Complete.{trimmed}
use rstorrent.Torrent.{RawTorrent}

pub record BandwidthRule : Type 0 where
  pub id : Text
  pub tag : Option Text
  pub label : Option Text
  pub down_kb : ℤ
  pub up_kb : ℤ
  pub peers_max : ℤ
  pub peers_min : ℤ
  pub uploads_max : ℤ

-- `c.is_ascii_alphanumeric() || c == '_' || c == '-'`, and the underscore for the rest.
unfoldable pub sanitise : ℕ → ℕ
sanitise c =
    if (leb 48 c && leb c 57)
      || (leb 65 c && leb c 90)
      || (leb 97 c && leb c 122)
      || nat_beq c 95
      || nat_beq c 45
    then c
    else 95

-- The descriptor; a label that is only white space counts as none, as a tag does.
unfoldable pub describe : BandwidthRule → Text
describe rule = elim (trimmed rule.tag) [
  | some tag ↦ codes "tag \"" ++ tag ++ codes "\""
  | none ↦ elim (trimmed rule.label) [
    | some label ↦ codes "label \"" ++ label ++ codes "\""
    | none ↦ codes "untargeted"
  ]
]

pub data LimitSource : Type 0 where
  manual : LimitSource
  by_rule : Text → LimitSource
  turtle : LimitSource
  global : LimitSource

unfoldable pub source_word : LimitSource → Text
source_word manual = codes "torrent override"
source_word (by_rule desc) = codes "rule " ++ desc
source_word turtle = codes "turtle"
source_word global = codes "global"

unfoldable pub limit_source : Text → Text → Bool → Option BandwidthRule → Bool → LimitSource
limit_source throttle marker has_own_limit rule turtle_active =
    if is_empty (trim marker) && (has_own_limit || not (is_empty (trim throttle)))
    then manual
    else elim rule [
      | some r ↦ by_rule (describe r)
      | none ↦ if turtle_active then turtle else global
    ]

pub data BandwidthAction : Type 0 where
  adopt : Text → BandwidthRule → BandwidthAction
  release : Text → BandwidthAction

pub record BandwidthState : Type 0 where
  pub defined : HashSet
  pub warned : HashSet

unfoldable pub forget : BandwidthState → BandwidthState
forget s = record { defined = []; warned = [] }

unfoldable pub needs_define : Text → BandwidthState → BandwidthState × Bool
needs_define throttle s =
    (record s { defined = insert s.defined throttle }, not (contains s.defined throttle))

unfoldable pub should_warn : Text → BandwidthState → BandwidthState × Bool
should_warn rule_id s =
    (record s { warned = insert s.warned rule_id }, not (contains s.warned rule_id))

unfoldable pub clear_warned : Text → BandwidthState → BandwidthState
clear_warned rule_id s = record s { warned = remove s.warned rule_id }

unfoldable pub caps_default : RawTorrent → Bool
caps_default t =
    beq_ℤ t.peers_max (pos 0) && beq_ℤ t.peers_min (pos 0) && beq_ℤ t.uploads_max (pos 0)

unfoldable pub option_beq : Option Text → Option Text → Bool
option_beq none none = true
option_beq none (some b) = false
option_beq (some a) none = false
option_beq (some a) (some b) = text_beq a b

-- Another profile under the same id.
unfoldable pub differs : BandwidthRule → BandwidthRule → Bool
differs o n =
    not (beq_ℤ o.down_kb n.down_kb)
    || not (beq_ℤ o.up_kb n.up_kb)
    || not (beq_ℤ o.peers_max n.peers_max)
    || not (beq_ℤ o.peers_min n.peers_min)
    || not (beq_ℤ o.uploads_max n.uploads_max)
    || not (option_beq o.tag n.tag)
    || not (option_beq o.label n.label)

unfoldable pub is_changed : List BandwidthRule → BandwidthRule → Bool
is_changed old n =
    not (is_empty (trim n.id)) && elim (find (λ (o : BandwidthRule). text_beq o.id n.id) old) [
      | none ↦ false
      | some o ↦ differs o n
    ]

unfoldable pub changed_rule_ids : List BandwidthRule → List BandwidthRule → List Text
changed_rule_ids old new = map (λ (n : BandwidthRule). n.id) (filter (is_changed old) new)

module _ (lower : Text → Text) where
  unfoldable pub bandwidth_tag_rule : Text → Text → ℤ → ℤ → BandwidthRule
  bandwidth_tag_rule id tag down_kb up_kb = record {
    id = trim id;
    tag = some (lower (trim tag));
    label = none;
    down_kb = down_kb;
    up_kb = up_kb;
    peers_max = pos 0;
    peers_min = pos 0;
    uploads_max = pos 0;
  }

  unfoldable pub bandwidth_label_rule : Text → Text → ℤ → ℤ → BandwidthRule
  bandwidth_label_rule id label down_kb up_kb = record {
    id = trim id;
    tag = none;
    label = some (lower (trim label));
    down_kb = down_kb;
    up_kb = up_kb;
    peers_max = pos 0;
    peers_min = pos 0;
    uploads_max = pos 0;
  }

  -- The sanitised id is ASCII, so that `truncate(32)` cuts between characters.
  unfoldable pub throttle_name : BandwidthRule → Text
  throttle_name rule =
      let sanitised = map sanitise (lower (trim rule.id)) in
      codes "rule_" ++ take 32 (if is_empty sanitised then codes "rule" else sanitised)

  unfoldable pub tag_fires : List Text → BandwidthRule → Bool
  tag_fires tags rule = not (is_empty (trim rule.id)) && elim (trimmed rule.tag) [
    | none ↦ false
    | some tag ↦ any (λ t. text_beq (lower t) (lower tag)) tags
  ]

  unfoldable pub label_fires : Text → BandwidthRule → Bool
  label_fires key rule =
      not (is_empty (trim rule.id) || is_some rule.tag)
      && elim rule.label [ none ↦ false | some label ↦ text_beq (lower (trim label)) key ]

  unfoldable pub rule_for : Text → List Text → List BandwidthRule → Option BandwidthRule
  rule_for label tags rules = elim (find (tag_fires tags) rules) [
    | some rule ↦ some rule
    | none ↦
        let key = lower (trim label) in if is_empty key then none else find (label_fires key) rules
  ]

  -- The match of the loop's body.
  unfoldable pub action_for : List BandwidthRule → RawTorrent → Option BandwidthAction
  action_for rules t =
      let marker = trim t.throttle_rule in
      elim (rule_for t.label t.tags rules) [
        | some rule ↦
            if not (text_beq marker rule.id)
            then (if is_empty marker && is_empty (trim t.throttle_name) && caps_default t
                then some (adopt t.hash rule)
                else (if not (is_empty marker) then some (adopt t.hash rule) else none))
            else none
        | none ↦ if not (is_empty marker) then some (release t.hash) else none
      ]

  -- The loop, with the set of hashes seen so far.
  unfoldable pub plan_from : List BandwidthRule → HashSet → List RawTorrent → List BandwidthAction
  plan_from rules seen [] = []
  plan_from rules seen (t ∷ raw) =
      let rest = plan_from rules (insert seen t.hash) raw in
      if contains seen t.hash
      then rest
      else elim (action_for rules t) [ none ↦ rest | some action ↦ action ∷ rest ]

  unfoldable pub plan_bandwidth : List RawTorrent → List BandwidthRule → List BandwidthAction
  plan_bandwidth raw rules = plan_from rules [] raw

  unfoldable pub rule_throttles_from :
      List (Text × (ℤ × ℤ)) → List BandwidthRule → List (Text × (ℤ × ℤ))
  rule_throttles_from found [] = found
  rule_throttles_from found (rule ∷ rules) =
      if is_empty (trim rule.id)
      then rule_throttles_from found rules
      else rule_throttles_from (put found (throttle_name rule) (rule.down_kb, rule.up_kb)) rules

  unfoldable pub rule_throttles : List BandwidthRule → List (Text × (ℤ × ℤ))
  rule_throttles rules = rule_throttles_from [] rules

  -- What the host makes of an action (policy.rs), each call to the daemon succeeding: the row that
  -- the daemon reports for the torrent afterwards.
  unfoldable pub carry_out : BandwidthAction → RawTorrent → RawTorrent
  carry_out (adopt hash rule) t =
      if text_beq t.hash hash
      then record t {
        throttle_name = throttle_name rule;
        peers_max = rule.peers_max;
        peers_min = rule.peers_min;
        uploads_max = rule.uploads_max;
        throttle_rule = rule.id;
      }
      else t
  carry_out (release hash) t =
      if text_beq t.hash hash
      then record t {
        throttle_name = [];
        peers_max = pos 0;
        peers_min = pos 0;
        uploads_max = pos 0;
        throttle_rule = [];
      }
      else t

  -- One torrent through the actions of a tick, in their order.
  unfoldable pub carry_row : List BandwidthAction → RawTorrent → RawTorrent
  carry_row [] t = t
  carry_row (action ∷ actions) t = carry_row actions (carry_out action t)
