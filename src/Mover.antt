-- ===== src/Mover.antt =====
-- crates/rtorrent/src/mover.rs: which moves a tick plans, and the store of the moves in flight.
-- `lower` is the Unicode `to_lowercase`.

pub mod Plans
pub mod Runs
mod Tests
use rstorrent.Base.{
  ℕ, Text, text_beq, HashSet, contains, insert, extend, put, remove_key, lookup,
  eq_ignore_ascii_case, trim, is_empty, is_none, filter, find, length, nat_beq, ℤ, pos, sub_i64,
  max_ℤ, if◌then◌else◌, Bool, true, false, not, ◌&&◌, ◌||◌, Option, none, some, List, [], ◌∷◌, map,
}
use rstorrent.Complete.Journal.{
  MoveState, pending, in_progress, finished, failed, cancelled, MoveOp, Journal, resumable,
  prune_done,
}
use rstorrent.Complete.{MoveRule, MovePlan, completion_destination, plan_move}
use rstorrent.Torrent.{RawTorrent}

pub record MoveIntent : Type 0 where
  pub hash : Text
  pub name : Text
  pub src_base : Text
  pub dst_dir : Text
  pub size_bytes : ℤ
  pub remaining : ℤ
  pub was_active : Bool

module _ (lower : Text → Text) (move_rules : List MoveRule) (label_paths : List (Text × Text)) where
  -- The closure of `filter_map`.
  unfoldable pub intent_of : RawTorrent → Option MoveIntent
  intent_of t =
      let default = if is_empty (trim t.final_dir) then [] else t.final_dir in
      let dest = completion_destination lower t.label t.tags move_rules label_paths default in
      if is_empty dest then none else elim (plan_move t.directory dest t.name) [
        | none ↦ none
        | some plan ↦ some (record {
          hash = t.hash;
          name = t.name;
          src_base = t.base_path;
          dst_dir = dest;
          size_bytes = t.size_bytes;
          remaining = max_ℤ (sub_i64 t.size_bytes t.bytes_done) (pos 0);
          was_active = t.is_active;
        })
      ]

  abbrev pub settled : RawTorrent → Bool
  settled t =
      t.complete
      && (not t.hashing && (not (is_empty (trim t.base_path)) && not (is_empty (trim t.name))))

  -- The chain of iterators, with the set of hashes seen so far.
  unfoldable pub decide_from : HashSet → HashSet → HashSet → List RawTorrent → List MoveIntent
  decide_from skip busy seen [] = []
  decide_from skip busy seen (t ∷ raw) =
      let later = decide_from skip busy (insert seen t.hash) raw in
      let unseen = decide_from skip busy seen raw in
      if settled t && not (contains seen t.hash)
      then (if not (contains skip t.hash) && not (contains busy t.hash)
          then elim (intent_of t) [ none ↦ later | some intent ↦ intent ∷ later ]
          else later)
      else unseen

  unfoldable pub decide_moves : List RawTorrent → HashSet → HashSet → List MoveIntent
  decide_moves raw skip busy = decide_from skip busy [] raw

  unfoldable pub is_homed : RawTorrent → Bool
  is_homed t =
      t.complete
      && (not t.hashing
          && (not (is_empty (trim t.final_dir))
              && (not (is_empty (trim t.directory))
                  && is_none (
                      plan_move t.directory
                        (completion_destination lower t.label t.tags move_rules label_paths
                          t.final_dir)
                        t.name))))

  unfoldable pub homed_hashes : List RawTorrent → List Text
  homed_hashes raw = map (λ (t : RawTorrent). t.hash) (filter is_homed raw)

pub record ActiveMove : Type 0 where
  pub op_id : Text
  pub hash : Text
  pub cancel : Bool
  pub done : ℕ
  pub total : ℕ

pub record MoveStore : Type 0 where
  pub journal : Journal
  pub active : List (Text × ActiveMove)

unfoldable pub busy_hashes : MoveStore → HashSet
busy_hashes s =
    extend (extend [] (map (λ (a : Text × ActiveMove). a.1.hash) s.active))
      (map (λ (op : MoveOp). op.hash) (resumable s.journal))

unfoldable pub register : ActiveMove → MoveStore → MoveStore
register a s = record s { active = put s.active a.op_id a }

unfoldable pub unregister : Text → MoveStore → MoveStore
unregister op_id s = record s { active = remove_key s.active op_id }

unfoldable pub unregister_hash : Text → MoveStore → MoveStore
unregister_hash hash s = record s { active = filter (λ a. not (text_beq a.1.hash hash)) s.active }

-- `Failed | Cancelled`, and `InProgress | Done`.
abbrev pub ended : MoveState → Bool
ended failed = true
ended cancelled = true
ended _ = false

abbrev pub survives : MoveState → Bool
survives in_progress = true
survives finished = true
survives _ = false

unfoldable pub retry : Text → MoveStore → MoveStore × Bool
retry hash s =
    let ops = filter (λ op. not (eq_ignore_ascii_case op.hash hash && ended op.state)) s.journal in
    (record s { journal = ops }, not (nat_beq (length ops) (length s.journal)))

unfoldable pub prune_unknown : HashSet → MoveStore → MoveStore
prune_unknown live s = record s {
  journal = filter (λ op. survives op.state || contains live op.hash) s.journal;
}
