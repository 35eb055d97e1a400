-- ===== src/Queue.antt =====
-- crates/rtorrent/src/queue.rs: the queue policy, one decision per successful poll. The theorems
-- are in the children.
pub mod Edges
pub mod Memory
pub mod Verdict
pub mod Intent
pub mod Caps
pub mod Settle
mod Tests
use rstorrent.Base.{
  ℕ, suc, ◌+◌, Text, text_beq, HashSet, contains, insert, remove, retain, extend, lookup, put,
  retain_keys, sort_by, length, take, filter, is_empty, unwrap_or, ℤ, pos, pos_part, neg_part,
  ltb_ℤ, leb_ℤ, beq_ℤ, ltb, i64_max, add_i64, saturating_mul, if◌then◌else◌, Bool, true, false, not,
  ◌&&◌, ◌||◌, Option, none, some, List, [], ◌∷◌, ◌++◌, map,
}
use mathlib.Core.List.{reverse}
use rstorrent.Torrent.{RawTorrent}

pub record QueueConfig : Type 0 where
  pub max_downloads : ℤ
  pub max_uploads : ℤ
  pub max_total : ℤ
  pub slow_limit_kbs : ℤ

unfoldable pub configured : QueueConfig → Bool
configured cfg =
    ltb_ℤ (pos 0) cfg.max_downloads || ltb_ℤ (pos 0) cfg.max_uploads || ltb_ℤ (pos 0) cfg.max_total

pub record QueueMemory : Type 0 where
  pub prev_active : List (Text × Bool)
  pub user_exempt : HashSet
  pub user_paused : HashSet

-- The memory starts empty, and `reset` empties it again.
unfoldable pub reset : QueueMemory → QueueMemory
reset mem = record { prev_active = []; user_exempt = []; user_paused = [] }

unfoldable pub set_scheduler_held : QueueMemory → Text → Bool → QueueMemory
set_scheduler_held mem hash held =
    if held
    then record mem { user_paused = insert mem.user_paused hash }
    else record mem { user_paused = remove mem.user_paused hash }

pub record QueueActions : Type 0 where
  pub start : List Text
  pub stop : List Text

unfoldable pub started_key : RawTorrent → ℤ
started_key t = if beq_ℤ t.started_at (pos 0) then pos i64_max else t.started_at

unfoldable pub order_key : RawTorrent → ℤ × ℤ × ℤ
order_key t = (t.priority, unwrap_or t.queue_pos (pos 0), started_key t)

unfoldable pub better : ℤ × ℤ × ℤ → ℤ × ℤ × ℤ → Bool
better a b =
    if not (beq_ℤ a.0 b.0)
    then ltb_ℤ b.0 a.0
    else (if not (beq_ℤ a.1 b.1) then ltb_ℤ a.1 b.1 else ltb_ℤ a.2 b.2)

unfoldable pub healthy : RawTorrent → Bool
healthy t = not t.hashing && is_empty t.message

unfoldable pub is_slow : RawTorrent → ℤ → Bool
is_slow t slow_limit_kbs =
    ltb_ℤ (pos 0) slow_limit_kbs
    && ltb_ℤ (add_i64 t.down_rate t.up_rate) (saturating_mul slow_limit_kbs (pos 1024))

-- The test under which each loop of `decide_queues` says `continue`.
unfoldable pub outside : QueueConfig → RawTorrent → Bool
outside cfg t = not (healthy t) || t.force_start || is_slow t cfg.slow_limit_kbs

-- The comparison of the two class sorts answers `Less`.
unfoldable pub rank_less : RawTorrent → RawTorrent → Bool
rank_less a b = better (order_key a) (order_key b)

unfoldable pub downloads : QueueConfig → List RawTorrent → List RawTorrent
downloads cfg raw = sort_by rank_less (filter (λ t. not (outside cfg t) && not t.complete) raw)

unfoldable pub uploads : QueueConfig → List RawTorrent → List RawTorrent
uploads cfg raw = sort_by rank_less (filter (λ t. not (outside cfg t) && t.complete) raw)

-- The slice of a class that its cap leaves.
unfoldable pub window : List RawTorrent → ℤ → List RawTorrent
window list cap = if leb_ℤ cap (pos 0) then list else take (pos_part cap) list

abbrev pub hashes : List RawTorrent → List Text
hashes = map (λ t. t.hash)

-- The comparison of the trim by the total cap answers `Less`: the best priority, then the
-- sequence, then the start time, then downloads before uploads.
unfoldable pub total_less : RawTorrent → RawTorrent → Bool
total_less a b =
    let ka = order_key a in
    let kb = order_key b in
    if not (beq_ℤ ka.0 kb.0)
    then ltb_ℤ kb.0 ka.0
    else (if not (beq_ℤ ka.1 kb.1)
        then ltb_ℤ ka.1 kb.1
        else (if not (beq_ℤ ka.2 kb.2) then ltb_ℤ ka.2 kb.2 else (not a.complete && b.complete)))

-- The windows of both classes together, before the total cap.
unfoldable pub class_want : QueueConfig → List RawTorrent → HashSet
class_want cfg raw =
    extend (extend [] (hashes (window (downloads cfg raw) cfg.max_downloads)))
      (hashes (window (uploads cfg raw) cfg.max_uploads))

unfoldable pub trim_total : QueueConfig → List RawTorrent → HashSet → HashSet
trim_total cfg raw want =
    if ltb_ℤ (pos 0) cfg.max_total && ltb (pos_part cfg.max_total) (length want)
    then extend [] (
        hashes (
          take (pos_part cfg.max_total)
            (sort_by total_less (filter (λ t. contains want t.hash) raw))))
    else want

unfoldable pub wanted : QueueConfig → List RawTorrent → HashSet
wanted cfg raw = trim_total cfg raw (class_want cfg raw)

-- The first three `retain` calls: forget what the daemon no longer has.
unfoldable pub prune : List RawTorrent → QueueMemory → QueueMemory
prune raw mem =
    let live = hashes raw in
    record {
      prev_active = retain_keys (contains live) mem.prev_active;
      user_exempt = retain (contains live) mem.user_exempt;
      user_paused = retain (contains live) mem.user_paused;
    }

-- `prev == Some(state)`.
abbrev pub was : Option Bool → Bool → Bool
was none state = false
was (some b) state = if state then b else not b

-- One round of the loop that reads manual resumes and pauses off the edges.
unfoldable pub note_edge : HashSet → RawTorrent → QueueMemory → QueueMemory
note_edge want t mem =
    let prev = lookup mem.prev_active t.hash in
    let is_wanted = contains want t.hash in
    let mem' : QueueMemory =
      if t.is_active && was prev false
      then (if is_wanted
          then record mem { user_paused = remove mem.user_paused t.hash }
          else record mem { user_exempt = insert mem.user_exempt t.hash })
      else (if not t.is_active && (was prev true && is_wanted)
          then record mem { user_paused = insert mem.user_paused t.hash }
          else mem) in
    if is_wanted then record mem' { user_exempt = remove mem'.user_exempt t.hash } else mem'

unfoldable pub note_edges : HashSet → List RawTorrent → QueueMemory → QueueMemory
note_edges want [] mem = mem
note_edges want (t ∷ raw) mem = note_edges want raw (note_edge want t mem)

unfoldable pub record_active : List RawTorrent → List (Text × Bool) → List (Text × Bool)
record_active [] m = m
record_active (t ∷ raw) m = record_active raw (put m t.hash t.is_active)

-- Everything that a tick does to the memory.
unfoldable pub remember : QueueConfig → List RawTorrent → QueueMemory → QueueMemory
remember cfg raw mem =
    let noted = note_edges (wanted cfg raw) raw (prune raw mem) in
    record noted { prev_active = record_active raw noted.prev_active }

-- The tests of the two verdict loops.
unfoldable pub starts : QueueConfig → HashSet → HashSet → QueueMemory → RawTorrent → Bool
starts cfg skip want mem t =
    not (contains skip t.hash || outside cfg t)
    && (contains want t.hash && not t.is_active && not (contains mem.user_paused t.hash))

unfoldable pub stops : QueueConfig → HashSet → HashSet → QueueMemory → RawTorrent → Bool
stops cfg skip want mem t =
    not (contains skip t.hash || outside cfg t)
    && (not (contains want t.hash) && t.is_active && not (contains mem.user_exempt t.hash))

unfoldable pub verdict : QueueConfig → List RawTorrent → HashSet → QueueMemory → QueueActions
verdict cfg raw skip mem =
    let want = wanted cfg raw in
    record {
      start = hashes (filter (starts cfg skip want mem) (downloads cfg raw ++ uploads cfg raw));
      stop = hashes (
          filter (stops cfg skip want mem)
            (reverse (uploads cfg raw) ++ reverse (downloads cfg raw)));
    }

-- A disabled configuration does nothing, and leaves the memory alone.
unfoldable pub decide_queues :
    List RawTorrent → QueueConfig → QueueMemory → HashSet → QueueActions × QueueMemory
decide_queues raw cfg mem skip =
    if not (configured cfg)
    then (record { start = []; stop = [] }, mem)
    else (let mem' = remember cfg raw mem in (verdict cfg raw skip mem', mem'))

-- Everything that a run of a tick unfolds.
unfoldable pub queue_program : Unit {0}
unfolding configured set_scheduler_held started_key order_key better healthy is_slow outside
    rank_less downloads uploads window total_less class_want trim_total wanted prune note_edge
    note_edges record_active remember starts stops verdict decide_queues insert remove retain extend
    put retain_keys sort_by text_beq add_i64 saturating_mul
queue_program = tt
