-- ===== src/Delta.antt =====
-- crates/rtorrent/src/delta.rs: the difference of two snapshots, and what a client makes of it.
pub mod Follow
pub mod Loops
pub mod RoundTrip
pub mod Rows
pub mod Tables
mod Tests
use rstorrent.Base.{
  ℕ, ◌+◌, nat_beq, ltb, Text, text_beq, text_ltb, ℤ, beq_ℤ, HashSet, contains, extend, lookup, put,
  sort_by, filter, length, is_some, is_none, unwrap_or, if◌then◌else◌, Bool, true, false, not, ◌&&◌,
  Option, none, some, List, [], ◌∷◌, ◌++◌, map,
}
use rstorrent.Types.{
  Floats, TorrentDto, Snapshot, SnapshotDelta, Status, downloading, seeding, completed, paused,
  stalled, checking, error,
}

abbrev pub status_beq : Status → Status → Bool
status_beq downloading downloading = true
status_beq seeding seeding = true
status_beq completed completed = true
status_beq paused paused = true
status_beq stalled stalled = true
status_beq checking checking = true
status_beq error error = true
status_beq _ _ = false

abbrev pub bool_beq : Bool → Bool → Bool
bool_beq true b = b
bool_beq false b = not b

abbrev pub limit_beq : Option ℤ → Option ℤ → Bool
limit_beq none none = true
limit_beq (some a) (some b) = beq_ℤ a b
limit_beq _ _ = false

abbrev pub texts_beq : List Text → List Text → Bool
texts_beq [] [] = true
texts_beq (a ∷ s) (b ∷ t) = text_beq a b && texts_beq s t
texts_beq _ _ = false

-- What `apply` comes to: `None`, the panic of `Vec::with_capacity` on a capacity that wrapped
-- around below 0, or a snapshot.
pub data Applied (F : Type 0) : Type 0 where
  stale : Applied F
  overflow : Applied F
  applied : Snapshot F → Applied F

module _ (fl : Floats) where
  abbrev pub Row : Type 0
  Row = TorrentDto fl.F

  unfoldable pub same_torrent : Row → Row → Bool
  same_torrent a b =
      beq_ℤ a.bytes_done b.bytes_done
      && fl.eq a.percent b.percent
      && status_beq a.status b.status
      && text_beq a.status_msg b.status_msg
      && text_beq a.error_kind b.error_kind
      && beq_ℤ a.down_rate b.down_rate
      && beq_ℤ a.up_rate b.up_rate
      && beq_ℤ a.seeds_connected b.seeds_connected
      && beq_ℤ a.peers_connected b.peers_connected
      && beq_ℤ a.seeds_swarm b.seeds_swarm
      && beq_ℤ a.peers_swarm b.peers_swarm
      && limit_beq a.eta_seconds b.eta_seconds
      && fl.lt (fl.abs (fl.sub a.ratio b.ratio)) fl.epsilon
      && text_beq a.label b.label
      && texts_beq a.tags b.tags
      && bool_beq a.force_start b.force_start
      && text_beq a.throttle_rule b.throttle_rule
      && text_beq a.tracker_host b.tracker_host
      && beq_ℤ a.priority b.priority
      && text_beq a.name b.name
      && text_beq a.throttle_name b.throttle_name
      && limit_beq a.down_rate_limit b.down_rate_limit
      && limit_beq a.up_rate_limit b.up_rate_limit
      && beq_ℤ a.started_at b.started_at
      && beq_ℤ a.finished_at b.finished_at
      && texts_beq a.views b.views
      && text_beq a.save_path b.save_path
      && bool_beq a.is_private b.is_private

  abbrev pub hash_of : Row → Text
  hash_of t = t.hash

  -- `iter().map(|t| (t.hash, t)).collect::<HashMap<_, _>>()`, with the entries so far.
  unfoldable pub table_from : List (Text × Row) → List Row → List (Text × Row)
  table_from m [] = m
  table_from m (t ∷ rows) = table_from (put m t.hash t) rows

  unfoldable pub table : List Row → List (Text × Row)
  table rows = table_from [] rows

  unfoldable pub hash_set : List Row → HashSet
  hash_set rows = extend [] (map hash_of rows)

  -- The loop over the hashes that only `next` has.
  unfoldable pub rows_at : List (Text × Row) → List Text → List Row
  rows_at m [] = []
  rows_at m (h ∷ hs) = elim (lookup m h) [ none ↦ rows_at m hs | some t ↦ t ∷ rows_at m hs ]

  -- The loop over the hashes that both have: each is in both maps.
  unfoldable pub changed_at : List (Text × Row) → List (Text × Row) → List Text → List Row
  changed_at pm nm [] = []
  changed_at pm nm (h ∷ hs) =
      let rest = changed_at pm nm hs in
      elim (lookup pm h) [
        | none ↦ rest
        | some a ↦ elim (lookup nm h) [
          | none ↦ rest
          | some b ↦ if not (same_torrent a b) then b ∷ rest else rest
        ]
      ]

  abbrev pub by_hash : Row → Row → Bool
  by_hash a b = text_ltb a.hash b.hash

  unfoldable pub diff : Snapshot fl.F → Snapshot fl.F → SnapshotDelta fl.F
  diff prev next =
      let pm = table prev.torrents in
      let nm = table next.torrents in
      let ph = hash_set prev.torrents in
      let nh = hash_set next.torrents in
      record {
        revision = next.revision;
        base_revision = prev.revision;
        added = sort_by by_hash (rows_at nm (filter (λ h. not (contains ph h)) nh));
        updated = sort_by by_hash (changed_at pm nm (filter (contains nh) ph));
        removed = sort_by text_ltb (filter (λ h. not (contains nh h)) ph);
        globals = next.globals;
        connection = next.connection;
      }

  -- The loop over the snapshot's rows.
  unfoldable pub carry_over : HashSet → List (Text × Row) → List Row → List Row
  carry_over removed updated [] = []
  carry_over removed updated (t ∷ rows) =
      let rest = carry_over removed updated rows in
      if contains removed t.hash then rest else unwrap_or (lookup updated t.hash) t ∷ rest

  unfoldable pub apply : Snapshot fl.F → SnapshotDelta fl.F → Applied fl.F
  apply snapshot delta =
      let removed = extend [] delta.removed in
      if not (nat_beq delta.base_revision snapshot.revision)
      then stale
      else (if ltb (length snapshot.torrents + length delta.added) (length removed)
          then overflow
          else applied (record {
            revision = delta.revision;
            torrents =
                sort_by by_hash
                  (carry_over removed (table delta.updated) snapshot.torrents ++ delta.added);
            globals = delta.globals;
            connection = delta.connection;
          }))
