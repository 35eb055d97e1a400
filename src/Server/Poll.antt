-- ===== src/Server/Poll.antt =====
-- server/src/poller.rs: one poll of the daemon, and what it publishes.
use rstorrent.Base.{
  ℕ, ◌+◌, ◌-◌, ◌*◌, ◌%◌, nat_beq, min, Text, is_empty, ℤ, pos, HashSet, extend, put, filter, take,
  is_none, lookup, unwrap_or, if◌then◌else◌, Bool, true, false, not, ◌||◌, Option, none, some, List,
  [], ◌∷◌, map,
}
use rstorrent.Delta.{diff}
use rstorrent.Derive.{RawGlobal, to_dtos, to_globals, empty_globals}
use rstorrent.FileIndex.{FileIndex, retain_live, needs, record_files, clear}
use rstorrent.History.{record_sample}
use rstorrent.Queue.{QueueConfig, QueueActions, decide_queues}
use rstorrent.Server.{Wire, CachedDelta, AppState, tracker_host, u64_mod}
use rstorrent.Torrent.{RawTorrent}
use rstorrent.Types.{Floats, Snapshot, ConnState, ConnPhase, connected, disconnected}

-- `BACKOFF[(failures - 1).min(BACKOFF.len() - 1)]`, on a 64-bit `usize`.
unfoldable pub backoff : ℕ → ℕ
backoff failures =
    let at = min ((failures + (u64_mod - 1)) % u64_mod) 3 in
    if nat_beq at 0 then 1 else (if nat_beq at 1 then 2 else (if nat_beq at 2 then 5 else 10))

abbrev pub is_connected : ConnPhase → Bool
is_connected connected = true
is_connected _ = false

-- What one poll gets from outside: the answers of the daemon, the clock, the disk and the moves.
pub record Poll : Type 0 where
  pub raw : List RawTorrent
  pub globals : RawGlobal
  pub version : Option Text
  pub primary_tracker : Text → Option Text
  pub file_paths : Text → Option (List Text)
  pub now_millis : ℤ
  pub busy : HashSet
  pub disk_usage : Option (ℤ × ℤ)

-- What a poll reads of `Config` (server/src/config.rs): `queue` has the four limits of the queue.
pub record Config : Type 0 where
  pub endpoint : Text
  pub mock : Bool
  pub save_path : Text
  pub queue : QueueConfig

unfoldable pub disk_figures : Config → Option (ℤ × ℤ) → Option ℤ × Option ℤ
disk_figures config usage =
    if config.mock
    then (some (pos (412 * 1073741824)), some (pos (1114 * 1073741824)))
    else (if is_empty config.save_path
        then (none, none)
        else elim usage [ some (free, total) ↦ (some free, some total) | none ↦ (none, none) ])

abbrev pub raw_hashes : List RawTorrent → List Text
raw_hashes raw = map (λ (t : RawTorrent). t.hash) raw

-- The loops of `resolve_trackers` and `index_files` over their batches.
unfoldable pub resolve_each :
    (Text → Option Text) → List Text → List (Text × Text) → List (Text × Text)
resolve_each ask [] hosts = hosts
resolve_each ask (h ∷ hs) hosts =
    resolve_each ask hs (elim (ask h) [ none ↦ hosts | some host ↦ put hosts h host ])

unfoldable pub resolve_trackers :
    (Text → Option Text) → List RawTorrent → List (Text × Text) → List (Text × Text)
resolve_trackers ask raw hosts =
    resolve_each ask (take 5 (filter (λ h. is_none (lookup hosts h)) (raw_hashes raw))) hosts

unfoldable pub is_slow_tick : ℕ → Bool
is_slow_tick tick = nat_beq (tick % 30) 0

unfoldable pub is_full_tick : ℕ → Bool
is_full_tick tick = nat_beq (tick % 30) 0

module _ (upper lower : Text → Text) where
  unfoldable pub index_each : (Text → Option (List Text)) → List Text → FileIndex → FileIndex
  index_each ask [] index = index
  index_each ask (h ∷ hs) index =
      index_each ask hs
        (elim (ask h) [ none ↦ index | some paths ↦ record_files upper lower h paths index ])

  unfoldable pub index_files : (Text → Option (List Text)) → List RawTorrent → FileIndex → FileIndex
  index_files ask raw index = index_each ask (needs upper lower index (raw_hashes raw) 5) index

module _ (fl : Floats) (w : Wire fl.F) where
  abbrev pub App : Type 0
  App = AppState fl.F w.Body

  unfoldable pub assemble : Config → Poll → ℕ → App → Snapshot fl.F
  assemble config p revision s =
      let (free_space, disk_size) = disk_figures config p.disk_usage in
      record {
        revision = revision;
        torrents = to_dtos fl p.raw (tracker_host s) (λ name. none);
        globals = to_globals p.globals free_space disk_size false;
        connection = s.conn;
      }

  -- The delta cache after a snapshot has been published.
  unfoldable pub next_delta : Snapshot fl.F → ℕ → Bool → App → Option (CachedDelta fl.F w.Body)
  next_delta snapshot tick was_connected s =
      if is_none s.prev_snapshot || not was_connected || is_full_tick tick
      then none
      else elim s.prev_snapshot [
        | none ↦ s.delta_cache
        | some prev ↦
            let delta = diff fl prev snapshot in
            elim (w.delta_json delta) [
              | none ↦ s.delta_cache
              | some body ↦ some (record { etag = w.etag_of body; body = body; delta = delta })
            ]
      ]

  unfoldable pub store : Snapshot fl.F → ℕ → Bool → App → App
  store snapshot tick was_connected s = elim (w.snapshot_json snapshot) [
    | none ↦ s
    | some body ↦ record s {
      delta_cache = next_delta snapshot tick was_connected s;
      prev_snapshot = some snapshot;
      cache = some (record { etag = w.etag_of body; body = body; snapshot = snapshot });
    }
  ]

  -- The end of `poll_once`: the next revision, the snapshot, the caches.
  unfoldable pub publish : Config → Poll → ℕ → Bool → App → App
  publish config p tick was_connected s =
      let rev = (s.revision + 1) % u64_mod in
      store (assemble config p rev s) tick was_connected (record s { revision = rev })

  module _ (upper lower : Text → Text) where
    -- `poll_once` up to there, for answers that are no errors.
    unfoldable pub take_in : Config → Poll → ℕ → App → App
    take_in config p tick s =
        let was_connected = is_connected s.conn.phase in
        let index =
          retain_live upper lower (extend [] (raw_hashes p.raw))
            (if was_connected then s.file_index else clear s.file_index) in
        let slow = is_slow_tick tick in
        record s {
          conn = if was_connected then s.conn else record {
            phase = connected;
            endpoint = config.endpoint;
            daemon_version = p.version;
            error = none;
            retry_in_seconds = none;
          };
          tracker_cache =
              if slow
              then resolve_trackers p.primary_tracker p.raw s.tracker_cache
              else s.tracker_cache;
          file_index = if slow then index_files upper lower p.file_paths p.raw index else index;
          history =
              if slow
              then record_sample p.now_millis p.globals.down_rate p.globals.up_rate s.history
              else s.history;
          queue_mem = (decide_queues p.raw config.queue s.queue_mem p.busy).1;
        }

    unfoldable pub poll_once : Config → Poll → ℕ → App → App × QueueActions
    poll_once config p tick s = (
      publish config p tick (is_connected s.conn.phase) (take_in config p tick s),
      (decide_queues p.raw config.queue s.queue_mem p.busy).0,
    )

  -- The card of a failure, and the snapshot that carries it.
  abbrev pub disconnected_conn : Config → Text → ℕ → ConnState
  disconnected_conn config err delay = record {
    phase = disconnected;
    endpoint = config.endpoint;
    daemon_version = none;
    error = some err;
    retry_in_seconds = some (pos delay);
  }

  abbrev pub disconnected_snapshot : Config → Text → ℕ → ℕ → Snapshot fl.F
  disconnected_snapshot config err delay rev = record {
    revision = rev;
    torrents = [];
    globals = empty_globals;
    connection = disconnected_conn config err delay;
  }

  -- `unwrap_or_default` is the empty body.
  unfoldable pub set_disconnected : Config → Text → ℕ → App → App
  set_disconnected config err delay s =
      let rev = (s.revision + 1) % u64_mod in
      let snapshot = disconnected_snapshot config err delay rev in
      let body = unwrap_or (w.snapshot_json snapshot) w.no_bytes in
      record s {
        conn = disconnected_conn config err delay;
        revision = rev;
        delta_cache = none;
        prev_snapshot = some snapshot;
        cache = some (record { etag = w.etag_of body; body = body; snapshot = snapshot });
      }
