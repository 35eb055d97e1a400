-- ===== src/Derive.antt =====
-- crates/rtorrent/src/rtorrent/derive.rs and crates/rtorrent/src/snapshot.rs: the rows and the
-- globals that a poll shows. The arithmetic on floats is the parameter `Floats`, and the host's
-- caches are the functions that the source takes.
pub mod Row
mod Tests
use rstorrent.Base.{
  ℕ, ◌/◌, Text, is_empty, ℤ, pos, negsuc, ltb_ℤ, leb_ℤ, max_ℤ, min_ℤ, sub_i64, saturating_mul,
  if◌then◌else◌, Bool, false, not, ◌&&◌, ◌||◌, Option, none, some, List, [], map,
}
use rstorrent.Delta.{status_beq}
use rstorrent.ErrorKind.{as_str, classify}
use rstorrent.Torrent.{RawTorrent}
use rstorrent.Types.{
  Floats, TorrentDto, GlobalStats, Status, downloading, seeding, paused, stalled, checking, error,
}

unfoldable pub status : RawTorrent → Status
status t =
    if not (is_empty t.message)
    then error
    else (if t.hashing
        then checking
        else (if not t.is_open || not t.is_active
            then paused
            else (if t.complete
                then seeding
                else (if ltb_ℤ (pos 0) t.down_rate then downloading else stalled))))

-- `a / b` for an `a` of 0 or more and a `b` above 0, which are all that the source divides.
abbrev pub quotient : ℤ → ℤ → ℤ
quotient (pos a) (pos b) = pos (a / b)
quotient _ _ = pos 0

unfoldable pub eta_seconds : RawTorrent → Status → Option ℤ
eta_seconds t st =
    if status_beq st downloading && ltb_ℤ (pos 0) t.down_rate
    then some (quotient (max_ℤ (sub_i64 t.size_bytes t.bytes_done) (pos 0)) t.down_rate)
    else none

-- `classify(..).map(as_str).unwrap_or_default()`.
unfoldable pub error_key : Text → Text
error_key message = elim (classify message) [ none ↦ [] | some k ↦ as_str k ]

-- `limits.0.saturating_mul(1024)`, and the second limit likewise.
abbrev down_limit : Option (ℤ × ℤ) → Option ℤ
down_limit none = none
down_limit (some (down, up)) = some (saturating_mul down (pos 1024))

abbrev up_limit : Option (ℤ × ℤ) → Option ℤ
up_limit none = none
up_limit (some (down, up)) = some (saturating_mul up (pos 1024))

pub record RawGlobal : Type 0 where
  pub down_rate : ℤ
  pub up_rate : ℤ
  pub down_rate_limit : ℤ
  pub up_rate_limit : ℤ
  pub dht_nodes : ℤ

unfoldable pub to_globals : RawGlobal → Option ℤ → Option ℤ → Bool → GlobalStats
to_globals g free_space disk_size turtle_active = record {
  down_rate = g.down_rate;
  up_rate = g.up_rate;
  down_rate_limit = g.down_rate_limit;
  up_rate_limit = g.up_rate_limit;
  dht_nodes = g.dht_nodes;
  free_space = free_space;
  disk_size = disk_size;
  turtle_active = turtle_active;
}

-- The derived `Default` of the raw globals.
unfoldable pub empty_globals : GlobalStats
unfolding to_globals
empty_globals =
    to_globals
      (record {
        down_rate = pos 0;
        up_rate = pos 0;
        down_rate_limit = pos 0;
        up_rate_limit = pos 0;
        dht_nodes = pos 0;
      })
      none none false

module _ (fl : Floats) where
  -- `a as f64 / b as f64 * 100.0` in the range from 0 to 100.
  abbrev share : ℤ → ℤ → fl.F
  share a b =
      fl.clamp (fl.mul (fl.div (fl.of_i64 a) (fl.of_i64 b)) (fl.of_i64 (pos 100)))
        (fl.of_i64 (pos 0)) (fl.of_i64 (pos 100))

  unfoldable pub percent : RawTorrent → fl.F
  percent t =
      if leb_ℤ t.size_bytes (pos 0) then fl.of_i64 (pos 0) else share t.bytes_done t.size_bytes

  unfoldable pub ratio : RawTorrent → fl.F
  ratio t = fl.div (fl.of_i64 t.ratio_permille) (fl.of_i64 (pos 1000))

  -- While a torrent is checked, its progress is that of the check.
  unfoldable pub shown_percent : RawTorrent → fl.F
  shown_percent t =
      if status_beq (status t) checking && ltb_ℤ (pos 0) t.size_chunks
      then share t.chunks_hashed t.size_chunks
      else percent t

  unfoldable pub to_dto : RawTorrent → Text → Option (ℤ × ℤ) → TorrentDto fl.F
  to_dto t tracker_host named_limits = record {
    hash = t.hash;
    name = t.name;
    size = t.size_bytes;
    bytes_done = t.bytes_done;
    percent = shown_percent t;
    status = status t;
    status_msg = t.message;
    seeds_connected = min_ℤ t.peers_complete t.peers_connected;
    peers_connected = t.peers_connected;
    seeds_swarm = t.peers_complete;
    peers_swarm = t.peers_accounted;
    down_rate = t.down_rate;
    up_rate = t.up_rate;
    eta_seconds = eta_seconds t (status t);
    ratio = ratio t;
    label = t.label;
    tracker_host = tracker_host;
    save_path = if is_empty t.base_path then t.directory else t.base_path;
    priority = t.priority;
    is_private = t.is_private;
    throttle_name = t.throttle_name;
    down_rate_limit = down_limit named_limits;
    up_rate_limit = up_limit named_limits;
    started_at = t.started_at;
    finished_at = t.finished_at;
    peers_max = t.peers_max;
    peers_min = t.peers_min;
    uploads_max = t.uploads_max;
    connection_type = t.connection_current;
    added_by = t.added_by;
    source_path = t.source_path;
    added_at = t.added_at;
    tags = t.tags;
    force_start = t.force_start;
    throttle_rule = t.throttle_rule;
    views = [];
    error_kind = if status_beq (status t) error then error_key t.message else [];
    is_open = t.is_open;
    is_active = t.is_active;
  }

  unfoldable pub to_dtos :
      List RawTorrent → (Text → Text) → (Text → Option (ℤ × ℤ)) → List (TorrentDto fl.F)
  to_dtos raw tracker_host throttle_limits =
      map (λ (t : RawTorrent). to_dto t (tracker_host t.hash) (throttle_limits t.throttle_name)) raw
