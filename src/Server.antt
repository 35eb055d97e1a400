-- ===== src/Server.antt =====
-- server/src/state.rs: what the web server holds, and its log. A response's bytes, what serde_json
-- makes of a value and the hash behind an ETag are the parameter `Wire`; the instants at which the
-- caches were written serve the waiting of idle requests and are left out.
pub mod Api
pub mod Coherent
pub mod Log
pub mod Poll
pub mod Trace
mod Tests
use rstorrent.Base.{
  ℕ, suc, ◌+◌, ◌-◌, ◌%◌, leb, Text, text_beq, ℤ, lookup, find, length, drop, unwrap_or,
  if◌then◌else◌, Option, none, some, List, [], ◌∷◌, ◌++◌,
}
use rstorrent.FileIndex.{FileIndex}
use rstorrent.History.{StatsSample}
use rstorrent.Import.{LogLevel}
use rstorrent.Queue.{QueueMemory}
use rstorrent.Types.{Floats, TorrentDto, Snapshot, SnapshotDelta, ConnState, connecting}

-- `to_vec` of serde_json, which can fail, and the hash of the bytes as a quoted text.
pub record Wire (F : Type 0) : Type 1 where
  pub Body : Type 0
  pub no_bytes : Body
  pub snapshot_json : Snapshot F → Option Body
  pub delta_json : SnapshotDelta F → Option Body
  pub etag_of : Body → Text
  pub etag_of_connecting : Text

pub record Cached (F B : Type 0) : Type 0 where
  pub etag : Text
  pub body : B
  pub snapshot : Snapshot F

pub record CachedDelta (F B : Type 0) : Type 0 where
  pub etag : Text
  pub body : B
  pub delta : SnapshotDelta F

pub record AppState (F B : Type 0) : Type 0 where
  pub cache : Option (Cached F B)
  pub delta_cache : Option (CachedDelta F B)
  pub prev_snapshot : Option (Snapshot F)
  pub revision : ℕ
  pub conn : ConnState
  pub tracker_cache : List (Text × Text)
  pub history : List StatsSample
  pub file_index : FileIndex
  pub queue_mem : QueueMemory

module _ {F B : Type 0} where
  unfoldable pub tracker_host : AppState F B → Text → Text
  tracker_host s hash = unwrap_or (lookup s.tracker_cache hash) []

  -- `torrent`: the row that was published last for a hash.
  unfoldable pub published_row : AppState F B → Text → Option (TorrentDto F)
  published_row s hash = elim s.cache [
    | none ↦ none
    | some cached ↦ find (λ (t : TorrentDto F). text_beq t.hash hash) cached.snapshot.torrents
  ]

pub record LogEntry : Type 0 where
  pub time : ℤ
  pub level : LogLevel
  pub message : Text
  pub hash : Option Text

abbrev pub log_capacity : ℕ
log_capacity = 500

-- The fields `log` and `log_total`.
pub record EventLog : Type 0 where
  pub entries : List LogEntry
  pub total : ℕ

abbrev pub u64_mod : ℕ
u64_mod = 18446744073709551616

unfoldable pub log : LogEntry → EventLog → EventLog
log entry l = record {
  entries =
      (if leb log_capacity (length l.entries) then drop 1 l.entries else l.entries) ++ entry ∷ [];
  total = (l.total + 1) % u64_mod;
}

-- `total - len` of a release build wraps around; `after.saturating_sub(first_seq)` stops at 0.
unfoldable pub log_since : ℕ → EventLog → List LogEntry × ℕ
log_since after l =
    let first_seq = (l.total + (u64_mod - length l.entries)) % u64_mod in
    (drop (after - first_seq) l.entries, l.total)
