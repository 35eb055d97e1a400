-- ===== src/Types.antt =====
-- crates/rtorrent/src/types.rs: the structs that both hosts serialise. There are no floats here: the
-- type `f64` and the operations that the program uses are the parameter `Floats`.
pub mod Samples
use rstorrent.Base.{ℕ, Text, ℤ, Bool, Option, List}

-- `f64`, with the comparisons and the arithmetic of IEEE 754 left open.
pub record Floats : Type 1 where
  pub F : Type 0
  pub of_i64 : ℤ → F
  pub sub : F → F → F
  pub mul : F → F → F
  pub div : F → F → F
  pub abs : F → F
  pub clamp : F → F → F → F
  pub eq : F → F → Bool
  pub lt : F → F → Bool
  pub epsilon : F

pub data Status : Type 0 where
  downloading seeding completed paused stalled checking error : Status

pub record TorrentDto (F : Type 0) : Type 0 where
  pub hash : Text
  pub name : Text
  pub size : ℤ
  pub bytes_done : ℤ
  pub percent : F
  pub status : Status
  pub status_msg : Text
  pub seeds_connected : ℤ
  pub peers_connected : ℤ
  pub seeds_swarm : ℤ
  pub peers_swarm : ℤ
  pub down_rate : ℤ
  pub up_rate : ℤ
  pub eta_seconds : Option ℤ
  pub ratio : F
  pub label : Text
  pub tracker_host : Text
  pub save_path : Text
  pub priority : ℤ
  pub is_private : Bool
  pub throttle_name : Text
  pub down_rate_limit : Option ℤ
  pub up_rate_limit : Option ℤ
  pub started_at : ℤ
  pub finished_at : ℤ
  pub peers_max : ℤ
  pub peers_min : ℤ
  pub uploads_max : ℤ
  pub connection_type : Text
  pub added_by : Text
  pub source_path : Text
  pub added_at : ℤ
  pub tags : List Text
  pub force_start : Bool
  pub throttle_rule : Text
  pub views : List Text
  pub error_kind : Text
  pub is_open : Bool
  pub is_active : Bool

pub record GlobalStats : Type 0 where
  pub down_rate : ℤ
  pub up_rate : ℤ
  pub down_rate_limit : ℤ
  pub up_rate_limit : ℤ
  pub dht_nodes : ℤ
  pub free_space : Option ℤ
  pub disk_size : Option ℤ
  pub turtle_active : Bool

pub data ConnPhase : Type 0 where
  connecting connected disconnected : ConnPhase

pub record ConnState : Type 0 where
  pub phase : ConnPhase
  pub endpoint : Text
  pub daemon_version : Option Text
  pub error : Option Text
  pub retry_in_seconds : Option ℤ

pub record Snapshot (F : Type 0) : Type 0 where
  pub revision : ℕ
  pub torrents : List (TorrentDto F)
  pub globals : GlobalStats
  pub connection : ConnState

pub record SnapshotDelta (F : Type 0) : Type 0 where
  pub revision : ℕ
  pub base_revision : ℕ
  pub added : List (TorrentDto F)
  pub updated : List (TorrentDto F)
  pub removed : List Text
  pub globals : GlobalStats
  pub connection : ConnState
