-- ===== src/Torrent.antt =====
-- crates/rtorrent/src/rtorrent/mod.rs: `RawTorrent`, one torrent as the daemon reports it.
use rstorrent.Base.{Text, ℤ, pos, Bool, false, Option, none, List, []}

pub record RawTorrent : Type 0 where
  pub hash : Text
  pub name : Text
  pub size_bytes : ℤ
  pub bytes_done : ℤ
  pub complete : Bool
  pub is_active : Bool
  pub is_open : Bool
  pub hashing : Bool
  pub message : Text
  pub down_rate : ℤ
  pub up_rate : ℤ
  pub ratio_permille : ℤ
  pub label : Text
  pub directory : Text
  pub base_path : Text
  pub peers_complete : ℤ
  pub peers_accounted : ℤ
  pub peers_connected : ℤ
  pub priority : ℤ
  pub is_private : Bool
  pub throttle_name : Text
  pub finished_at : ℤ
  pub chunks_hashed : ℤ
  pub size_chunks : ℤ
  pub started_at : ℤ
  pub peers_max : ℤ
  pub peers_min : ℤ
  pub uploads_max : ℤ
  pub connection_current : Text
  pub added_by : Text
  pub source_path : Text
  pub added_at : ℤ
  pub tags : List Text
  pub final_dir : Text
  pub force_start : Bool
  pub queue_pos : Option ℤ
  pub throttle_rule : Text

-- The derived `Default`, for test data.
abbrev pub blank : RawTorrent
blank = record {
  hash = [];
  name = [];
  size_bytes = pos 0;
  bytes_done = pos 0;
  complete = false;
  is_active = false;
  is_open = false;
  hashing = false;
  message = [];
  down_rate = pos 0;
  up_rate = pos 0;
  ratio_permille = pos 0;
  label = [];
  directory = [];
  base_path = [];
  peers_complete = pos 0;
  peers_accounted = pos 0;
  peers_connected = pos 0;
  priority = pos 0;
  is_private = false;
  throttle_name = [];
  finished_at = pos 0;
  chunks_hashed = pos 0;
  size_chunks = pos 0;
  started_at = pos 0;
  peers_max = pos 0;
  peers_min = pos 0;
  uploads_max = pos 0;
  connection_current = [];
  added_by = [];
  source_path = [];
  added_at = pos 0;
  tags = [];
  final_dir = [];
  force_start = false;
  queue_pos = none;
  throttle_rule = [];
}
