-- ===== src/Types/Samples.antt =====
-- Data for tests: whole numbers in place of floats, and a row.
use rstorrent.Base.{
  ◌+◌, ◌/◌, ◌*◌, ℤ, pos, pos_part, neg_part, sub_ℕ, beq_ℤ, ltb_ℤ, if◌then◌else◌, false, none, [],
}
use rstorrent.Types.{Floats, TorrentDto, GlobalStats, ConnState, paused, connected}

-- A stand-in, on which the parameters' operations compute.
abbrev pub whole : Floats
whole = record {
  F = ℤ;
  of_i64 = λ n. n;
  sub = λ a b. sub_ℕ (pos_part a + neg_part b) (neg_part a + pos_part b);
  mul = λ a b. pos (pos_part a * pos_part b);
  div = λ a b. pos (pos_part a / pos_part b);
  abs = λ a. pos (pos_part a + neg_part a);
  clamp = λ a lo hi. if ltb_ℤ a lo then lo else (if ltb_ℤ hi a then hi else a);
  eq = beq_ℤ;
  lt = ltb_ℤ;
  epsilon = pos 1;
}

abbrev pub blank_dto : TorrentDto ℤ
blank_dto = record {
  hash = [];
  name = [];
  size = pos 0;
  bytes_done = pos 0;
  percent = pos 0;
  status = paused;
  status_msg = [];
  seeds_connected = pos 0;
  peers_connected = pos 0;
  seeds_swarm = pos 0;
  peers_swarm = pos 0;
  down_rate = pos 0;
  up_rate = pos 0;
  eta_seconds = none;
  ratio = pos 0;
  label = [];
  tracker_host = [];
  save_path = [];
  priority = pos 0;
  is_private = false;
  throttle_name = [];
  down_rate_limit = none;
  up_rate_limit = none;
  started_at = pos 0;
  finished_at = pos 0;
  peers_max = pos 0;
  peers_min = pos 0;
  uploads_max = pos 0;
  connection_type = [];
  added_by = [];
  source_path = [];
  added_at = pos 0;
  tags = [];
  force_start = false;
  throttle_rule = [];
  views = [];
  error_kind = [];
  is_open = false;
  is_active = false;
}

abbrev pub no_globals : GlobalStats
no_globals = record {
  down_rate = pos 0;
  up_rate = pos 0;
  down_rate_limit = pos 0;
  up_rate_limit = pos 0;
  dht_nodes = pos 0;
  free_space = none;
  disk_size = none;
  turtle_active = false;
}

abbrev pub live : ConnState
live = record {
  phase = connected;
  endpoint = [];
  daemon_version = none;
  error = none;
  retry_in_seconds = none;
}
