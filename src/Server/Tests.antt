-- ===== src/Server/Tests.antt =====
-- Runs of the server's caches and log, and the theorems at concrete inputs.
use rstorrent.Base.{
  ℕ, suc, ◌+◌, ◌%◌, ◌<◌, Text, codes, text_beq, text_ltb, put, insert, extend, insert_sorted,
  sort_by, retain_keys, ℤ, pos, false, none, some, In, Distinct, distinct_test-Distinct, List, [],
  ◌∷◌, ◌≡◌, inl, refl, arith,
}
use rstorrent.Delta.{
  same_torrent, table_from, table, hash_set, rows_at, changed_at, diff, carry_over, apply,
}
use rstorrent.Derive.{
  status, eta_seconds, error_key, percent, ratio, shown_percent, to_dto, to_dtos, to_globals,
  empty_globals,
}
use rstorrent.FileIndex.{new, retain_live, clear, needs, record_files, is_indexed, evict}
use rstorrent.History.{trim, cap, push, record_sample}
use rstorrent.Import.{info}
use rstorrent.Queue.{decide_queues, configured}
use rstorrent.Server.Api.{
  matches, connecting_snapshot, json_bytes_cached, connecting_response, get_state, delta_or_full,
  current_etag, get_delta,
}
use rstorrent.Server.Coherent.{receive, Mirrors}
use rstorrent.Server.Log.{IsLog, log_all, log_since-log_all}
use rstorrent.Server.Poll.{
  App, Poll, Config, raw_hashes, backoff, disk_figures, resolve_each, resolve_trackers,
  is_slow_tick, is_full_tick, index_each, index_files, assemble, next_delta, store, publish,
  take_in, poll_once, set_disconnected,
}
use rstorrent.Server.Trace.{Reaches, start, polled, loaded, get_delta_current, client_shows_poll}
use rstorrent.Server.{Wire, Cached, LogEntry, EventLog, tracker_host, log, log_since, u64_mod}
use rstorrent.Torrent.{RawTorrent, blank}
use rstorrent.Types.Samples.{whole, live}
use rstorrent.Types.{Snapshot, TorrentDto, connecting}

program : Unit {0}
unfolding text_beq text_ltb put insert extend insert_sorted sort_by retain_keys same_torrent
    table_from table hash_set rows_at changed_at diff carry_over apply status eta_seconds error_key
    percent ratio shown_percent to_dto to_dtos to_globals empty_globals new retain_live clear needs
    record_files is_indexed evict trim cap push record_sample decide_queues configured matches
    connecting_snapshot json_bytes_cached connecting_response get_state delta_or_full current_etag
    get_delta backoff disk_figures resolve_each resolve_trackers is_slow_tick is_full_tick
    index_each index_files assemble next_delta store publish take_in poll_once set_disconnected
    tracker_host log log_since
program = tt

-- The bytes are the revision.
abbrev wire : Wire ℤ
wire = record {
  Body = ℕ;
  no_bytes = 0;
  snapshot_json = λ s. some s.revision;
  delta_json = λ d. some d.revision;
  etag_of = λ b. b ∷ [];
  etag_of_connecting = codes "connecting";
}

abbrev same : Text → Text
same s = s

abbrev plain : Config
plain = record {
  endpoint = codes "unix";
  mock = false;
  save_path = [];
  queue = record {
    max_downloads = pos 0;
    max_uploads = pos 0;
    max_total = pos 0;
    slow_limit_kbs = pos 0;
  };
}

abbrev poll_of : List RawTorrent → Poll
poll_of raw = record {
  raw = raw;
  globals = record {
    down_rate = pos 0;
    up_rate = pos 0;
    down_rate_limit = pos 0;
    up_rate_limit = pos 0;
    dht_nodes = pos 0;
  };
  version = none;
  primary_tracker = λ h. none;
  file_paths = λ h. none;
  now_millis = pos 0;
  busy = [];
  disk_usage = none;
}

abbrev row : Text → Text → RawTorrent
row hash name = record blank { hash = hash; name = name }

abbrev first_poll : Poll
first_poll = poll_of (row (codes "A") (codes "a") ∷ row (codes "B") (codes "b") ∷ [])

abbrev second_poll : Poll
second_poll = poll_of (row (codes "B") (codes "b2") ∷ row (codes "C") (codes "c") ∷ [])

abbrev cold : App whole wire
cold = record {
  cache = none;
  delta_cache = none;
  prev_snapshot = none;
  revision = 0;
  conn = record live { phase = connecting };
  tracker_cache = [];
  history = [];
  file_index = record { capacity = 5; files = []; order = [] };
  queue_mem = record { prev_active = []; user_exempt = []; user_paused = [] };
}

abbrev warm : App whole wire
warm = (poll_once whole wire same same plain first_poll 1 cold).0

abbrev next : App whole wire
next = (poll_once whole wire same same plain second_poll 2 warm).0

abbrev seen : Snapshot ℤ
seen = assemble whole wire plain first_poll 1 (take_in whole wire same same plain first_poll 1 cold)

cold_is_connecting :
    receive whole wire (get_state whole wire none cold) none
    ≡ some (connecting_snapshot whole wire cold)
unfolding program
cold_is_connecting = refl

-- The client held nothing, loads, and is a revision behind after the second poll.
Reaches-seen : Reaches whole wire same same plain warm (some seen)
unfolding program
Reaches-seen = loaded (
    polled first_poll 1 (distinct_test-Distinct (raw_hashes first_poll.raw) refl) (ground arith)
      (start cold refl refl refl))

second_Distinct : Distinct (raw_hashes second_poll.raw)
unfolding program
second_Distinct = distinct_test-Distinct (raw_hashes second_poll.raw) refl

Reaches-next : Reaches whole wire same same plain next (some seen)
unfolding program
Reaches-next = polled second_poll 2 second_Distinct (ground arith) Reaches-seen

warm_fits : suc warm.revision < u64_mod
unfolding program
warm_fits = ground arith

abbrev latest : Snapshot ℤ
latest =
    assemble whole wire plain second_poll 2 (take_in whole wire same same plain second_poll 2 warm)

abbrev latest_entry : Cached ℤ ℕ
latest_entry = record { etag = 2 ∷ []; body = 2; snapshot = latest }

next_cache : next.cache ≡ some latest_entry
unfolding program
next_cache = refl

-- The answer is a delta that removes `A`.
next_removed : elim next.delta_cache [ none ↦ [] | some d ↦ d.delta.removed ] ≡ codes "A" ∷ []
unfolding program
next_removed = refl

get_delta_current_example :
    (n : Snapshot ℤ) × (receive whole wire
        (get_delta whole wire (some seen.revision) none next)
        (some seen)
      ≡ some n)
    × Mirrors whole wire n latest
get_delta_current_example =
    get_delta_current whole wire same same plain next seen latest_entry Reaches-next next_cache

latest_json :
    wire.snapshot_json (
      assemble whole wire plain second_poll
        ((warm.revision + 1) % u64_mod)
        (take_in whole wire same same plain second_poll 2 warm))
    ≡ some 2
unfolding program
latest_json = refl

client_shows_poll_example :
    (n : Snapshot ℤ) × (receive whole wire
        (get_delta whole wire (some seen.revision) none next)
        (some seen)
      ≡ some n)
    × (shown : TorrentDto ℤ) × In shown n.torrents
    × (shown.hash ≡ codes "B")
    × (shown.status ≡ status (row (codes "B") (codes "b2")))
    × (shown.status_msg ≡ [])
    × (shown.bytes_done ≡ pos 0)
client_shows_poll_example =
    client_shows_poll whole wire same same plain warm seen second_poll 2 2
      (row (codes "B") (codes "b2")) Reaches-seen second_Distinct warm_fits latest_json (inl refl)

abbrev line : Text → LogEntry
line message = record { time = pos 0; level = info; message = message; hash = none }

abbrev read_log : EventLog
read_log = record { entries = line (codes "a") ∷ []; total = 1 }

abbrev later : List LogEntry
later = line (codes "b") ∷ line (codes "c") ∷ []

read_log-IsLog : IsLog read_log
read_log-IsLog = record { bounded = ground arith; counted = ground arith }

log_since-log_all_example : log_since 1 (log_all later read_log) ≡ (later, 3)
log_since-log_all_example =
    log_since-log_all later read_log read_log-IsLog (ground arith) (ground arith)

-- A server that has started again counts its revisions from 1 again: a client with revision 1 of
-- the server before it is told that it is current.
restarted :
    receive whole wire
      (get_delta whole wire (some 1) none warm)
      (some (record seen { torrents = [] }))
    ≡ some (record seen { torrents = [] })
unfolding program
restarted = refl
