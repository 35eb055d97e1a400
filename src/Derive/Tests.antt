-- ===== src/Derive/Tests.antt =====
-- Runs of `to_dto`, and the theorems at concrete inputs.
use rstorrent.Base.{
  ℕ, ◌+◌, ◌-◌, ◌*◌, ◌≤◌, ◌<◌, codes, trim, trim_end, trim_end_by, trim_start_by, is_whitespace,
  is_empty, all, sub_i64, saturating_mul, ℤ, pos, ◌≤ℤ◌, true, false, not, [], none, some, ◌≡◌, refl,
  arith,
}
use rstorrent.Delta.{status_beq}
use rstorrent.Derive.Row.{to_dto-IsSound, eta_seconds-bounds}
use rstorrent.Derive.{
  status, eta_seconds, error_key, percent, ratio, shown_percent, to_dto, to_dtos,
}
use rstorrent.ErrorKind.{as_str, classify}
use rstorrent.Torrent.{RawTorrent, blank}
use rstorrent.Types.Samples.{whole}
use rstorrent.Types.{TorrentDto, downloading, completed, error}

program : Unit {0}
unfolding trim trim_end trim_end_by trim_start_by is_whitespace sub_i64 saturating_mul as_str
    classify status eta_seconds error_key percent ratio shown_percent to_dto to_dtos
program = tt

abbrev busy : RawTorrent
busy = record blank {
  hash = codes "A";
  size_bytes = pos 1000;
  bytes_done = pos 250;
  is_open = true;
  is_active = true;
  down_rate = pos 100;
  peers_complete = pos 9;
  peers_connected = pos 4;
}

abbrev shown : TorrentDto ℤ
shown = to_dto whole busy (codes "tracker.example") (some (pos 2, pos 1))

busy_eta : shown.eta_seconds ≡ some (pos 7)
unfolding program
busy_eta = refl

busy_limit : shown.down_rate_limit ≡ some (pos 2048)
unfolding program
busy_limit = refl

-- A message of one space: an error without a bucket.
abbrev spaced : RawTorrent
spaced = record busy { message = codes " " }

spaced_status : (to_dto whole spaced [] none).status ≡ error
unfolding program
spaced_status = refl

spaced_kind : (to_dto whole spaced [] none).error_kind ≡ []
unfolding program
spaced_kind = refl

to_dto-IsSound_example :
    (status_beq shown.status error ≡ not (is_empty busy.message))
    × (is_empty shown.error_kind ≡ all is_whitespace busy.message)
    × (status_beq shown.status completed ≡ false)
    × (shown.seeds_connected ≤ℤ shown.peers_connected)
    × (shown.seeds_connected ≤ℤ shown.seeds_swarm)
to_dto-IsSound_example = to_dto-IsSound whole busy (codes "tracker.example") (some (pos 2, pos 1))

busy_downloads : status_beq (status busy) downloading ≡ true
unfolding program
busy_downloads = refl

eta_seconds-bounds_example :
    (e : ℕ) × (eta_seconds busy (status busy) ≡ some (pos e))
    × (e * 100 ≤ 1000 - 250)
    × (1000 - 250 < e * 100 + 100)
eta_seconds-bounds_example =
    eta_seconds-bounds busy (ground arith, ground arith) (ground arith, ground arith) (ground arith)
      (ground arith) busy_downloads
