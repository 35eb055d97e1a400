-- ===== src/Server/Api.antt =====
-- server/src/api.rs: the answers to `GET /api/state` and `GET /api/delta`. `inm` is the header
-- `If-None-Match`, and a response holds what its body was written from.
use rstorrent.Base.{
  ℕ, nat_beq, unwrap_or, Text, text_beq, if◌then◌else◌, Bool, false, ◌&&◌, Option, none, some, [],
}
use rstorrent.Derive.{empty_globals}
use rstorrent.Server.Poll.{App}
use rstorrent.Server.{Wire, Cached, CachedDelta}
use rstorrent.Types.{Floats, Snapshot}

unfoldable pub matches : Option Text → Text → Bool
matches none etag = false
matches (some inm) etag = text_beq inm etag

module _ (fl : Floats) (w : Wire fl.F) where
  pub data Response : Type 0 where
    not_modified : Text → Response
    ok_snapshot : Cached fl.F w.Body → Response
    ok_delta : CachedDelta fl.F w.Body → Response
    conflict : Cached fl.F w.Body → Response
    bad_request : Response

  unfoldable pub connecting_snapshot : App fl w → Snapshot fl.F
  connecting_snapshot s = record {
    revision = 0;
    torrents = [];
    globals = empty_globals;
    connection = s.conn;
  }

  unfoldable pub json_bytes_cached : Cached fl.F w.Body → Option Text → Response
  json_bytes_cached c inm = if matches inm c.etag then not_modified c.etag else ok_snapshot c

  unfoldable pub connecting_response : Option Text → App fl w → Response
  connecting_response inm s =
      let snapshot = connecting_snapshot s in
      let body = unwrap_or (w.snapshot_json snapshot) w.no_bytes in
      json_bytes_cached (record { etag = w.etag_of_connecting; body = body; snapshot = snapshot })
        inm

  unfoldable pub get_state : Option Text → App fl w → Response
  get_state inm s = elim s.cache [
    | none ↦ connecting_response inm s
    | some cached ↦ json_bytes_cached cached inm
  ]

  -- The delta, where it leads from the client's revision to the cached one.
  unfoldable pub delta_or_full : ℕ → Option Text → Cached fl.F w.Body → App fl w → Response
  delta_or_full since inm cached s = elim s.delta_cache [
    | none ↦ conflict cached
    | some d ↦
        if nat_beq d.delta.base_revision since && nat_beq d.delta.revision cached.snapshot.revision
        then (if matches inm d.etag then not_modified d.etag else ok_delta d)
        else conflict cached
  ]

  -- The ETag of the answer to a client that is current.
  unfoldable pub current_etag : Option Text → Cached fl.F w.Body → App fl w → Text
  current_etag inm cached s = if matches inm cached.etag then cached.etag else elim s.delta_cache [
    | none ↦ cached.etag
    | some d ↦ if matches inm d.etag then d.etag else cached.etag
  ]

  unfoldable pub get_delta : Option ℕ → Option Text → App fl w → Response
  get_delta q inm s = elim s.cache [
    | none ↦ connecting_response inm s
    | some cached ↦ elim q [
      | none ↦ bad_request
      | some since ↦
          if nat_beq since cached.snapshot.revision
          then not_modified (current_etag inm cached s)
          else delta_or_full since inm cached s
    ]
  ]
