-- ===== src/Import.antt =====
-- crates/rtorrent/src/session.rs: the execution of a restore and its journal. What the daemon, the
-- disk and the clock do is the parameter `Backend`: a state of the world, and one function for each
-- call, which gives the next state and what the call returns.
pub mod Counts
pub mod Again
mod Tests
use rstorrent.Base.{
  ℕ, zero, suc, Text, codes, text_beq, trim, is_empty, to_ascii_uppercase, eq_ignore_ascii_case,
  any, find, ℤ, pos, beq_ℤ, ltb_ℤ, contains, contains_text, HashSet, if◌then◌else◌, Bool, true,
  false, not, ◌&&◌, ◌||◌, Option, none, some, List, [], ◌∷◌, ◌++◌, map,
}
use rstorrent.Session.{
  Fallible, ok, err, ManifestTorrent, ManifestSource, magnet, torrent_base64, torrent_path, key_of,
  base64_decode,
}
use rstorrent.Torrent.{RawTorrent}

pub record ImportJournal : Type 0 where
  pub manifest_id : Text
  pub total : ℕ
  pub done : List Text
  pub started_ms : ℤ
  pub updated_ms : ℤ

unfoldable pub done_set : ImportJournal → HashSet
done_set j = map to_ascii_uppercase j.done

unfoldable pub mark_done : Text → ℤ → ImportJournal → ImportJournal
mark_done hash now_ms j =
    let key = to_ascii_uppercase hash in
    record j {
      done = if any (λ h. text_beq h key) j.done then j.done else j.done ++ key ∷ [];
      updated_ms = now_ms;
    }

pub data LogLevel : Type 0 where
  info warn error : LogLevel

pub record LogLine : Type 0 where
  pub level : LogLevel
  pub message : Text
  pub hash : Option Text

pub record ImportSummary : Type 0 where
  pub added : ℕ
  pub resumed : ℕ
  pub skipped : ℕ
  pub failed : List Text

pub record PlannedRestore : Type 0 where
  pub torrent : ManifestTorrent
  pub dst_dir : Text

pub record LoadOptions : Type 0 where
  pub directory : Text
  pub label : Text
  pub start : Bool
  pub top_of_queue : Bool
  pub unselected_indexes : List ℕ

pub data Source : Type 0 where
  of_bytes : Text → Source
  of_magnet : Text → Source

pub data CheckVerdict : Type 0 where
  clean : CheckVerdict
  missing_data : Text → CheckVerdict

-- A call that can fail gives the text of its error, or `none`.
pub record Backend (W : Type 0) : Type 0 where
  pub load : Source → LoadOptions → W → W × Option Text
  pub set_tags : Text → List Text → W → W
  pub set_priority : Text → ℤ → W → W
  pub set_connection_limits : Text → ℤ → ℤ → ℤ → W → W
  pub assign_throttle : Text → Text → W → W
  pub set_custom_metadata : Text → List (Text × Text) → W → W
  pub recheck : Text → W → W × Option Text
  pub start : Text → W → W × Option Text
  pub sleep_and_list : W → W × Option (List RawTorrent)
  pub now_ms : W → ℤ
  pub show_ms : ℤ → Text
  pub save : ImportJournal → W → W
  pub cancelled : W → Bool

pub record Run (W : Type 0) : Type 0 where
  pub world : W
  pub journal : ImportJournal
  pub summary : ImportSummary
  pub log : List LogLine

unfoldable pub is_missing : Text → Bool
is_missing message =
    contains_text message (codes "No such file")
    || contains_text message (codes "chunk read error")
    || contains_text message (codes "Could not open")
    || contains_text message (codes "Storage error")

-- What the row of a torrent says after a check, or `none` while the check goes on.
unfoldable pub row_verdict : RawTorrent → Option CheckVerdict
row_verdict t =
    if t.hashing
    then none
    else (if is_missing t.message
        then some (missing_data t.message)
        else (if not (is_empty t.message)
            then (if t.complete then some clean else some (missing_data t.message))
            else some clean))

unfoldable pub rows_verdict : Text → List RawTorrent → Option CheckVerdict
rows_verdict hash rows = elim (find (λ (t : RawTorrent). eq_ignore_ascii_case t.hash hash) rows) [
  | none ↦ some (missing_data (codes "torrent vanished during recheck"))
  | some t ↦ row_verdict t
]

-- `max(0).min(3)`.
abbrev clamp_priority : ℤ → ℤ
clamp_priority p = if ltb_ℤ p (pos 0) then pos 0 else (if ltb_ℤ (pos 3) p then pos 3 else p)

module _ {W : Type 0} (b : Backend W) (decode read_info_hash : Text → Fallible) where
  -- The loop over the polls, with the rounds left.
  unfoldable pub wait_rounds : ℕ → Text → W → W × CheckVerdict
  wait_rounds zero hash w = (w, missing_data (codes "recheck did not finish in time"))
  wait_rounds (suc rounds) hash w =
      let (w', answer) = b.sleep_and_list w in
      let again = wait_rounds rounds hash w' in
      elim answer [
        | none ↦ again
        | some rows ↦ elim (rows_verdict hash rows) [ none ↦ again | some verdict ↦ (w', verdict) ]
      ]

  unfoldable pub wait_for_check : Text → W → W × CheckVerdict
  wait_for_check hash w = wait_rounds 300 hash w

  -- `summary.failed.push(msg)` with the line in the log.
  unfoldable pub fail_with : Text → Text → W → Run W → Run W
  fail_with hash message w r = record r {
    world = w;
    summary = record r.summary { failed = r.summary.failed ++ message ∷ [] };
    log = r.log ++ record { level = error; message = message; hash = some hash } ∷ [];
  }

  -- `Err` is the message of the failure.
  pub data Resolved : Type 0 where
    found : Source → Resolved
    unusable : Text → Resolved

  unfoldable pub no_source : Text → Resolved
  no_source name = unusable (name ++ codes ": no re-addable source in this manifest")

  unfoldable pub resolve_source : Text → Option ManifestSource → Resolved
  resolve_source name none = no_source name
  resolve_source name (some (torrent_path path)) = no_source name
  resolve_source name (some (magnet uri)) =
      if not (is_empty (trim uri)) then found (of_magnet (trim uri)) else no_source name
  resolve_source name (some (torrent_base64 b64)) = elim (base64_decode decode read_info_hash b64) [
    | ok bytes ↦ found (of_bytes bytes)
    | err e ↦ unusable (name ++ codes ": embedded .torrent does not decode (" ++ e ++ codes ")")
  ]

  -- Tags, priority, caps, throttle and provenance; what these calls return is not read.
  unfoldable pub set_metadata : Text → ManifestTorrent → W → W
  set_metadata hash t w =
      let w1 = if not (is_empty t.tags) then b.set_tags hash t.tags w else w in
      let w2 = b.set_priority hash (clamp_priority t.priority) w1 in
      let w3 =
        if not (beq_ℤ t.peers_max (pos 0))
          || not (beq_ℤ t.peers_min (pos 0))
          || not (beq_ℤ t.uploads_max (pos 0))
        then b.set_connection_limits hash t.peers_max t.peers_min t.uploads_max w2
        else w2 in
      let w4 =
        if not (is_empty (trim t.throttle))
        then b.assign_throttle hash (trim t.throttle) w3
        else w3 in
      b.set_custom_metadata hash
        ((codes "added_by", codes "import")
          ∷ (codes "source_path", t.source_path)
          ∷ (codes "added_at", b.show_ms (b.now_ms w4))
          ∷ [])
        w4

  -- `journal.mark_done(..); save(journal)`.
  unfoldable pub record_done : Text → W → Run W → Run W
  record_done hash w r =
      let journal = mark_done hash (b.now_ms w) r.journal in
      record r { world = b.save journal w; journal = journal }

  unfoldable pub after_check : Text → Text → W → CheckVerdict → Run W → Run W
  after_check hash name w clean r =
      let (w', failure) = b.start hash w in
      elim failure [
        | some e ↦
            fail_with hash (name ++ codes ": verified but could not resume (" ++ e ++ codes ")") w'
              r
        | none ↦
            let r' = record_done hash w' r in
            record r' {
              summary = record r'.summary { added = suc r'.summary.added };
              log =
                  r'.log
                  ++ record {
                    level = info;
                    message = codes "imported " ++ name ++ codes " (rechecked, resumed)";
                    hash = some hash;
                  }
                    ∷ [];
            }
      ]
  after_check hash name w (missing_data message) r =
      let r' =
        fail_with hash (name ++ codes ": recheck failed — " ++ message ++ codes " (kept stopped)") w
          r in
      record_done hash r'.world r'

  unfoldable pub after_load : Text → ManifestTorrent → W → Run W → Run W
  after_load hash t w r =
      let (w', failure) = b.recheck hash (set_metadata hash t w) in
      elim failure [
        | some e ↦ fail_with hash (t.name ++ codes ": could not recheck (" ++ e ++ codes ")") w' r
        | none ↦
            let (w'', verdict) = wait_for_check hash w' in after_check hash t.name w'' verdict r
      ]

  unfoldable pub load_options : PlannedRestore → LoadOptions
  load_options p = record {
    directory = p.dst_dir;
    label = p.torrent.label;
    start = false;
    top_of_queue = false;
    unselected_indexes = [];
  }

  -- The body of the loop, from the lookup in the journal on.
  unfoldable pub import_item : PlannedRestore → Run W → Run W
  import_item p r =
      let t = p.torrent in
      let hash = key_of t in
      if contains (done_set r.journal) hash
      then record r { summary = record r.summary { resumed = suc r.summary.resumed } }
      else elim (resolve_source t.name t.source) [
        | unusable message ↦ fail_with hash message r.world r
        | found source ↦
            let (w, failure) = b.load source (load_options p) r.world in
            elim failure [
              | some e ↦ fail_with hash (t.name ++ codes ": could not add (" ++ e ++ codes ")") w r
              | none ↦ after_load hash t w r
            ]
      ]

  unfoldable pub import_items : List PlannedRestore → Run W → Run W
  import_items [] r = r
  import_items (p ∷ items) r =
      let rest = import_items items (import_item p r) in
      if b.cancelled r.world
      then record r {
        log =
            r.log
            ++ record {
              level = warn;
              message = codes "import cancelled — resume it any time; finished torrents are kept";
              hash = none;
            }
              ∷ [];
      }
      else rest

  unfoldable pub run_import : List PlannedRestore → ImportJournal → W → Run W
  run_import items journal w = import_items items (record {
    world = w;
    journal = journal;
    summary = record { added = 0; resumed = 0; skipped = 0; failed = [] };
    log = [];
  })
