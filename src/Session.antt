-- ===== src/Session.antt =====
-- crates/rtorrent/src/session.rs: the portable manifest of a library, its validation, and the plan of
-- a restore. The crate `base64` and the parser of `.torrent` files are parameters: `decode` gives the
-- bytes or the text of its error, `read_info_hash` the info-hash of a file or the text of its error.
pub mod Entries
pub mod Restore
mod Tests
use rstorrent.Base.{
  ℕ, suc, ◌+◌, ◌-◌, leb, nat_beq, Text, codes, text_beq, text_ltb, trim, trim_end_by,
  trim_end_slashes, is_empty, to_ascii_uppercase, eq_ignore_ascii_case, any, all, filter, drop,
  take, length, ℤ, pos, HashSet, contains, insert, lookup, sort_by, is_none, is_some, unwrap_or,
  if◌then◌else◌, starts_with, Bool, true, false, not, ◌&&◌, ◌||◌, Option, none, some, List, [], ◌∷◌,
  ◌++◌, map,
}
use rstorrent.Torrent.{RawTorrent}

abbrev pub format_tag : Text
format_tag = codes "rstorrent-session/1"

pub record ManifestGlobal : Type 0 where
  pub down_kb : ℤ
  pub up_kb : ℤ

pub data ManifestSource : Type 0 where
  magnet : Text → ManifestSource
  torrent_base64 : Text → ManifestSource
  torrent_path : Text → ManifestSource

pub record ManifestTorrent : Type 0 where
  pub hash : Text
  pub name : Text
  pub source : Option ManifestSource
  pub save_path : Text
  pub label : Text
  pub tags : List Text
  pub priority : ℤ
  pub throttle : Text
  pub peers_max : ℤ
  pub peers_min : ℤ
  pub uploads_max : ℤ
  pub trackers : List Text
  pub added_by : Text
  pub source_path : Text
  pub added_at : ℤ
  pub queue_pos : Option ℤ
  pub force_start : Bool

pub record Manifest : Type 0 where
  pub format : Text
  pub exported_at : ℤ
  pub client : Text
  pub client_version : Text
  pub global : ManifestGlobal
  pub torrents : List ManifestTorrent

unfoldable pub export_row :
    List (Text × List Text) → List (Text × ManifestSource) → RawTorrent → ManifestTorrent
export_row trackers sources t = record {
  hash = t.hash;
  name = t.name;
  source = lookup sources t.hash;
  save_path = if is_empty t.base_path then t.directory else t.base_path;
  label = t.label;
  tags = t.tags;
  priority = t.priority;
  throttle = t.throttle_name;
  peers_max = t.peers_max;
  peers_min = t.peers_min;
  uploads_max = t.uploads_max;
  trackers = unwrap_or (lookup trackers t.hash) [];
  added_by = t.added_by;
  source_path = t.source_path;
  added_at = t.added_at;
  queue_pos = t.queue_pos;
  force_start = t.force_start;
}

unfoldable pub export_manifest :
    List RawTorrent
    → List (Text × List Text)
    → List (Text × ManifestSource)
    → ℤ
    → ℤ
    → ℤ
    → Text
    → Manifest
export_manifest rows trackers sources global_down_kb global_up_kb exported_at client_version =
    record {
      format = format_tag;
      exported_at = exported_at;
      client = codes "rstorrent";
      client_version = client_version;
      global = record { down_kb = global_down_kb; up_kb = global_up_kb };
      torrents =
          sort_by (λ (a b : ManifestTorrent). text_ltb a.hash b.hash)
            (map (export_row trackers sources) rows);
    }

pub record ItemProblem : Type 0 where
  pub index : Option ℕ
  pub hash : Text
  pub message : Text

pub record ValidationReport : Type 0 where
  pub torrent_count : ℕ
  pub restorable_count : ℕ
  pub errors : List ItemProblem
  pub warnings : List ItemProblem

pub data Fallible : Type 0 where
  ok : Text → Fallible
  err : Text → Fallible

-- What validation says of one entry.
pub data Finding : Type 0 where
  fine : Finding
  failing : Text → Finding
  warning : Text → Finding

abbrev pub is_hex_digit : ℕ → Bool
is_hex_digit c =
    (leb b'0' c && leb c b'9') || (leb b'a' c && leb c b'f') || (leb b'A' c && leb c b'F')

-- A text of 40 ASCII hex digits is 40 bytes long, and no other text passes both tests.
unfoldable pub is_info_hash : Text → Bool
is_info_hash hash = nat_beq (length hash) 40 && all is_hex_digit hash

unfoldable pub key_of : ManifestTorrent → Text
key_of t = to_ascii_uppercase (trim t.hash)

module _ (decode : Text → Fallible) (read_info_hash : Text → Fallible) where
  unfoldable pub base64_decode : Text → Fallible
  base64_decode raw = decode (trim raw)

  -- `match &t.source`.
  unfoldable pub source_finding : Text → Option ManifestSource → Finding
  source_finding hash none =
      failing (codes "no re-addable source (no magnet, embedded .torrent or path)")
  source_finding hash (some (magnet uri)) =
      if is_empty (trim uri) then failing (codes "empty magnet URI") else fine
  source_finding hash (some (torrent_base64 b64)) = elim (base64_decode b64) [
    | err e ↦ failing (codes "embedded .torrent does not decode: " ++ e)
    | ok bytes ↦ elim (read_info_hash bytes) [
      | err e ↦ failing (codes "embedded .torrent does not parse: " ++ e)
      | ok info_hash ↦
          if not (text_beq (to_ascii_uppercase info_hash) hash)
          then failing
              (codes "embedded .torrent is a different torrent (" ++ info_hash ++ codes ")")
          else fine
    ]
  ]
  source_finding hash (some (torrent_path path)) =
      warning (codes "only a .torrent path recorded — restores only where that file exists")

  -- One round of the loop: the hashes seen so far, and the finding.
  unfoldable pub entry_finding : HashSet → ManifestTorrent → HashSet × Finding
  entry_finding seen t =
      let hash = key_of t in
      if not (is_info_hash hash)
      then (seen, failing (codes "not a 40-digit hex info-hash"))
      else (if contains seen hash
          then (seen, failing (codes "duplicate info-hash in this manifest"))
          else (insert seen hash, source_finding hash t.source))

  -- The loop's pushes in their order, errors and warnings.
  unfoldable pub entry_problems :
      ℕ → HashSet → List ManifestTorrent → List ItemProblem × List ItemProblem
  entry_problems index seen [] = ([], [])
  entry_problems index seen (t ∷ torrents) =
      let (seen', finding) = entry_finding seen t in
      let (errors, warnings) = entry_problems (suc index) seen' torrents in
      elim finding [
        | fine ↦ (errors, warnings)
        | failing message ↦
            (record { index = some index; hash = t.hash; message = message } ∷ errors, warnings)
        | warning message ↦
            (errors, record { index = some index; hash = t.hash; message = message } ∷ warnings)
      ]

  abbrev pub of_entry : ItemProblem → Bool
  of_entry e = is_some e.index

  -- `usize` subtraction.
  unfoldable pub validate_manifest : Manifest → ValidationReport
  validate_manifest manifest =
      let count = length manifest.torrents in
      if not (text_beq manifest.format format_tag)
      then record {
        torrent_count = count;
        restorable_count = 0;
        errors =
            record {
              index = none;
              hash = [];
              message =
                  codes "unsupported manifest format '"
                  ++ manifest.format
                  ++ codes "' (this client reads "
                  ++ format_tag
                  ++ codes ")";
            }
            ∷ [];
        warnings = [];
      }
      else (let (errors, warnings) = entry_problems 0 [] manifest.torrents in
          record {
            torrent_count = count;
            restorable_count =
                if any (λ (e : ItemProblem). is_none e.index) errors
                then 0
                else count - length (filter of_entry errors);
            errors = errors;
            warnings = warnings;
          })

pub data RestoreAction : Type 0 where
  add_item skip_have skip_unselected : RestoreAction
  skip_invalid : Text → RestoreAction

pub record RestoreItem : Type 0 where
  pub torrent : ManifestTorrent
  pub action : RestoreAction
  pub dst_dir : Text

unfoldable pub remap_path : Text → List (Text × Text) → Text
remap_path path [] = path
remap_path path ((from, to) ∷ remaps) =
    let prefix = trim_end_slashes from in
    let rest = remap_path path remaps in
    if is_empty prefix
    then rest
    else (if text_beq path prefix || starts_with path (prefix ++ b'/' ∷ [])
        then trim_end_slashes to ++ drop (length prefix) path
        else rest)

-- The map from an entry's index to its error, of which the last one stays.
unfoldable pub reason_at : ℕ → List ItemProblem → Option Text
reason_at i [] = none
reason_at i (e ∷ errors) = elim (reason_at i errors) [
  | some reason ↦ some reason
  | none ↦ elim e.index [ none ↦ none | some j ↦ if nat_beq i j then some e.message else none ]
]

module _ (existing : HashSet) (selected : Option HashSet) (remaps : List (Text × Text)) where
  abbrev pub is_selected : Text → Bool
  is_selected hash = elim selected [
    | none ↦ true
    | some chosen ↦ any (λ h. eq_ignore_ascii_case h hash) chosen
  ]

  unfoldable pub plan_entry : List ItemProblem → ℕ → ManifestTorrent → RestoreItem
  plan_entry errors index t = elim (reason_at index errors) [
    | some reason ↦ record { torrent = t; action = skip_invalid reason; dst_dir = [] }
    | none ↦
        if any (λ h. eq_ignore_ascii_case h (key_of t)) existing
        then record { torrent = t; action = skip_have; dst_dir = [] }
        else (if not (is_selected (key_of t))
            then record { torrent = t; action = skip_unselected; dst_dir = [] }
            else record { torrent = t; action = add_item; dst_dir = remap_path t.save_path remaps })
  ]

  unfoldable pub plan_entries : List ItemProblem → ℕ → List ManifestTorrent → List RestoreItem
  plan_entries errors index [] = []
  plan_entries errors index (t ∷ torrents) =
      plan_entry errors index t ∷ plan_entries errors (suc index) torrents

  unfoldable pub plan_restore :
      (decode read_info_hash : Text → Fallible) → Manifest → List RestoreItem
  plan_restore decode read_info_hash manifest =
      let errors = (validate_manifest decode read_info_hash manifest).errors in
      if not (all (λ (e : ItemProblem). is_none e.index) errors)
        && not (text_beq manifest.format format_tag)
      then map
          (λ t. record {
            torrent = t;
            action = skip_invalid (codes "manifest failed validation");
            dst_dir = [];
          })
          manifest.torrents
      else plan_entries errors 0 manifest.torrents
