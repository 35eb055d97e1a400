-- ===== src/Session/Tests.antt =====
-- Runs of validation and of the plan, and the theorems at concrete inputs.
use rstorrent.Base.{
  Text, codes, pos, text_beq, trim, trim_end, trim_start_by, trim_end_by, trim_end_slashes,
  is_whitespace, to_ascii_uppercase, ascii_upper, to_ascii_lowercase, ascii_lower,
  eq_ignore_ascii_case, insert, filter, length, not, true, false, Option, none, some, In, Distinct,
  List, [], ◌∷◌, ◌++◌, map, ◌≤◌, ◌≡◌, refl,
}
use rstorrent.Session.Entries.{plan_valid}
use rstorrent.Session.Restore.{
  is_add, is_invalid, item_key, IsFresh, plan_restore-IsFresh, restorable_count-plan,
  plan_restore_unsupported,
}
use rstorrent.Session.{
  Manifest, ManifestTorrent, ManifestSource, magnet, Fallible, err, RestoreItem, add_item,
  skip_invalid, format_tag, is_info_hash, key_of, base64_decode, source_finding, entry_finding,
  entry_problems, validate_manifest, remap_path, reason_at, plan_entry, plan_entries, plan_restore,
}

program : Unit {0}
unfolding text_beq trim trim_end trim_start_by trim_end_by trim_end_slashes is_whitespace
    to_ascii_uppercase ascii_upper to_ascii_lowercase ascii_lower eq_ignore_ascii_case insert
    is_info_hash key_of base64_decode source_finding entry_finding entry_problems validate_manifest
    remap_path reason_at plan_entry plan_entries plan_restore
program = tt

-- No embedded file decodes.
abbrev no_file : Text → Fallible
no_file s = err (codes "none")

abbrev ten : Text
ten = codes "0123456789"

abbrev entry : Text → Option ManifestSource → ManifestTorrent
entry hash source = record {
  hash = hash;
  name = codes "n";
  source = source;
  save_path = codes "/old/media/n";
  label = [];
  tags = [];
  priority = pos 1;
  throttle = [];
  peers_max = pos 0;
  peers_min = pos 0;
  uploads_max = pos 0;
  trackers = [];
  added_by = [];
  source_path = [];
  added_at = pos 0;
  queue_pos = none;
  force_start = false;
}

abbrev good : ManifestTorrent
good = entry (ten ++ (ten ++ (ten ++ codes "abcdefABCD"))) (some (magnet (codes "magnet:?x")))

abbrev twin : ManifestTorrent
twin = entry (ten ++ (ten ++ (ten ++ codes "ABCDEFabcd"))) (some (magnet (codes "magnet:?y")))

abbrev short : ManifestTorrent
short = entry ten (some (magnet (codes "magnet:?z")))

abbrev manifest : Manifest
manifest = record {
  format = format_tag;
  exported_at = pos 0;
  client = [];
  client_version = [];
  global = record { down_kb = pos 0; up_kb = pos 0 };
  torrents = short ∷ good ∷ twin ∷ [];
}

abbrev newer : Manifest
newer = record manifest { format = codes "rstorrent-session/99" }

abbrev remaps : List (Text × Text)
remaps = (codes "/old/", codes "/srv") ∷ []

plan_restore-manifest :
    map (λ (i : RestoreItem). i.action) (plan_restore [] none remaps no_file no_file manifest)
    ≡ skip_invalid (codes "not a 40-digit hex info-hash")
      ∷ add_item
      ∷ skip_invalid (codes "duplicate info-hash in this manifest")
      ∷ []
unfolding program
plan_restore-manifest = refl

remap_path-old : remap_path (codes "/old/media/n") remaps ≡ codes "/srv/media/n"
unfolding program
remap_path-old = refl

remap_path-other : remap_path (codes "/older/n") remaps ≡ codes "/older/n"
unfolding program
remap_path-other = refl

-- The entries of a manifest that this client does not read are all added, the bad hash too.
plan_restore-newer :
    map (λ (i : RestoreItem). i.action) (plan_restore [] none [] no_file no_file newer)
    ≡ add_item ∷ add_item ∷ add_item ∷ []
unfolding program
plan_restore-newer = refl

right_format : text_beq manifest.format format_tag ≡ true
unfolding program
right_format = refl

wrong_format : text_beq newer.format format_tag ≡ false
unfolding program
wrong_format = refl

plan_restore-IsFresh_example :
    ((item : RestoreItem)
      → In item (plan_restore [] none remaps no_file no_file manifest)
      → is_add item ≡ true
      → IsFresh no_file no_file [] none remaps [] item)
    × Distinct (map item_key (filter is_add (plan_restore [] none remaps no_file no_file manifest)))
plan_restore-IsFresh_example =
    plan_restore-IsFresh no_file no_file [] none remaps manifest right_format

restorable_count-plan_example :
    ((validate_manifest no_file no_file manifest).restorable_count
      ≡ length
          (filter (λ i. not (is_invalid i)) (plan_restore [] none remaps no_file no_file manifest)))
    × (length (validate_manifest no_file no_file manifest).errors ≤ 3)
restorable_count-plan_example =
    restorable_count-plan no_file no_file [] none remaps manifest right_format

plan_restore_unsupported_example :
    plan_restore [] none remaps no_file no_file newer
    ≡ map (plan_valid no_file no_file [] none remaps) newer.torrents
plan_restore_unsupported_example =
    plan_restore_unsupported no_file no_file [] none remaps newer wrong_format
