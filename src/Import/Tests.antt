-- ===== src/Import/Tests.antt =====
-- Runs of an import against a small daemon, and the theorems at concrete inputs.
use rstorrent.Base.{
  contains_text, Text, codes, pos, text_beq, trim, trim_end, trim_start_by, trim_end_by,
  is_whitespace, to_ascii_uppercase, ascii_upper, to_ascii_lowercase, ascii_lower,
  eq_ignore_ascii_case, length, true, false, none, some, List, [], ◌∷◌, ◌++◌, ◌≡◌, refl,
}
use rstorrent.Session.{magnet, Fallible, err, key_of, base64_decode}
use rstorrent.Import.Again.{run_import-total, run_import_again}
use rstorrent.Import.Counts.{total, has}
use rstorrent.Import.{
  ImportJournal, PlannedRestore, Backend, Run, done_set, mark_done, is_missing, row_verdict,
  rows_verdict, wait_rounds, wait_for_check, fail_with, no_source, resolve_source, set_metadata,
  record_done, after_check, after_load, load_options, import_item, import_items, run_import,
}
use rstorrent.Torrent.{blank}

program : Unit {0}
unfolding text_beq trim trim_end trim_start_by trim_end_by is_whitespace to_ascii_uppercase
    ascii_upper to_ascii_lowercase ascii_lower eq_ignore_ascii_case key_of base64_decode done_set
    mark_done contains_text is_missing row_verdict rows_verdict wait_rounds wait_for_check fail_with
    no_source resolve_source set_metadata record_done after_check after_load load_options
    import_item import_items run_import
program = tt

abbrev no_file : Text → Fallible
no_file s = err (codes "none")

-- A daemon that writes down its calls and lists one torrent, whose data is there.
abbrev daemon : Backend (List Text)
daemon = record {
  load = λ source options w. (w ++ codes "load" ∷ [], none);
  set_tags = λ hash tags w. w;
  set_priority = λ hash p w. w;
  set_connection_limits = λ hash a c d w. w;
  assign_throttle = λ hash name w. w;
  set_custom_metadata = λ hash pairs w. w;
  recheck = λ hash w. (w ++ codes "recheck" ∷ [], none);
  start = λ hash w. (w ++ codes "start" ∷ [], none);
  sleep_and_list = λ w. (w, some (record blank { hash = codes "AB" } ∷ []));
  now_ms = λ w. pos 7;
  show_ms = λ n. [];
  save = λ j w. w ++ codes "save" ∷ [];
  cancelled = λ w. false;
}

abbrev item : Text → PlannedRestore
item hash = record {
  torrent = record {
    hash = hash;
    name = codes "n";
    source = some (magnet (codes "magnet:?x"));
    save_path = [];
    label = [];
    tags = [];
    priority = pos 1;
    throttle = [];
    peers_max = pos 0;
    peers_min = pos 0;
    uploads_max = pos 0;
    trackers = [];
    added_by = [];
    source_path = [];
    added_at = pos 0;
    queue_pos = none;
    force_start = false;
  };
  dst_dir = codes "/dl";
}

abbrev fresh : ImportJournal
fresh = record { manifest_id = []; total = 1; done = []; started_ms = pos 0; updated_ms = pos 0 }

first_run : Run (List Text)
unfolding program
first_run = run_import daemon no_file no_file (item (codes "ab") ∷ []) fresh []

first_run-world :
    first_run.world ≡ codes "load" ∷ codes "recheck" ∷ codes "start" ∷ codes "save" ∷ []
unfolding program first_run
first_run-world = refl

first_run-done : first_run.journal.done ≡ codes "AB" ∷ []
unfolding program first_run
first_run-done = refl

-- The daemon lists no torrent with this hash: it fails, and is recorded all the same.
vanished :
    (run_import daemon no_file no_file (item (codes "cd") ∷ []) fresh []).summary.failed
    ≡ codes "n: recheck failed — torrent vanished during recheck (kept stopped)" ∷ []
unfolding program
vanished = refl

run_import-total_example :
    (total
        (run_import daemon no_file no_file
          (item (codes "ab") ∷ item (codes "cd") ∷ [])
          fresh
          []).summary
      ≡ 2)
    × ((h : Text)
        → has fresh h ≡ true
        → has
            (run_import daemon no_file no_file
              (item (codes "ab") ∷ item (codes "cd") ∷ [])
              fresh
              []).journal
            h
          ≡ true)
run_import-total_example =
    run_import-total daemon no_file no_file (λ w. refl) (item (codes "ab") ∷ item (codes "cd") ∷ [])
      fresh []

nothing_failed :
    length (run_import daemon no_file no_file (item (codes "ab") ∷ []) fresh []).summary.failed ≡ 0
unfolding program
nothing_failed = refl

run_import_again_example :
    let r = run_import daemon no_file no_file (item (codes "ab") ∷ []) fresh [] in
    run_import daemon no_file no_file (item (codes "ab") ∷ []) r.journal r.world ≡ record {
      world = r.world;
      journal = r.journal;
      summary = record { added = 0; resumed = 1; skipped = 0; failed = [] };
      log = [];
    }
run_import_again_example =
    run_import_again daemon no_file no_file (λ w. refl) (item (codes "ab") ∷ []) fresh []
      nothing_failed
