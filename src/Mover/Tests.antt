-- ===== src/Mover/Tests.antt =====
-- Runs of the move planner and the journal, and the theorems at concrete inputs.
use rstorrent.Base.{
  map, Text, codes, pos, text_beq, trim, trim_end_slashes, trim_end, trim_start_by, trim_end_by,
  is_whitespace, eq_ignore_ascii_case, to_ascii_lowercase, ascii_lower, insert, true, false, none,
  some, In, distinct_test-Distinct, List, [], ◌∷◌, ◌≡◌, refl, inl, sub_i64, arith,
}
use rstorrent.Complete.Collision.{Resolves, resolve_collision-Resolves}
use rstorrent.Complete.Journal.{MoveOp, pending, in_progress, HasOneMove, add, mark}
use rstorrent.Complete.{
  MoveRule, auto_rename, ok, trimmed, tag_rule, label_rule, tag_matches, label_matches,
  resolve_destination, label_path_rules, completion_destination, plan_move, decimal, rfind_dot,
  split_ext, numbered, first_free, resolve_collision,
}
use rstorrent.Mover.Plans.{homed-decide_moves}
use rstorrent.Mover.Runs.{Reach, here, next, planned, marked, Reach-HasOneMove}
use rstorrent.Mover.{
  MoveIntent, MoveStore, intent_of, decide_from, decide_moves, is_homed, homed_hashes,
}
use rstorrent.Torrent.{RawTorrent, blank}

program : Unit {0}
unfolding text_beq trim trim_end_slashes trim_end trim_start_by trim_end_by is_whitespace
    eq_ignore_ascii_case to_ascii_lowercase ascii_lower insert trimmed tag_rule label_rule
    tag_matches label_matches resolve_destination label_path_rules completion_destination plan_move
    decimal rfind_dot split_ext numbered first_free resolve_collision intent_of decide_from
    decide_moves is_homed homed_hashes add mark sub_i64
program = tt

-- ASCII text is its own stand-in for the case mapping.
abbrev lower : Text → Text
lower s = s

abbrev films : List MoveRule
films = record { tag = none; label = some (codes "films"); destination = codes "/films" } ∷ []

abbrev film : RawTorrent
film = record blank {
  hash = codes "A";
  name = codes "Film.mkv";
  label = codes "films";
  complete = true;
  directory = codes "/tmp/";
  base_path = codes "/tmp/Film.mkv";
}

abbrev home : RawTorrent
home = record film { hash = codes "B"; directory = codes "/films/"; final_dir = codes "/films" }

abbrev library : List RawTorrent
library = film ∷ film ∷ home ∷ []

abbrev film_intent : MoveIntent
film_intent = record {
  hash = codes "A";
  name = codes "Film.mkv";
  src_base = codes "/tmp/Film.mkv";
  dst_dir = codes "/films";
  size_bytes = pos 0;
  remaining = pos 0;
  was_active = false;
}

decide_moves-library : decide_moves lower films [] library [] [] ≡ film_intent ∷ []
unfolding program
decide_moves-library = refl

homed_hashes-library : homed_hashes lower films [] library ≡ codes "B" ∷ []
unfolding program
homed_hashes-library = refl

abbrev siblings : List Text
siblings = codes "FILM.mkv" ∷ codes "Film (1).MKV" ∷ []

resolve_collision-film :
    resolve_collision to_ascii_lowercase
      (codes "/films/")
      (codes "Film.mkv")
      (map to_ascii_lowercase siblings)
      auto_rename
    ≡ ok (codes "/films/Film (2).mkv")
unfolding program
resolve_collision-film = refl

homed-decide_moves_example : ¬ In (codes "A") (homed_hashes lower films [] (film ∷ home ∷ []))
unfolding program
homed-decide_moves_example =
    homed-decide_moves lower films [] (film ∷ home ∷ []) [] [] film_intent
      (distinct_test-Distinct (codes "A" ∷ codes "B" ∷ []) refl) (inl refl)

resolve_collision-Resolves_example :
    Resolves to_ascii_lowercase siblings auto_rename
      (trim_end_slashes (trim (codes "/films/")))
      (trim (codes "Film.mkv"))
      (resolve_collision to_ascii_lowercase
        (codes "/films/")
        (codes "Film.mkv")
        (map to_ascii_lowercase siblings)
        auto_rename)
resolve_collision-Resolves_example =
    resolve_collision-Resolves to_ascii_lowercase siblings (codes "/films/") (codes "Film.mkv")
      auto_rename

abbrev op : MoveOp
op = record {
  id = codes "A-1";
  hash = codes "A";
  name = codes "Film.mkv";
  src = codes "/tmp/Film.mkv";
  dst = codes "/films/Film.mkv";
  state = pending;
  error = [];
  size_bytes = pos 0;
  created_at_ms = pos 1;
  updated_at_ms = pos 1;
}

abbrev idle : MoveStore
idle = record { journal = []; active = [] }

-- A move is planned, planned again under another case of the hash, and started.
planned_twice : (s : MoveStore) × Reach idle s
unfolding program
planned_twice = (
  _,
  next (next (next here (planned op)) (planned (record op { id = codes "A-2"; hash = codes "a" })))
      (marked (codes "A-1") [] in_progress (pos 2) (λ o e _. ground (arith, e))),
)

Reach-HasOneMove_example : HasOneMove planned_twice.0.journal
Reach-HasOneMove_example = Reach-HasOneMove planned_twice.1 tt
