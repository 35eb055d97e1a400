-- ===== src/Delta/Tests.antt =====
-- Runs of `diff` and `apply`, and the theorems at concrete inputs.
use rstorrent.Base.{
  Text, codes, pos, text_beq, text_ltb, put, insert, extend, insert_sorted, sort_by, true, Distinct,
  distinct_test-Distinct, [], ◌∷◌, map, ◌≡◌, refl,
}
use rstorrent.Types.Samples.{whole, blank_dto, no_globals, live}
use rstorrent.Types.{TorrentDto, Snapshot}
use rstorrent.Base.{ℤ}
use rstorrent.Delta.Tables.{hashes, keep}
use rstorrent.Delta.RoundTrip.{apply-diff}
use rstorrent.Delta.{
  stale, overflow, applied, same_torrent, table_from, table, hash_set, rows_at, changed_at, by_hash,
  diff, carry_over, apply,
}

program : Unit {0}
unfolding text_beq text_ltb put insert extend insert_sorted sort_by same_torrent table_from table
    hash_set rows_at changed_at diff carry_over apply
program = tt

abbrev row : Text → Text → TorrentDto ℤ
row hash name = record blank_dto { hash = hash; name = name }

abbrev before : Snapshot ℤ
before = record {
  revision = 5;
  torrents = row (codes "A") (codes "a") ∷ row (codes "B") (codes "b") ∷ [];
  globals = no_globals;
  connection = live;
}

abbrev after : Snapshot ℤ
after = record {
  revision = 6;
  torrents = row (codes "C") (codes "c") ∷ row (codes "B") (codes "b2") ∷ [];
  globals = no_globals;
  connection = live;
}

diff-after : (diff whole before after).removed ≡ codes "A" ∷ []
unfolding program
diff-after = refl

updated-after : (diff whole before after).updated ≡ row (codes "B") (codes "b2") ∷ []
unfolding program
updated-after = refl

-- Another size is no change: the client keeps the old one.
resized : Snapshot ℤ
resized = record before {
  revision = 6;
  torrents = record (row (codes "A") (codes "a")) { size = pos 7; is_active = true } ∷ [];
}

diff-resized : (diff whole before resized).updated ≡ []
unfolding program resized
diff-resized = refl

-- A delta for another revision, and one that removes what is not there.
apply-stale : apply whole after (diff whole before after) ≡ stale
unfolding program
apply-stale = refl

apply-overflow :
    apply whole
      (record before { torrents = [] })
      (record {
        revision = 6;
        base_revision = 5;
        added = [];
        updated = [];
        removed = codes "A" ∷ [];
        globals = no_globals;
        connection = live;
      })
    ≡ overflow
unfolding program
apply-overflow = refl

before-Distinct : Distinct (hashes whole before.torrents)
unfolding program
before-Distinct = distinct_test-Distinct (hashes whole before.torrents) refl

after-Distinct : Distinct (hashes whole after.torrents)
unfolding program
after-Distinct = distinct_test-Distinct (hashes whole after.torrents) refl

apply-diff_example :
    apply whole before (diff whole before after)
    ≡ applied (record after {
      torrents = sort_by (by_hash whole) (map (keep whole before.torrents) after.torrents);
    })
apply-diff_example = apply-diff whole before after before-Distinct after-Distinct
