-- ===== src/Reorder/Tests.antt =====
-- Runs of the reorder, and the theorem at a concrete input.
use rstorrent.Base.{
  codes, pos, negsuc, text_beq, text_ltb, add_i64, sub_i64, put, insert, extend, insert_sorted,
  sort_by, some, Distinct, List, [], ◌∷◌, true, ◌≡◌, refl,
}
use rstorrent.Queue.{started_key, order_key, better}
use rstorrent.Reorder.Writes.{written, plan_reorder-Distinct}
use rstorrent.Reorder.{
  top, up, down, bottom, rewrite_first, emit_reorder, row_with, rank_before, ordered_hashes, key_of,
  swap_next, exchange, place, up_step, down_step, top_step, bottom_step, each, extreme, positions,
  plan_reorder, force_toggle_value,
}
use rstorrent.Torrent.{RawTorrent, blank}

program : Unit {0}
unfolding text_beq text_ltb add_i64 sub_i64 put insert extend insert_sorted sort_by started_key
    order_key better rewrite_first emit_reorder row_with rank_before ordered_hashes key_of swap_next
    exchange place up_step down_step top_step bottom_step each extreme positions plan_reorder
    force_toggle_value
program = tt

abbrev first : RawTorrent
first = record blank { hash = codes "A"; priority = pos 2; queue_pos = some (pos 1) }

abbrev second : RawTorrent
second = record blank { hash = codes "B"; priority = pos 2; queue_pos = some (pos 2) }

abbrev third : RawTorrent
third = record blank {
  hash = codes "C";
  priority = pos 2;
  queue_pos = some (pos 3);
  force_start = true;
}

abbrev library : List RawTorrent
library = third ∷ first ∷ second ∷ []

-- The block of B and C glides over A: three writes for two exchanges.
plan_reorder-up :
    plan_reorder library (codes "C" ∷ codes "B" ∷ []) up
    ≡ record { hash = codes "B"; priority = pos 2; pos_value = pos 1 }
      ∷ record { hash = codes "A"; priority = pos 2; pos_value = pos 3 }
      ∷ record { hash = codes "C"; priority = pos 2; pos_value = pos 2 }
      ∷ []
unfolding program
plan_reorder-up = refl

plan_reorder-top :
    plan_reorder library (codes "C" ∷ codes "B" ∷ []) top
    ≡ record { hash = codes "B"; priority = pos 3; pos_value = pos 0 }
      ∷ record { hash = codes "C"; priority = pos 3; pos_value = negsuc 0 }
      ∷ []
unfolding program
plan_reorder-top = refl

plan_reorder-down :
    plan_reorder library (codes "A" ∷ []) down
    ≡ record { hash = codes "A"; priority = pos 2; pos_value = pos 2 }
      ∷ record { hash = codes "B"; priority = pos 2; pos_value = pos 1 }
      ∷ []
unfolding program
plan_reorder-down = refl

plan_reorder-bottom :
    plan_reorder library (codes "A" ∷ []) bottom
    ≡ record { hash = codes "A"; priority = pos 0; pos_value = pos 4 } ∷ []
unfolding program
plan_reorder-bottom = refl

force_toggle_value-mixed : force_toggle_value library (codes "A" ∷ codes "C" ∷ []) ≡ codes "1"
unfolding program
force_toggle_value-mixed = refl

force_toggle_value-on : force_toggle_value library (codes "C" ∷ []) ≡ []
unfolding program
force_toggle_value-on = refl

plan_reorder-Distinct_example :
    Distinct (written (plan_reorder library (codes "C" ∷ codes "B" ∷ []) up))
plan_reorder-Distinct_example = plan_reorder-Distinct library (codes "C" ∷ codes "B" ∷ []) up
