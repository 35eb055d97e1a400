-- ===== src/Schedule/Tests.antt =====
-- Runs of the schedule, and the theorems at concrete inputs.
use rstorrent.Base.{pos, true, false, none, some, [], ◌∷◌, ◌≡◌, refl}
use rstorrent.Schedule.Held.{SchedMemory}
use rstorrent.Schedule.{
  SchedWindow, TempOverride, Transition, limited_kind, open_kind, window_covers, evaluate, kind,
  next_change, schedule_program,
}

-- Every night from 23:00 to 06:00 at 100 KiB/s.
abbrev night : SchedWindow
night = record {
  days = [];
  start_min = pos 1380;
  end_min = pos 360;
  pause = false;
  down_kb = pos 100;
  up_kb = pos 100;
}

abbrev until_noon : TempOverride
until_noon = record { pause = true; down_kb = pos 0; up_kb = pos 0; until_ms = pos 600000 }

abbrev evening : Transition
evening = record { in_minutes = pos 180; weekday = 2; minute = pos 1380; to = limited_kind }

covers-night : (window_covers night 3 (pos 30) ≡ true) × (window_covers night 3 (pos 600) ≡ false)
unfolding schedule_program
covers-night = (refl, refl)

-- At 20:00 on a Tuesday the next change is the window at 23:00.
next_change-night : next_change (night ∷ []) none none 2 (pos 1200) (pos 0) ≡ some evening
unfolding schedule_program
next_change-night = refl

-- At 01:00 the nightly limit ends at 06:00 of the same day, and the preview names 06:00 of the day
-- after: the end of a window that wraps is an event of the next day only.
next_change-morning :
    (kind (evaluate (night ∷ []) none none 2 (pos 359) (pos 0)) ≡ limited_kind)
    × (kind (evaluate (night ∷ []) none none 2 (pos 360) (pos 0)) ≡ open_kind)
    × (next_change (night ∷ []) none none 2 (pos 60) (pos 0)
        ≡ some (record { in_minutes = pos 1740; weekday = 3; minute = pos 360; to = open_kind }))
unfolding schedule_program
next_change-morning = (refl, refl, refl)

abbrev awake : SchedMemory
awake = record { was_paused = false; held = [] }
