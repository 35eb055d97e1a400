-- ===== src/Schedule/Windows.antt =====
-- What the grid of windows decides.
use rstorrent.Base.{
  ℕ, ℤ, ltb_ℤ, beq_ℤ, any, find, is_some, if◌then◌else◌, Bool, true, false, not, ◌&&◌, ◌||◌, Option,
  none, some, List, [], ◌∷◌, ◌≡◌, refl, arith,
}
use rstorrent.Schedule.{
  SchedWindow, TempOverride, is_paused, turtle_active, on_day, window_covers, evaluate_grid,
  evaluate,
}

-- On a selected day a window and the one with its ends swapped cover each minute exactly once: the
-- ranges are half-open, also where one wraps past midnight. Of a window with equal ends neither
-- covers anything.
pub window_covers_swap :
    (w : SchedWindow) (weekday : ℕ) (minute : ℤ)
    → on_day w.days weekday ≡ true
    → window_covers w weekday minute ≡ (
        not (beq_ℤ w.start_min w.end_min)
        && not (
            window_covers
              (record w { start_min = w.end_min; end_min = w.start_min })
              weekday
              minute))
unfolding window_covers
window_covers_swap w weekday minute e = ground arith

-- An override that has not run out.
abbrev pub live : Option TempOverride → ℤ → Bool
live none now_ms = false
live (some o) now_ms = ltb_ℤ now_ms o.until_ms

abbrev pub pauses : Option TempOverride → Bool
pauses none = false
pauses (some o) = o.pause

any-find : (p : SchedWindow → Bool) (ws : List SchedWindow) → any p ws ≡ is_some (find p ws)
any-find p [] = refl
any-find p (w ∷ ws) = ground (arith, any-find p ws)

any_split :
    (p q : SchedWindow → Bool) (ws : List SchedWindow)
    → any p ws ≡ (any (λ w. q w && p w) ws || any (λ w. not (q w) && p w) ws)
any_split p q [] = refl
any_split p q (w ∷ ws) = ground (arith, any_split p q ws)

-- Traffic is paused exactly where a live override says so or, with none, where any pause window
-- covers the minute: limits, their order and the manual toggle play no part.
pub is_paused-evaluate :
    (windows : List SchedWindow) (over : Option TempOverride) (manual : Option (ℤ × ℤ))
    (weekday : ℕ) (minute now_ms : ℤ)
    → is_paused (evaluate windows over manual weekday minute now_ms) ≡ (
        if live over now_ms
        then pauses over
        else any (λ w. w.pause && window_covers w weekday minute) windows)
unfolding is_paused evaluate evaluate_grid
is_paused-evaluate windows over manual weekday minute now_ms = ground arith

-- The schedule is in force, by a limit or a pause, exactly where an override is live, any window
-- covers the minute, or the manual toggle is on.
pub turtle_active-evaluate :
    (windows : List SchedWindow) (over : Option TempOverride) (manual : Option (ℤ × ℤ))
    (weekday : ℕ) (minute now_ms : ℤ)
    → turtle_active (evaluate windows over manual weekday minute now_ms)
      ≡ (live over now_ms || any (λ w. window_covers w weekday minute) windows || is_some manual)
unfolding turtle_active evaluate evaluate_grid
turtle_active-evaluate windows over manual weekday minute now_ms = ground (
  arith,
  any_split (λ w. window_covers w weekday minute) (λ w. w.pause) windows,
  any-find (λ w. not w.pause && window_covers w weekday minute) windows,
)
