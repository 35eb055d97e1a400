-- ===== src/Schedule.antt =====
-- crates/rtorrent/src/schedule.rs: the weekly grid of windows and its preview of the next change (the memory
-- of what a pause window holds is in `Schedule.Held`). Weekdays are `u8`, minutes and rates `i64`.

pub mod Windows
pub mod Boundaries
pub mod Preview
pub mod Held
mod Tests
use rstorrent.Base.{
  ℕ, zero, suc, ◌+◌, ◌%◌, ◌*◌, nat_beq, Text, text_beq, HashSet, insert, remove, is_empty, ℤ, pos,
  pos_part, neg_part, ltb_ℤ, leb_ℤ, beq_ℤ, add_i64, sub_i64, mul_i64, div_euclid, rem_euclid, as_u8,
  sort_by, insert_sorted, filter, any, find, if◌then◌else◌, Bool, true, false, not, ◌&&◌, ◌||◌,
  Option, none, some, List, [], ◌∷◌, ◌++◌, ltb,
}

pub record SchedWindow : Type 0 where
  pub days : List ℕ
  pub start_min : ℤ
  pub end_min : ℤ
  pub pause : Bool
  pub down_kb : ℤ
  pub up_kb : ℤ

pub record TempOverride : Type 0 where
  pub pause : Bool
  pub down_kb : ℤ
  pub up_kb : ℤ
  pub until_ms : ℤ

pub data SchedState : Type 0 where
  open_state paused : SchedState
  limited : (down_kb up_kb : ℤ) → SchedState

unfoldable pub is_paused : SchedState → Bool
is_paused paused = true
is_paused _ = false

unfoldable pub turtle_active : SchedState → Bool
turtle_active open_state = false
turtle_active _ = true

pub record LegacyWindow : Type 0 where
  pub enabled : Bool
  pub start_min : ℤ
  pub end_min : ℤ
  pub days : List ℕ
  pub down_kb : ℤ
  pub up_kb : ℤ

unfoldable pub import_legacy : LegacyWindow → List SchedWindow
import_legacy legacy =
    if not legacy.enabled || beq_ℤ legacy.start_min legacy.end_min
    then []
    else record {
      days = legacy.days;
      start_min = legacy.start_min;
      end_min = legacy.end_min;
      pause = false;
      down_kb = legacy.down_kb;
      up_kb = legacy.up_kb;
    }
      ∷ []

-- `days.is_empty() || days.contains(&weekday)`.
abbrev pub on_day : List ℕ → ℕ → Bool
on_day days weekday = is_empty days || any (λ d. nat_beq d weekday) days

unfoldable pub window_covers : SchedWindow → ℕ → ℤ → Bool
window_covers w weekday minute =
    if not (on_day w.days weekday)
    then false
    else (if beq_ℤ w.start_min w.end_min
        then false
        else (if ltb_ℤ w.start_min w.end_min
            then leb_ℤ w.start_min minute && ltb_ℤ minute w.end_min
            else leb_ℤ w.start_min minute || ltb_ℤ minute w.end_min))

-- What the grid and the manual toggle say, with no override.
unfoldable pub evaluate_grid : List SchedWindow → Option (ℤ × ℤ) → ℕ → ℤ → SchedState
evaluate_grid windows manual weekday minute =
    if any (λ w. w.pause && window_covers w weekday minute) windows
    then paused
    else elim (find (λ w. not w.pause && window_covers w weekday minute) windows) [
      | some w ↦ limited w.down_kb w.up_kb
      | none ↦ elim manual [ some (down, up) ↦ limited down up | none ↦ open_state ]
    ]

unfoldable pub evaluate :
    List SchedWindow → Option TempOverride → Option (ℤ × ℤ) → ℕ → ℤ → ℤ → SchedState
evaluate windows none manual weekday minute now_ms = evaluate_grid windows manual weekday minute
evaluate windows (some o) manual weekday minute now_ms =
    if ltb_ℤ now_ms o.until_ms
    then (if o.pause then paused else limited o.down_kb o.up_kb)
    else evaluate_grid windows manual weekday minute

pub data SchedKind : Type 0 where
  open_kind limited_kind paused_kind : SchedKind

unfoldable pub kind : SchedState → SchedKind
kind open_state = open_kind
kind (limited down up) = limited_kind
kind paused = paused_kind

abbrev pub kind_beq : SchedKind → SchedKind → Bool
kind_beq open_kind open_kind = true
kind_beq limited_kind limited_kind = true
kind_beq paused_kind paused_kind = true
kind_beq _ _ = false

pub record Transition : Type 0 where
  pub in_minutes : ℤ
  pub weekday : ℕ
  pub minute : ℤ
  pub to : SchedKind

-- An event of the preview: minutes since midnight of day 0, the weekday, the minute of the day.
abbrev pub Event : Type 0
Event = ℤ × ℕ × ℤ

-- `(a + b) % 7` on `u8`.
abbrev pub add_day : ℕ → ℕ → ℕ
add_day a b = (a + b) % 256 % 7

-- The two boundaries of a window on the day at an offset.
unfoldable pub window_events : ℕ → ℕ → SchedWindow → List Event
window_events weekday offset w =
    let day = add_day weekday offset in
    let base : ℤ = pos (offset * 1440) in
    if beq_ℤ w.start_min w.end_min
    then []
    else (if not (on_day w.days day)
        then []
        else (add_i64 base w.start_min, day, w.start_min)
          ∷ (if leb_ℤ w.end_min w.start_min
              then (add_i64 (add_i64 base (pos 1440)) w.end_min, add_day day 1, w.end_min)
              else (add_i64 base w.end_min, day, w.end_min))
          ∷ [])

unfoldable pub day_events : ℕ → ℕ → List SchedWindow → List Event
day_events weekday offset [] = []
day_events weekday offset (w ∷ windows) =
    window_events weekday offset w ++ day_events weekday offset windows

-- `for offset in 0..8`, with the offsets left to do.
unfoldable pub offset_events : ℕ → ℕ → ℕ → List SchedWindow → List Event
offset_events weekday offset zero windows = []
offset_events weekday offset (suc left) windows =
    day_events weekday offset windows ++ offset_events weekday (suc offset) left windows

unfoldable pub override_events : Option TempOverride → ℕ → ℤ → ℤ → List Event
override_events none weekday minute now_ms = []
override_events (some o) weekday minute now_ms =
    if ltb_ℤ now_ms o.until_ms
    then (let in_minutes = div_euclid (sub_i64 o.until_ms now_ms) 60000 in
        let total = add_i64 minute in_minutes in
        (total, add_day weekday (as_u8 (div_euclid total 1440)), rem_euclid total 1440) ∷ [])
    else []

-- The order of the tuples answers `Less`.
unfoldable pub event_less : Event → Event → Bool
event_less (a, d, m) (b, e, n) =
    if not (beq_ℤ a b) then ltb_ℤ a b else (if not (nat_beq d e) then ltb d e else ltb_ℤ m n)

abbrev pub event_beq : Event → Event → Bool
event_beq (a, d, m) (b, e, n) = beq_ℤ a b && (nat_beq d e && beq_ℤ m n)

-- `dedup`: one of each run of equal events.
unfoldable pub dedup : List Event → List Event
dedup [] = []
dedup (e ∷ []) = e ∷ []
dedup (e ∷ f ∷ events) = let rest = dedup (f ∷ events) in if event_beq e f then rest else e ∷ rest

unfoldable pub all_events : List SchedWindow → Option TempOverride → ℕ → ℤ → ℤ → List Event
all_events windows over weekday minute now_ms = dedup (
    sort_by event_less
      (offset_events weekday 0 8 windows ++ override_events over weekday minute now_ms))

module _ (windows : List SchedWindow) (over : Option TempOverride) (manual : Option (ℤ × ℤ))
    (minute now_ms : ℤ) where
  -- The kind of state just past an event.
  unfoldable pub kind_past : Event → SchedKind
  kind_past (at, day, min) =
      let past = add_i64 min (pos 1) in
      let late = leb_ℤ (pos 1440) past in
      kind (
        evaluate windows over manual (if late then add_day day 1 else day)
          (if late then pos 0 else past) (add_i64 now_ms (mul_i64 (sub_i64 at minute) (pos 60000))))

  unfoldable pub first_change : SchedKind → List Event → Option Transition
  first_change current [] = none
  first_change current ((at, day, min) ∷ events) =
      if leb_ℤ at minute
      then first_change current events
      else (if not (kind_beq (kind_past (at, day, min)) current)
          then some (record {
            in_minutes = sub_i64 at minute;
            weekday = day;
            minute = min;
            to = kind_past (at, day, min);
          })
          else first_change current events)

unfoldable pub next_change :
    List SchedWindow → Option TempOverride → Option (ℤ × ℤ) → ℕ → ℤ → ℤ → Option Transition
next_change windows over manual weekday minute now_ms =
    let current = kind (evaluate windows over manual weekday minute now_ms) in
    first_change windows over manual minute now_ms current
      (all_events windows over weekday minute now_ms)

unfoldable pub schedule_program : Unit {0}
unfolding is_paused turtle_active import_legacy window_covers evaluate_grid evaluate kind
    window_events day_events offset_events override_events event_less dedup all_events kind_past
    first_change next_change add_i64 sub_i64 mul_i64 div_euclid rem_euclid as_u8 sort_by
    insert_sorted
schedule_program = tt
