-- ===== src/Schedule/Preview.antt =====
-- `next_change` against the boundaries it stands for.
use rstorrent.Base.{ℤ, ◌<ℤ◌, ◌≤ℤ◌, sub_i64, Option, none, some, List, ◌≡◌, ◌≢◌}
use rstorrent.Schedule.{SchedWindow, TempOverride, SchedKind, Transition, Event, kind_past}

-- One event is no later than the other.
abbrev pub NoLater : Event → Event → Type 0
NoLater e f = e.0 ≤ℤ f.0

module _ (windows : List SchedWindow) (over : Option TempOverride) (manual : Option (ℤ × ℤ))
    (minute now_ms : ℤ) where
  abbrev past : Event → SchedKind
  past = kind_past windows over manual minute now_ms

  -- An event that lies ahead and past which the state is of another kind.
  pub record Changes (current : SchedKind) (e : Event) : Type 0 where
    pub ahead : minute <ℤ e.0
    pub change : past e ≢ current

  -- A preview that announces the earliest change among the events of a kind.
  pub record Announces (current : SchedKind) (Listed : Event → Type 0) (t : Transition)
      : Type 0 where
    pub event : Event
    pub listed : Listed event
    pub changes : Changes current event
    pub earliest : (f : Event) → Listed f → f.0 <ℤ event.0 → minute <ℤ f.0 → past f ≡ current
    pub told : t ≡ record {
      in_minutes = sub_i64 event.0 minute;
      weekday = event.1;
      minute = event.2;
      to = past event;
    }

-- What a preview foretells, for the events of a kind: the earliest change among them, or that
-- there is none.
unfoldable pub Foretells :
    (List SchedWindow)
    → Option TempOverride
    → Option (ℤ × ℤ)
    → ℤ
    → ℤ
    → SchedKind
    → (Event → Type 0)
    → Option Transition
    → Type 0
Foretells windows over manual minute now_ms current Listed none =
    (f : Event) → Listed f → minute <ℤ f.0 → kind_past windows over manual minute now_ms f ≡ current
Foretells windows over manual minute now_ms current Listed (some t) =
    Announces windows over manual minute now_ms current Listed t
