-- ===== src/Schedule/Boundaries.antt =====
-- The events of `next_change`, from what they stand for.
use rstorrent.Base.{
  ℕ, zero, suc, ◌+◌, ◌*◌, ◌≤◌, ◌<◌, nat_beq, ℤ, pos, ◌<ℤ◌, leb_ℤ, ltb_ℤ, beq_ℤ, beq_ℤ_iff, add_i64,
  sub_i64, div_euclid, rem_euclid, as_u8, In, In-append, In-append_left, In-append_right,
  In-sort_by, sort_by-In, true, false, Option, some, List, [], ◌∷◌, ◌++◌, ◌≡◌, ◌≢◌, inl, inr, refl,
  ◌∙◌, subst, Bool-cases, Option-cases, arith,
}
use rstorrent.Schedule.{
  SchedWindow, TempOverride, Event, on_day, add_day, window_events, day_events, offset_events,
  override_events, event_less, event_beq, dedup, all_events,
}

-- A window opens on the day that lies so many days ahead.
pub record Opens (windows : List SchedWindow) (weekday offset : ℕ) (w : SchedWindow) : Type 0 where
  pub listed : In w windows
  pub near : offset < 8
  pub lasting : w.start_min ≢ w.end_min
  pub day : on_day w.days (add_day weekday offset) ≡ true

-- The moments at which the preview may look for a change: of each window that opens on one of the
-- eight days from today its start, and its end on the same day or, where it comes before the start
-- in the day, on the next; and the end of an override that is not over.
pub data IsBoundary (windows : List SchedWindow) (over : Option TempOverride) (weekday : ℕ)
    (minute now_ms : ℤ) (e : Event) : Type 0 where
  opening :
      (offset : ℕ) (w : SchedWindow)
      → Opens windows weekday offset w
      → e ≡ (add_i64 (pos (offset * 1440)) w.start_min, add_day weekday offset, w.start_min)
      → IsBoundary windows over weekday minute now_ms e
  closing :
      (offset : ℕ) (w : SchedWindow)
      → Opens windows weekday offset w
      → w.start_min <ℤ w.end_min
      → e ≡ (add_i64 (pos (offset * 1440)) w.end_min, add_day weekday offset, w.end_min)
      → IsBoundary windows over weekday minute now_ms e
  closing_next_day :
      (offset : ℕ) (w : SchedWindow)
      → Opens windows weekday offset w
      → w.end_min <ℤ w.start_min
      → e ≡ (
        add_i64 (add_i64 (pos (offset * 1440)) (pos 1440)) w.end_min,
        add_day (add_day weekday offset) 1,
        w.end_min,
      )
      → IsBoundary windows over weekday minute now_ms e
  expiry :
      (o : TempOverride)
      → over ≡ some o
      → now_ms <ℤ o.until_ms
      → (let total = add_i64 minute (div_euclid (sub_i64 o.until_ms now_ms) 60000) in
          e ≡ (total, add_day weekday (as_u8 (div_euclid total 1440)), rem_euclid total 1440))
      → IsBoundary windows over weekday minute now_ms e

beq_ℤ_apart : (a b : ℤ) → a ≢ b → beq_ℤ a b ≡ false
beq_ℤ_apart a b apart = elim (Bool-cases (beq_ℤ a b)) [
  | inl same ↦ absurd (apart ((beq_ℤ_iff a b).0 same))
  | inr other ↦ other
]

event_beq_sound : (a b : Event) → event_beq a b ≡ true → a ≡ b
event_beq_sound (a, d, m) (b, e, n) h =
    let p : a ≡ b = (beq_ℤ_iff a b).0 (ground (arith, h)) in
    let q : d ≡ e = ground (arith, h) in let r : m ≡ n = (beq_ℤ_iff m n).0 (ground (arith, h)) in cc

In-dedup : (f : Event) (events : List Event) → In f (dedup events) → In f events
unfolding dedup
In-dedup f [] i = i
In-dedup f (a ∷ []) i = i
In-dedup f (a ∷ b ∷ events) i = elim (Bool-cases (event_beq a b)) [
  | inl e ↦ inr (In-dedup f (b ∷ events) (rw (dedup, e) at i))
  | inr e ↦ elim (rw (dedup, e) at i) [
    | inl same ↦ inl same
    | inr j ↦ inr (In-dedup f (b ∷ events) j)
  ]
]

dedup-In : (f : Event) (events : List Event) → In f events → In f (dedup events)
unfolding dedup
dedup-In f [] i = i
dedup-In f (a ∷ []) i = i
dedup-In f (a ∷ b ∷ events) (inl same) = elim (Bool-cases (event_beq a b)) [
  | inl e ↦ rw (dedup, e) (dedup-In f (b ∷ events) (inl (same ∙ event_beq_sound a b e)))
  | inr e ↦ rw (dedup, e) (inl same)
]
dedup-In f (a ∷ b ∷ events) (inr i) = elim (Bool-cases (event_beq a b)) [
  | inl e ↦ rw (dedup, e) (dedup-In f (b ∷ events) i)
  | inr e ↦ rw (dedup, e) (inr (dedup-In f (b ∷ events) i))
]

module _ (windows : List SchedWindow) (over : Option TempOverride) (weekday : ℕ)
    (minute now_ms : ℤ) where
  abbrev Boundary : Event → Type 0
  Boundary e = IsBoundary windows over weekday minute now_ms e

  window_events-IsBoundary :
      (offset : ℕ) (w : SchedWindow) (f : Event)
      → offset < 8
      → In w windows
      → In f (window_events weekday offset w)
      → Boundary f
  unfolding window_events
  window_events-IsBoundary offset w f near listed i =
      elim (Bool-cases (beq_ℤ w.start_min w.end_min)) [
        | inl e ↦ absurd (rw (window_events, e) at i)
        | inr e ↦ elim (Bool-cases (on_day w.days (add_day weekday offset))) [
          | inr e' ↦ absurd (rw (window_events, e, e') at i)
          | inl e' ↦
              let opens : Opens windows weekday offset w = record {
                listed = listed;
                near = near;
                lasting = λ same. let yes = (beq_ℤ_iff w.start_min w.end_min).1 same in cc;
                day = e';
              } in
              elim (Bool-cases (leb_ℤ w.end_min w.start_min)) [
                | inl wraps ↦ elim (rw (window_events, e, e', wraps) at i) [
                  | inl same ↦ opening offset w opens same
                  | inr (inl same) ↦ closing_next_day offset w opens (ground (arith, wraps, e)) same
                  | inr (inr more) ↦ absurd more
                ]
                | inr plain ↦ elim (rw (window_events, e, e', plain) at i) [
                  | inl same ↦ opening offset w opens same
                  | inr (inl same) ↦ closing offset w opens (ground (arith, plain)) same
                  | inr (inr more) ↦ absurd more
                ]
              ]
        ]
      ]

  day_events-IsBoundary :
      (offset : ℕ) (ws : List SchedWindow) (f : Event)
      → offset < 8
      → ((w : SchedWindow) → In w ws → In w windows)
      → In f (day_events weekday offset ws)
      → Boundary f
  unfolding day_events
  day_events-IsBoundary offset [] f near sub i = absurd i
  day_events-IsBoundary offset (w ∷ ws) f near sub i =
      elim (In-append f (window_events weekday offset w) (day_events weekday offset ws) i) [
        | inl j ↦ window_events-IsBoundary offset w f near (sub w (inl refl)) j
        | inr j ↦ day_events-IsBoundary offset ws f near (λ x k. sub x (inr k)) j
      ]

  offset_events-IsBoundary :
      (offset left : ℕ) (f : Event)
      → offset + left ≤ 8
      → In f (offset_events weekday offset left windows)
      → Boundary f
  unfolding offset_events
  offset_events-IsBoundary offset zero f near i = absurd i
  offset_events-IsBoundary offset (suc left) f near i =
      elim (In-append f (day_events weekday offset windows)
        (offset_events weekday (suc offset) left windows) i) [
          | inl j ↦ day_events-IsBoundary offset windows f (omega (arith, near)) (λ x k. k) j
          | inr j ↦ offset_events-IsBoundary (suc offset) left f (omega (arith, near)) j
        ]

  day_events-In :
      (offset : ℕ) (ws : List SchedWindow) (w : SchedWindow) (f : Event)
      → In w ws
      → In f (window_events weekday offset w)
      → In f (day_events weekday offset ws)
  unfolding day_events
  day_events-In offset [] w f i j = absurd i
  day_events-In offset (x ∷ ws) w f (inl same) j =
      In-append_left f (window_events weekday offset x) (day_events weekday offset ws)
        (subst (λ y. In f (window_events weekday offset y)) same j)
  day_events-In offset (x ∷ ws) w f (inr i) j =
      In-append_right f (window_events weekday offset x) (day_events weekday offset ws)
        (day_events-In offset ws w f i j)

  offset_events-In :
      (offset left k : ℕ) (f : Event)
      → offset ≤ k
      → k < offset + left
      → In f (day_events weekday k windows)
      → In f (offset_events weekday offset left windows)
  unfolding offset_events
  offset_events-In offset zero k f low high i = absurd (omega (arith, low, high))
  offset_events-In offset (suc left) k f low high i = elim (Bool-cases (nat_beq offset k)) [
    | inl e ↦
        let same : k ≡ offset = ground (arith, e) in
        In-append_left f (day_events weekday offset windows)
          (offset_events weekday (suc offset) left windows)
          (subst (λ x. In f (day_events weekday x windows)) same i)
    | inr e ↦
        In-append_right f (day_events weekday offset windows)
          (offset_events weekday (suc offset) left windows)
          (offset_events-In (suc offset) left k f (ground (arith, low, e)) (omega (arith, high)) i)
  ]

  listed_event :
      (f : Event)
      → In f (offset_events weekday 0 8 windows ++ override_events over weekday minute now_ms)
      → In f (all_events windows over weekday minute now_ms)
  unfolding all_events
  listed_event f i = dedup-In f _ (
      sort_by-In event_less f
        (offset_events weekday 0 8 windows ++ override_events over weekday minute now_ms) i)

  opened_event :
      (offset : ℕ) (w : SchedWindow) (f : Event)
      → Opens windows weekday offset w
      → In f (window_events weekday offset w)
      → In f (all_events windows over weekday minute now_ms)
  opened_event offset w f opens i = listed_event f (
      In-append_left f (offset_events weekday 0 8 windows)
        (override_events over weekday minute now_ms)
        (offset_events-In 0 8 offset f (omega arith) (omega (arith, opens.near))
          (day_events-In offset windows w f opens.listed i)))

  override_events-IsBoundary :
      (f : Event) → In f (override_events over weekday minute now_ms) → Boundary f
  unfolding override_events
  override_events-IsBoundary f i = elim (Option-cases over) [
    | inl e ↦ absurd (rw e at i)
    | inr (o, e) ↦ elim (Bool-cases (ltb_ℤ now_ms o.until_ms)) [
      | inl lasts ↦ elim (rw (e, lasts) at i) [
        | inl same ↦ expiry o e (ground (arith, lasts)) same
        | inr more ↦ absurd more
      ]
      | inr past ↦ absurd (rw (e, past) at i)
    ]
  ]

  pub all_events-IsBoundary :
      (f : Event) → In f (all_events windows over weekday minute now_ms) → Boundary f
  unfolding all_events
  all_events-IsBoundary f i =
      elim (In-append f (offset_events weekday 0 8 windows)
        (override_events over weekday minute now_ms) (In-sort_by event_less f _ (In-dedup f _ i))) [
          | inl j ↦ offset_events-IsBoundary 0 8 f (omega arith) j
          | inr j ↦ override_events-IsBoundary f j
        ]

  pub IsBoundary-all_events :
      (f : Event) → Boundary f → In f (all_events windows over weekday minute now_ms)
  unfolding window_events override_events
  IsBoundary-all_events f (opening offset w opens same) =
      let apart : beq_ℤ w.start_min w.end_min ≡ false = beq_ℤ_apart _ _ opens.lasting in
      opened_event offset w f opens (rw (window_events, apart, opens.day) (inl same))
  IsBoundary-all_events f (closing offset w opens before same) =
      let apart : beq_ℤ w.start_min w.end_min ≡ false = beq_ℤ_apart _ _ opens.lasting in
      let plain : leb_ℤ w.end_min w.start_min ≡ false = ground arith in
      opened_event offset w f opens (rw (window_events, apart, opens.day, plain) (inr (inl same)))
  IsBoundary-all_events f (closing_next_day offset w opens wraps same) =
      let apart : beq_ℤ w.start_min w.end_min ≡ false = beq_ℤ_apart _ _ opens.lasting in
      let late : leb_ℤ w.end_min w.start_min ≡ true = ground arith in
      opened_event offset w f opens (rw (window_events, apart, opens.day, late) (inr (inl same)))
  IsBoundary-all_events f (expiry o e lasts same) =
      let yes : ltb_ℤ now_ms o.until_ms ≡ true = ground arith in
      listed_event f (
        In-append_right f (offset_events weekday 0 8 windows)
          (override_events over weekday minute now_ms) (rw (e, yes) (inl same)))
