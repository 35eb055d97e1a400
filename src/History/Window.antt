-- ===== src/History/Window.antt =====
-- The window of samples: in the order of time, and bounded by count and by age.
use rstorrent.Base.{
  suc, ◌≤◌, length, ltb, ltb_ℤ, leb_ℤ, ℤ, pos, ◌<ℤ◌, max_ℤ, saturating_sub, all, true, false, not,
  Bool, Option, none, some, List, [], ◌∷◌, ◌++◌, ◌≡◌, ◌⊎◌, inl, inr, refl, sym, ap, ◌∙◌, Bool-cases,
  Option-cases, arith,
}
use rstorrent.History.{StatsSample, window_ms, max_samples, back, trim, cap, push, record_sample}

abbrev pub IsAscending : List StatsSample → Type 0
IsAscending [] = Unit
IsAscending (s ∷ []) = Unit
IsAscending (s ∷ t ∷ samples) = (s.at <ℤ t.at) × IsAscending (t ∷ samples)

abbrev pub is_young : ℤ → StatsSample → Bool
is_young now s = not (ltb_ℤ window_ms (saturating_sub now s.at))

IsAscending-tail :
    (s : StatsSample) (samples : List StatsSample) → IsAscending (s ∷ samples) → IsAscending samples
IsAscending-tail s [] h = tt
IsAscending-tail s (t ∷ samples) h = h.1

trim-IsAscending :
    (now : ℤ) (samples : List StatsSample) → IsAscending samples → IsAscending (trim now samples)
unfolding trim
trim-IsAscending now [] h = tt
trim-IsAscending now (s ∷ samples) h =
    elim (Bool-cases (ltb_ℤ window_ms (saturating_sub now s.at))) [
      | inl old ↦ rw (trim, old) (trim-IsAscending now samples (IsAscending-tail s samples h))
      | inr young ↦ rw (trim, young) h
    ]

cap-IsAscending : (samples : List StatsSample) → IsAscending samples → IsAscending (cap samples)
unfolding cap
cap-IsAscending [] h = tt
cap-IsAscending (s ∷ samples) h = elim (Bool-cases (ltb max_samples (suc (length samples)))) [
  | inl full ↦ rw (cap, full) (cap-IsAscending samples (IsAscending-tail s samples h))
  | inr room ↦ rw (cap, room) h
]

length-cap-le : (samples : List StatsSample) → length (cap samples) ≤ max_samples
unfolding cap
length-cap-le [] = ground arith
length-cap-le (s ∷ samples) = elim (Bool-cases (ltb max_samples (suc (length samples)))) [
  | inl full ↦ rw (cap, full) (length-cap-le samples)
  | inr room ↦ rw (cap, room) (ground (arith, room))
]

-- A later sample is no older.
younger :
    (now : ℤ) (s t : StatsSample) → s.at <ℤ t.at → is_young now s ≡ true → is_young now t ≡ true
unfolding saturating_sub
younger now s t h y = ground arith

all-younger :
    (now : ℤ) (s : StatsSample) (samples : List StatsSample)
    → IsAscending (s ∷ samples)
    → is_young now s ≡ true
    → all (is_young now) (s ∷ samples) ≡ true
all-younger now s [] h y = ground (arith, y)
all-younger now s (t ∷ samples) h y =
    ground (arith, y, all-younger now t samples h.1 (younger now s t h.0 y))

trim-young :
    (now : ℤ) (samples : List StatsSample)
    → IsAscending samples
    → all (is_young now) (trim now samples) ≡ true
unfolding trim
trim-young now [] h = refl
trim-young now (s ∷ samples) h = elim (Bool-cases (ltb_ℤ window_ms (saturating_sub now s.at))) [
  | inl old ↦ rw (trim, old) (trim-young now samples (IsAscending-tail s samples h))
  | inr young ↦ rw (trim, young) (all-younger now s samples h (ground (arith, young)))
]

cap-all :
    (p : StatsSample → Bool) (samples : List StatsSample)
    → all p samples ≡ true
    → all p (cap samples) ≡ true
unfolding cap
cap-all p [] h = h
cap-all p (s ∷ samples) h = elim (Bool-cases (ltb max_samples (suc (length samples)))) [
  | inl full ↦ rw (cap, full) (cap-all p samples (ground (arith, h)))
  | inr room ↦ rw (cap, room) h
]

IsAscending-snoc :
    (samples : List StatsSample) (new : StatsSample)
    → ((last : StatsSample) → back samples ≡ some last → last.at <ℤ new.at)
    → IsAscending samples
    → IsAscending (samples ++ new ∷ [])
IsAscending-snoc [] new h a = tt
IsAscending-snoc (s ∷ []) new h a = (h s refl, tt)
IsAscending-snoc (s ∷ t ∷ samples) new h a = (a.0, IsAscending-snoc (t ∷ samples) new h a.1)

trim_snoc :
    (now : ℤ) (samples : List StatsSample) (new : StatsSample)
    → is_young now new ≡ true
    → (pre : List StatsSample) × (trim now (samples ++ new ∷ []) ≡ pre ++ new ∷ [])
unfolding trim
trim_snoc now [] new y = ([], rw (trim, young))
  where
    young : ltb_ℤ window_ms (saturating_sub now new.at) ≡ false
    young = ground (arith, y)
trim_snoc now (s ∷ samples) new y = elim (Bool-cases (ltb_ℤ window_ms (saturating_sub now s.at))) [
  | inl old ↦ let (pre, e) = trim_snoc now samples new y in (pre, rw (trim, old) e)
  | inr young ↦ (s ∷ samples, rw (trim, young))
]

cap_snoc :
    (samples : List StatsSample) (new : StatsSample)
    → (pre : List StatsSample) × (cap (samples ++ new ∷ []) ≡ pre ++ new ∷ [])
unfolding cap
cap_snoc [] new = ([], ground arith)
cap_snoc (s ∷ samples) new =
    elim (Bool-cases (ltb max_samples (suc (length (samples ++ new ∷ []))))) [
      | inl full ↦ let (pre, e) = cap_snoc samples new in (pre, rw (cap, full) e)
      | inr room ↦ (s ∷ samples, rw (cap, room))
    ]

back-snoc : (samples : List StatsSample) (new : StatsSample) → back (samples ++ new ∷ []) ≡ some new
back-snoc [] new = refl
back-snoc (s ∷ []) new = refl
back-snoc (s ∷ t ∷ samples) new = back-snoc (t ∷ samples) new

abbrev pub sample : ℤ → ℤ → ℤ → StatsSample
sample at_ms down up = record { at = at_ms; down = max_ℤ down (pos 0); up = max_ℤ up (pos 0) }

-- What a recording that is not ignored leaves.
abbrev pub IsRecorded : StatsSample → List StatsSample → Type 0
IsRecorded new samples = (back samples ≡ some new) × (all (is_young new.at) samples ≡ true)

abbrev pub IsWindow : List StatsSample → Type 0
IsWindow samples = IsAscending samples × (length samples ≤ max_samples)

young_self : (now : ℤ) → leb_ℤ window_ms (saturating_sub now now) ≡ false
unfolding saturating_sub
young_self now = ground arith

push-IsWindow :
    (at_ms down up : ℤ) (samples : List StatsSample)
    → ((last : StatsSample) → back samples ≡ some last → last.at <ℤ at_ms)
    → IsAscending samples
    → IsWindow (push at_ms down up samples)
      × IsRecorded (sample at_ms down up) (push at_ms down up samples)
unfolding push
push-IsWindow at_ms down up samples later a =
    let new = sample at_ms down up in
    let all_in = IsAscending-snoc samples new later a in
    let trimmed = trim at_ms (samples ++ new ∷ []) in
    let (pre, e) = trim_snoc at_ms samples new (ground (arith, young_self at_ms)) in
    let (pre', f) = cap_snoc pre new in
    (
      (
        cap-IsAscending trimmed (trim-IsAscending at_ms (samples ++ new ∷ []) all_in),
        length-cap-le trimmed,
      ),
      (
        ap (λ x. back (cap x)) e ∙ ap back f ∙ back-snoc pre' new,
        cap-all (is_young at_ms) trimmed (trim-young at_ms (samples ++ new ∷ []) all_in),
      ),
    )

-- A window in which the times rise and that has no more than 400 samples stays one. Either the
-- recording is ignored, since its time is not after the last one, or the new sample is the last and
-- no sample is older than an hour.
pub record_sample-IsWindow :
    (at_ms down up : ℤ) (samples : List StatsSample)
    → IsWindow samples
    → IsWindow (record_sample at_ms down up samples)
      × (((record_sample at_ms down up samples ≡ samples)
            × ((last : StatsSample) × (back samples ≡ some last) × (leb_ℤ at_ms last.at ≡ true)))
          ⊎ IsRecorded (sample at_ms down up) (record_sample at_ms down up samples))
unfolding record_sample
record_sample-IsWindow at_ms down up samples w = elim (Option-cases (back samples)) [
  | inl empty ↦
      let (v, r) = push-IsWindow at_ms down up samples (λ last e. ground (arith, e, empty)) w.0 in
      rw (record_sample, empty) (v, inr r)
  | inr (last, e) ↦ elim (Bool-cases (leb_ℤ at_ms last.at)) [
    | inl early ↦ rw (record_sample, e, early) (w, inl (refl, (last, refl, early)))
    | inr after ↦
        let (v, r) =
          push-IsWindow at_ms down up samples
            (λ other f.
              let same : other.at ≡ last.at =
                ap (λ (o : Option StatsSample). elim o [ none ↦ other.at | some x ↦ x.at ])
                  (sym f ∙ e) in
              rw same (ground (arith, after)))
            w.0 in
        rw (record_sample, e, after) (v, inr r)
  ]
]
