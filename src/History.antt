-- ===== src/History.antt =====
-- server/src/history.rs: the bounded window of rate samples behind the statistics.

pub mod Window
mod Tests
use rstorrent.Base.{
  ℕ, suc, length, ltb, ltb_ℤ, leb_ℤ, ℤ, pos, max_ℤ, saturating_sub, if◌then◌else◌, Option, none,
  some, List, [], ◌∷◌, ◌++◌,
}

-- WINDOW_MS and MAX_SAMPLES.
abbrev pub window_ms : ℤ
window_ms = pos 3600000

abbrev pub max_samples : ℕ
max_samples = 400

pub record StatsSample : Type 0 where
  pub at : ℤ
  pub down : ℤ
  pub up : ℤ

-- `samples.back()`.
abbrev pub back : List StatsSample → Option StatsSample
back [] = none
back (s ∷ []) = some s
back (s ∷ t ∷ samples) = back (t ∷ samples)

-- `trim`: the front goes while it is older than the window.
unfoldable pub trim : ℤ → List StatsSample → List StatsSample
trim now_ms [] = []
trim now_ms (front ∷ samples) =
    if ltb_ℤ window_ms (saturating_sub now_ms front.at)
    then trim now_ms samples
    else front ∷ samples

-- `while self.samples.len() > MAX_SAMPLES { pop_front() }`.
unfoldable pub cap : List StatsSample → List StatsSample
cap [] = []
cap (front ∷ samples) =
    if ltb max_samples (suc (length samples)) then cap samples else front ∷ samples

unfoldable pub push : ℤ → ℤ → ℤ → List StatsSample → List StatsSample
push at_ms down up samples = cap (
    trim at_ms
      (samples ++ record { at = at_ms; down = max_ℤ down (pos 0); up = max_ℤ up (pos 0) } ∷ []))

unfoldable pub record_sample : ℤ → ℤ → ℤ → List StatsSample → List StatsSample
record_sample at_ms down up samples = elim (back samples) [
  | none ↦ push at_ms down up samples
  | some last ↦ if leb_ℤ at_ms last.at then samples else push at_ms down up samples
]
