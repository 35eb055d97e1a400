-- ===== src/History/Tests.antt =====
-- Runs of the rate history, and the theorem at a concrete input.
use rstorrent.Base.{
  pos, negsuc, saturating_sub, leb_ℤ, true, some, List, [], ◌∷◌, ◌≡◌, ◌⊎◌, refl, arith,
}
use rstorrent.History.Window.{IsWindow, IsRecorded, sample, record_sample-IsWindow}
use rstorrent.History.{StatsSample, back, trim, cap, push, record_sample}

program : Unit {0}
unfolding saturating_sub trim cap push record_sample
program = tt

abbrev samples : List StatsSample
samples = sample (pos 0) (pos 10) (pos 1) ∷ sample (pos 3600000) (pos 20) (pos 2) ∷ []

-- The first sample is a millisecond too old; a rate below 0 counts as 0.
first_goes :
    record_sample (pos 3600001) (pos 30) (negsuc 4) samples
    ≡ sample (pos 3600000) (pos 20) (pos 2) ∷ sample (pos 3600001) (pos 30) (pos 0) ∷ []
unfolding program
first_goes = refl

samples-IsWindow : IsWindow samples
samples-IsWindow = ((ground arith, tt), ground arith)

record_sample-IsWindow_example :
    IsWindow (record_sample (pos 3600001) (pos 30) (pos 3) samples)
    × (((record_sample (pos 3600001) (pos 30) (pos 3) samples ≡ samples)
          × ((last : StatsSample) × (back samples ≡ some last)
              × (leb_ℤ (pos 3600001) last.at ≡ true)))
        ⊎ IsRecorded
            (sample (pos 3600001) (pos 30) (pos 3))
            (record_sample (pos 3600001) (pos 30) (pos 3) samples))
record_sample-IsWindow_example =
    record_sample-IsWindow (pos 3600001) (pos 30) (pos 3) samples samples-IsWindow
