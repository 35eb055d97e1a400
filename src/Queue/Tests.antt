-- ===== src/Queue/Tests.antt =====
-- Runs of the queue policy on small lists, and the theorems at inputs that meet their hypotheses.
use rstorrent.Base.{
  Text, contains, lookup, pos, true, false, not, ◌&&◌, none, List, [], ◌∷◌, map, Distinct,
  distinct_test-Distinct, codes, ◌≡◌, refl, ◌⊎◌, inl, inr, ◌≤◌, ◌≤ℤ◌,
}
use rstorrent.Queue.Caps.{count, wanted_caps}
use rstorrent.Queue.Intent.{start-stop_disjoint, user_pause_holds, user_resume_holds}
use rstorrent.Queue.Memory.{decide_queues_forgets}
use rstorrent.Queue.Settle.{obey, decide_settles}
use rstorrent.Queue.{
  configured, QueueConfig, QueueMemory, hashes, wanted, decide_queues, queue_program,
}
use rstorrent.Torrent.{RawTorrent, blank}

abbrev one_download : QueueConfig
one_download = record {
  max_downloads = pos 1;
  max_uploads = pos 0;
  max_total = pos 0;
  slow_limit_kbs = pos 0;
}

-- The first of the two has the better priority and does not run; the second runs.
abbrev urgent : RawTorrent
urgent = record blank { hash = codes "A"; priority = pos 3 }

abbrev casual : RawTorrent
casual = record blank { hash = codes "B"; priority = pos 1; is_active = true }

abbrev two : List RawTorrent
two = casual ∷ urgent ∷ []

abbrev fresh : QueueMemory
fresh = record { prev_active = []; user_exempt = []; user_paused = [] }

-- The last tick saw the first one run and the second one stopped: the user changed both.
abbrev flipped : QueueMemory
flipped = record fresh { prev_active = (codes "A", true) ∷ (codes "B", false) ∷ [] }

two-Distinct : Distinct (hashes two)
unfolding queue_program
two-Distinct = distinct_test-Distinct (hashes two) refl

decide-two :
    (decide_queues two one_download fresh []).0
    ≡ record { start = codes "A" ∷ []; stop = codes "B" ∷ [] }
unfolding queue_program
decide-two = refl

decide-flipped : (decide_queues two one_download flipped []).0 ≡ record { start = []; stop = [] }
unfolding queue_program
decide-flipped = refl

start-stop_disjoint_example :
    contains (decide_queues two one_download fresh []).0.stop (codes "A") ≡ false
unfolding queue_program
start-stop_disjoint_example = start-stop_disjoint two one_download fresh [] (codes "A") refl

user_pause_holds_example :
    (contains (decide_queues two one_download flipped []).0.start (codes "A") ≡ false)
    × (contains (decide_queues two one_download flipped []).1.user_paused (codes "A") ≡ true)
unfolding queue_program
user_pause_holds_example =
    user_pause_holds two one_download flipped [] urgent refl two-Distinct (inr (inl refl)) refl refl
      (inl refl)

user_resume_holds_example :
    (contains (decide_queues two one_download flipped []).0.stop (codes "B") ≡ false)
    × (contains (decide_queues two one_download flipped []).1.user_exempt (codes "B") ≡ true)
unfolding queue_program
user_resume_holds_example =
    user_resume_holds two one_download flipped [] casual refl two-Distinct (inl refl) refl refl
      (inl refl)

decide_queues_forgets_example :
    (configured one_download ≡ true
      → (h : Text) → contains (hashes (urgent ∷ [])) h ≡ false
      → (contains (decide_queues (urgent ∷ []) one_download flipped []).1.user_paused h ≡ false)
        × (contains (decide_queues (urgent ∷ []) one_download flipped []).1.user_exempt h ≡ false)
        × (lookup (decide_queues (urgent ∷ []) one_download flipped []).1.prev_active h ≡ none))
    × (configured one_download ≡ false
        → decide_queues (urgent ∷ []) one_download flipped []
          ≡ (record { start = []; stop = [] }, flipped))
decide_queues_forgets_example = decide_queues_forgets one_download (urgent ∷ []) flipped []

wanted_caps_example :
    ((pos 1 ≤ℤ pos 0)
      ⊎ (count (λ t. contains (wanted one_download two) t.hash && not t.complete) two ≤ 1))
    × ((pos 0 ≤ℤ pos 0)
        ⊎ (count (λ t. contains (wanted one_download two) t.hash && t.complete) two ≤ 0))
    × ((pos 0 ≤ℤ pos 0) ⊎ (count (λ t. contains (wanted one_download two) t.hash) two ≤ 0))
wanted_caps_example = wanted_caps one_download two two-Distinct

decide_settles_example :
    (decide_queues
      (map (obey (decide_queues two one_download fresh []).0) two)
      one_download
      (decide_queues two one_download fresh []).1
      []).0
    ≡ record { start = []; stop = [] }
decide_settles_example = decide_settles two one_download fresh [] two-Distinct
