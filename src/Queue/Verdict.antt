-- ===== src/Queue/Verdict.antt =====
-- Which torrents the verdict loops of `decide_queues` start and stop.
use rstorrent.Base.{
  Text, HashSet, contains, true, false, List, [], ◌++◌, In, In→contains, contains→In, In-append,
  In-append_left, In-append_right, In-reverse, reverse-In, In-filter, filter-In, In-map, map-In,
  In-sort_by, sort_by-In, Bool-cases, ◌≡◌, ◌⊎◌, inl, inr, arith,
}
use mathlib.Core.List.{reverse}
use rstorrent.Queue.{
  QueueConfig, QueueMemory, configured, outside, rank_less, downloads, uploads, wanted, remember,
  starts, stops, verdict, decide_queues,
}
use rstorrent.Torrent.{RawTorrent}

module _ (cfg : QueueConfig) (skip want : HashSet) (mem : QueueMemory) (t : RawTorrent) where
  pub starts_inside : starts cfg skip want mem t ≡ true → outside cfg t ≡ false
  unfolding starts
  starts_inside e = ground arith

  pub stops_inside : stops cfg skip want mem t ≡ true → outside cfg t ≡ false
  unfolding stops
  stops_inside e = ground arith

module _ (cfg : QueueConfig) (raw : List RawTorrent) where
  In-class : (t : RawTorrent) → In t (downloads cfg raw) ⊎ In t (uploads cfg raw) → In t raw
  unfolding downloads uploads
  In-class t (inl i) = (In-filter _ t raw (In-sort_by rank_less t _ i)).0
  In-class t (inr i) = (In-filter _ t raw (In-sort_by rank_less t _ i)).0

  -- A torrent inside the system stands in one of the two classes.
  class-In :
      (t : RawTorrent)
      → In t raw
      → outside cfg t ≡ false
      → In t (downloads cfg raw) ⊎ In t (uploads cfg raw)
  unfolding downloads uploads
  class-In t i e = elim (Bool-cases t.complete) [
    | inl c ↦ inr (sort_by-In rank_less t _ (filter-In _ t raw i (rw (e, c))))
    | inr c ↦ inl (sort_by-In rank_less t _ (filter-In _ t raw i (rw (e, c))))
  ]

  module _ (skip : HashSet) (mem : QueueMemory) where
    pub start→starts :
        (h : Text)
        → contains (verdict cfg raw skip mem).start h ≡ true
        → (t : RawTorrent) × In t raw
          × (h ≡ t.hash)
          × (starts cfg skip (wanted cfg raw) mem t ≡ true)
    unfolding verdict
    start→starts h e =
        let (t, i, same) = In-map (λ (x : RawTorrent). x.hash) h _ (contains→In _ h e) in
        let (j, passed) = In-filter _ t (downloads cfg raw ++ uploads cfg raw) i in
        (t, In-class t (In-append t (downloads cfg raw) (uploads cfg raw) j), same, passed)

    pub stop→stops :
        (h : Text)
        → contains (verdict cfg raw skip mem).stop h ≡ true
        → (t : RawTorrent) × In t raw
          × (h ≡ t.hash)
          × (stops cfg skip (wanted cfg raw) mem t ≡ true)
    unfolding verdict
    stop→stops h e =
        let (t, i, same) = In-map (λ (x : RawTorrent). x.hash) h _ (contains→In _ h e) in
        let (j, passed) =
          In-filter _ t (reverse (uploads cfg raw) ++ reverse (downloads cfg raw)) i in
        (
          t,
          elim (In-append t (reverse (uploads cfg raw)) (reverse (downloads cfg raw)) j) [
            | inl k ↦ In-class t (inr (In-reverse t _ k))
            | inr k ↦ In-class t (inl (In-reverse t _ k))
          ],
          same,
          passed,
        )

    pub starts→start :
        (t : RawTorrent)
        → In t raw
        → starts cfg skip (wanted cfg raw) mem t ≡ true
        → contains (verdict cfg raw skip mem).start t.hash ≡ true
    unfolding verdict
    starts→start t i e =
        let here : In t (downloads cfg raw ++ uploads cfg raw) =
          elim (class-In t i (starts_inside cfg skip (wanted cfg raw) mem t e)) [
            | inl j ↦ In-append_left t (downloads cfg raw) (uploads cfg raw) j
            | inr j ↦ In-append_right t (downloads cfg raw) (uploads cfg raw) j
          ] in
        In→contains _ t.hash (map-In (λ (x : RawTorrent). x.hash) t _ (filter-In _ t _ here e))

    pub stops→stop :
        (t : RawTorrent)
        → In t raw
        → stops cfg skip (wanted cfg raw) mem t ≡ true
        → contains (verdict cfg raw skip mem).stop t.hash ≡ true
    unfolding verdict
    stops→stop t i e =
        let here : In t (reverse (uploads cfg raw) ++ reverse (downloads cfg raw)) =
          elim (class-In t i (stops_inside cfg skip (wanted cfg raw) mem t e)) [
            | inl j ↦
                In-append_right t (reverse (uploads cfg raw)) (reverse (downloads cfg raw))
                  (reverse-In t (downloads cfg raw) j)
            | inr j ↦
                In-append_left t (reverse (uploads cfg raw)) (reverse (downloads cfg raw))
                  (reverse-In t (uploads cfg raw) j)
          ] in
        In→contains _ t.hash (map-In (λ (x : RawTorrent). x.hash) t _ (filter-In _ t _ here e))

module _ (cfg : QueueConfig) (raw : List RawTorrent) (mem : QueueMemory) (skip : HashSet) where
  -- Under a configuration with a limit a tick is the verdict over the new memory.
  pub decide_on :
      configured cfg ≡ true
      → decide_queues raw cfg mem skip
        ≡ (verdict cfg raw skip (remember cfg raw mem), remember cfg raw mem)
  unfolding decide_queues
  decide_on on = rw on

  pub decide_off :
      configured cfg ≡ false
      → decide_queues raw cfg mem skip ≡ (record { start = []; stop = [] }, mem)
  unfolding decide_queues
  decide_off off = rw off
