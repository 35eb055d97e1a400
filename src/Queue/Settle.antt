-- ===== src/Queue/Settle.antt =====
-- A tick of `decide_queues` after one that was carried out.
use rstorrent.Base.{
  ℕ, zero, suc, Text, HashSet, contains, take, filter, sort_by, map-sort_by, leb_ℤ, ℤ, pos,
  pos_part, if◌then◌else◌, Bool, true, false, not, ◌&&◌, List, [], ◌∷◌, map, In, Distinct, In-map,
  Bool-cases, ◌≡◌, refl, inl, inr, sym, ap, subst, ◌∙◌, arith, map-In, text_beq_refl,
}
use rstorrent.Queue.Intent.{Startable, Stoppable, started, stopped}
use rstorrent.Queue.Memory.{remember-at}
use rstorrent.Queue.Verdict.{starts→start, stops→stop, decide_on, decide_off}
use rstorrent.Queue.{
  QueueConfig, QueueMemory, QueueActions, hashes, configured, order_key, started_key, healthy,
  is_slow, outside, rank_less, total_less, downloads, uploads, window, class_want, trim_total,
  wanted, remember, starts, stops, decide_queues,
}
use rstorrent.Torrent.{RawTorrent}

-- The daemon has done what a tick asked for, and nothing else has changed.
abbrev pub obey : QueueActions → RawTorrent → RawTorrent
obey a t = record t {
  is_active =
      if contains a.start t.hash
      then true
      else (if contains a.stop t.hash then false else t.is_active);
}

filter-map :
    {A : Type 0} (f : A → A) (p : A → Bool) (xs : List A)
    → ((x : A) → p (f x) ≡ p x)
    → filter p (map f xs) ≡ map f (filter p xs)
filter-map f p [] same = refl
filter-map f p (x ∷ xs) same = elim (Bool-cases (p x)) [
  | inl e ↦ rw (same x, e, filter-map f p xs same)
  | inr e ↦ rw (same x, e, filter-map f p xs same)
]

take-map : {A : Type 0} (f : A → A) (n : ℕ) (xs : List A) → take n (map f xs) ≡ map f (take n xs)
take-map f zero xs = refl
take-map f (suc n) [] = refl
take-map f (suc n) (x ∷ xs) = rw (take-map f n xs)

module _ (a : QueueActions) where
  hashes-obey : (l : List RawTorrent) → hashes (map (obey a) l) ≡ hashes l
  hashes-obey [] = refl
  hashes-obey (t ∷ l) = ap (◌∷◌ t.hash) (hashes-obey l)

  window-obey :
      (l : List RawTorrent) (cap : ℤ) → window (map (obey a) l) cap ≡ map (obey a) (window l cap)
  unfolding window
  window-obey l cap = elim (Bool-cases (leb_ℤ cap (pos 0))) [
    | inl e ↦ rw e
    | inr e ↦ rw e (take-map (obey a) (pos_part cap) l)
  ]

  outside-obey : (cfg : QueueConfig) (t : RawTorrent) → outside cfg (obey a t) ≡ outside cfg t
  unfolding outside healthy is_slow
  outside-obey cfg t = refl

  rank_less-obey : (t u : RawTorrent) → rank_less (obey a t) (obey a u) ≡ rank_less t u
  unfolding rank_less order_key started_key
  rank_less-obey t u = refl

  total_less-obey : (t u : RawTorrent) → total_less (obey a t) (obey a u) ≡ total_less t u
  unfolding total_less order_key started_key
  total_less-obey t u = refl

  downloads-obey :
      (cfg : QueueConfig) (raw : List RawTorrent)
      → downloads cfg (map (obey a) raw) ≡ map (obey a) (downloads cfg raw)
  unfolding downloads
  downloads-obey cfg raw =
      ap (sort_by rank_less) (
        filter-map (obey a) (λ t. not (outside cfg t) && not t.complete) raw
          (λ t. rw (outside-obey cfg t)))
      ∙ sym (map-sort_by rank_less (obey a) rank_less-obey _)

  uploads-obey :
      (cfg : QueueConfig) (raw : List RawTorrent)
      → uploads cfg (map (obey a) raw) ≡ map (obey a) (uploads cfg raw)
  unfolding uploads
  uploads-obey cfg raw =
      ap (sort_by rank_less) (
        filter-map (obey a) (λ t. not (outside cfg t) && t.complete) raw
          (λ t. rw (outside-obey cfg t)))
      ∙ sym (map-sort_by rank_less (obey a) rank_less-obey _)

  class_want-obey :
      (cfg : QueueConfig) (raw : List RawTorrent)
      → class_want cfg (map (obey a) raw) ≡ class_want cfg raw
  unfolding class_want
  class_want-obey cfg raw =
      rw (downloads-obey, uploads-obey, window-obey, hashes-obey, window-obey, hashes-obey)

  kept-obey :
      (want : HashSet) (n : ℕ) (raw : List RawTorrent)
      → hashes (take n (sort_by total_less (filter (λ t. contains want t.hash) (map (obey a) raw))))
        ≡ hashes (take n (sort_by total_less (filter (λ t. contains want t.hash) raw)))
  kept-obey want n raw = rw (
    filter-map (obey a) (λ t. contains want t.hash) raw (λ t. refl),
    ← map-sort_by total_less (obey a) total_less-obey,
    take-map,
    hashes-obey,
  )

  trim_total-obey :
      (cfg : QueueConfig) (want : HashSet) (raw : List RawTorrent)
      → trim_total cfg (map (obey a) raw) want ≡ trim_total cfg raw want
  unfolding trim_total
  trim_total-obey cfg want raw = rw (kept-obey want (pos_part cfg.max_total) raw)

  -- The windows do not look at what runs.
  pub wanted-obey :
      (cfg : QueueConfig) (raw : List RawTorrent) → wanted cfg (map (obey a) raw) ≡ wanted cfg raw
  unfolding wanted
  wanted-obey cfg raw = rw (class_want-obey cfg raw) (trim_total-obey cfg (class_want cfg raw) raw)

empty_of_absent : (s : List Text) → ((h : Text) → contains s h ≡ false) → s ≡ []
empty_of_absent [] absent = refl
empty_of_absent (h ∷ s) absent = absurd (ground (arith, absent h, text_beq_refl h))

-- A tick, and a second one after the daemon has obeyed.
module _ (cfg : QueueConfig) (raw : List RawTorrent) (mem : QueueMemory) (skip : HashSet)
    (on : configured cfg ≡ true) (d : Distinct (hashes raw)) where
  abbrev first : QueueActions
  first = (decide_queues raw cfg mem skip).0

  abbrev raw' : List RawTorrent
  raw' = map (obey first) raw

  abbrev mem' : QueueMemory
  mem' = remember cfg raw mem

  distinct' : Distinct (hashes raw')
  distinct' = rw (hashes-obey first raw) d

  starts_first :
      (t : RawTorrent)
      → In t raw
      → starts cfg skip (wanted cfg raw) mem' t ≡ true
      → contains first.start t.hash ≡ true
  starts_first t i e =
      ap (λ p. contains p.0.start t.hash) (decide_on cfg raw mem skip on)
      ∙ starts→start cfg raw skip mem' t i e

  stops_first :
      (t : RawTorrent)
      → In t raw
      → stops cfg skip (wanted cfg raw) mem' t ≡ true
      → contains first.stop t.hash ≡ true
  stops_first t i e =
      ap (λ p. contains p.0.stop t.hash) (decide_on cfg raw mem skip on)
      ∙ stops→stop cfg raw skip mem' t i e

  first_stop-unwanted :
      (h : Text) → contains first.stop h ≡ true → contains (wanted cfg raw) h ≡ false
  first_stop-unwanted h e = let (u, i, k, z) = stopped raw cfg mem skip h e in rw k z.unwanted

  first_start-wanted :
      (h : Text) → contains first.start h ≡ true → contains (wanted cfg raw) h ≡ true
  first_start-wanted h e = let (u, i, k, s) = started raw cfg mem skip h e in rw k s.is_wanted

  no_start :
      (t : RawTorrent)
      → In t raw
      → Startable cfg skip (wanted cfg raw') (remember cfg raw' mem') (obey first t)
      → ⊥
  unfolding starts
  no_start t i s =
      let r = remember-at cfg raw mem t d i in
      let q = remember-at cfg raw' mem' (obey first t) distinct' (map-In (obey first) t raw i) in
      ground (
        arith,
        starts_first t i,
        first_stop-unwanted t.hash,
        outside-obey first cfg t,
        ap (λ w. contains w t.hash) (wanted-obey first cfg raw),
        r.prev,
        q.paused,
        s.is_wanted,
        s.idle,
        s.unpaused,
        s.inside,
        s.free,
      )

  no_stop :
      (t : RawTorrent)
      → In t raw
      → Stoppable cfg skip (wanted cfg raw') (remember cfg raw' mem') (obey first t)
      → ⊥
  unfolding stops
  no_stop t i s =
      let r = remember-at cfg raw mem t d i in
      let q = remember-at cfg raw' mem' (obey first t) distinct' (map-In (obey first) t raw i) in
      ground (
        arith,
        stops_first t i,
        first_start-wanted t.hash,
        outside-obey first cfg t,
        ap (λ w. contains w t.hash) (wanted-obey first cfg raw),
        r.prev,
        q.exempt,
        s.unwanted,
        s.running,
        s.unexempt,
        s.inside,
        s.free,
      )

  second_start : (h : Text) → contains (decide_queues raw' cfg mem' skip).0.start h ≡ false
  second_start h = elim (Bool-cases (contains (decide_queues raw' cfg mem' skip).0.start h)) [
    | inl e ↦
        let (u, i, k, s) = started raw' cfg mem' skip h e in
        let (t, j, l) = In-map (obey first) u raw i in
        absurd (
          no_start t j
            (subst (λ v. Startable cfg skip (wanted cfg raw') (remember cfg raw' mem') v) l s))
    | inr e ↦ e
  ]

  second_stop : (h : Text) → contains (decide_queues raw' cfg mem' skip).0.stop h ≡ false
  second_stop h = elim (Bool-cases (contains (decide_queues raw' cfg mem' skip).0.stop h)) [
    | inl e ↦
        let (u, i, k, s) = stopped raw' cfg mem' skip h e in
        let (t, j, l) = In-map (obey first) u raw i in
        absurd (
          no_stop t j
            (subst (λ v. Stoppable cfg skip (wanted cfg raw') (remember cfg raw' mem') v) l s))
    | inr e ↦ e
  ]

  second_empty : (decide_queues raw' cfg mem' skip).0 ≡ record { start = []; stop = [] }
  second_empty =
      let p = empty_of_absent _ second_start in
      let q = empty_of_absent _ second_stop in λ i. record { start = p i; stop = q i }

-- The queue settles. Where no two listed torrents share a hash: once the daemon has carried out
-- what a tick asked for, and nothing else has changed, the next tick, with the memory that the
-- first one left, asks for nothing.
pub decide_settles :
    (raw : List RawTorrent) (cfg : QueueConfig) (mem : QueueMemory) (skip : HashSet)
    → Distinct (hashes raw)
    → (decide_queues
        (map (obey (decide_queues raw cfg mem skip).0) raw)
        cfg
        (decide_queues raw cfg mem skip).1
        skip).0
      ≡ record { start = []; stop = [] }
decide_settles raw cfg mem skip d = elim (Bool-cases (configured cfg)) [
  | inl on ↦
      ap (λ m. (decide_queues (map (obey (decide_queues raw cfg mem skip).0) raw) cfg m skip).0)
        (ap (λ p. p.1) (decide_on cfg raw mem skip on))
      ∙ second_empty cfg raw mem skip on d
  | inr off ↦
      ap (λ p. p.0)
        (decide_off cfg (map (obey (decide_queues raw cfg mem skip).0) raw)
          (decide_queues raw cfg mem skip).1 skip off)
]
