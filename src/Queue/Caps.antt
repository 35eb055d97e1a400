-- ===== src/Queue/Caps.antt =====
-- The limits of `decide_queues`: how many torrents its windows want.
use rstorrent.Base.{
  ℕ, suc, ◌+◌, ◌≤◌, Text, HashSet, insert, extend, contains, contains-extend, length, length-take,
  length-map, take, filter, sort_by, ltb_ℤ, leb_ℤ, ltb, ℤ, pos, pos_part, Bool, true, false, not,
  ◌&&◌, List, [], ◌∷◌, In, Distinct, contains→In, In-filter, In-map, In-take, In-sort_by,
  Distinct-length-le, Distinct-map-filter, same_key, Bool-cases, ◌≡◌, inl, inr, sym, ap, ◌∙◌, arith,
  ◌<ℤ◌, ◌≤ℤ◌, ◌⊎◌,
}
use rstorrent.Queue.{
  QueueConfig, hashes, outside, rank_less, total_less, downloads, uploads, window, class_want,
  trim_total, wanted,
}
use rstorrent.Torrent.{RawTorrent}

-- How many listed torrents pass the test.
abbrev pub count : (RawTorrent → Bool) → List RawTorrent → ℕ
count p raw = length (filter p raw)

-- A want-set holds no hash twice, and has at most as many as were put in.
length-insert-le : (s : HashSet) (h : Text) → length (insert s h) ≤ suc (length s)
unfolding insert
length-insert-le s h = ground arith

length-extend-le : (s : HashSet) (hs : List Text) → length (extend s hs) ≤ length s + length hs
unfolding extend
length-extend-le s [] = omega arith
length-extend-le s (h ∷ hs) = omega (arith, length-extend-le (insert s h) hs, length-insert-le s h)

module _ (cfg : QueueConfig) (raw : List RawTorrent) where
  trim_total-subset :
      (want : HashSet) (h : Text)
      → contains (trim_total cfg raw want) h ≡ true
      → contains want h ≡ true
  unfolding trim_total
  trim_total-subset want h e = elim (Bool-cases test) [
    | inl over ↦
        let e' : contains (extend [] (hashes kept)) h ≡ true = rw over at e in
        let (t, i, k) =
          In-map (λ (x : RawTorrent). x.hash) h kept
            (contains→In (hashes kept) h (sym (contains-extend [] (hashes kept) h) ∙ e')) in
        let j =
          In-sort_by total_less t (filter (λ u. contains want u.hash) raw) (In-take _ t _ i) in
        rw k (In-filter (λ u. contains want u.hash) t raw j).1
    | inr fits ↦ rw fits at e
  ]
    where
      test : Bool
      test = ltb_ℤ (pos 0) cfg.max_total && ltb (pos_part cfg.max_total) (length want)

      kept : List RawTorrent
      kept =
          take (pos_part cfg.max_total)
            (sort_by total_less (filter (λ u. contains want u.hash) raw))

  length-trim_total-le :
      (want : HashSet)
      → pos 0 <ℤ cfg.max_total
      → length (trim_total cfg raw want) ≤ pos_part cfg.max_total
  unfolding trim_total
  length-trim_total-le want h = ground (
    arith,
    length-extend-le [] (hashes kept),
    length-map (λ (x : RawTorrent). x.hash) kept,
    length-take (pos_part cfg.max_total)
        (sort_by total_less (filter (λ u. contains want u.hash) raw)),
  )
    where
      kept : List RawTorrent
      kept =
          take (pos_part cfg.max_total)
            (sort_by total_less (filter (λ u. contains want u.hash) raw))

In-window : (t : RawTorrent) (l : List RawTorrent) (cap : ℤ) → In t (window l cap) → In t l
unfolding window
In-window t l cap i = elim (Bool-cases (leb_ℤ cap (pos 0))) [
  | inl e ↦ rw e at i
  | inr e ↦ In-take (pos_part cap) t l (rw e at i)
]

length-window-le :
    (l : List RawTorrent) (cap : ℤ) → pos 0 <ℤ cap → length (window l cap) ≤ pos_part cap
unfolding window
length-window-le l cap h = ground (arith, length-take (pos_part cap) l)

cap_cases : (cap : ℤ) → (cap ≤ℤ pos 0) ⊎ (pos 0 <ℤ cap)
cap_cases cap = omega arith

module _ (cfg : QueueConfig) (raw : List RawTorrent) where
  -- A wanted hash is in one of the two windows.
  wanted-window :
      (h : Text)
      → contains (wanted cfg raw) h ≡ true
      → In h (hashes (window (downloads cfg raw) cfg.max_downloads))
        ⊎ In h (hashes (window (uploads cfg raw) cfg.max_uploads))
  unfolding wanted class_want
  wanted-window h e = elim (Bool-cases (contains ds h)) [
    | inl d ↦ inl (contains→In ds h d)
    | inr d ↦ inr (
        contains→In us h (
          ground (
            arith,
            trim_total-subset cfg raw (extend (extend [] ds) us) h e,
            contains-extend (extend [] ds) us h,
            contains-extend [] ds h,
          )))
  ]
    where
      ds : List Text
      ds = hashes (window (downloads cfg raw) cfg.max_downloads)

      us : List Text
      us = hashes (window (uploads cfg raw) cfg.max_uploads)

  download-In : (t : RawTorrent) → In t (downloads cfg raw) → In t raw × (t.complete ≡ false)
  unfolding downloads
  download-In t i =
      let (j, e) =
        In-filter (λ u. not (outside cfg u) && not u.complete) t raw (In-sort_by rank_less t _ i) in
      (j, ground arith)

  upload-In : (t : RawTorrent) → In t (uploads cfg raw) → In t raw × (t.complete ≡ true)
  unfolding uploads
  upload-In t i =
      let (j, e) =
        In-filter (λ u. not (outside cfg u) && u.complete) t raw (In-sort_by rank_less t _ i) in
      (j, ground arith)

  module _ (d : Distinct (hashes raw)) where
    -- The wanted downloads have their hashes in the window of the downloads.
    wanted_download-window :
        (t : RawTorrent)
        → In t raw
        → contains (wanted cfg raw) t.hash ≡ true
        → t.complete ≡ false
        → In t.hash (hashes (window (downloads cfg raw) cfg.max_downloads))
    wanted_download-window t i w c = elim (wanted-window t.hash w) [
      | inl j ↦ j
      | inr j ↦
          let (u, k, e) = In-map (λ (x : RawTorrent). x.hash) t.hash _ j in
          let (l, done) = upload-In u (In-window u (uploads cfg raw) cfg.max_uploads k) in
          let same : t ≡ u = same_key (λ (x : RawTorrent). x.hash) raw t u d i l e in
          absurd (ground (arith, ap (λ (x : RawTorrent). x.complete) same))
    ]

    wanted_upload-window :
        (t : RawTorrent)
        → In t raw
        → contains (wanted cfg raw) t.hash ≡ true
        → t.complete ≡ true
        → In t.hash (hashes (window (uploads cfg raw) cfg.max_uploads))
    wanted_upload-window t i w c = elim (wanted-window t.hash w) [
      | inl j ↦
          let (u, k, e) = In-map (λ (x : RawTorrent). x.hash) t.hash _ j in
          let (l, done) = download-In u (In-window u (downloads cfg raw) cfg.max_downloads k) in
          let same : t ≡ u = same_key (λ (x : RawTorrent). x.hash) raw t u d i l e in
          absurd (ground (arith, ap (λ (x : RawTorrent). x.complete) same))
      | inr j ↦ j
    ]

    -- Listed torrents whose hashes all stand in a list are no more than the list is long.
    count-le :
        (p : RawTorrent → Bool) (hs : List Text)
        → ((t : RawTorrent) → In t raw → p t ≡ true → In t.hash hs)
        → count p raw ≤ length hs
    count-le p hs sub =
        let fits : length (hashes (filter p raw)) ≤ length hs =
          Distinct-length-le (hashes (filter p raw)) hs
            (Distinct-map-filter (λ (x : RawTorrent). x.hash) p raw d)
            (λ h i.
              let (t, j, e) = In-map (λ (x : RawTorrent). x.hash) h (filter p raw) i in
              let (k, q) = In-filter p t raw j in rw e (sub t k q)) in
        omega (arith, fits, length-map (λ (x : RawTorrent). x.hash) (filter p raw))

  length-hashes-window-le :
      (l : List RawTorrent) (cap : ℤ) → pos 0 <ℤ cap → length (hashes (window l cap)) ≤ pos_part cap
  length-hashes-window-le l cap h =
      omega
        (arith, length-window-le l cap h, length-map (λ (x : RawTorrent). x.hash) (window l cap))

  -- Where no two listed torrents share a hash, the windows of a tick keep every limit that is
  -- set: the wanted downloads, the wanted uploads and all wanted torrents together are no more
  -- than their caps, a cap of zero or less being no limit.
  pub wanted_caps :
      Distinct (hashes raw)
      → ((cfg.max_downloads ≤ℤ pos 0)
          ⊎ (count (λ t. contains (wanted cfg raw) t.hash && not t.complete) raw
              ≤ pos_part cfg.max_downloads))
        × ((cfg.max_uploads ≤ℤ pos 0)
            ⊎ (count (λ t. contains (wanted cfg raw) t.hash && t.complete) raw
                ≤ pos_part cfg.max_uploads))
        × ((cfg.max_total ≤ℤ pos 0)
            ⊎ (count (λ t. contains (wanted cfg raw) t.hash) raw ≤ pos_part cfg.max_total))
  unfolding wanted
  wanted_caps d = (
    elim (cap_cases cfg.max_downloads) [
      | inl off ↦ inl off
      | inr on ↦
          let fits =
            count-le d (λ t. contains (wanted cfg raw) t.hash && not t.complete)
              (hashes (window (downloads cfg raw) cfg.max_downloads))
              (λ t i e. wanted_download-window d t i (ground arith) (ground arith)) in
          inr
            (omega (arith, fits, length-hashes-window-le (downloads cfg raw) cfg.max_downloads on))
    ],
    elim (cap_cases cfg.max_uploads) [
      | inl off ↦ inl off
      | inr on ↦
          let fits =
            count-le d (λ t. contains (wanted cfg raw) t.hash && t.complete)
              (hashes (window (uploads cfg raw) cfg.max_uploads))
              (λ t i e. wanted_upload-window d t i (ground arith) (ground arith)) in
          inr (omega (arith, fits, length-hashes-window-le (uploads cfg raw) cfg.max_uploads on))
    ],
    elim (cap_cases cfg.max_total) [
      | inl off ↦ inl off
      | inr on ↦
          let fits =
            count-le d (λ t. contains (wanted cfg raw) t.hash) (wanted cfg raw)
              (λ t i e. contains→In (wanted cfg raw) t.hash e) in
          inr (omega (arith, fits, length-wanted-le on))
    ],
  )
    where
      length-wanted-le : pos 0 <ℤ cfg.max_total → length (wanted cfg raw) ≤ pos_part cfg.max_total
      length-wanted-le on = length-trim_total-le cfg raw (class_want cfg raw) on
