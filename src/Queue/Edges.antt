-- ===== src/Queue/Edges.antt =====
-- What the edge loop of `decide_queues` leaves in the memory for one torrent.
use rstorrent.Base.{
  Text, HashSet, contains, contains-insert, contains-remove, lookup, text_beq, text_beq_iff,
  text_beq_refl, if◌then◌else◌, Bool, true, false, not, ◌&&◌, Option, List, [], ◌∷◌, In, Distinct,
  map-In, contains_absent, text_beq_ne, ◌≡◌, refl, inl, inr, ◌∙◌, arith,
}
use rstorrent.Queue.{QueueMemory, hashes, was, note_edge, note_edges}
use rstorrent.Torrent.{RawTorrent}

-- A paused mark is lifted by a manual resume of a wanted torrent, and set by its manual pause.
abbrev pub paused_after : Bool → Option Bool → Bool → Bool → Bool
paused_after wanted prev active b =
    if active && (was prev false && wanted)
    then false
    else (if not active && (was prev true && wanted) then true else b)

-- An exemption is given by a manual resume off the window, and dies once the torrent is wanted.
abbrev pub exempt_after : Bool → Option Bool → Bool → Bool → Bool
exempt_after wanted prev active b =
    if wanted then false else (if active && was prev false then true else b)

-- The memory says the same of a hash as before.
pub record SameAt (h : Text) (m m' : QueueMemory) : Type 0 where
  pub paused : contains m'.user_paused h ≡ contains m.user_paused h
  pub exempt : contains m'.user_exempt h ≡ contains m.user_exempt h

module _ (want : HashSet) where
  pub note_edge-prev :
      (t : RawTorrent) (m : QueueMemory) → (note_edge want t m).prev_active ≡ m.prev_active
  unfolding note_edge
  note_edge-prev t m = ground arith

  pub note_edges-prev :
      (raw : List RawTorrent) (m : QueueMemory)
      → (note_edges want raw m).prev_active ≡ m.prev_active
  unfolding note_edges
  note_edges-prev [] m = refl
  note_edges-prev (t ∷ raw) m = note_edges-prev raw (note_edge want t m) ∙ note_edge-prev t m

  note_edge-paused :
      (t : RawTorrent) (m : QueueMemory) (h : Text)
      → contains (note_edge want t m).user_paused h ≡ (
          if text_beq t.hash h
          then paused_after
              (contains want t.hash)
              (lookup m.prev_active t.hash)
              t.is_active
              (contains m.user_paused h)
          else contains m.user_paused h)
  unfolding note_edge
  note_edge-paused t m h = ground (
    arith,
    contains-insert m.user_paused t.hash h,
    contains-remove m.user_paused t.hash h,
    text_beq_iff t.hash h,
    text_beq_iff h t.hash,
  )

  note_edge-exempt :
      (t : RawTorrent) (m : QueueMemory) (h : Text)
      → contains (note_edge want t m).user_exempt h ≡ (
          if text_beq t.hash h
          then exempt_after
              (contains want t.hash)
              (lookup m.prev_active t.hash)
              t.is_active
              (contains m.user_exempt h)
          else contains m.user_exempt h)
  unfolding note_edge
  note_edge-exempt t m h = ground (
    arith,
    contains-insert m.user_exempt t.hash h,
    contains-remove m.user_exempt t.hash h,
    text_beq_iff t.hash h,
    text_beq_iff h t.hash,
  )

  -- A hash that the daemon does not list keeps its marks.
  pub note_edges-SameAt :
      (raw : List RawTorrent) (m : QueueMemory) (h : Text)
      → contains (hashes raw) h ≡ false
      → SameAt h m (note_edges want raw m)
  unfolding note_edges
  note_edges-SameAt [] m h e = record { paused = refl; exempt = refl }
  note_edges-SameAt (t ∷ raw) m h e = ground (
    arith,
    note_edges-SameAt raw (note_edge want t m) h,
    note_edge-paused t m h,
    note_edge-exempt t m h,
  )

  pub record After (t : RawTorrent) (m m' : QueueMemory) : Type 0 where
    pub paused :
        contains m'.user_paused t.hash
        ≡ paused_after
            (contains want t.hash)
            (lookup m.prev_active t.hash)
            t.is_active
            (contains m.user_paused t.hash)
    pub exempt :
        contains m'.user_exempt t.hash
        ≡ exempt_after
            (contains want t.hash)
            (lookup m.prev_active t.hash)
            t.is_active
            (contains m.user_exempt t.hash)

  -- Where no two torrents share a hash, the loop treats each by its own edge alone.
  pub note_edges-After :
      (raw : List RawTorrent) (m : QueueMemory) (t : RawTorrent)
      → Distinct (hashes raw)
      → In t raw
      → After t m (note_edges want raw m)
  unfolding note_edges
  note_edges-After [] m t d i = absurd i
  note_edges-After (u ∷ raw) m t d (inl e) =
      let same = note_edges-SameAt raw (note_edge want u m) u.hash (contains_absent _ _ d.0) in
      rw e (record {
        paused = same.paused ∙ note_edge-paused u m u.hash ∙ rw text_beq_refl;
        exempt = same.exempt ∙ note_edge-exempt u m u.hash ∙ rw text_beq_refl;
      })
  note_edges-After (u ∷ raw) m t d (inr i) =
      let rest = note_edges-After raw (note_edge want u m) t d.1 i in
      let differ : text_beq u.hash t.hash ≡ false =
        text_beq_ne u.hash t.hash (λ e. d.0 (rw e (map-In (λ (x : RawTorrent). x.hash) t raw i))) in
      record {
        paused = ground (arith, rest.paused, note_edge-paused u m t.hash, note_edge-prev u m);
        exempt = ground (arith, rest.exempt, note_edge-exempt u m t.hash, note_edge-prev u m);
      }
