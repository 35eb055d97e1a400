-- ===== src/Queue/Memory.antt =====
-- The scheduler memory after a tick of `decide_queues`.
use rstorrent.Base.{
  Text, HashSet, contains, contains-retain, lookup, lookup-put, lookup-retain_keys, put,
  text_beq_refl, Bool, true, false, none, some, List, [], ◌∷◌, In, Distinct, In→contains,
  contains_absent, map-In, ◌≡◌, refl, inl, inr, ◌∙◌, arith,
}
use rstorrent.Queue.Edges.{
  paused_after, exempt_after, note_edges-prev, note_edges-SameAt, note_edges-After,
}
use rstorrent.Queue.{
  QueueConfig, QueueMemory, configured, decide_queues, hashes, prune, wanted, note_edges,
  record_active, remember,
}
use rstorrent.Torrent.{RawTorrent}

record_active_absent :
    (raw : List RawTorrent) (m : List (Text × Bool)) (h : Text)
    → contains (hashes raw) h ≡ false
    → lookup (record_active raw m) h ≡ lookup m h
unfolding record_active
record_active_absent [] m h e = refl
record_active_absent (t ∷ raw) m h e = ground (
  arith,
  record_active_absent raw (put m t.hash t.is_active) h,
  lookup-put m t.hash h t.is_active,
)

record_active_at :
    (raw : List RawTorrent) (m : List (Text × Bool)) (t : RawTorrent)
    → Distinct (hashes raw)
    → In t raw
    → lookup (record_active raw m) t.hash ≡ some t.is_active
unfolding record_active
record_active_at [] m t d i = absurd i
record_active_at (u ∷ raw) m t d (inl e) = rw e (
    record_active_absent raw (put m u.hash u.is_active) u.hash (contains_absent _ _ d.0)
    ∙ lookup-put m u.hash u.hash u.is_active
    ∙ rw text_beq_refl)
record_active_at (u ∷ raw) m t d (inr i) = record_active_at raw (put m u.hash u.is_active) t d.1 i

-- What the memory says of a listed torrent after a tick.
pub record Remembered (cfg : QueueConfig) (raw : List RawTorrent) (mem : QueueMemory)
    (t : RawTorrent) : Type 0 where
  pub prev : lookup (remember cfg raw mem).prev_active t.hash ≡ some t.is_active
  pub paused :
      contains (remember cfg raw mem).user_paused t.hash
      ≡ paused_after
          (contains (wanted cfg raw) t.hash)
          (lookup mem.prev_active t.hash)
          t.is_active
          (contains mem.user_paused t.hash)
  pub exempt :
      contains (remember cfg raw mem).user_exempt t.hash
      ≡ exempt_after
          (contains (wanted cfg raw) t.hash)
          (lookup mem.prev_active t.hash)
          t.is_active
          (contains mem.user_exempt t.hash)

module _ (cfg : QueueConfig) (raw : List RawTorrent) (mem : QueueMemory) where
  pub remember-at : (t : RawTorrent) → Distinct (hashes raw) → In t raw → Remembered cfg raw mem t
  unfolding remember prune
  remember-at t d i =
      let live : contains (hashes raw) t.hash ≡ true =
        In→contains (hashes raw) t.hash (map-In (λ (x : RawTorrent). x.hash) t raw i) in
      let after = note_edges-After (wanted cfg raw) raw (prune raw mem) t d i in
      record {
        prev = record_active_at raw _ t d i;
        paused = ground (
          arith,
          after.paused,
          contains-retain (contains (hashes raw)) mem.user_paused t.hash,
          lookup-retain_keys (contains (hashes raw)) mem.prev_active t.hash,
        );
        exempt = ground (
          arith,
          after.exempt,
          contains-retain (contains (hashes raw)) mem.user_exempt t.hash,
          lookup-retain_keys (contains (hashes raw)) mem.prev_active t.hash,
        );
      }

  remember_forgets :
      (h : Text)
      → contains (hashes raw) h ≡ false
      → (contains (remember cfg raw mem).user_paused h ≡ false)
        × (contains (remember cfg raw mem).user_exempt h ≡ false)
        × (lookup (remember cfg raw mem).prev_active h ≡ none)
  unfolding remember prune
  remember_forgets h e =
      let same = note_edges-SameAt (wanted cfg raw) raw (prune raw mem) h e in
      (
        ground (arith, same.paused, contains-retain (contains (hashes raw)) mem.user_paused h),
        ground (arith, same.exempt, contains-retain (contains (hashes raw)) mem.user_exempt h),
        ground (
          arith,
          record_active_absent raw (note_edges (wanted cfg raw) raw (prune raw mem)).prev_active h,
          note_edges-prev (wanted cfg raw) raw (prune raw mem),
          lookup-retain_keys (contains (hashes raw)) mem.prev_active h,
        ),
      )

  -- Where a cap is set, a tick leaves a memory that knows nothing of a hash that the daemon does not
  -- list. Where none is, the tick starts and pauses nothing, and leaves the memory as it is, with the
  -- hashes that are no longer listed.
  pub decide_queues_forgets :
      (skip : HashSet)
      → (configured cfg ≡ true
          → (h : Text) → contains (hashes raw) h ≡ false
          → (contains (decide_queues raw cfg mem skip).1.user_paused h ≡ false)
            × (contains (decide_queues raw cfg mem skip).1.user_exempt h ≡ false)
            × (lookup (decide_queues raw cfg mem skip).1.prev_active h ≡ none))
        × (configured cfg ≡ false
            → decide_queues raw cfg mem skip ≡ (record { start = []; stop = [] }, mem))
  unfolding decide_queues
  decide_queues_forgets skip =
      (λ on h e. rw (decide_queues, on) (remember_forgets h e), λ off. rw (decide_queues, off) refl)
